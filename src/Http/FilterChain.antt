-- ===== src/Http/FilterChain.antt =====
-- envoy/envoy/source/common/http/conn_manager_impl.h and conn_manager_impl.cc: how the request passes through the
-- decoder filters of a stream. A filter is what it answers to its calls, from the calls that it has had, the
-- last one first: as this list grows with every call, that covers a filter that answers by anything else as well.
-- In a call it may leave other data in the buffer, have a local reply sent that completes the response, and then
-- add data. It continues the iteration between the calls only, and it sets the limit of the buffered data before
-- the first call only (`setDecoderFilterCallbacks`). What the watermarks of the buffered data do to the reading
-- from the client is left out.
pub mod BufferFilter
pub mod Buffering
pub mod Continuing
pub mod Holding
pub mod Iteration
pub mod Order
pub mod Passing
pub mod Spares
pub mod Steps
pub mod Transparent
pub mod Tests
use meliproxy.Shared.{
  Bool, ◌++◌, ℕ, none, Option, true, ◌||◌, not, ◌==◌, List, ◌&&◌, [], ◌∷◌, if◌then◌else◌, Bytes,
  false, some, length, ◌/◌, ltb, leb,
}

pub data HeadersStatus : Type 0 where
  continue_headers stop_iteration : HeadersStatus

pub data DataStatus : Type 0 where
  continue_data stop_iteration_and_buffer stop_iteration_and_watermark stop_iteration_no_buffer :
      DataStatus

pub data TrailersStatus : Type 0 where
  continue_trailers stop_trailers : TrailersStatus

-- A call of a filter: `decodeHeaders`, `decodeData` and `decodeTrailers`.
pub data Call : Type 0 where
  headers : Bool → Call
  body : Bytes → Bool → Call
  trailers : Call

-- What a filter does in a call beside its answer: a local reply, and `addDecodedData`.
pub record Effect : Type 0 where
  pub adds : Option Bytes
  pub streaming : Bool
  pub replies : Bool

pub record Filter : Type 0 where
  pub on_headers : List Call → HeadersStatus × Effect
  pub on_data : List Call → DataStatus × Bytes × Effect
  pub on_trailers : List Call → TrailersStatus × Effect

-- `ActiveStreamFilterBase`
pub record ActiveFilter : Type 0 where
  pub headers_continued : Bool
  pub stopped : Bool
  pub calls : List Call

-- The part of `ActiveStream` that concerns the request. A filter of the stream is a number; what the filters do
-- does not change.
pub record ActiveStream : Type 0 where
  pub active : ℕ → ActiveFilter
  pub buffered_request_data : Option Bytes
  pub buffer_limit : ℕ
  pub above_high_watermark_called : Bool
  pub request_trailers : Bool
  pub decoder_filters_streaming : Bool
  pub remote_complete : Bool
  pub local_complete : Bool

-- The data of a call: a buffer that was provided, or the buffered data itself.
pub data Provided : Type 0 where
  provided : Bytes → Provided
  buffered : Provided

abbrev pub is_some {ℓ} : {A : Type ℓ} → Option A → Bool
is_some none = false
is_some (some a) = true

abbrev pub or_empty : Option Bytes → Bytes
or_empty none = []
or_empty (some bytes) = bytes

abbrev pub set_active : ℕ → ActiveFilter → ActiveStream → ActiveStream
set_active i f s = record s { active = λ j. if j == i then f else s.active j }

-- `requestDataTooLarge`: a local reply with status 413, if the data is not streamed.
pub request_data_too_large : ActiveStream → ActiveStream
request_data_too_large s =
    if s.decoder_filters_streaming then s else record s { local_complete = true }

-- The watermarks of the buffered data, which the limit and half of it are; a limit of 0 is none.
pub check_high_watermark : ActiveStream → ActiveStream
unfolding request_data_too_large
check_high_watermark s =
    if s.above_high_watermark_called
      || (s.buffer_limit == 0 || leb (length (or_empty s.buffered_request_data)) s.buffer_limit)
    then s
    else request_data_too_large (record s { above_high_watermark_called = true })

pub check_low_watermark : ActiveStream → ActiveStream
check_low_watermark s =
    if not s.above_high_watermark_called
      || (not (s.buffer_limit == 0)
          && leb (s.buffer_limit / 2) (length (or_empty s.buffered_request_data)))
    then s
    else record s { above_high_watermark_called = false }

-- `commonHandleBufferData`
pub common_handle_buffer_data : Provided → ActiveStream → ActiveStream
unfolding check_high_watermark
common_handle_buffer_data (provided bytes) s =
    check_high_watermark
      (record s { buffered_request_data = some (or_empty s.buffered_request_data ++ bytes) })
common_handle_buffer_data buffered s = s

-- A filter leaves other bytes in the buffered data.
pub leave_buffered_data : Bytes → ActiveStream → ActiveStream
unfolding check_high_watermark check_low_watermark
leave_buffered_data bytes s =
    let before = length (or_empty s.buffered_request_data) in
    let s₁ = record s { buffered_request_data = some bytes } in
    if ltb before (length bytes)
    then check_high_watermark s₁
    else if ltb (length bytes) before
    then check_low_watermark s₁
    else s₁

abbrev pub logged : ℕ → Call → ActiveStream → ActiveStream
logged i call s = set_active i (record (s.active i) { calls = call ∷ (s.active i).calls }) s

-- A local reply in a call, and what a call of `decodeHeaders` or `decodeData` adds.
pub apply_effect : Effect → ActiveStream → ActiveStream
unfolding common_handle_buffer_data
apply_effect e s =
    let s₁ = record s { local_complete = s.local_complete || e.replies } in
    elim e.adds [
      | none ↦ s₁
      | some bytes ↦
          common_handle_buffer_data (provided bytes)
            (record s₁ { decoder_filters_streaming = e.streaming })
    ]

-- The loops of `decodeHeaders`, `decodeData` and `decodeTrailers` over the rest of the filters. That over
-- headers says also whether it went through all of them.
pub record Loops : Type 0 where
  pub decode_headers :
      (end_stream : Bool) (is_continue_data_entry_set : Bool) → ActiveStream → ActiveStream × Bool
  pub decode_data : Provided → (end_stream : Bool) → ActiveStream → ActiveStream
  pub decode_trailers : ActiveStream → ActiveStream

-- `decodeData` and `decodeTrailers` after a filter: they do nothing once the response is complete.
pub decode_data_after : Loops → Provided → Bool → ActiveStream → ActiveStream
decode_data_after rest d end_stream s =
    if s.local_complete then s else rest.decode_data d end_stream s

pub decode_trailers_after : Loops → ActiveStream → ActiveStream
decode_trailers_after rest s = if s.local_complete then s else rest.decode_trailers s

-- What `commonContinue` does once the headers have gone on: the data and the trailers.
pub continue_after_headers : Loops → ActiveStream → ActiveStream
unfolding decode_data_after decode_trailers_after
continue_after_headers rest s =
    let s₁ =
      if is_some s.buffered_request_data
      then decode_data_after rest buffered (s.remote_complete && not s.request_trailers) s
      else s in
    if s₁.request_trailers then decode_trailers_after rest s₁ else s₁

-- `commonContinue`, of the filter `i` before `rest`.
pub common_continue : Loops → ℕ → ActiveStream → ActiveStream
unfolding continue_after_headers
common_continue rest i s =
    let s₁ = set_active i (record (s.active i) { stopped = false; headers_continued = true }) s in
    let end_stream =
      s.remote_complete && (not (is_some s.buffered_request_data) && not s.request_trailers) in
    continue_after_headers rest
      (if (s.active i).headers_continued then s₁ else (rest.decode_headers end_stream false s₁).0)

abbrev pub is_stop : HeadersStatus → Bool
is_stop stop_iteration = true
is_stop continue_headers = false

-- `commonHandleAfterHeadersCallback`
pub common_handle_after_headers_callback : ℕ → HeadersStatus → ActiveStream → ActiveStream
common_handle_after_headers_callback i stop_iteration s =
    set_active i (record (s.active i) { stopped = true }) s
common_handle_after_headers_callback i continue_headers s =
    set_active i (record (s.active i) { headers_continued = true }) s

-- What the loop of `decodeHeaders` does with the answer of the filter `i`. The entry where the data goes on from
-- is this filter, if there is none before it. The last filter does not stop the loop.
pub decode_headers_after :
    Loops → Bool → ℕ → HeadersStatus → Bool → Bool → ActiveStream → ActiveStream × Bool
unfolding common_handle_after_headers_callback common_continue
decode_headers_after rest is_last i status end_stream found s =
    let s₁ = common_handle_after_headers_callback i status s in
    let is_entry = (end_stream && is_some s₁.buffered_request_data) && not found in
    let (s₂, through) = rest.decode_headers end_stream (found || is_entry) s₁ in
    if is_stop status && not is_last
    then (s₁, false)
    else if is_entry && through
    then (common_continue rest i s₂, true)
    else (s₂, through)

-- The loop of `decodeHeaders` from the filter `i` on.
pub decode_headers_from :
    Filter → Loops → Bool → ℕ → Bool → Bool → ActiveStream → ActiveStream × Bool
unfolding apply_effect decode_headers_after
decode_headers_from f rest is_last i end_stream found s =
    let s₁ = logged i (headers (end_stream && not found)) s in
    let (status, effect) = f.on_headers (s₁.active i).calls in
    decode_headers_after rest is_last i status end_stream found (apply_effect effect s₁)

-- `commonHandleAfterDataCallback`, and what the loop of `decodeData` does with its answer.
pub common_handle_after_data_callback :
    Loops → ℕ → DataStatus → Provided → Bool → ActiveStream → ActiveStream
unfolding common_handle_buffer_data common_continue
common_handle_after_data_callback rest i continue_data d end_stream s =
    if (s.active i).stopped
    then common_continue rest i (common_handle_buffer_data d s)
    else rest.decode_data d end_stream s
common_handle_after_data_callback rest i stop_iteration_no_buffer d end_stream s =
    set_active i (record (s.active i) { stopped = true }) s
common_handle_after_data_callback rest i stop_iteration_and_buffer d end_stream s =
    common_handle_buffer_data d (record (set_active i (record (s.active i) { stopped = true }) s) {
      decoder_filters_streaming = false;
    })
common_handle_after_data_callback rest i stop_iteration_and_watermark d end_stream s =
    common_handle_buffer_data d (record (set_active i (record (s.active i) { stopped = true }) s) {
      decoder_filters_streaming = true;
    })

-- The loop of `decodeData` from the filter `i` on.
pub decode_data_from : Filter → Loops → ℕ → Provided → Bool → ActiveStream → ActiveStream
unfolding apply_effect leave_buffered_data common_handle_after_data_callback
decode_data_from f rest i (provided bytes) end_stream s =
    let s₁ = logged i (body bytes end_stream) s in
    let (status, left, effect) = f.on_data (s₁.active i).calls in
    let s₂ = apply_effect effect s₁ in
    common_handle_after_data_callback rest i status (provided left) end_stream s₂
decode_data_from f rest i buffered end_stream s =
    let s₁ = logged i (body (or_empty s.buffered_request_data) end_stream) s in
    let (status, left, effect) = f.on_data (s₁.active i).calls in
    let s₂ = apply_effect effect (leave_buffered_data left s₁) in
    common_handle_after_data_callback rest i status buffered end_stream s₂

-- `commonHandleAfterTrailersCallback`, and what the loop of `decodeTrailers` does with its answer.
pub common_handle_after_trailers_callback : Loops → ℕ → TrailersStatus → ActiveStream → ActiveStream
unfolding common_continue
common_handle_after_trailers_callback rest i stop_trailers s = s
common_handle_after_trailers_callback rest i continue_trailers s =
    if (s.active i).stopped then common_continue rest i s else rest.decode_trailers s

-- What a call of `decodeTrailers` adds goes to the filters behind at once.
pub dispatch_added_data : Loops → Option Bytes → ActiveStream → ActiveStream
unfolding decode_data_after
dispatch_added_data rest none s = s
dispatch_added_data rest (some bytes) s = decode_data_after rest (provided bytes) false s

-- The loop of `decodeTrailers` from the filter `i` on.
pub decode_trailers_from : Filter → Loops → ℕ → ActiveStream → ActiveStream
unfolding dispatch_added_data common_handle_after_trailers_callback
decode_trailers_from f rest i s =
    let s₁ = logged i trailers s in
    let (status, effect) = f.on_trailers (s₁.active i).calls in
    let s₂ = record s₁ { local_complete = s₁.local_complete || effect.replies } in
    common_handle_after_trailers_callback rest i status (dispatch_added_data rest effect.adds s₂)

abbrev pub is_empty : List ℕ → Bool
is_empty [] = true
is_empty (i ∷ is) = false

-- The three loops over the filters from a place in the list to its end.
pub loops : (ℕ → Filter) → List ℕ → Loops
unfolding decode_headers_from decode_data_from decode_trailers_from
loops fs [] = record {
  decode_headers = λ end_stream found s. (s, true);
  decode_data = λ d end_stream s. s;
  decode_trailers = λ s. s;
}
loops fs (i ∷ is) = record {
  decode_headers = decode_headers_from (fs i) (loops fs is) (is_empty is) i;
  decode_data = decode_data_from (fs i) (loops fs is) i;
  decode_trailers = decode_trailers_from (fs i) (loops fs is) i;
}

-- `decodeHeaders` of the codec, as far as the filters are concerned.
pub decode_headers : (ℕ → Filter) → List ℕ → Bool → ActiveStream → ActiveStream
unfolding loops
decode_headers fs is end_stream s =
    ((loops fs is).decode_headers end_stream false (record s { remote_complete = end_stream })).0

-- `decodeData` of the codec.
pub decode_data : (ℕ → Filter) → List ℕ → Bytes → Bool → ActiveStream → ActiveStream
unfolding loops decode_data_after
decode_data fs is bytes end_stream s =
    decode_data_after (loops fs is) (provided bytes) end_stream
      (record s { remote_complete = end_stream })

-- `decodeTrailers` of the codec.
pub decode_trailers : (ℕ → Filter) → List ℕ → ActiveStream → ActiveStream
unfolding loops decode_trailers_after
decode_trailers fs is s =
    decode_trailers_after (loops fs is)
      (record s { request_trailers = true; remote_complete = true })

-- `continueDecoding` of a filter.
pub continue_decoding : (ℕ → Filter) → ℕ → List ℕ → ActiveStream → ActiveStream
unfolding loops common_continue
continue_decoding fs i [] s = s
continue_decoding fs i (j ∷ js) s =
    if j == i then common_continue (loops fs js) i s else continue_decoding fs i js s

-- `addDecodedData` of a filter between the calls.
pub add_decoded_data : Bytes → Bool → ActiveStream → ActiveStream
unfolding common_handle_buffer_data
add_decoded_data bytes streaming s =
    common_handle_buffer_data (provided bytes) (record s { decoder_filters_streaming = streaming })

-- What happens to the request of a stream. The response may be completed at any time.
pub data Event : Type 0 where
  gets_data : Bytes → Bool → Event
  gets_trailers : Event
  continues : ℕ → Event
  adds_data : Bytes → Bool → Event
  completes : Event

pub step : (ℕ → Filter) → List ℕ → Event → ActiveStream → ActiveStream
unfolding decode_data decode_trailers continue_decoding add_decoded_data
step fs is (gets_data bytes end_stream) s = decode_data fs is bytes end_stream s
step fs is gets_trailers s = decode_trailers fs is s
step fs is (continues i) s = continue_decoding fs i is s
step fs is (adds_data bytes streaming) s = add_decoded_data bytes streaming s
step fs is completes s = record s { local_complete = true }
