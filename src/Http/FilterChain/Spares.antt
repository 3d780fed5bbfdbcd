-- ===== src/Http/FilterChain/Spares.antt =====
-- What a loop of the decoder filters leaves alone: the filters that it does not go over.
use meliproxy.Http.FilterChain.{
  ActiveFilter, ActiveStream, DataStatus, Effect, Filter, HeadersStatus, Loops, Provided,
  TrailersStatus, apply_effect, body, buffered, check_high_watermark, check_low_watermark,
  common_continue, common_handle_after_data_callback, common_handle_after_headers_callback,
  common_handle_after_trailers_callback, common_handle_buffer_data, continue_after_headers,
  continue_data, continue_headers, continue_trailers, decode_data_after, decode_data_from,
  decode_headers_after, decode_headers_from, decode_trailers_after, decode_trailers_from,
  dispatch_added_data, headers, is_empty, is_some, is_stop, leave_buffered_data, logged, loops,
  or_empty, provided, request_data_too_large, set_active, stop_iteration, stop_iteration_and_buffer,
  stop_iteration_and_watermark, stop_iteration_no_buffer, stop_trailers, trailers,
}
use meliproxy.Shared.{
  refl, ◌∷◌, none, false, Bool, ◌≡◌, ◌||◌, Option, if◌then◌else◌, Bytes, [], ◌==◌, some, List,
  arith, if_cases, ℕ, ◌∙◌, true, not, ◌&&◌, ◌++◌, length, leb, ltb, ◌/◌, ap,
}

abbrev pub is_in : ℕ → List ℕ → Bool
is_in i [] = false
is_in i (j ∷ js) = j == i || is_in i js

abbrev pub IsDistinct : List ℕ → Type 0
IsDistinct [] = Unit
IsDistinct (i ∷ is) = (is_in i is ≡ false) × IsDistinct is

-- The loops `r` over the filters `is` leave the filter `j` alone.
pub record AreSparing (j : ℕ) (r : Loops) : Type 0 where
  pub by_headers :
      (e f : Bool) (s : ActiveStream) → ((r.decode_headers e f s).0).active j ≡ s.active j
  pub by_data :
      (d : Provided) (e : Bool) (s : ActiveStream) → (r.decode_data d e s).active j ≡ s.active j
  pub by_trailers : (s : ActiveStream) → (r.decode_trailers s).active j ≡ s.active j

pub set_active-other :
    (i j : ℕ) (f : ActiveFilter) (s : ActiveStream)
    → (i == j) ≡ false
    → (set_active i f s).active j ≡ s.active j
set_active-other i j f s n = ground arith

pub set_active-same :
    (i : ℕ) (f : ActiveFilter) (s : ActiveStream) → (set_active i f s).active i ≡ f
set_active-same i f s = ground arith

if-active :
    (b : Bool) (s t : ActiveStream) (j : ℕ) (x : ActiveFilter)
    → s.active j ≡ x
    → t.active j ≡ x
    → (if b then s else t).active j ≡ x
if-active b s t j x p q = if_cases (λ (u : ActiveStream). u.active j ≡ x) b s t (λ k. p) (λ k. q)

check_high_watermark-active :
    (s : ActiveStream) (j : ℕ) → (check_high_watermark s).active j ≡ s.active j
unfolding check_high_watermark request_data_too_large
check_high_watermark-active s j =
    let s₁ : ActiveStream = record s { above_high_watermark_called = true } in
    if-active
      (s.above_high_watermark_called
        || (s.buffer_limit == 0 || leb (length (or_empty s.buffered_request_data)) s.buffer_limit))
      s (request_data_too_large s₁) j (s.active j) refl
      (if-active s.decoder_filters_streaming s₁ (record s₁ { local_complete = true }) j (s.active j)
        refl refl)

check_low_watermark-active :
    (s : ActiveStream) (j : ℕ) → (check_low_watermark s).active j ≡ s.active j
unfolding check_low_watermark
check_low_watermark-active s j =
    if-active
      (not s.above_high_watermark_called
        || (not (s.buffer_limit == 0)
            && leb (s.buffer_limit / 2) (length (or_empty s.buffered_request_data))))
      s (record s { above_high_watermark_called = false }) j (s.active j) refl refl

pub leave_buffered_data-active :
    (bytes : Bytes) (s : ActiveStream) (j : ℕ) → (leave_buffered_data bytes s).active j ≡ s.active j
unfolding leave_buffered_data
leave_buffered_data-active bytes s j =
    let before : ℕ = length (or_empty s.buffered_request_data) in
    let s₁ : ActiveStream = record s { buffered_request_data = some bytes } in
    if-active (ltb before (length bytes)) (check_high_watermark s₁)
      (if ltb (length bytes) before then check_low_watermark s₁ else s₁) j (s.active j)
      (check_high_watermark-active s₁ j)
      (if-active (ltb (length bytes) before) (check_low_watermark s₁) s₁ j (s.active j)
        (check_low_watermark-active s₁ j) refl)

pub common_handle_buffer_data-active :
    (d : Provided) (s : ActiveStream) (j : ℕ)
    → (common_handle_buffer_data d s).active j ≡ s.active j
unfolding common_handle_buffer_data
common_handle_buffer_data-active (provided bytes) s j =
    check_high_watermark-active
      (record s { buffered_request_data = some (or_empty s.buffered_request_data ++ bytes) }) j
common_handle_buffer_data-active buffered s j = refl

pub apply_effect-active :
    (e : Effect) (s : ActiveStream) (j : ℕ) → (apply_effect e s).active j ≡ s.active j
unfolding apply_effect
apply_effect-active e s j = by_adds e.adds refl
  where
    s₂ : ActiveStream
    s₂ = record s {
      local_complete = s.local_complete || e.replies;
      decoder_filters_streaming = e.streaming;
    }

    by_adds : (a : Option Bytes) → e.adds ≡ a → (apply_effect e s).active j ≡ s.active j
    by_adds none k = rw k
    by_adds (some bytes) k =
        ap (λ (u : ActiveStream). u.active j) (added k)
        ∙ common_handle_buffer_data-active (provided bytes) s₂ j
      where
        added :
            e.adds ≡ some bytes → apply_effect e s ≡ common_handle_buffer_data (provided bytes) s₂
        added l = rw l

pub decode_data_after-active :
    (r : Loops) (d : Provided) (e : Bool) (s : ActiveStream) (j : ℕ)
    → AreSparing j r
    → (decode_data_after r d e s).active j ≡ s.active j
unfolding decode_data_after
decode_data_after-active r d e s j a =
    if-active s.local_complete s (r.decode_data d e s) j (s.active j) refl (a.by_data d e s)

pub decode_trailers_after-active :
    (r : Loops) (s : ActiveStream) (j : ℕ)
    → AreSparing j r
    → (decode_trailers_after r s).active j ≡ s.active j
unfolding decode_trailers_after
decode_trailers_after-active r s j a =
    if-active s.local_complete s (r.decode_trailers s) j (s.active j) refl (a.by_trailers s)

-- The own filter, or another that the loops leave alone.
pub common_continue-at :
    (r : Loops) (i : ℕ) (s : ActiveStream) (j : ℕ) (x : ActiveFilter)
    → (set_active i (record (s.active i) { stopped = false; headers_continued = true }) s).active j
      ≡ x
    → AreSparing j r
    → (common_continue r i s).active j ≡ x
unfolding common_continue continue_after_headers
common_continue-at r i s j x e₁ a =
    let s₁ : ActiveStream =
      set_active i (record (s.active i) { stopped = false; headers_continued = true }) s in
    let end_stream : Bool =
      s.remote_complete && (not (is_some s.buffered_request_data) && not s.request_trailers) in
    let s₂ : ActiveStream =
      if (s.active i).headers_continued then s₁ else (r.decode_headers end_stream false s₁).0 in
    let last : Bool = s₂.remote_complete && not s₂.request_trailers in
    let s₃ : ActiveStream =
      if is_some s₂.buffered_request_data then decode_data_after r buffered last s₂ else s₂ in
    let e₂ : s₂.active j ≡ x =
      if-active (s.active i).headers_continued s₁ (r.decode_headers end_stream false s₁).0 j x e₁
        (a.by_headers end_stream false s₁ ∙ e₁) in
    let e₃ : s₃.active j ≡ x =
      if-active (is_some s₂.buffered_request_data) (decode_data_after r buffered last s₂) s₂ j x
        (decode_data_after-active r buffered last s₂ j a ∙ e₂) e₂ in
    if-active s₃.request_trailers (decode_trailers_after r s₃) s₃ j x
      (decode_trailers_after-active r s₃ j a ∙ e₃) e₃

pub common_continue-active :
    (r : Loops) (i : ℕ) (s : ActiveStream) (j : ℕ)
    → (i == j) ≡ false
    → AreSparing j r
    → (common_continue r i s).active j ≡ s.active j
common_continue-active r i s j n a =
    common_continue-at r i s j (s.active j) (set_active-other i j _ s n) a

pub common_handle_after_headers_callback-active :
    (i : ℕ) (status : HeadersStatus) (s : ActiveStream) (j : ℕ)
    → (i == j) ≡ false
    → (common_handle_after_headers_callback i status s).active j ≡ s.active j
unfolding common_handle_after_headers_callback
common_handle_after_headers_callback-active i stop_iteration s j n = set_active-other i j _ s n
common_handle_after_headers_callback-active i continue_headers s j n = set_active-other i j _ s n

pub decode_headers_after-active :
    (r : Loops) (is_last : Bool) (i : ℕ) (status : HeadersStatus) (end_stream found : Bool)
    (s : ActiveStream) (j : ℕ)
    → (i == j) ≡ false
    → AreSparing j r
    → ((decode_headers_after r is_last i status end_stream found s).0).active j ≡ s.active j
unfolding decode_headers_after
decode_headers_after-active r is_last i status end_stream found s j n a =
    let s₁ : ActiveStream = common_handle_after_headers_callback i status s in
    let is_entry : Bool = (end_stream && is_some s₁.buffered_request_data) && not found in
    let s₂ : ActiveStream = (r.decode_headers end_stream (found || is_entry) s₁).0 in
    let through : Bool = (r.decode_headers end_stream (found || is_entry) s₁).1 in
    let e₁ : s₁.active j ≡ s.active j =
      common_handle_after_headers_callback-active i status s j n in
    let e₂ : s₂.active j ≡ s.active j = a.by_headers end_stream (found || is_entry) s₁ ∙ e₁ in
    if_cases (λ (u : ActiveStream × Bool). u.0.active j ≡ s.active j)
      (is_stop status && not is_last) _ _ (λ k. e₁)
      (λ k.
        if_cases (λ (u : ActiveStream × Bool). u.0.active j ≡ s.active j) (is_entry && through) _ _
          (λ l. common_continue-active r i s₂ j n a ∙ e₂) (λ l. e₂))

decode_headers_from-active :
    (f : Filter) (r : Loops) (is_last : Bool) (i : ℕ) (end_stream found : Bool) (s : ActiveStream)
    (j : ℕ)
    → (i == j) ≡ false
    → AreSparing j r
    → ((decode_headers_from f r is_last i end_stream found s).0).active j ≡ s.active j
unfolding decode_headers_from
decode_headers_from-active f r is_last i end_stream found s j n a =
    let s₁ : ActiveStream = logged i (headers (end_stream && not found)) s in
    let answer : HeadersStatus × Effect = f.on_headers (s₁.active i).calls in
    decode_headers_after-active r is_last i answer.0 end_stream found (apply_effect answer.1 s₁) j n
      a
    ∙ (apply_effect-active answer.1 s₁ j ∙ set_active-other i j _ s n)

common_handle_after_data_callback-active :
    (r : Loops) (i : ℕ) (status : DataStatus) (d : Provided) (end_stream : Bool) (s : ActiveStream)
    (j : ℕ)
    → (i == j) ≡ false
    → AreSparing j r
    → (common_handle_after_data_callback r i status d end_stream s).active j ≡ s.active j
unfolding common_handle_after_data_callback
common_handle_after_data_callback-active r i continue_data d end_stream s j n a =
    if-active (s.active i).stopped _ _ j (s.active j)
      (common_continue-active r i (common_handle_buffer_data d s) j n a
        ∙ common_handle_buffer_data-active d s j)
      (a.by_data d end_stream s)
common_handle_after_data_callback-active r i stop_iteration_no_buffer d end_stream s j n a =
    set_active-other i j _ s n
common_handle_after_data_callback-active r i stop_iteration_and_buffer d end_stream s j n a =
    common_handle_buffer_data-active d _ j ∙ set_active-other i j _ s n
common_handle_after_data_callback-active r i stop_iteration_and_watermark d end_stream s j n a =
    common_handle_buffer_data-active d _ j ∙ set_active-other i j _ s n

decode_data_from-active :
    (f : Filter) (r : Loops) (i : ℕ) (d : Provided) (end_stream : Bool) (s : ActiveStream) (j : ℕ)
    → (i == j) ≡ false
    → AreSparing j r
    → (decode_data_from f r i d end_stream s).active j ≡ s.active j
unfolding decode_data_from
decode_data_from-active f r i (provided bytes) end_stream s j n a =
    let s₁ : ActiveStream = logged i (body bytes end_stream) s in
    let answer : DataStatus × Bytes × Effect = f.on_data (s₁.active i).calls in
    common_handle_after_data_callback-active r i answer.0 (provided answer.1) end_stream
      (apply_effect answer.2 s₁) j n a
    ∙ (apply_effect-active answer.2 s₁ j ∙ set_active-other i j _ s n)
decode_data_from-active f r i buffered end_stream s j n a =
    let s₁ : ActiveStream = logged i (body (or_empty s.buffered_request_data) end_stream) s in
    let answer : DataStatus × Bytes × Effect = f.on_data (s₁.active i).calls in
    let s₂ : ActiveStream = leave_buffered_data answer.1 s₁ in
    common_handle_after_data_callback-active r i answer.0 buffered end_stream
      (apply_effect answer.2 s₂) j n a
    ∙ (apply_effect-active answer.2 s₂ j
        ∙ (leave_buffered_data-active answer.1 s₁ j ∙ set_active-other i j _ s n))

common_handle_after_trailers_callback-active :
    (r : Loops) (i : ℕ) (status : TrailersStatus) (s : ActiveStream) (j : ℕ)
    → (i == j) ≡ false
    → AreSparing j r
    → (common_handle_after_trailers_callback r i status s).active j ≡ s.active j
unfolding common_handle_after_trailers_callback
common_handle_after_trailers_callback-active r i stop_trailers s j n a = refl
common_handle_after_trailers_callback-active r i continue_trailers s j n a =
    if-active (s.active i).stopped (common_continue r i s) (r.decode_trailers s) j (s.active j)
      (common_continue-active r i s j n a) (a.by_trailers s)

pub dispatch_added_data-active :
    (r : Loops) (adds : Option Bytes) (s : ActiveStream) (j : ℕ)
    → AreSparing j r
    → (dispatch_added_data r adds s).active j ≡ s.active j
unfolding dispatch_added_data
dispatch_added_data-active r none s j a = refl
dispatch_added_data-active r (some bytes) s j a =
    decode_data_after-active r (provided bytes) false s j a

decode_trailers_from-active :
    (f : Filter) (r : Loops) (i : ℕ) (s : ActiveStream) (j : ℕ)
    → (i == j) ≡ false
    → AreSparing j r
    → (decode_trailers_from f r i s).active j ≡ s.active j
unfolding decode_trailers_from
decode_trailers_from-active f r i s j n a =
    let s₁ : ActiveStream = logged i trailers s in
    let answer : TrailersStatus × Effect = f.on_trailers (s₁.active i).calls in
    let s₂ : ActiveStream = record s₁ { local_complete = s₁.local_complete || answer.1.replies } in
    common_handle_after_trailers_callback-active r i answer.0
      (dispatch_added_data r answer.1.adds s₂) j n a
    ∙ (dispatch_added_data-active r answer.1.adds s₂ j a ∙ set_active-other i j _ s n)

pub loops-AreSparing :
    (fs : ℕ → Filter) (is : List ℕ) (j : ℕ) → is_in j is ≡ false → AreSparing j (loops fs is)
unfolding loops
loops-AreSparing fs [] j n = record {
  by_headers = λ e f s. refl;
  by_data = λ d e s. refl;
  by_trailers = λ s. refl;
}
loops-AreSparing fs (i ∷ is) j n =
    let a : AreSparing j (loops fs is) = loops-AreSparing fs is j (ground arith) in
    let k : (i == j) ≡ false = ground arith in
    record {
      by_headers = λ e found s.
          decode_headers_from-active (fs i) (loops fs is) (is_empty is) i e found s j k a;
      by_data = λ d e s. decode_data_from-active (fs i) (loops fs is) i d e s j k a;
      by_trailers = λ s. decode_trailers_from-active (fs i) (loops fs is) i s j k a;
    }
