-- ===== src/Http/FilterChain/Tests.antt =====
-- Runs of the chain of decoder filters.
use meliproxy.Http.FilterChain.{
  check_high_watermark, check_low_watermark, request_data_too_large, leave_buffered_data,
  continue_decoding, common_handle_buffer_data, stop_iteration, decode_trailers, loops,
  decode_headers_from, decode_data_from, decode_trailers_from, decode_headers_after,
  common_handle_after_headers_callback, apply_effect, common_handle_after_data_callback,
  common_handle_after_trailers_callback, dispatch_added_data, common_continue,
  continue_after_headers, decode_data_after, decode_trailers_after, ActiveStream, Call, DataStatus,
  Effect, Filter, body, completes, continue_data, continue_headers, continue_trailers, decode_data,
  decode_headers, gets_data, headers, step, trailers,
}
use meliproxy.Http.FilterChain.Steps.{calls-IsServed, IsReachable, starts, steps, IsServed}
use meliproxy.Http.FilterChain.Order.{AreIdle, IsOrderly}
use meliproxy.Http.FilterChain.Transparent.{IsTransparent}
use meliproxy.Http.FilterChain.Passing.{delivers_all-calls, delivers_all}
use meliproxy.Http.FilterChain.Buffering.{
  decode_data-buffered, buffer_filter-AddsNothing, fed, joined,
}
use meliproxy.Http.FilterChain.BufferFilter.{buffer_filter, no_effect}
use meliproxy.Shared.{
  ℕ, List, sym, none, ◌==◌, true, refl, if◌then◌else◌, Bytes, ◌⊎◌, ◌≡◌, subst, ◌∷◌, inl, inr, ◌++◌,
  false, [], some,
}

-- A filter that lets everything through.
abbrev passes_data : List Call → DataStatus × Bytes × Effect
passes_data (body bytes e ∷ cs) = (continue_data, bytes, no_effect)
passes_data (headers e ∷ cs) = (continue_data, [], no_effect)
passes_data (trailers ∷ cs) = (continue_data, [], no_effect)
passes_data [] = (continue_data, [], no_effect)

abbrev transparent : Filter
transparent = record {
  on_headers = λ cs. (continue_headers, no_effect);
  on_data = passes_data;
  on_trailers = λ cs. (continue_trailers, no_effect);
}

transparent-IsTransparent : IsTransparent transparent
transparent-IsTransparent = record {
  headers_status = λ cs. refl;
  headers_effect = λ cs. (refl, refl);
  data_status = status;
  data_left = λ bytes e cs ds k. subst (λ (x : List Call). (passes_data x).1 ≡ bytes) (sym k) refl;
  data_effect = effect;
  trailers_status = λ cs. refl;
  trailers_effect = λ cs. (refl, refl);
}
  where
    status : (cs : List Call) → (passes_data cs).0 ≡ continue_data
    status [] = refl
    status (body bytes e ∷ cs) = refl
    status (headers e ∷ cs) = refl
    status (trailers ∷ cs) = refl

    effect :
        (cs : List Call) → ((passes_data cs).2.adds ≡ none) × ((passes_data cs).2.replies ≡ false)
    effect [] = (refl, refl)
    effect (body bytes e ∷ cs) = (refl, refl)
    effect (headers e ∷ cs) = (refl, refl)
    effect (trailers ∷ cs) = (refl, refl)

-- The buffer filter first, and two others.
abbrev filters_of : ℕ → Filter
filters_of i = if i == 0 then buffer_filter else transparent

abbrev fresh_stream : ActiveStream
fresh_stream = record {
  active = λ i. record { headers_continued = false; stopped = false; calls = [] };
  buffered_request_data = none;
  buffer_limit = 3;
  above_high_watermark_called = false;
  request_trailers = false;
  decoder_filters_streaming = true;
  remote_complete = false;
  local_complete = false;
}

fresh-AreIdle : AreIdle (0 ∷ 1 ∷ 2 ∷ []) fresh_stream
fresh-AreIdle = ((refl, refl, refl), ((refl, refl, refl), ((refl, refl, refl), tt)))

delivers_all-calls_example :
    ((delivers_all
        (λ i. transparent)
        (0 ∷ 1 ∷ [])
        (headers false ∷ body (7 ∷ []) false ∷ trailers ∷ [])
        fresh_stream).active
      1).calls
    ≡ trailers ∷ body (7 ∷ []) false ∷ headers false ∷ []
delivers_all-calls_example =
    delivers_all-calls (λ i. transparent) (0 ∷ 1 ∷ []) 1 false (body (7 ∷ []) false ∷ trailers ∷ [])
      fresh_stream (refl, (refl, tt)) (transparent-IsTransparent, (transparent-IsTransparent, tt))
      ((refl, refl, refl), ((refl, refl, refl), tt)) refl tt refl refl

decode_data-buffered_example :
    (((fed filters_of
          (0 ∷ 1 ∷ 2 ∷ [])
          ((5 ∷ []) ∷ (6 ∷ []) ∷ [])
          (decode_headers filters_of (0 ∷ 1 ∷ 2 ∷ []) false fresh_stream)).active
        2).calls
      ≡ [])
    × (((decode_data filters_of (0 ∷ 1 ∷ 2 ∷ []) (7 ∷ []) true (
            fed filters_of
              (0 ∷ 1 ∷ 2 ∷ [])
              ((5 ∷ []) ∷ (6 ∷ []) ∷ [])
              (decode_headers filters_of (0 ∷ 1 ∷ 2 ∷ []) false fresh_stream))).active
          2).calls
        ≡ body (joined ((5 ∷ []) ∷ (6 ∷ []) ∷ []) ++ (7 ∷ [])) true ∷ headers false ∷ [])
unfolding joined
decode_data-buffered_example =
    decode_data-buffered filters_of 0 1 (2 ∷ []) 2 ((5 ∷ []) ∷ (6 ∷ []) ∷ []) (7 ∷ []) fresh_stream
      refl (transparent-IsTransparent, (transparent-IsTransparent, tt)) (refl, (refl, (refl, tt)))
      fresh-AreIdle refl refl refl refl refl

-- The headers, data, and a local reply.
abbrev replied : ActiveStream
replied = step filters_of (0 ∷ 1 ∷ 2 ∷ []) completes (
    step filters_of (0 ∷ 1 ∷ 2 ∷ []) (gets_data (7 ∷ []) true)
      (decode_headers filters_of (0 ∷ 1 ∷ 2 ∷ []) false fresh_stream))

replied-IsReachable : IsReachable filters_of (0 ∷ 1 ∷ 2 ∷ []) replied
replied-IsReachable =
    steps completes _
      (steps (gets_data (7 ∷ []) true) _ (starts false fresh_stream fresh-AreIdle) tt) tt

calls-IsServed_example :
    IsServed (replied.active 2).calls
    × (((replied.active 2).calls ≡ [])
        ⊎ (◌≡◌ {A = ℕ} 1 2)
        ⊎ (((replied.active 1).headers_continued ≡ true) × IsOrderly (replied.active 1).calls))
calls-IsServed_example =
    calls-IsServed filters_of (0 ∷ []) 1 (2 ∷ []) 2 replied (refl, (refl, (refl, tt)))
      (inr buffer_filter-AddsNothing, (inl (λ cs. refl), (inl (λ cs. refl), tt))) refl
      replied-IsReachable

-- A filter that stops at the headers and adds data at the trailers.
abbrev adding : Filter
adding = record {
  on_headers = λ cs. (stop_iteration, no_effect);
  on_data = passes_data;
  on_trailers = λ cs. (continue_trailers, record no_effect { adds = some (9 ∷ []) });
}

abbrev adding_first : ℕ → Filter
adding_first i = if i == 0 then adding else transparent

-- The filter behind it gets the added data before the headers.
data_before_headers :
    ((decode_trailers adding_first
        (0 ∷ 1 ∷ [])
        (decode_headers adding_first (0 ∷ 1 ∷ []) false fresh_stream)).active
      1).calls
    ≡ trailers ∷ headers false ∷ body (9 ∷ []) false ∷ []
unfolding decode_trailers decode_headers loops decode_headers_from decode_data_from
    decode_trailers_from decode_headers_after common_handle_after_headers_callback apply_effect
    check_high_watermark check_low_watermark request_data_too_large leave_buffered_data
    common_handle_after_data_callback common_handle_after_trailers_callback dispatch_added_data
    common_continue continue_after_headers decode_data_after decode_trailers_after
data_before_headers = refl

-- A filter that adds a body at the headers, and one that stops there.
abbrev adds_body : Filter
adds_body = record {
  on_headers = λ cs. (continue_headers, record no_effect { adds = some (9 ∷ []) });
  on_data = passes_data;
  on_trailers = λ cs. (continue_trailers, no_effect);
}

abbrev stops : Filter
stops = record {
  on_headers = λ cs. (stop_iteration, no_effect);
  on_data = passes_data;
  on_trailers = λ cs. (continue_trailers, no_effect);
}

abbrev adding_and_stopping : ℕ → Filter
adding_and_stopping i = if i == 0 then adds_body else if i == 2 then stops else transparent

-- When the second of them continues, the added body goes to the filter behind it only, and the filter between the
-- two gets neither the body nor the end of the stream.
body_bypasses_filter :
    ((continue_decoding adding_and_stopping 2
        (0 ∷ 1 ∷ 2 ∷ 3 ∷ [])
        (decode_headers adding_and_stopping (0 ∷ 1 ∷ 2 ∷ 3 ∷ []) true fresh_stream)).active
      1).calls
    ≡ headers false ∷ []
unfolding continue_decoding decode_headers loops decode_headers_from decode_data_from
    decode_headers_after common_handle_after_headers_callback apply_effect check_high_watermark
    check_low_watermark request_data_too_large leave_buffered_data common_handle_after_data_callback
    common_handle_buffer_data common_continue continue_after_headers decode_data_after
    decode_trailers_after
body_bypasses_filter = refl

body_reaches_last_filter :
    ((continue_decoding adding_and_stopping 2
        (0 ∷ 1 ∷ 2 ∷ 3 ∷ [])
        (decode_headers adding_and_stopping (0 ∷ 1 ∷ 2 ∷ 3 ∷ []) true fresh_stream)).active
      3).calls
    ≡ body (9 ∷ []) true ∷ headers false ∷ []
unfolding continue_decoding decode_headers loops decode_headers_from decode_data_from
    decode_headers_after common_handle_after_headers_callback apply_effect check_high_watermark
    check_low_watermark request_data_too_large leave_buffered_data common_handle_after_data_callback
    common_handle_buffer_data common_continue continue_after_headers decode_data_after
    decode_trailers_after
body_reaches_last_filter = refl

-- Data beyond the limit ends the request, and the filters behind the buffer filter never get it.
too_large :
    let all : ActiveStream =
      fed filters_of
        (0 ∷ 1 ∷ 2 ∷ [])
        ((5 ∷ []) ∷ (6 ∷ 7 ∷ 8 ∷ []) ∷ (9 ∷ []) ∷ [])
        (decode_headers filters_of (0 ∷ 1 ∷ 2 ∷ []) false fresh_stream) in
    (all.local_complete ≡ true) × ((all.active 1).calls ≡ [])
unfolding fed decode_headers decode_data loops decode_headers_from decode_data_from
    decode_headers_after common_handle_after_headers_callback apply_effect check_high_watermark
    check_low_watermark request_data_too_large leave_buffered_data common_handle_buffer_data
    common_handle_after_data_callback common_continue continue_after_headers decode_data_after
    decode_trailers_after buffer_filter
too_large = (refl, refl)
