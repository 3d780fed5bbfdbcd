-- ===== src/Http/FilterChain/Iteration.antt =====
-- The loops over the decoder filters, one after the other: each takes filters that have had the headers, or
-- none of them, to filters that have had the headers.
-- The loops `r` over the filters `is` keep the order of the calls.
use meliproxy.Http.FilterChain.Order.{
  IsOrderly, AreIdle, AddsNothing, IsCareful, AreUnderWay, AreApart, AreIdle-spared,
  AreUnderWay-spared, set_active-AreIdle, continued-AreUnderWay, stopped-AreUnderWay,
  changed-AreUnderWay,
}
use meliproxy.Http.FilterChain.Spares.{
  is_in, set_active-same, common_handle_buffer_data-active, apply_effect-active,
  decode_data_after-active, loops-AreSparing, leave_buffered_data-active,
}
use meliproxy.Http.FilterChain.{
  leave_buffered_data, ActiveFilter, ActiveStream, Call, DataStatus, Effect, Filter, HeadersStatus,
  Loops, Provided, TrailersStatus, apply_effect, body, buffered, common_handle_after_data_callback,
  common_handle_after_headers_callback, common_handle_after_trailers_callback,
  common_handle_buffer_data, continue_data, continue_headers, continue_trailers, decode_data_from,
  decode_headers_after, decode_headers_from, decode_trailers_from, dispatch_added_data, headers,
  is_empty, is_some, logged, loops, or_empty, provided, set_active, stop_iteration,
  stop_iteration_and_buffer, stop_iteration_and_watermark, stop_iteration_no_buffer, stop_trailers,
  trailers,
}
use meliproxy.Shared.{
  ◌≡◌, not, List, true, Bool, inr, refl, if_cases, false, inl, ℕ, ◌∷◌, ◌&&◌, sym, ◌∙◌, arith, ◌||◌,
  [], ap, subst, Option, some, none, Bytes,
}
use meliproxy.Http.FilterChain.Continuing.{
  AreOrdering, IsBefore, AreUnderWay-IsReached, decode_data_after-AreUnderWay,
  common_continue-AreUnderWay,
}

-- A filter that stops at the headers adds no data later.
careful_stop :
    (f : Filter) (cs : List Call)
    → IsCareful f
    → (f.on_headers cs).0 ≡ stop_iteration
    → AddsNothing f
careful_stop f cs (inl c) e = absurd (no_stop (sym (c cs) ∙ e))
  where
    no_stop : continue_headers ≡ stop_iteration → ⊥
    no_stop k = cc
careful_stop f cs (inr n) e = n

-- The first filter answers a call of `decodeHeaders`, its first.
decode_headers_after-AreUnderWay :
    (fs : ℕ → Filter) (i : ℕ) (is : List ℕ) (r : Loops) (is_last : Bool) (status : HeadersStatus)
    (end_stream found : Bool) (s : ActiveStream)
    → IsBefore fs i is r
    → (is_last ≡ true → is ≡ [])
    → IsOrderly (s.active i).calls
    → (s.active i).headers_continued ≡ false
    → (status ≡ stop_iteration → AddsNothing (fs i))
    → AreIdle is s
    → AreUnderWay fs (i ∷ is) (decode_headers_after r is_last i status end_stream found s).0
unfolding decode_headers_after common_handle_after_headers_callback
decode_headers_after-AreUnderWay fs i is r is_last continue_headers end_stream found s b last o c n
      u =
    let f : ActiveFilter = record (s.active i) { headers_continued = true } in
    let s₁ : ActiveStream = set_active i f s in
    let is_entry : Bool = (end_stream && is_some s₁.buffered_request_data) && not found in
    let s₂ : ActiveStream = (r.decode_headers end_stream (found || is_entry) s₁).0 in
    let through : Bool = (r.decode_headers end_stream (found || is_entry) s₁).1 in
    let under_way : AreUnderWay fs (i ∷ is) s₂ =
      continued-AreUnderWay fs i is f s₂
        (b.spares.by_headers end_stream (found || is_entry) s₁ ∙ set_active-same i f s) refl o
        (b.orders.by_headers end_stream (found || is_entry) s₁
          (set_active-AreIdle is i f s b.apart u)) in
    if_cases (λ (t : ActiveStream × Bool). AreUnderWay fs (i ∷ is) t.0) (is_entry && through) _ _
      (λ l. common_continue-AreUnderWay fs i is r s₂ b (AreUnderWay-IsReached fs i is s₂ under_way))
      (λ l. under_way)
decode_headers_after-AreUnderWay fs i is r is_last stop_iteration end_stream found s b last o c n
      u =
    let f : ActiveFilter = record (s.active i) { stopped = true } in
    let s₁ : ActiveStream = set_active i f s in
    let is_entry : Bool = (end_stream && is_some s₁.buffered_request_data) && not found in
    let s₂ : ActiveStream = (r.decode_headers end_stream (found || is_entry) s₁).0 in
    let through : Bool = (r.decode_headers end_stream (found || is_entry) s₁).1 in
    let same : s₂.active i ≡ f =
      b.spares.by_headers end_stream (found || is_entry) s₁ ∙ set_active-same i f s in
    let under_way₂ : is_last ≡ true → AreUnderWay fs (i ∷ is) s₂ = λ l.
      stopped-AreUnderWay fs i is f s₂ same c refl o (n refl)
        (subst (λ js. AreIdle js s₂) (sym (last l)) tt) in
    if_cases (λ (t : ActiveStream × Bool). AreUnderWay fs (i ∷ is) t.0) (not is_last) _ _
      (λ k.
        stopped-AreUnderWay fs i is f s₁ (set_active-same i f s) c refl o (n refl)
          (set_active-AreIdle is i f s b.apart u))
      (λ k.
        if_cases (λ (t : ActiveStream × Bool). AreUnderWay fs (i ∷ is) t.0) (is_entry && through) _
          _
          (λ l.
            common_continue-AreUnderWay fs i is r s₂ b
              (AreUnderWay-IsReached fs i is s₂ (under_way₂ (ground arith))))
          (λ l. under_way₂ (ground arith)))

-- The headers come to the first filter, with no call before.
decode_headers_from-AreUnderWay :
    (fs : ℕ → Filter) (i : ℕ) (is : List ℕ) (r : Loops) (is_last : Bool) (end_stream found : Bool)
    (s : ActiveStream)
    → IsBefore fs i is r
    → (is_last ≡ true → is ≡ [])
    → AreIdle (i ∷ is) s
    → AreUnderWay fs (i ∷ is) (decode_headers_from (fs i) r is_last i end_stream found s).0
unfolding decode_headers_from
decode_headers_from-AreUnderWay fs i is r is_last end_stream found s b last ((none_yet, c, k), u) =
    let call : Call = headers (end_stream && not found) in
    let f : ActiveFilter = record (s.active i) { calls = call ∷ (s.active i).calls } in
    let s₁ : ActiveStream = logged i call s in
    let answer : HeadersStatus × Effect = (fs i).on_headers (s₁.active i).calls in
    let same : (apply_effect answer.1 s₁).active i ≡ f =
      apply_effect-active answer.1 s₁ i ∙ set_active-same i f s in
    decode_headers_after-AreUnderWay fs i is r is_last answer.0 end_stream found
      (apply_effect answer.1 s₁) b last
      (subst (λ (g : ActiveFilter). IsOrderly g.calls) (sym same) none_yet)
      (ap (λ (g : ActiveFilter). g.headers_continued) same ∙ c)
      (careful_stop (fs i) (s₁.active i).calls b.careful)
      (AreIdle-spared is s₁ (apply_effect answer.1 s₁) (λ j l. apply_effect-active answer.1 s₁ j)
        (set_active-AreIdle is i f s b.apart u))

-- What the states of the filters hang on is only `active`.
apply_effect-AreUnderWay :
    (fs : ℕ → Filter) (is : List ℕ) (e : Effect) (s : ActiveStream)
    → AreUnderWay fs is s
    → AreUnderWay fs is (apply_effect e s)
apply_effect-AreUnderWay fs is e s u =
    AreUnderWay-spared fs is s (apply_effect e s) (λ j k. apply_effect-active e s j) u

pub common_handle_buffer_data-AreUnderWay :
    (fs : ℕ → Filter) (is : List ℕ) (d : Provided) (s : ActiveStream)
    → AreUnderWay fs is s
    → AreUnderWay fs is (common_handle_buffer_data d s)
common_handle_buffer_data-AreUnderWay fs is d s u =
    AreUnderWay-spared fs is s (common_handle_buffer_data d s)
      (λ j k. common_handle_buffer_data-active d s j) u

-- The loop goes on behind the first filter, which has let the headers through.
passed_on-AreUnderWay :
    (fs : ℕ → Filter) (i : ℕ) (is : List ℕ) (s t : ActiveStream)
    → AreUnderWay fs (i ∷ is) s
    → (s.active i).stopped ≡ false
    → t.active i ≡ s.active i
    → (AreUnderWay fs is s → AreUnderWay fs is t)
    → AreUnderWay fs (i ∷ is) t
passed_on-AreUnderWay fs i is s t (o, inl (c, u)) k e f =
    continued-AreUnderWay fs i is (s.active i) t e c o (f u)
passed_on-AreUnderWay fs i is s t (o, inr (c, l, n, u)) k e f = absurd (ground arith)

stop-AreUnderWay :
    (fs : ℕ → Filter) (i : ℕ) (is : List ℕ) (s : ActiveStream)
    → is_in i is ≡ false
    → AreUnderWay fs (i ∷ is) s
    → AreUnderWay fs (i ∷ is) (set_active i (record (s.active i) { stopped = true }) s)
stop-AreUnderWay fs i is s n u = changed-AreUnderWay fs i is _ s n u.0 refl (λ k. refl) u

stop_and_buffer-AreUnderWay :
    (fs : ℕ → Filter) (i : ℕ) (is : List ℕ) (d : Provided) (streaming : Bool) (s : ActiveStream)
    → is_in i is ≡ false
    → AreUnderWay fs (i ∷ is) s
    → AreUnderWay fs (i ∷ is) (
        common_handle_buffer_data d
          (record (set_active i (record (s.active i) { stopped = true }) s) {
            decoder_filters_streaming = streaming;
          }))
stop_and_buffer-AreUnderWay fs i is d streaming s n u =
    let s₁ : ActiveStream = set_active i (record (s.active i) { stopped = true }) s in
    let s₂ : ActiveStream = record s₁ { decoder_filters_streaming = streaming } in
    common_handle_buffer_data-AreUnderWay fs (i ∷ is) d s₂
      (AreUnderWay-spared fs (i ∷ is) s₁ s₂ (λ j k. refl) (stop-AreUnderWay fs i is s n u))

common_handle_after_data_callback-AreUnderWay :
    (fs : ℕ → Filter) (i : ℕ) (is : List ℕ) (r : Loops) (status : DataStatus) (d : Provided)
    (e : Bool) (s : ActiveStream)
    → IsBefore fs i is r
    → AreUnderWay fs (i ∷ is) s
    → AreUnderWay fs (i ∷ is) (common_handle_after_data_callback r i status d e s)
unfolding common_handle_after_data_callback
common_handle_after_data_callback-AreUnderWay fs i is r continue_data d e s b u =
    let s₁ : ActiveStream = common_handle_buffer_data d s in
    if_cases (λ (t : ActiveStream). AreUnderWay fs (i ∷ is) t) (s.active i).stopped _ _
      (λ k. common_continue-AreUnderWay fs i is r s₁ b (
        AreUnderWay-IsReached fs i is s₁ (common_handle_buffer_data-AreUnderWay fs (i ∷ is) d s u)))
      (λ k.
        passed_on-AreUnderWay fs i is s (r.decode_data d e s) u k (b.spares.by_data d e s)
          (b.orders.by_data d e s))
common_handle_after_data_callback-AreUnderWay fs i is r stop_iteration_no_buffer d e s b u =
    stop-AreUnderWay fs i is s b.apart u
common_handle_after_data_callback-AreUnderWay fs i is r stop_iteration_and_buffer d e s b u =
    stop_and_buffer-AreUnderWay fs i is d _ s b.apart u
common_handle_after_data_callback-AreUnderWay fs i is r stop_iteration_and_watermark d e s b u =
    stop_and_buffer-AreUnderWay fs i is d _ s b.apart u

-- A call that is not one of `decodeHeaders`.
logged-AreUnderWay :
    (fs : ℕ → Filter) (i : ℕ) (is : List ℕ) (call : Call) (s : ActiveStream)
    → is_in i is ≡ false
    → IsOrderly (call ∷ (s.active i).calls)
    → AreUnderWay fs (i ∷ is) s
    → AreUnderWay fs (i ∷ is) (logged i call s)
logged-AreUnderWay fs i is call s n o u = changed-AreUnderWay fs i is _ s n o refl (λ k. k) u

decode_data_from-AreUnderWay :
    (fs : ℕ → Filter) (i : ℕ) (is : List ℕ) (r : Loops) (d : Provided) (e : Bool) (s : ActiveStream)
    → IsBefore fs i is r
    → AreUnderWay fs (i ∷ is) s
    → AreUnderWay fs (i ∷ is) (decode_data_from (fs i) r i d e s)
unfolding decode_data_from
decode_data_from-AreUnderWay fs i is r (provided bytes) e s b u =
    let s₁ : ActiveStream = logged i (body bytes e) s in
    let answer : DataStatus × Bytes × Effect = (fs i).on_data (s₁.active i).calls in
    common_handle_after_data_callback-AreUnderWay fs i is r answer.0 (provided answer.1) e
      (apply_effect answer.2 s₁) b
      (apply_effect-AreUnderWay fs (i ∷ is) answer.2 s₁
        (logged-AreUnderWay fs i is (body bytes e) s b.apart u.0 u))
decode_data_from-AreUnderWay fs i is r buffered e s b u =
    let call : Call = body (or_empty s.buffered_request_data) e in
    let s₁ : ActiveStream = logged i call s in
    let answer : DataStatus × Bytes × Effect = (fs i).on_data (s₁.active i).calls in
    let s₂ : ActiveStream = leave_buffered_data answer.1 s₁ in
    common_handle_after_data_callback-AreUnderWay fs i is r answer.0 buffered e
      (apply_effect answer.2 s₂) b
      (apply_effect-AreUnderWay fs (i ∷ is) answer.2 s₂ (
        AreUnderWay-spared fs (i ∷ is) s₁ s₂ (λ j k. leave_buffered_data-active answer.1 s₁ j)
          (logged-AreUnderWay fs i is call s b.apart u.0 u)))

dispatch_added_data-AreUnderWay :
    (fs : ℕ → Filter) (i : ℕ) (is : List ℕ) (r : Loops) (adds : Option Bytes) (s : ActiveStream)
    → IsBefore fs i is r
    → (AddsNothing (fs i) → adds ≡ none)
    → AreUnderWay fs (i ∷ is) s
    → AreUnderWay fs (i ∷ is) (dispatch_added_data r adds s)
unfolding dispatch_added_data
dispatch_added_data-AreUnderWay fs i is r none s b a u = u
dispatch_added_data-AreUnderWay fs i is r (some bytes) s b a (o, inl (c, u)) =
    continued-AreUnderWay fs i is (s.active i) _
      (decode_data_after-active r (provided bytes) false s i b.spares) c o
      (decode_data_after-AreUnderWay fs is r (provided bytes) false s b.orders u)
dispatch_added_data-AreUnderWay fs i is r (some bytes) s b a (o, inr (c, k, n, u)) =
    absurd (added (a n))
  where
    added : some bytes ≡ none → ⊥
    added e = cc

common_handle_after_trailers_callback-AreUnderWay :
    (fs : ℕ → Filter) (i : ℕ) (is : List ℕ) (r : Loops) (status : TrailersStatus) (s : ActiveStream)
    → IsBefore fs i is r
    → AreUnderWay fs (i ∷ is) s
    → AreUnderWay fs (i ∷ is) (common_handle_after_trailers_callback r i status s)
unfolding common_handle_after_trailers_callback
common_handle_after_trailers_callback-AreUnderWay fs i is r stop_trailers s b u = u
common_handle_after_trailers_callback-AreUnderWay fs i is r continue_trailers s b u =
    if_cases (λ (t : ActiveStream). AreUnderWay fs (i ∷ is) t) (s.active i).stopped _ _
      (λ k. common_continue-AreUnderWay fs i is r s b (AreUnderWay-IsReached fs i is s u))
      (λ k.
        passed_on-AreUnderWay fs i is s (r.decode_trailers s) u k (b.spares.by_trailers s)
          (b.orders.by_trailers s))

decode_trailers_from-AreUnderWay :
    (fs : ℕ → Filter) (i : ℕ) (is : List ℕ) (r : Loops) (s : ActiveStream)
    → IsBefore fs i is r
    → AreUnderWay fs (i ∷ is) s
    → AreUnderWay fs (i ∷ is) (decode_trailers_from (fs i) r i s)
unfolding decode_trailers_from
decode_trailers_from-AreUnderWay fs i is r s b u =
    let s₁ : ActiveStream = logged i trailers s in
    let answer : TrailersStatus × Effect = (fs i).on_trailers (s₁.active i).calls in
    let s₂ : ActiveStream = record s₁ { local_complete = s₁.local_complete || answer.1.replies } in
    common_handle_after_trailers_callback-AreUnderWay fs i is r answer.0
      (dispatch_added_data r answer.1.adds s₂) b
      (dispatch_added_data-AreUnderWay fs i is r answer.1.adds s₂ b (λ n. n (s₁.active i).calls)
        (AreUnderWay-spared fs (i ∷ is) s₁ s₂ (λ j k. refl)
          (logged-AreUnderWay fs i is trailers s b.apart u.0 u)))

abbrev pub AreCareful : (ℕ → Filter) → List ℕ → Type 0
AreCareful fs [] = Unit
AreCareful fs (i ∷ is) = IsCareful (fs i) × AreCareful fs is

-- The loops over distinct filters keep the order of the calls.
pub loops-AreOrdering :
    (fs : ℕ → Filter) (is : List ℕ)
    → AreApart is
    → AreCareful fs is
    → AreOrdering fs is (loops fs is)
unfolding loops
loops-AreOrdering fs [] d c = record {
  by_headers = λ e f s a. tt;
  by_data = λ d e s u. tt;
  by_trailers = λ s u. tt;
}
loops-AreOrdering fs (i ∷ is) (n, d) (c, cs) =
    let b : IsBefore fs i is (loops fs is) = record {
      apart = n;
      careful = c;
      spares = loops-AreSparing fs is i n;
      orders = loops-AreOrdering fs is d cs;
    } in
    record {
      by_headers = λ e f s a.
          decode_headers_from-AreUnderWay fs i is (loops fs is) (is_empty is) e f s b
            (is_empty_lem is) a;
      by_data = λ d e s u. decode_data_from-AreUnderWay fs i is (loops fs is) d e s b u;
      by_trailers = λ s u. decode_trailers_from-AreUnderWay fs i is (loops fs is) s b u;
    }
  where
    is_empty_lem : (js : List ℕ) → is_empty js ≡ true → js ≡ []
    is_empty_lem [] e = refl
    is_empty_lem (j ∷ js) e = absurd (ground arith)
