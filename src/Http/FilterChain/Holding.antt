-- ===== src/Http/FilterChain/Holding.antt =====
-- What the buffer filter does in the chain, and how the filters behind it get on.
use meliproxy.Http.FilterChain.Transparent.{
  AreTransparent, apply_effect-quiet, at_all, called, begun, AreNotStopped, logged-calls,
  decode_headers-all, decode_data-all_buffered,
}
use meliproxy.Http.FilterChain.Order.{AreIdle, AreApart, set_active-AreIdle}
use meliproxy.Http.FilterChain.Spares.{is_in, set_active-same}
use meliproxy.Http.FilterChain.{
  check_high_watermark, or_empty, ActiveFilter, ActiveStream, DataStatus, Effect, Filter,
  HeadersStatus, Loops, apply_effect, body, buffered, common_continue,
  common_handle_after_data_callback, common_handle_after_headers_callback,
  common_handle_buffer_data, continue_after_headers, continue_data, decode_data_after,
  decode_data_from, decode_headers_after, decode_headers_from, decode_trailers_after, headers,
  is_some, logged, loops, provided, set_active, stop_iteration, stop_iteration_and_buffer,
}
use meliproxy.Http.FilterChain.BufferFilter.{
  buffer_filter, headers_status-headers, data_answer-body, no_effect, headers_status,
}
use meliproxy.Shared.{
  length, leb, ◌||◌, if◌then◌else◌, false, List, true, ◌∷◌, ◌≡◌, ℕ, Option, Bool, Bytes, some, not,
  ◌&&◌, ◌∙◌, ap, subst, refl, if_cases, ==_iff, ◌==◌, [], arith,
}

-- Whether a buffer with the limit has room for as many bytes.
abbrev pub has_room : ℕ → ℕ → Bool
has_room limit n = limit == 0 || leb n limit

pub check_high_watermark-roomy :
    (s : ActiveStream)
    → has_room s.buffer_limit (length (or_empty s.buffered_request_data)) ≡ true
    → check_high_watermark s ≡ s
unfolding check_high_watermark
check_high_watermark-roomy s p = rw (p, or_true s.above_high_watermark_called)
  where
    or_true : (b : Bool) → (b || true) ≡ true
    or_true true = refl
    or_true false = refl

-- The filter `i` has stopped at the headers, and the stream holds `held` for the filters `is` behind it.
pub record IsKept (i : ℕ) (is : List ℕ) (limit : ℕ) (held : Option Bytes) (s : ActiveStream)
    : Type 0 where
  pub not_continued : (s.active i).headers_continued ≡ false
  pub stopped : (s.active i).stopped ≡ true
  pub idle : AreIdle is s
  pub kept : s.buffered_request_data ≡ held
  pub limited : s.buffer_limit ≡ limit
  pub is_open : s.local_complete ≡ false
  pub no_trailers : s.request_trailers ≡ false

pub decode_headers_after-stop :
    (r : Loops) (i : ℕ) (status : HeadersStatus) (e found : Bool) (s : ActiveStream)
    → status ≡ stop_iteration
    → (decode_headers_after r false i status e found s).0
      ≡ set_active i (record (s.active i) { stopped = true }) s
unfolding decode_headers_after common_handle_after_headers_callback
decode_headers_after-stop r i status e found s c = rw c

pub continue_after_headers-all :
    (fs : ℕ → Filter) (is : List ℕ) (bytes : Bytes) (s : ActiveStream)
    → AreApart is
    → AreTransparent fs is
    → AreNotStopped is s
    → s.buffered_request_data ≡ some bytes
    → s.local_complete ≡ false
    → s.request_trailers ≡ false
    → s.remote_complete ≡ true
    → continue_after_headers (loops fs is) s ≡ at_all is (called (body bytes true)) s
unfolding continue_after_headers decode_data_after
continue_after_headers-all fs is bytes s d t n b l k c =
    let r : Loops = loops fs is in
    let last : Bool = s.remote_complete && not s.request_trailers in
    let s₁ : ActiveStream =
      if is_some s.buffered_request_data then decode_data_after r buffered last s else s in
    let is_last : last ≡ true = rw (c, k) in
    let passed : s₁ ≡ r.decode_data buffered last s = rw (b, l) in
    let same : s₁ ≡ at_all is (called (body bytes true)) s =
      passed
      ∙ (ap (λ e. r.decode_data buffered e s) is_last
          ∙ decode_data-all_buffered fs is bytes true s d t n b) in
    let no_trailers : (if s.request_trailers
          then decode_trailers_after r (at_all is (called (body bytes true)) s)
          else at_all is (called (body bytes true)) s)
        ≡ at_all is (called (body bytes true)) s =
      rw k in
    ap (λ (u : ActiveStream). if u.request_trailers then decode_trailers_after r u else u) same
    ∙ no_trailers

pub idle_not_stopped : (is : List ℕ) (s : ActiveStream) → AreIdle is s → AreNotStopped is s
idle_not_stopped [] s a = λ j k. absurd (ground arith)
idle_not_stopped (i ∷ is) s (a, b) = λ j k. by_first j k (i == j) refl (idle_not_stopped is s b j)
  where
    by_first :
        (j : ℕ)
        → is_in j (i ∷ is) ≡ true
        → (t : Bool) → (i == j) ≡ t
        → (is_in j is ≡ true → (s.active j).stopped ≡ false)
        → (s.active j).stopped ≡ false
    by_first j k true e rest = subst (λ m. (s.active m).stopped ≡ false) ((==_iff i j).0 e) a.2
    by_first j k false e rest = rest (ground arith)

pub begun-AreNotStopped :
    (is : List ℕ) (e : Bool) (s : ActiveStream)
    → AreIdle is s
    → AreNotStopped is (at_all is (begun e) s)
begun-AreNotStopped is e s a = λ j k.
    if_cases (λ (f : ActiveFilter). f.stopped ≡ false) (is_in j is) _ _
      (λ l. idle_not_stopped is s a j k) (λ l. idle_not_stopped is s a j k)

-- `commonContinue` before filters that let everything through: they get the headers and the data at once.
pub common_continue-all :
    (fs : ℕ → Filter) (i : ℕ) (is : List ℕ) (limit : ℕ) (bytes : Bytes) (s : ActiveStream)
    → is_in i is ≡ false
    → AreApart is
    → AreTransparent fs is
    → IsKept i is limit (some bytes) s
    → s.remote_complete ≡ true
    → common_continue (loops fs is) i s
      ≡ at_all is (called (body bytes true)) (
          at_all is
            (begun false)
            (set_active i (record (s.active i) { stopped = false; headers_continued = true }) s))
unfolding common_continue
common_continue-all fs i is limit bytes s m d t k c =
    let f : ActiveFilter = record (s.active i) { stopped = false; headers_continued = true } in
    let r : Loops = loops fs is in
    let s₁ : ActiveStream = set_active i f s in
    let end_stream : Bool =
      s.remote_complete && (not (is_some s.buffered_request_data) && not s.request_trailers) in
    let no_end : end_stream ≡ false = rw (c, k.kept) in
    let same : (if (s.active i).headers_continued
          then s₁
          else (r.decode_headers end_stream false s₁).0)
        ≡ at_all is (begun false) s₁ =
      if_cases (λ (u : ActiveStream). u ≡ at_all is (begun false) s₁) (s.active i).headers_continued
        _ _ (λ l. absurd (ground arith))
        (λ l.
          ap (λ e. (r.decode_headers e false s₁).0) no_end
          ∙ ap (λ (u : ActiveStream × Bool). u.0)
              (decode_headers-all fs is false false s₁ d t refl)) in
    ap (continue_after_headers r) same
    ∙ continue_after_headers-all fs is bytes (at_all is (begun false) s₁) d t
        (begun-AreNotStopped is false s₁ (set_active-AreIdle is i f s m k.idle)) k.kept k.is_open
        k.no_trailers c

pub buffer_filter-headers :
    (r : Loops) (i : ℕ) (s : ActiveStream)
    → (decode_headers_from buffer_filter r false i false false s).0
      ≡ set_active i
          (record ((logged i (headers false) s).active i) { stopped = true })
          (logged i (headers false) s)
unfolding decode_headers_from buffer_filter
buffer_filter-headers r i s =
    let s₁ : ActiveStream = logged i (headers false) s in
    let status : HeadersStatus = headers_status (s₁.active i).calls in
    ap (λ (u : ActiveStream). (decode_headers_after r false i status false false u).0)
      (apply_effect-quiet no_effect s₁ (refl, refl))
    ∙ decode_headers_after-stop r i status false false s₁ (
        headers_status-headers (s₁.active i).calls (s.active i).calls
          (logged-calls i (headers false) s))

-- Data before the end is kept.
pub buffer_filter-data :
    (r : Loops) (i : ℕ) (bytes : Bytes) (s : ActiveStream)
    → decode_data_from buffer_filter r i (provided bytes) false s
      ≡ common_handle_buffer_data
          (provided bytes)
          (record (set_active i
            (record ((logged i (body bytes false) s).active i) { stopped = true })
            (logged i (body bytes false) s)) { decoder_filters_streaming = false })
unfolding decode_data_from buffer_filter common_handle_after_data_callback
buffer_filter-data r i bytes s =
    let s₁ : ActiveStream = logged i (body bytes false) s in
    ap
      (λ (a : DataStatus × Bytes × Effect).
        common_handle_after_data_callback r i a.0 (provided a.1) false (apply_effect a.2 s₁))
      (data_answer-body bytes false (s₁.active i).calls (s.active i).calls
        (logged-calls i (body bytes false) s))
    ∙ ap (common_handle_after_data_callback r i stop_iteration_and_buffer (provided bytes) false)
        (apply_effect-quiet no_effect s₁ (refl, refl))

-- At the end all of it goes on.
pub buffer_filter-end :
    (r : Loops) (i : ℕ) (bytes : Bytes) (s : ActiveStream)
    → (s.active i).stopped ≡ true
    → decode_data_from buffer_filter r i (provided bytes) true s
      ≡ common_continue r i
          (common_handle_buffer_data (provided bytes) (logged i (body bytes true) s))
unfolding decode_data_from buffer_filter common_handle_after_data_callback
buffer_filter-end r i bytes s k =
    let s₁ : ActiveStream = logged i (body bytes true) s in
    let stopped₁ : (s₁.active i).stopped ≡ true =
      ap (λ (f : ActiveFilter). f.stopped) (set_active-same i _ s) ∙ k in
    let continued : common_handle_after_data_callback r i continue_data (provided bytes) true s₁
        ≡ common_continue r i (common_handle_buffer_data (provided bytes) s₁) =
      if_cases
        (λ (u : ActiveStream).
          u ≡ common_continue r i (common_handle_buffer_data (provided bytes) s₁))
        (s₁.active i).stopped _ _ (λ l. refl) (λ l. absurd (ground arith)) in
    ap
      (λ (a : DataStatus × Bytes × Effect).
        common_handle_after_data_callback r i a.0 (provided a.1) true (apply_effect a.2 s₁))
      (data_answer-body bytes true (s₁.active i).calls (s.active i).calls
        (logged-calls i (body bytes true) s))
    ∙ (ap (common_handle_after_data_callback r i continue_data (provided bytes) true)
          (apply_effect-quiet no_effect s₁ (refl, refl))
        ∙ continued)
