-- ===== src/Http/FilterChain/Steps.antt =====
-- The request of a stream from its headers on, event by event.
use meliproxy.Http.FilterChain.Iteration.{
  common_handle_buffer_data-AreUnderWay, AreCareful, loops-AreOrdering,
}
use meliproxy.Http.FilterChain.Continuing.{
  AreUnderWay-IsReached, decode_data_after-AreUnderWay, decode_trailers_after-AreUnderWay,
  common_continue-AreUnderWay, IsBefore,
}
use meliproxy.Http.FilterChain.Order.{
  IsOrderly, AreIdle, AddsNothing, AreUnderWay, AreApart, AreIdle-spared, AreUnderWay-spared,
  continued-AreUnderWay,
}
use meliproxy.Http.FilterChain.Spares.{is_in, common_continue-active, loops-AreSparing}
use meliproxy.Http.FilterChain.{
  ActiveStream, Call, Event, Filter, add_decoded_data, adds_data, common_continue, completes,
  continue_decoding, continues, decode_data, decode_headers, decode_trailers, gets_data,
  gets_trailers, loops, provided, step,
}
use meliproxy.Shared.{
  ◌≡◌, ◌∙◌, false, [], refl, ◌==◌, arith, if_cases, true, ◌∷◌, sym, ℕ, List, subst, Bool, inl, ◌⊎◌,
  ==_iff, inr, ◌++◌,
}

continue_decoding-active :
    (fs : ℕ → Filter) (i : ℕ) (is : List ℕ) (s : ActiveStream) (j : ℕ)
    → is_in j is ≡ false
    → (continue_decoding fs i is s).active j ≡ s.active j
unfolding continue_decoding
continue_decoding-active fs i [] s j n = refl
continue_decoding-active fs i (k ∷ ks) s j n =
    if_cases (λ (t : ActiveStream). t.active j ≡ s.active j) (k == i) _ _
      (λ e.
        common_continue-active (loops fs ks) i s j (ground arith)
          (loops-AreSparing fs ks j (ground arith)))
      (λ e. continue_decoding-active fs i ks s j (ground arith))

-- A stopped filter is not one of those that have had no call.
continue_decoding-AreIdle :
    (fs : ℕ → Filter) (i : ℕ) (is : List ℕ) (s : ActiveStream)
    → AreIdle is s
    → (s.active i).stopped ≡ true
    → continue_decoding fs i is s ≡ s
unfolding continue_decoding
continue_decoding-AreIdle fs i [] s a k = refl
continue_decoding-AreIdle fs i (j ∷ js) s ((b, c, d), a) k =
    if_cases (λ (t : ActiveStream). t ≡ s) (j == i) _ _ (λ e. absurd (no e))
      (λ e. continue_decoding-AreIdle fs i js s a k)
  where
    false_is_true : false ≡ true → ⊥
    false_is_true l = ground arith

    no : (j == i) ≡ true → ⊥
    no e = false_is_true (sym (subst (λ n. (s.active n).stopped ≡ false) ((==_iff j i).0 e) d) ∙ k)

continue_decoding-AreUnderWay :
    (fs : ℕ → Filter) (i : ℕ) (is : List ℕ) (s : ActiveStream)
    → AreApart is
    → AreCareful fs is
    → (s.active i).stopped ≡ true
    → AreUnderWay fs is s
    → AreUnderWay fs is (continue_decoding fs i is s)
unfolding continue_decoding
continue_decoding-AreUnderWay fs i [] s d c k u = tt
continue_decoding-AreUnderWay fs i (j ∷ js) s (n, d) (c, cs) k u =
    if_cases (λ (t : ActiveStream). AreUnderWay fs (j ∷ js) t) (j == i) _ _
      (λ e.
        subst (λ m. AreUnderWay fs (j ∷ js) (common_continue (loops fs js) m s)) ((==_iff j i).0 e)
          (common_continue-AreUnderWay fs j js (loops fs js) s before
            (AreUnderWay-IsReached fs j js s u)))
      (λ e. by_state e (λ v. continue_decoding-AreUnderWay fs i js s d cs k v) u)
  where
    before : IsBefore fs j js (loops fs js)
    before = record {
      apart = n;
      careful = c;
      spares = loops-AreSparing fs js j n;
      orders = loops-AreOrdering fs js d cs;
    }

    by_state :
        (j == i) ≡ false
        → (AreUnderWay fs js s → AreUnderWay fs js (continue_decoding fs i js s))
        → AreUnderWay fs (j ∷ js) s
        → AreUnderWay fs (j ∷ js) (continue_decoding fs i js s)
    by_state e rest (o, inl (h, v)) =
        continued-AreUnderWay fs j js (s.active j) (continue_decoding fs i js s)
          (continue_decoding-active fs i js s j n) h o (rest v)
    by_state e rest (o, inr (h, l, m, a)) =
        subst (λ t. AreUnderWay fs (j ∷ js) t) (sym (continue_decoding-AreIdle fs i js s a k))
          (o, inr (h, l, m, a))

-- What the source asserts: a filter continues the iteration only if it has stopped it.
abbrev pub CanHappen : Event → ActiveStream → Type 0
CanHappen (continues i) s = (s.active i).stopped ≡ true
CanHappen (gets_data bytes end_stream) s = Unit
CanHappen gets_trailers s = Unit
CanHappen (adds_data bytes streaming) s = Unit
CanHappen completes s = Unit

-- The states of a stream from its headers on.
pub data IsReachable (fs : ℕ → Filter) (is : List ℕ) : ActiveStream → Type 0 where
  starts :
      (end_stream : Bool) (s : ActiveStream)
      → AreIdle is s
      → IsReachable fs is (decode_headers fs is end_stream s)
  steps :
      (e : Event) (s : ActiveStream)
      → IsReachable fs is s
      → CanHappen e s
      → IsReachable fs is (step fs is e s)

decode_headers-AreUnderWay :
    (fs : ℕ → Filter) (is : List ℕ) (end_stream : Bool) (s : ActiveStream)
    → AreApart is
    → AreCareful fs is
    → AreIdle is s
    → AreUnderWay fs is (decode_headers fs is end_stream s)
unfolding decode_headers
decode_headers-AreUnderWay fs is end_stream s d c a =
    (loops-AreOrdering fs is d c).by_headers end_stream false
      (record s { remote_complete = end_stream })
      (AreIdle-spared is s (record s { remote_complete = end_stream }) (λ j k. refl) a)

step-AreUnderWay :
    (fs : ℕ → Filter) (is : List ℕ) (e : Event) (s : ActiveStream)
    → AreApart is
    → AreCareful fs is
    → CanHappen e s
    → AreUnderWay fs is s
    → AreUnderWay fs is (step fs is e s)
unfolding step decode_data decode_trailers add_decoded_data
step-AreUnderWay fs is (gets_data bytes end_stream) s d c h u =
    let s₁ : ActiveStream = record s { remote_complete = end_stream } in
    decode_data_after-AreUnderWay fs is (loops fs is) (provided bytes) end_stream s₁
      (loops-AreOrdering fs is d c) (AreUnderWay-spared fs is s s₁ (λ j k. refl) u)
step-AreUnderWay fs is gets_trailers s d c h u =
    let s₁ : ActiveStream = record s { request_trailers = true; remote_complete = true } in
    decode_trailers_after-AreUnderWay fs is (loops fs is) s₁ (loops-AreOrdering fs is d c)
      (AreUnderWay-spared fs is s s₁ (λ j k. refl) u)
step-AreUnderWay fs is (continues i) s d c h u = continue_decoding-AreUnderWay fs i is s d c h u
step-AreUnderWay fs is (adds_data bytes streaming) s d c h u =
    let s₁ : ActiveStream = record s { decoder_filters_streaming = streaming } in
    common_handle_buffer_data-AreUnderWay fs is (provided bytes) s₁
      (AreUnderWay-spared fs is s s₁ (λ j k. refl) u)
step-AreUnderWay fs is completes s d c h u =
    AreUnderWay-spared fs is s (record s { local_complete = true }) (λ j k. refl) u

-- The filters of a stream have had the headers from the first one on, as far as each lets them through.
pub IsReachable-AreUnderWay :
    (fs : ℕ → Filter) (is : List ℕ) (s : ActiveStream)
    → AreApart is
    → AreCareful fs is
    → IsReachable fs is s
    → AreUnderWay fs is s
IsReachable-AreUnderWay fs is _ d c (starts end_stream s a) =
    decode_headers-AreUnderWay fs is end_stream s d c a
IsReachable-AreUnderWay fs is _ d c (steps e s r h) =
    step-AreUnderWay fs is e s d c h (IsReachable-AreUnderWay fs is s d c r)

-- A filter that has had the headers once, before all else.
pub IsServed : List Call → Type 0
IsServed cs = (cs ≡ []) ⊎ IsOrderly cs

-- The filters from one on: they are under way, or none of them has had a call.
from-AreUnderWay :
    (fs : ℕ → Filter) (before : List ℕ) (is : List ℕ) (s : ActiveStream)
    → AreUnderWay fs (before ++ is) s
    → AreUnderWay fs is s ⊎ AreIdle is s
from-AreUnderWay fs [] is s u = inl u
from-AreUnderWay fs (j ∷ js) is s (o, inl (c, u)) = from-AreUnderWay fs js is s u
from-AreUnderWay fs (j ∷ js) is s (o, inr (c, k, n, a)) = inr (from-AreIdle js a)
  where
    from-AreIdle : (ks : List ℕ) → AreIdle (ks ++ is) s → AreIdle is s
    from-AreIdle [] b = b
    from-AreIdle (k ∷ ks) (b, bs) = from-AreIdle ks bs

pub idle_calls :
    (is : List ℕ) (s : ActiveStream) (j : ℕ)
    → AreIdle is s
    → is_in j is ≡ true
    → (s.active j).calls ≡ []
idle_calls [] s j a k = absurd (ground arith)
idle_calls (i ∷ is) s j a k = by_first (i == j) refl (λ l. idle_calls is s j a.1 l)
  where
    by_first :
        (t : Bool)
        → (i == j) ≡ t
        → (is_in j is ≡ true → (s.active j).calls ≡ [])
        → (s.active j).calls ≡ []
    by_first true e rest = subst (λ m. (s.active m).calls ≡ []) ((==_iff i j).0 e) a.0.0
    by_first false e rest = rest (ground arith)

under_way-IsServed :
    (fs : ℕ → Filter) (is : List ℕ) (s : ActiveStream) (j : ℕ)
    → AreUnderWay fs is s
    → is_in j is ≡ true
    → IsServed (s.active j).calls
unfolding IsServed
under_way-IsServed fs [] s j u k = absurd (ground arith)
under_way-IsServed fs (i ∷ is) s j (o, u) k =
    by_first (i == j) refl (λ v l. under_way-IsServed fs is s j v l) u
  where
    by_first :
        (t : Bool)
        → (i == j) ≡ t
        → (AreUnderWay fs is s → is_in j is ≡ true → IsServed (s.active j).calls)
        → (((s.active i).headers_continued ≡ true) × AreUnderWay fs is s)
          ⊎ (((s.active i).headers_continued ≡ false)
              × ((s.active i).stopped ≡ true)
              × AddsNothing (fs i)
              × AreIdle is s)
        → IsServed (s.active j).calls
    by_first true e rest u = inr (subst (λ m. IsOrderly (s.active m).calls) ((==_iff i j).0 e) o)
    by_first false e rest (inl (c, v)) = rest v (ground arith)
    by_first false e rest (inr (c, l, n, a)) = inl (idle_calls is s j a (ground arith))

-- In a stream of distinct filters that has got its headers, of which each one that may stop at the headers adds
-- no data in a call of decodeTrailers, and whatever the codec and the filters do after, as long as only stopped
-- filters continue the iteration: every filter has had no call, or has had decodeHeaders first and once; and a
-- filter has had a call only if each filter before it has had the headers and has let them through.
pub calls-IsServed :
    (fs : ℕ → Filter) (before : List ℕ) (i : ℕ) (after : List ℕ) (j : ℕ) (s : ActiveStream)
    → AreApart (before ++ i ∷ after)
    → AreCareful fs (before ++ i ∷ after)
    → is_in j (i ∷ after) ≡ true
    → IsReachable fs (before ++ i ∷ after) s
    → IsServed (s.active j).calls
      × (((s.active j).calls ≡ [])
          ⊎ (i ≡ j)
          ⊎ (((s.active i).headers_continued ≡ true) × IsOrderly (s.active i).calls))
unfolding IsServed
calls-IsServed fs before i after j s d c k r = by_state (
    from-AreUnderWay fs before (i ∷ after) s
      (IsReachable-AreUnderWay fs (before ++ i ∷ after) s d c r))
  where
    before_it :
        AreUnderWay fs (i ∷ after) s
        → (t : Bool) → (i == j) ≡ t
        → ((s.active j).calls ≡ [])
          ⊎ (i ≡ j)
          ⊎ (((s.active i).headers_continued ≡ true) × IsOrderly (s.active i).calls)
    before_it u true e = inr (inl ((==_iff i j).0 e))
    before_it (o, inl (h, u)) false e = inr (inr (h, o))
    before_it (o, inr (h, l, n, a)) false e = inl (idle_calls after s j a (ground arith))

    by_state :
        AreUnderWay fs (i ∷ after) s ⊎ AreIdle (i ∷ after) s
        → IsServed (s.active j).calls
          × (((s.active j).calls ≡ [])
              ⊎ (i ≡ j)
              ⊎ (((s.active i).headers_continued ≡ true) × IsOrderly (s.active i).calls))
    by_state (inl u) = (under_way-IsServed fs (i ∷ after) s j u k, before_it u (i == j) refl)
    by_state (inr a) =
        let e : (s.active j).calls ≡ [] = idle_calls (i ∷ after) s j a k in (inl e, inl e)
