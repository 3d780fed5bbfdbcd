-- ===== src/Http/FilterChain/Continuing.antt =====
-- `commonContinue` of a filter that has had the headers: the filters from it on have had them after it.
use meliproxy.Http.FilterChain.Order.{
  IsOrderly, AreIdle, IsCareful, AreUnderWay, set_active-AreIdle, set_active-AreUnderWay,
  continued-AreUnderWay,
}
use meliproxy.Http.FilterChain.Spares.{is_in, set_active-same, common_continue-at, AreSparing}
use meliproxy.Http.FilterChain.{
  ActiveFilter, ActiveStream, Filter, Loops, Provided, buffered, common_continue, decode_data_after,
  decode_trailers_after, is_some, set_active,
}
use meliproxy.Shared.{
  ◌≡◌, not, if◌then◌else◌, List, true, Bool, inr, refl, if_cases, false, inl, ℕ, ◌⊎◌, ◌∷◌, ◌&&◌,
  arith,
}

pub record AreOrdering (fs : ℕ → Filter) (is : List ℕ) (r : Loops) : Type 0 where
  pub by_headers :
      (e f : Bool) (s : ActiveStream) → AreIdle is s → AreUnderWay fs is (r.decode_headers e f s).0
  pub by_data :
      (d : Provided) (e : Bool) (s : ActiveStream)
      → AreUnderWay fs is s
      → AreUnderWay fs is (r.decode_data d e s)
  pub by_trailers :
      (s : ActiveStream) → AreUnderWay fs is s → AreUnderWay fs is (r.decode_trailers s)

-- The filter `i` comes before the filters `is`, whose loops are `r`.
pub record IsBefore (fs : ℕ → Filter) (i : ℕ) (is : List ℕ) (r : Loops) : Type 0 where
  pub apart : is_in i is ≡ false
  pub careful : IsCareful (fs i)
  pub spares : AreSparing i r
  pub orders : AreOrdering fs is r

-- The first filter has had the headers.
pub IsReached : (ℕ → Filter) → ℕ → List ℕ → ActiveStream → Type 0
IsReached fs i is s =
    IsOrderly (s.active i).calls
    × ((((s.active i).headers_continued ≡ true) × AreUnderWay fs is s)
        ⊎ (((s.active i).headers_continued ≡ false) × AreIdle is s))

pub AreUnderWay-IsReached :
    (fs : ℕ → Filter) (i : ℕ) (is : List ℕ) (s : ActiveStream)
    → AreUnderWay fs (i ∷ is) s
    → IsReached fs i is s
unfolding IsReached
AreUnderWay-IsReached fs i is s (o, inl (c, u)) = (o, inl (c, u))
AreUnderWay-IsReached fs i is s (o, inr (c, k, n, u)) = (o, inr (c, u))

pub decode_data_after-AreUnderWay :
    (fs : ℕ → Filter) (is : List ℕ) (r : Loops) (d : Provided) (e : Bool) (s : ActiveStream)
    → AreOrdering fs is r
    → AreUnderWay fs is s
    → AreUnderWay fs is (decode_data_after r d e s)
unfolding decode_data_after
decode_data_after-AreUnderWay fs is r d e s a u =
    if_cases (λ (t : ActiveStream). AreUnderWay fs is t) s.local_complete s (r.decode_data d e s)
      (λ k. u) (λ k. a.by_data d e s u)

pub decode_trailers_after-AreUnderWay :
    (fs : ℕ → Filter) (is : List ℕ) (r : Loops) (s : ActiveStream)
    → AreOrdering fs is r
    → AreUnderWay fs is s
    → AreUnderWay fs is (decode_trailers_after r s)
unfolding decode_trailers_after
decode_trailers_after-AreUnderWay fs is r s a u =
    if_cases (λ (t : ActiveStream). AreUnderWay fs is t) s.local_complete s (r.decode_trailers s)
      (λ k. u) (λ k. a.by_trailers s u)

pub reached_continued :
    (fs : ℕ → Filter) (i : ℕ) (is : List ℕ) (s : ActiveStream)
    → IsReached fs i is s
    → (s.active i).headers_continued ≡ true
    → AreUnderWay fs is s
unfolding IsReached
reached_continued fs i is s (o, inl (c, u)) k = u
reached_continued fs i is s (o, inr (c, u)) k = absurd (ground arith)

pub reached_idle :
    (fs : ℕ → Filter) (i : ℕ) (is : List ℕ) (s : ActiveStream)
    → IsReached fs i is s
    → (s.active i).headers_continued ≡ false
    → AreIdle is s
unfolding IsReached
reached_idle fs i is s (o, inl (c, u)) k = absurd (ground arith)
reached_idle fs i is s (o, inr (c, u)) k = u

-- After `commonContinue` the first filter has let the headers through.
pub common_continue-AreUnderWay :
    (fs : ℕ → Filter) (i : ℕ) (is : List ℕ) (r : Loops) (s : ActiveStream)
    → IsBefore fs i is r
    → IsReached fs i is s
    → AreUnderWay fs (i ∷ is) (common_continue r i s)
unfolding common_continue IsReached
common_continue-AreUnderWay fs i is r s b (o, by) =
    let f : ActiveFilter = record (s.active i) { stopped = false; headers_continued = true } in
    let s₁ : ActiveStream = set_active i f s in
    let end_stream : Bool =
      s.remote_complete && (not (is_some s.buffered_request_data) && not s.request_trailers) in
    let s₂ : ActiveStream =
      if (s.active i).headers_continued then s₁ else (r.decode_headers end_stream false s₁).0 in
    let last : Bool = s₂.remote_complete && not s₂.request_trailers in
    let s₃ : ActiveStream =
      if is_some s₂.buffered_request_data then decode_data_after r buffered last s₂ else s₂ in
    let s₄ : ActiveStream = if s₃.request_trailers then decode_trailers_after r s₃ else s₃ in
    let u₂ : AreUnderWay fs is s₂ =
      if_cases (λ (t : ActiveStream). AreUnderWay fs is t) (s.active i).headers_continued s₁
        (r.decode_headers end_stream false s₁).0
        (λ k. set_active-AreUnderWay fs is i f s b.apart (reached_continued fs i is s (o, by) k))
        (λ k.
          b.orders.by_headers end_stream false s₁
            (set_active-AreIdle is i f s b.apart (reached_idle fs i is s (o, by) k))) in
    let u₃ : AreUnderWay fs is s₃ =
      if_cases (λ (t : ActiveStream). AreUnderWay fs is t) (is_some s₂.buffered_request_data) _ s₂
        (λ k. decode_data_after-AreUnderWay fs is r buffered last s₂ b.orders u₂) (λ k. u₂) in
    let u₄ : AreUnderWay fs is s₄ =
      if_cases (λ (t : ActiveStream). AreUnderWay fs is t) s₃.request_trailers _ s₃
        (λ k. decode_trailers_after-AreUnderWay fs is r s₃ b.orders u₃) (λ k. u₃) in
    continued-AreUnderWay fs i is f s₄
      (common_continue-at r i s i f (set_active-same i f s) b.spares) refl o u₄
