-- ===== src/Http/FilterChain/Order.antt =====
-- Every filter gets the headers once, and before all else.
use meliproxy.Http.FilterChain.Spares.{is_in, set_active-other, set_active-same}
use meliproxy.Http.FilterChain.{
  ActiveFilter, ActiveStream, Call, Filter, body, continue_headers, headers, set_active, trailers,
}
use meliproxy.Shared.{
  ◌⊎◌, ◌≡◌, inr, [], true, ◌==◌, inl, ℕ, sym, List, arith, subst, ◌∷◌, false, ◌∙◌, ap, none,
}

-- The calls of a filter that has had the headers, the last one first: the headers are the first of all, and
-- come no second time.
abbrev pub IsOrderly : List Call → Type 0
IsOrderly [] = ⊥
IsOrderly (headers e ∷ cs) = cs ≡ []
IsOrderly (body b e ∷ cs) = IsOrderly cs
IsOrderly (trailers ∷ cs) = IsOrderly cs

-- A filter that has had no call.
abbrev pub IsIdle : ActiveFilter → Type 0
IsIdle f = (f.calls ≡ []) × (f.headers_continued ≡ false) × (f.stopped ≡ false)

abbrev pub AreIdle : List ℕ → ActiveStream → Type 0
AreIdle [] s = Unit
AreIdle (i ∷ is) s = IsIdle (s.active i) × AreIdle is s

-- A filter adds no data in a call of `decodeTrailers`.
abbrev pub AddsNothing : Filter → Type 0
AddsNothing f = (cs : List Call) → (f.on_trailers cs).1.adds ≡ none

-- A filter that may stop at the headers adds no data in a call of `decodeTrailers`.
abbrev pub IsCareful : Filter → Type 0
IsCareful f = ((cs : List Call) → (f.on_headers cs).0 ≡ continue_headers) ⊎ AddsNothing f

-- Filters of which the first has had the headers. The next one has had them if the first has let them through, and
-- otherwise the first one is stopped.
abbrev pub AreUnderWay : (ℕ → Filter) → List ℕ → ActiveStream → Type 0
AreUnderWay fs [] s = Unit
AreUnderWay fs (i ∷ is) s =
    IsOrderly (s.active i).calls
    × ((((s.active i).headers_continued ≡ true) × AreUnderWay fs is s)
        ⊎ (((s.active i).headers_continued ≡ false)
            × ((s.active i).stopped ≡ true)
            × AddsNothing (fs i)
            × AreIdle is s))

abbrev pub AreApart : List ℕ → Type 0
AreApart [] = Unit
AreApart (i ∷ is) = (is_in i is ≡ false) × AreApart is

-- The predicates only look at the filters of the list.
pub AreIdle-spared :
    (is : List ℕ) (s t : ActiveStream)
    → ((j : ℕ) → is_in j is ≡ true → t.active j ≡ s.active j)
    → AreIdle is s
    → AreIdle is t
AreIdle-spared [] s t e a = tt
AreIdle-spared (i ∷ is) s t e (a, b) =
    (subst IsIdle (sym (e i (ground arith))) a, AreIdle-spared is s t (λ j k. e j (ground arith)) b)

pub AreUnderWay-spared :
    (fs : ℕ → Filter) (is : List ℕ) (s t : ActiveStream)
    → ((j : ℕ) → is_in j is ≡ true → t.active j ≡ s.active j)
    → AreUnderWay fs is s
    → AreUnderWay fs is t
AreUnderWay-spared fs [] s t e a = tt
AreUnderWay-spared fs (i ∷ is) s t e (a, b) = (
  subst (λ (f : ActiveFilter). IsOrderly f.calls) (sym same) a,
  by_state (λ u. AreUnderWay-spared fs is s t (λ j k. e j (ground arith)) u) b,
)
  where
    same : t.active i ≡ s.active i
    same = e i (ground arith)

    by_state :
        (AreUnderWay fs is s → AreUnderWay fs is t)
        → ((((s.active i).headers_continued ≡ true) × AreUnderWay fs is s)
            ⊎ (((s.active i).headers_continued ≡ false)
                × ((s.active i).stopped ≡ true)
                × AddsNothing (fs i)
                × AreIdle is s))
        → ((((t.active i).headers_continued ≡ true) × AreUnderWay fs is t)
            ⊎ (((t.active i).headers_continued ≡ false)
                × ((t.active i).stopped ≡ true)
                × AddsNothing (fs i)
                × AreIdle is t))
    by_state rest (inl (c, u)) =
        inl (ap (λ (f : ActiveFilter). f.headers_continued) same ∙ c, rest u)
    by_state rest (inr (c, k, n, u)) = inr (
      ap (λ (f : ActiveFilter). f.headers_continued) same ∙ c,
      ap (λ (f : ActiveFilter). f.stopped) same ∙ k,
      n,
      AreIdle-spared is s t (λ j k. e j (ground arith)) u,
    )

-- A filter that is not one of the list is not that one.
pub in-apart : (is : List ℕ) (i j : ℕ) → is_in i is ≡ false → is_in j is ≡ true → (i == j) ≡ false
in-apart [] i j a b = ground arith
in-apart (k ∷ ks) i j a b = ground (arith, in-apart ks i j)

pub set_active-AreIdle :
    (is : List ℕ) (i : ℕ) (f : ActiveFilter) (s : ActiveStream)
    → is_in i is ≡ false
    → AreIdle is s
    → AreIdle is (set_active i f s)
set_active-AreIdle is i f s n a =
    AreIdle-spared is s (set_active i f s) (λ j k. set_active-other i j f s (in-apart is i j n k)) a

pub set_active-AreUnderWay :
    (fs : ℕ → Filter) (is : List ℕ) (i : ℕ) (f : ActiveFilter) (s : ActiveStream)
    → is_in i is ≡ false
    → AreUnderWay fs is s
    → AreUnderWay fs is (set_active i f s)
set_active-AreUnderWay fs is i f s n a =
    AreUnderWay-spared fs is s (set_active i f s)
      (λ j k. set_active-other i j f s (in-apart is i j n k)) a

-- The first filter has let the headers through.
pub continued-AreUnderWay :
    (fs : ℕ → Filter) (i : ℕ) (is : List ℕ) (f : ActiveFilter) (t : ActiveStream)
    → t.active i ≡ f
    → f.headers_continued ≡ true
    → IsOrderly f.calls
    → AreUnderWay fs is t
    → AreUnderWay fs (i ∷ is) t
continued-AreUnderWay fs i is f t e c o u = (
  subst (λ (g : ActiveFilter). IsOrderly g.calls) (sym e) o,
  inl (ap (λ (g : ActiveFilter). g.headers_continued) e ∙ c, u),
)

-- The first filter is stopped with the headers.
pub stopped-AreUnderWay :
    (fs : ℕ → Filter) (i : ℕ) (is : List ℕ) (f : ActiveFilter) (t : ActiveStream)
    → t.active i ≡ f
    → f.headers_continued ≡ false
    → f.stopped ≡ true
    → IsOrderly f.calls
    → AddsNothing (fs i)
    → AreIdle is t
    → AreUnderWay fs (i ∷ is) t
stopped-AreUnderWay fs i is f t e c k o n u = (
  subst (λ (g : ActiveFilter). IsOrderly g.calls) (sym e) o,
  inr (
    ap (λ (g : ActiveFilter). g.headers_continued) e ∙ c,
    ap (λ (g : ActiveFilter). g.stopped) e ∙ k,
    n,
    u,
  ),
)

-- The first filter changes and still has let the headers through, or is still stopped.
pub changed-AreUnderWay :
    (fs : ℕ → Filter) (i : ℕ) (is : List ℕ) (f : ActiveFilter) (s : ActiveStream)
    → is_in i is ≡ false
    → IsOrderly f.calls
    → f.headers_continued ≡ (s.active i).headers_continued
    → ((s.active i).stopped ≡ true → f.stopped ≡ true)
    → AreUnderWay fs (i ∷ is) s
    → AreUnderWay fs (i ∷ is) (set_active i f s)
changed-AreUnderWay fs i is f s n o h k (a, inl (c, u)) =
    continued-AreUnderWay fs i is f (set_active i f s) (set_active-same i f s) (h ∙ c) o
      (set_active-AreUnderWay fs is i f s n u)
changed-AreUnderWay fs i is f s n o h k (a, inr (c, d, none_added, u)) =
    stopped-AreUnderWay fs i is f (set_active i f s) (set_active-same i f s) (h ∙ c) (k d) o
      none_added (set_active-AreIdle is i f s n u)
