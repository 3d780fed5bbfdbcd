-- ===== src/Upstream/LoadBalancer/Capacity.antt =====
-- Where a sampled value sends a request: the scan over the residual capacities.
use meliproxy.Upstream.LoadBalancer.{residuals, scan}
use meliproxy.Upstream.LoadBalancer.Locality.{entry, StopsAt, StopsAt-later, length-residuals}
use meliproxy.Shared.{
  List, ◌∷◌, ◌+◌, suc, refl, arith, zero, length, ℕ, ◌≡◌, ◌-◌, if◌then◌else◌, ◌%◌, [], ltb, ◌^◌,
  ◌<◌, Bool-cases, none, ◌⊎◌, true, inl, some, false, inr, Option, subst, some_inj,
}

-- The accumulated capacity only grows at a locality that has capacity left.
residuals-grow :
    (before : ℕ) (us ls : List ℕ) (k : ℕ)
    → length us ≡ length ls
    → k < length us
    → entry (before ∷ residuals before us ls) k < entry (residuals before us ls) k
    → entry ls k < entry us k
unfolding residuals
residuals-grow before [] ls k h b g = absurd (omega arith)
residuals-grow before (u ∷ us) [] k h b g = absurd (omega (arith, h))
residuals-grow before (u ∷ us) (l ∷ ls) zero h b g = ground arith
residuals-grow before (u ∷ us) (l ∷ ls) (suc k) h b g =
    residuals-grow (if ltb l u then (before + u - l) % 2 ^ 64 else before) us ls k
      (omega (arith, h)) (omega arith) g

-- Where the scan stops: at the first entry that the threshold does not exceed.
scan-StopsAt :
    (threshold : ℕ) (rs : List ℕ) (i : ℕ) → scan threshold rs ≡ some i → StopsAt threshold rs i
unfolding scan
scan-StopsAt threshold [] i e = absurd (nothing e)
  where
    nothing : none ≡ some i → ⊥
    nothing k = cc
scan-StopsAt threshold (r ∷ rs) i e =
    by_test (Bool-cases (ltb r threshold)) (scan threshold rs) refl
      (λ j k. scan-StopsAt threshold rs j k)
  where
    nothing : none ≡ some i → ⊥
    nothing k = cc

    found_later :
        (l : ltb r threshold ≡ true) (rest : Option ℕ)
        → scan threshold rs ≡ rest
        → ((j : ℕ) → scan threshold rs ≡ some j → StopsAt threshold rs j)
        → StopsAt threshold (r ∷ rs) i
    found_later l none k later = absurd (nothing (rw (l, k, scan) at e))
    found_later l (some j) k later =
        subst (StopsAt threshold (r ∷ rs)) (omega (arith, some_inj (rw (l, k, scan) at e)))
          (StopsAt-later threshold r rs j l (later j k))

    by_test :
        (ltb r threshold ≡ true) ⊎ (ltb r threshold ≡ false)
        → (rest : Option ℕ) → scan threshold rs ≡ rest
        → ((j : ℕ) → scan threshold rs ≡ some j → StopsAt threshold rs j)
        → StopsAt threshold (r ∷ rs) i
    by_test (inl l) rest k later = found_later l rest k later
    by_test (inr l) rest k later =
        subst (StopsAt threshold (r ∷ rs)) (some_inj (rw (l, scan) at e))
          (rw l refl, omega arith, ground arith, λ j g. absurd (omega arith))

-- For any percentages of the localities, where the scan over the residual capacities stops: the sampled value 0
-- sends a request to the local locality, which has no residual capacity, and every other value sends it to
-- another locality, one with a higher percentage of the upstream hosts than of the local ones.
pub scan-capacity :
    (threshold : ℕ) (us ls : List ℕ) (i : ℕ)
    → length us ≡ length ls
    → scan threshold (0 ∷ residuals 0 us ls) ≡ some i
    → (threshold ≡ 0 → i ≡ 0) × (0 < threshold → (k : ℕ) × (i ≡ suc k) × (entry ls k < entry us k))
scan-capacity threshold us ls i h e =
    from_stop i (scan-StopsAt threshold (0 ∷ residuals 0 us ls) i e)
  where
    n : length (residuals 0 us ls) ≡ length us
    n = length-residuals 0 us ls h

    from_stop :
        (i : ℕ)
        → StopsAt threshold (0 ∷ residuals 0 us ls) i
        → (threshold ≡ 0 → i ≡ 0)
          × (0 < threshold → (k : ℕ) × (i ≡ suc k) × (entry ls k < entry us k))
    from_stop zero (e, b, t, below) = (λ z. refl, λ p. absurd (omega arith))
    from_stop (suc k) (e, b, t, below) = (
      λ z. absurd (omega (arith, below 0 (omega arith))),
      λ p. (
        k,
        refl,
        residuals-grow 0 us ls k h (omega (arith, n, b)) (omega (arith, below k (omega arith))),
      ),
    )
