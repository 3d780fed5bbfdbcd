-- ===== src/Upstream/OutlierDetection/Interval.antt =====
-- The interval timer: hosts whose time is up come back, and then outliers are ejected.
use meliproxy.Upstream.OutlierDetection.{
  Monitor, Detector, uneject, check_host_for_uneject, check_hosts, on_interval_timer,
  process_success_rate_ejections, update_current_bucket, ◌>>=◌, get_integer,
}
use meliproxy.Upstream.OutlierDetection.Ejections.{
  has, IsDistinct, IsTimed, IsValid, ejected, bit, is_some,
}
use meliproxy.Upstream.OutlierDetection.Outliers.{process-IsValid}
use meliproxy.Shared.{
  ◌^◌, leb, [], arith, All, dec64, refl, ◌*◌, ◌∷◌, if_cases, ◌%◌, ◌-◌, some, none, false, Option,
  ◌≡◌, true, not, ℕ, if◌then◌else◌, ◌+◌, ap, List, ◌∙◌, ◌==◌, ◌||◌,
}

abbrev Checked : ℕ → Monitor → Option (Monitor × Detector) → Type 0
Checked o m none = ⊥
Checked o m (some (n, d)) =
    (n.host ≡ m.host)
    × IsTimed n
    × (d.stats.ejections_active ≡ (o + bit n.failed_outlier_check) % 2 ^ 64)

check_host_for_uneject-Checked :
    (o now : ℕ) (m : Monitor) (d : Detector)
    → IsTimed m
    → d.stats.ejections_active ≡ (o + bit m.failed_outlier_check) % 2 ^ 64
    → Checked o m (check_host_for_uneject now m d)
unfolding check_host_for_uneject uneject
check_host_for_uneject-Checked o now m d t e =
    if_cases (Checked o m) (not m.failed_outlier_check) _ _ (λ k. (refl, t, e))
      (λ k. by_time m.last_ejection_time (t (flag k)) (flag k))
  where
    flag : not m.failed_outlier_check ≡ false → m.failed_outlier_check ≡ true
    flag k = ground arith

    by_time :
        (time : Option ℕ)
        → is_some time ≡ true
        → m.failed_outlier_check ≡ true
        → Checked o m (elim time [
          | none ↦ none
          | some ejected ↦
              let base_eject_time =
                get_integer d.runtime "outlier_detection.base_ejection_time_ms"
                  d.config.base_ejection_time_ms
                * 1000000 in
              if leb (base_eject_time * m.num_ejections) (now - ejected)
              then some (
                uneject now m,
                record d {
                  stats = record (d.stats) { ejections_active = dec64 d.stats.ejections_active };
                  called = m.host ∷ d.called;
                },
              )
              else some (m, d)
        ])
    by_time none k f = absurd (cc k)
    by_time (some ejected) k f =
        if_cases (Checked o m)
          (leb
            ((get_integer d.runtime "outlier_detection.base_ejection_time_ms"
                  d.config.base_ejection_time_ms
                * 1000000)
              * m.num_ejections)
            (now - ejected))
          _ _ (λ l. (refl, (λ a. absurd (cc a)), omega (arith, e, ap bit f))) (λ l. (refl, t, e))

abbrev CheckedAll : ℕ → List Monitor → Option (List Monitor × Detector) → Type 0
CheckedAll o ms none = ⊥
CheckedAll o ms (some (ns, d)) =
    ((k : ℕ) → has k ns ≡ has k ms)
    × IsDistinct ns
    × All IsTimed ns
    × (d.stats.ejections_active ≡ (o + ejected ns) % 2 ^ 64)

check_hosts-CheckedAll :
    (o now : ℕ) (ms : List Monitor) (d : Detector)
    → IsDistinct ms
    → All IsTimed ms
    → d.stats.ejections_active ≡ (o + ejected ms) % 2 ^ 64
    → CheckedAll o ms (check_hosts now ms d)
unfolding check_hosts
check_hosts-CheckedAll o now [] d u t e = ((λ k. refl), tt, tt, e)
check_hosts-CheckedAll o now (m ∷ ms) d (a, u) (t, ts) e =
    by_first (λ o d e. check_hosts-CheckedAll o now ms d u ts e) (check_host_for_uneject now m d)
      (check_host_for_uneject-Checked (o + ejected ms) now m d t (omega (arith, e)))
  where
    by_first :
        ((o : ℕ) (d : Detector)
          → d.stats.ejections_active ≡ (o + ejected ms) % 2 ^ 64
          → CheckedAll o ms (check_hosts now ms d))
        → (r : Option (Monitor × Detector)) → Checked (o + ejected ms) m r
        → CheckedAll o (m ∷ ms) (do
          (m₁, d₁) ← r
          (ms₁, d₂) ← check_hosts now ms d₁
          some (
            record (update_current_bucket m₁) { host_success_rate = d.doubles.minus_one } ∷ ms₁,
            d₂,
          ))
    by_first rec none c = absurd c
    by_first rec (some (n, d₁)) (h, tn, en) =
        by_rest (check_hosts now ms d₁)
          (rec (o + bit n.failed_outlier_check) d₁ (omega (arith, en)))
      where
        by_rest :
            (r : Option (List Monitor × Detector))
            → CheckedAll (o + bit n.failed_outlier_check) ms r
            → CheckedAll o (m ∷ ms) (do
              (ms₁, d₂) ← r
              some (
                record (update_current_bucket n) { host_success_rate = d.doubles.minus_one } ∷ ms₁,
                d₂,
              ))
        by_rest none c = absurd c
        by_rest (some (ns, d₂)) (hs, us, tns, es) = (
          (λ k. same k),
          (ap (λ k. has k ns) h ∙ hs m.host ∙ a, us),
          (tn, tns),
          omega (arith, es),
        )
          where
            same : (k : ℕ) → (n.host == k || has k ns) ≡ (m.host == k || has k ms)
            same k = rw h (rw (hs k) refl)

abbrev pub Holds : ℕ → Option Detector → Type 0
Holds o none = ⊥
Holds o (some d) = IsValid o d

pub on_interval_timer-Holds :
    (o now : ℕ) (d : Detector) → IsValid o d → Holds o (on_interval_timer now d)
unfolding on_interval_timer
on_interval_timer-Holds o now d v =
    by_checked (check_hosts now d.monitors d)
      (check_hosts-CheckedAll o now d.monitors d v.distinct v.timed v.active)
  where
    by_checked :
        (r : Option (List Monitor × Detector))
        → CheckedAll o d.monitors r
        → Holds o (do
          (ms, d₁) ← r
          some (process_success_rate_ejections now (record d₁ { monitors = ms })))
    by_checked none c = absurd c
    by_checked (some (ms, d₁)) (hs, u, t, e) =
        process-IsValid o now (record d₁ { monitors = ms })
          (record { distinct = u; timed = t; active = e })
