-- ===== src/Upstream/OutlierDetection/Steps.antt =====
-- Every event of a detector keeps the gauge of the active ejections.
use meliproxy.Upstream.OutlierDetection.{
  Monitor, Detector, at_host, find_monitor, eject_host, erase, on_consecutive_5xx_worker,
  consecutive_5xx_responses, reset_consecutive_5xx, put_http_response_code, responds, run_posted,
  remove_host, add_host_monitor, fresh_monitor, Event, step, host_responds, main_thread_runs,
  interval_passes, host_added, host_removed, update_current_bucket, is_5xx,
}
use meliproxy.Upstream.OutlierDetection.Ejections.{
  has, IsDistinct, IsTimed, IsValid, ejected, bit, at_host-IsDistinct, All-at_host, ejected-at_host,
  eject_host-IsValid, free-find_monitor, is_some,
}
use meliproxy.Upstream.OutlierDetection.Interval.{Holds, on_interval_timer-Holds}
use meliproxy.Shared.{
  some, ap, some_inj, ◌++◌, ℕ, if◌then◌else◌, ◌+◌, Bool-cases, inc64, ◌≡◌, none, [], Option, sym,
  inr, ◌^◌, ◌%◌, All, ◌==◌, false, ◌∷◌, arith, inl, refl, if_cases, List, ◌∙◌, Bool, true, dec64,
}

-- A change of a monitor that keeps its host, its flag and its time of ejection.
pub changed-IsValid :
    (o h : ℕ) (f : Monitor → Monitor) (d : Detector)
    → ((m : Monitor) → (f m).host ≡ m.host)
    → ((m : Monitor) → (f m).failed_outlier_check ≡ m.failed_outlier_check)
    → ((m : Monitor) → (f m).last_ejection_time ≡ m.last_ejection_time)
    → IsValid o d
    → IsValid o (record d { monitors = at_host h f d.monitors })
changed-IsValid o h f d a b c v = record {
  distinct = at_host-IsDistinct h f d.monitors a v.distinct;
  timed =
      All-at_host IsTimed h f d.monitors (λ m t e. ap is_some (c m) ∙ t (sym (b m) ∙ e)) v.timed;
  active = v.active ∙ ap (λ n. (o + n) % 2 ^ 64) (sym (ejected-at_host h f d.monitors b));
}

on_consecutive_5xx_worker-IsValid :
    (o now h : ℕ) (d : Detector) → IsValid o d → IsValid o (on_consecutive_5xx_worker now h d)
unfolding on_consecutive_5xx_worker
on_consecutive_5xx_worker-IsValid o now h d v = by_monitor (find_monitor h d.monitors) refl
  where
    counted : Detector
    counted = record d {
      stats = record (d.stats) {
        ejections_consecutive_5xx = inc64 d.stats.ejections_consecutive_5xx;
      };
    }

    by_monitor :
        (m : Option Monitor)
        → find_monitor h d.monitors ≡ m
        → IsValid o (elim m [
          | none ↦ d
          | some m ↦
              let d₁ = eject_host now h consecutive_5xx_responses (record d {
                stats = record (d.stats) {
                  ejections_consecutive_5xx = inc64 d.stats.ejections_consecutive_5xx;
                };
              }) in
              if m.failed_outlier_check
              then d
              else record d₁ { monitors = at_host h reset_consecutive_5xx d₁.monitors }
        ])
    by_monitor none e = v
    by_monitor (some m) e =
        if_cases (IsValid o) m.failed_outlier_check _ _ (λ t. v)
          (λ t.
            changed-IsValid o h reset_consecutive_5xx
              (eject_host now h consecutive_5xx_responses counted) (λ m. refl) (λ m. refl)
              (λ m. refl)
              (eject_host-IsValid o now h consecutive_5xx_responses counted
                (free-find_monitor h m d.monitors e t)
                (record { distinct = v.distinct; timed = v.timed; active = v.active })))

put-keeps :
    (d : Detector) (code : ℕ) (m : Monitor)
    → ((put_http_response_code d code m).0.host ≡ m.host)
      × ((put_http_response_code d code m).0.failed_outlier_check ≡ m.failed_outlier_check)
      × ((put_http_response_code d code m).0.last_ejection_time ≡ m.last_ejection_time)
unfolding put_http_response_code
put-keeps d code m =
    if_cases
      (λ (r : Monitor × Bool).
        (r.0.host ≡ m.host)
        × (r.0.failed_outlier_check ≡ m.failed_outlier_check)
        × (r.0.last_ejection_time ≡ m.last_ejection_time))
      (is_5xx code) _ _ (λ t. (refl, refl, refl)) (λ t. (refl, refl, refl))

responds-IsValid : (o h code : ℕ) (d : Detector) → IsValid o d → IsValid o (responds h code d)
unfolding responds
responds-IsValid o h code d v = by_monitor (find_monitor h d.monitors)
  where
    w :
        IsValid o
          (record d { monitors = at_host h (λ m. (put_http_response_code d code m).0) d.monitors })
    w =
        changed-IsValid o h (λ m. (put_http_response_code d code m).0) d
          (λ m. (put-keeps d code m).0) (λ m. (put-keeps d code m).1) (λ m. (put-keeps d code m).2)
          v

    by_monitor :
        (m : Option Monitor)
        → IsValid o (elim m [
          | none ↦ d
          | some m ↦ record d {
            monitors = at_host h (λ m. (put_http_response_code d code m).0) d.monitors;
            posted = if (put_http_response_code d code m).1 then d.posted ++ (h ∷ []) else d.posted;
          }
        ])
    by_monitor none = v
    by_monitor (some m) = record { distinct = w.distinct; timed = w.timed; active = w.active }

has-erase : (k h : ℕ) (ms : List Monitor) → has k ms ≡ false → has k (erase h ms) ≡ false
unfolding erase
has-erase k h [] e = refl
has-erase k h (m ∷ ms) e = ground (arith, has-erase k h ms)

erase-keeps :
    (h : ℕ) (ms : List Monitor)
    → IsDistinct ms
    → All IsTimed ms
    → IsDistinct (erase h ms) × All IsTimed (erase h ms)
unfolding erase
erase-keeps h [] u t = (tt, tt)
erase-keeps h (m ∷ ms) (a, u) (t, ts) =
    let (us, tss) = erase-keeps h ms u ts in
    if_cases (λ l. IsDistinct l × All IsTimed l) (m.host == h) _ _ (λ e. (u, ts))
      (λ e. ((has-erase m.host h ms a, us), (t, tss)))

ejected-erase :
    (h : ℕ) (m : Monitor) (ms : List Monitor)
    → find_monitor h ms ≡ some m
    → ejected ms ≡ bit m.failed_outlier_check + ejected (erase h ms)
unfolding find_monitor erase
ejected-erase h m [] e = absurd (cc e)
ejected-erase h m (x ∷ ms) e = elim (Bool-cases (x.host == h)) [
  | inl t ↦
      rw t
        (ap (λ m. bit m.failed_outlier_check + ejected ms) (some_inj (rw (t, find_monitor) at e)))
  | inr t ↦ rw t (omega (arith, ejected-erase h m ms (rw (t, find_monitor) at e)))
]

remove_host-IsValid : (o h : ℕ) (d : Detector) → IsValid o d → IsValid o (remove_host h d)
unfolding remove_host
remove_host-IsValid o h d v = by_monitor (find_monitor h d.monitors) refl
  where
    by_monitor :
        (m : Option Monitor)
        → find_monitor h d.monitors ≡ m
        → IsValid o (elim m [
          | none ↦ d
          | some m ↦ record d {
            monitors = erase h d.monitors;
            stats = record (d.stats) {
              ejections_active =
                  if m.failed_outlier_check
                  then dec64 d.stats.ejections_active
                  else d.stats.ejections_active;
            };
          }
        ])
    by_monitor none e = v
    by_monitor (some m) e = record {
      distinct = (erase-keeps h d.monitors v.distinct v.timed).0;
      timed = (erase-keeps h d.monitors v.distinct v.timed).1;
      active = gone m.failed_outlier_check (ejected-erase h m d.monitors e);
    }
      where
        gone :
            (b : Bool)
            → ejected d.monitors ≡ bit b + ejected (erase h d.monitors)
            → (if b then dec64 d.stats.ejections_active else d.stats.ejections_active)
              ≡ (o + ejected (erase h d.monitors)) % 2 ^ 64
        gone true e = omega (arith, v.active, e)
        gone false e = omega (arith, v.active, e)

-- A host is added once, and not again before it is removed; and it is added with a clear flag, so that a host that
-- was removed while it was ejected is not added again as it is.
abbrev pub IsPossible : Event → Detector → Type 0
IsPossible (host_added h failed) d = (has h d.monitors ≡ false) × (failed ≡ false)
IsPossible (host_responds h code) d = Unit
IsPossible (main_thread_runs now) d = Unit
IsPossible (interval_passes now) d = Unit
IsPossible (host_removed h) d = Unit

-- From a valid detector no event throws, and each leaves the detector valid: its hosts are distinct,
-- an ejected host has its time of ejection, and the gauge of the active ejections counts the ejected
-- hosts, beside what others count in it. A host is only added while it has no monitor and its flag
-- FAILED_OUTLIER_CHECK is clear.
pub step-Holds :
    (o : ℕ) (e : Event) (d : Detector) → IsValid o d → IsPossible e d → Holds o (step e d)
unfolding step run_posted add_host_monitor fresh_monitor update_current_bucket
step-Holds o (host_responds h code) d v p = responds-IsValid o h code d v
step-Holds o (main_thread_runs now) d v p = by_posted d.posted
  where
    by_posted : (hs : List ℕ) → IsValid o (run_posted now hs d)
    by_posted [] = v
    by_posted (h ∷ hs) =
        on_consecutive_5xx_worker-IsValid o now h (record d { posted = hs })
          (record { distinct = v.distinct; timed = v.timed; active = v.active })
step-Holds o (interval_passes now) d v p = on_interval_timer-Holds o now d v
step-Holds o (host_added h failed) d v (p, q) = record {
  distinct = (p, v.distinct);
  timed = ((λ e. absurd (ground arith)), v.timed);
  active = rw q (omega (arith, v.active));
}
step-Holds o (host_removed h) d v p = remove_host-IsValid o h d v
