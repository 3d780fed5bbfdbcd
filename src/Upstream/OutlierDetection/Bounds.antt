-- ===== src/Upstream/OutlierDetection/Bounds.antt =====
-- How many hosts the detector ejects.
use meliproxy.Upstream.OutlierDetection.{
  Detector, at_host, eject_host, eject, EjectionType, Double, eject_outliers,
  process_success_rate_ejections, success_rate, max_percent, on_consecutive_5xx_worker,
  consecutive_5xx_responses, collect, Rates, Doubles, Monitor, get_success_rate,
  reset_consecutive_5xx, find_monitor, get_integer,
}
use meliproxy.Upstream.OutlierDetection.Ejections.{length-at_host}
use meliproxy.Shared.{
  length, if_cases, ◌≡◌, ◌∷◌, ℕ, ◌<◌, ◌*◌, [], ◌⊎◌, arith, List, ◌+◌, inl, ◌≤◌, ap, if◌then◌else◌,
  suc, some, inc64, Option, none, refl, ltb, leb, subst,
}

-- The gauge has not grown, or it is less than one above the limit in percent.
abbrev pub IsWithin : ℕ → ℕ → ℕ → Type 0
IsWithin limit before after = (after ≤ before) ⊎ (100 * after < limit + 100)

abbrev pub limit : Detector → ℕ
limit d = max_percent d * length d.monitors

abbrev pub active : Detector → ℕ
active d = d.stats.ejections_active

limit-eject_host :
    (now h : ℕ) (type : EjectionType) (d : Detector) → limit (eject_host now h type d) ≡ limit d
unfolding eject_host max_percent
limit-eject_host now h type d = ground (arith, length-at_host h (eject now) d.monitors)

eject_host-IsWithin :
    (now h : ℕ) (type : EjectionType) (d : Detector)
    → IsWithin (limit d) (active d) (active (eject_host now h type d))
unfolding eject_host
eject_host-IsWithin now h type d = ground arith

IsWithin-trans : (l a b c : ℕ) → IsWithin l a b → IsWithin l b c → IsWithin l a c
IsWithin-trans l a b c p q = ground arith

eject_outliers-IsWithin :
    (now : ℕ) (threshold : Double) (hosts : List (ℕ × Double)) (d : Detector)
    → IsWithin (limit d) (active d) (active (eject_outliers now threshold hosts d))
unfolding eject_outliers
eject_outliers-IsWithin now threshold [] d = inl (omega arith)
eject_outliers-IsWithin now threshold ((h, rate) ∷ hosts) d =
    if_cases (λ x. IsWithin (limit d) (active d) (active (eject_outliers now threshold hosts x)))
      (d.doubles.is_less rate threshold) _ _
      (λ t.
        IsWithin-trans (limit d) (active d) (active (eject_host now h success_rate (counted d))) _
          (eject_host-IsWithin now h success_rate (counted d))
          (subst
            (λ l. IsWithin l (active (eject_host now h success_rate (counted d))) (
              active
                (eject_outliers now threshold hosts (eject_host now h success_rate (counted d)))))
            (limit-eject_host now h success_rate (counted d))
            (eject_outliers-IsWithin now threshold hosts
              (eject_host now h success_rate (counted d)))))
      (λ t. eject_outliers-IsWithin now threshold hosts d)
  where
    counted : Detector → Detector
    counted d = record d {
      stats = record (d.stats) { ejections_success_rate = inc64 d.stats.ejections_success_rate };
    }

outliers-IsWithin :
    (now : ℕ) (threshold : Double) (hosts : List (ℕ × Double)) (d : Detector) (l : ℕ)
    → limit d ≡ l
    → IsWithin l (active d) (active (eject_outliers now threshold hosts d))
outliers-IsWithin now threshold hosts d l e =
    subst (λ l. IsWithin l (active d) (active (eject_outliers now threshold hosts d))) e
      (eject_outliers-IsWithin now threshold hosts d)

length-collect :
    (f : Doubles) (volume : ℕ) (ms : List Monitor) (sum : Double)
    → length (collect f volume ms sum).rated ≡ length ms
unfolding collect
length-collect f volume [] sum = refl
length-collect f volume (m ∷ ms) sum =
    by_rate (length-collect f volume ms sum) (λ rate. length-collect f volume ms (f.plus sum rate))
      (get_success_rate f volume m)
  where
    skipped : Rates
    skipped = record (collect f volume ms sum) { rated = m ∷ (collect f volume ms sum).rated }

    by_rate :
        length (collect f volume ms sum).rated ≡ length ms
        → ((rate : Double) → length (collect f volume ms (f.plus sum rate)).rated ≡ length ms)
        → (rate : Option Double)
        → length
            (if m.failed_outlier_check then skipped else elim rate [
              | none ↦ skipped
              | some rate ↦
                  let counted = collect f volume ms (f.plus sum rate) in
                  record counted {
                    rated = record m { host_success_rate = rate } ∷ counted.rated;
                    valid_hosts = (m.host, rate) ∷ counted.valid_hosts;
                  }
            ]).rated
          ≡ suc (length ms)
    by_rate e k none =
        if_cases (λ (r : Rates). length r.rated ≡ suc (length ms)) m.failed_outlier_check _ _
          (λ t. ap suc e) (λ t. ap suc e)
    by_rate e k (some rate) =
        if_cases (λ (r : Rates). length r.rated ≡ suc (length ms)) m.failed_outlier_check _ _
          (λ t. ap suc e) (λ t. ap suc (k rate))

-- The success rates and the consecutive errors never take the gauge of the active ejections more
-- than one host above the configured percentage of the hosts: the gauge does not grow, or a hundred times
-- it is less than a hundred above the percentage times the number of hosts.
pub ejections-IsWithin :
    (now h : ℕ) (d : Detector)
    → IsWithin (limit d) (active d) (active (process_success_rate_ejections now d))
      × IsWithin (limit d) (active d) (active (on_consecutive_5xx_worker now h d))
unfolding process_success_rate_ejections on_consecutive_5xx_worker max_percent
ejections-IsWithin now h d = (by_hosts, by_monitor (find_monitor h d.monitors))
  where
    minimum_hosts : ℕ
    minimum_hosts =
        get_integer d.runtime "outlier_detection.success_rate_minimum_hosts"
          d.config.success_rate_minimum_hosts

    request_volume : ℕ
    request_volume =
        get_integer d.runtime "outlier_detection.success_rate_request_volume"
          d.config.success_rate_request_volume

    rates : Rates
    rates = collect d.doubles request_volume d.monitors (d.doubles.from 0)

    by_hosts : IsWithin (limit d) (active d) (active (process_success_rate_ejections now d))
    by_hosts =
        if_cases (λ x. IsWithin (limit d) (active d) (active x))
          (ltb (length d.monitors) minimum_hosts) _ _ (λ t. inl (omega arith))
          (λ t.
            if_cases (λ x. IsWithin (limit d) (active d) (active x))
              (leb minimum_hosts (length rates.valid_hosts)) _ _
              (λ t. outliers-IsWithin now _ rates.valid_hosts _ (limit d) (
                ap (λ n. max_percent d * n)
                  (length-collect d.doubles request_volume d.monitors (d.doubles.from 0))))
              (λ t. inl (omega arith)))

    counted : Detector
    counted = record d {
      stats = record (d.stats) {
        ejections_consecutive_5xx = inc64 d.stats.ejections_consecutive_5xx;
      };
    }

    by_monitor :
        (m : Option Monitor)
        → IsWithin (limit d) (active d) (
            active (elim m [
              | none ↦ d
              | some m ↦
                  let d₁ = eject_host now h consecutive_5xx_responses (record d {
                    stats = record (d.stats) {
                      ejections_consecutive_5xx = inc64 d.stats.ejections_consecutive_5xx;
                    };
                  }) in
                  if m.failed_outlier_check
                  then d
                  else record d₁ { monitors = at_host h reset_consecutive_5xx d₁.monitors }
            ]))
    by_monitor none = inl (omega arith)
    by_monitor (some m) =
        if_cases (λ x. IsWithin (limit d) (active d) (active x)) m.failed_outlier_check _ _
          (λ t. inl (omega arith))
          (λ t. eject_host-IsWithin now h consecutive_5xx_responses counted)
