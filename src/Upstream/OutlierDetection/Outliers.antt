-- ===== src/Upstream/OutlierDetection/Outliers.antt =====
-- Ejections for a low success rate.
use meliproxy.Upstream.OutlierDetection.{
  Monitor, Detector, eject_host, eject, EjectionType, Double, Doubles, Rates, collect,
  eject_outliers, process_success_rate_ejections, success_rate, get_success_rate, get_integer,
}
use meliproxy.Upstream.OutlierDetection.Ejections.{
  has, is_free, IsDistinct, IsTimed, IsValid, ejected, bit, is_free-at_host, eject_host-IsValid,
  is_some,
}
use meliproxy.Shared.{
  true, ℕ, ◌∷◌, ◌==◌, refl, false, inc64, ◌∙◌, All, List, arith, if_cases, ◌≡◌, [], Option,
  Bool-cases, ◌%◌, ◌^◌, inr, suc, ap, ◌+◌, sym, some, none, length, inl, ==_iff, leb, ltb,
}

-- The hosts of a list of rates are distinct, have monitors and are not ejected.
abbrev pub Fits : List Monitor → List (ℕ × Double) → Type 0
Fits ms [] = Unit
Fits ms ((h, rate) ∷ hosts) =
    (is_free h ms ≡ true) × All (λ x. (x.0 == h) ≡ false) hosts × Fits ms hosts

has-is_free : (h : ℕ) (ms : List Monitor) → is_free h ms ≡ true → has h ms ≡ true
has-is_free h [] e = absurd (cc e)
has-is_free h (m ∷ ms) e = ground (arith, has-is_free h ms)

monitors-eject_host :
    (now h k : ℕ) (type : EjectionType) (d : Detector)
    → (k == h) ≡ false
    → is_free k (eject_host now h type d).monitors ≡ is_free k d.monitors
unfolding eject_host eject
monitors-eject_host now h k type d n =
    ground (arith, is_free-at_host k h (eject now) d.monitors (λ m. refl) n)

Fits-eject_host :
    (now h : ℕ) (type : EjectionType) (d : Detector) (hosts : List (ℕ × Double))
    → All (λ x. (x.0 == h) ≡ false) hosts
    → Fits d.monitors hosts
    → Fits (eject_host now h type d).monitors hosts
Fits-eject_host now h type d [] n f = tt
Fits-eject_host now h type d ((k, rate) ∷ hosts) (a, n) (e, b, f) =
    (monitors-eject_host now h k type d a ∙ e, b, Fits-eject_host now h type d hosts n f)

eject_outliers-IsValid :
    (o now : ℕ) (threshold : Double) (hosts : List (ℕ × Double)) (d : Detector)
    → Fits d.monitors hosts
    → IsValid o d
    → IsValid o (eject_outliers now threshold hosts d)
unfolding eject_outliers
eject_outliers-IsValid o now threshold [] d f v = v
eject_outliers-IsValid o now threshold ((h, rate) ∷ hosts) d (e, n, f) v =
    if_cases (λ x. IsValid o (eject_outliers now threshold hosts x))
      (d.doubles.is_less rate threshold) _ _
      (λ t.
        eject_outliers-IsValid o now threshold hosts (eject_host now h success_rate (counted d))
          (Fits-eject_host now h success_rate (counted d) hosts n f)
          (eject_host-IsValid o now h success_rate (counted d) e
            (record { distinct = v.distinct; timed = v.timed; active = v.active })))
      (λ t. eject_outliers-IsValid o now threshold hosts d f v)
  where
    counted : Detector → Detector
    counted d = record d {
      stats = record (d.stats) { ejections_success_rate = inc64 d.stats.ejections_success_rate };
    }

-- The same hosts, flags and times of ejection.
abbrev pub Same : List Monitor → List Monitor → Type 0
Same [] [] = Unit
Same [] (n ∷ ns) = ⊥
Same (m ∷ ms) [] = ⊥
Same (m ∷ ms) (n ∷ ns) =
    (n.host ≡ m.host)
    × (n.failed_outlier_check ≡ m.failed_outlier_check)
    × (n.last_ejection_time ≡ m.last_ejection_time)
    × Same ms ns

Same-has : (k : ℕ) (ms ns : List Monitor) → Same ms ns → has k ns ≡ has k ms
Same-has k [] [] s = refl
Same-has k [] (n ∷ ns) s = absurd s
Same-has k (m ∷ ms) [] s = absurd s
Same-has k (m ∷ ms) (n ∷ ns) (a, b, c, s) = ground (arith, a, Same-has k ms ns s)

Same-is_free : (k : ℕ) (ms ns : List Monitor) → Same ms ns → is_free k ns ≡ is_free k ms
Same-is_free k [] [] s = refl
Same-is_free k [] (n ∷ ns) s = absurd s
Same-is_free k (m ∷ ms) [] s = absurd s
Same-is_free k (m ∷ ms) (n ∷ ns) (a, b, c, s) = ground (arith, a, b, Same-is_free k ms ns s)

pub Same-length : (ms ns : List Monitor) → Same ms ns → length ns ≡ length ms
Same-length [] [] s = refl
Same-length [] (n ∷ ns) s = absurd s
Same-length (m ∷ ms) [] s = absurd s
Same-length (m ∷ ms) (n ∷ ns) (a, b, c, s) = ap suc (Same-length ms ns s)

Same-ejected : (ms ns : List Monitor) → Same ms ns → ejected ns ≡ ejected ms
Same-ejected [] [] s = refl
Same-ejected [] (n ∷ ns) s = absurd s
Same-ejected (m ∷ ms) [] s = absurd s
Same-ejected (m ∷ ms) (n ∷ ns) (a, b, c, s) = omega (arith, ap bit b, Same-ejected ms ns s)

Same-IsDistinct : (ms ns : List Monitor) → Same ms ns → IsDistinct ms → IsDistinct ns
Same-IsDistinct [] [] s d = tt
Same-IsDistinct [] (n ∷ ns) s d = absurd s
Same-IsDistinct (m ∷ ms) [] s d = absurd s
Same-IsDistinct (m ∷ ms) (n ∷ ns) (a, b, c, s) (e, d) =
    (ap (λ k. has k ns) a ∙ Same-has m.host ms ns s ∙ e, Same-IsDistinct ms ns s d)

Same-IsTimed : (ms ns : List Monitor) → Same ms ns → All IsTimed ms → All IsTimed ns
Same-IsTimed [] [] s d = tt
Same-IsTimed [] (n ∷ ns) s d = absurd s
Same-IsTimed (m ∷ ms) [] s d = absurd s
Same-IsTimed (m ∷ ms) (n ∷ ns) (a, b, c, s) (e, d) =
    (λ t. ap is_some c ∙ e (sym b ∙ t), Same-IsTimed ms ns s d)

Same-Fits :
    (ms ns : List Monitor) (hosts : List (ℕ × Double)) → Same ms ns → Fits ms hosts → Fits ns hosts
Same-Fits ms ns [] s f = tt
Same-Fits ms ns ((h, rate) ∷ hosts) s (a, b, f) =
    (Same-is_free h ms ns s ∙ a, b, Same-Fits ms ns hosts s f)

pub Same-IsValid :
    (o : ℕ) (ns : List Monitor) (d : Detector)
    → Same d.monitors ns
    → IsValid o d
    → IsValid o (record d { monitors = ns })
Same-IsValid o ns d s v = record {
  distinct = Same-IsDistinct d.monitors ns s v.distinct;
  timed = Same-IsTimed d.monitors ns s v.timed;
  active = v.active ∙ ap (λ n. (o + n) % 2 ^ 64) (sym (Same-ejected d.monitors ns s));
}

-- A host in front that the rates do not name.
Fits-apart :
    (k : ℕ) (ms : List Monitor) (hosts : List (ℕ × Double))
    → has k ms ≡ false
    → Fits ms hosts
    → All (λ x. (x.0 == k) ≡ false) hosts
Fits-apart k ms [] e f = tt
Fits-apart k ms ((h, rate) ∷ hosts) e (a, b, f) = (apart, Fits-apart k ms hosts e f)
  where
    apart : (h == k) ≡ false
    apart = elim (Bool-cases (h == k)) [
      | inl t ↦ absurd (differ (has-is_free h ms a) e ((==_iff h k).0 t))
      | inr t ↦ t
    ]
      where
        differ : has h ms ≡ true → has k ms ≡ false → h ≡ k → ⊥
        differ a e s = cc

Fits-front :
    (m : Monitor) (ms : List Monitor) (hosts : List (ℕ × Double))
    → All (λ x. (x.0 == m.host) ≡ false) hosts
    → Fits ms hosts
    → Fits (m ∷ ms) hosts
Fits-front m ms [] e f = tt
Fits-front m ms ((h, rate) ∷ hosts) (e, es) (a, b, f) =
    (ground arith, b, Fits-front m ms hosts es f)

-- What the first loop gives.
abbrev pub Collects : List Monitor → Rates → Type 0
Collects ms r = Same ms r.rated × Fits ms r.valid_hosts

pub collect-Collects :
    (f : Doubles) (volume : ℕ) (ms : List Monitor) (sum : Double)
    → IsDistinct ms
    → Collects ms (collect f volume ms sum)
unfolding collect
collect-Collects f volume [] sum d = (tt, tt)
collect-Collects f volume (m ∷ ms) sum (a, d) =
    if_cases (Collects (m ∷ ms)) m.failed_outlier_check _ _
      (λ t. skips (collect-Collects f volume ms sum d))
      (λ t. by_rate t (λ sum. collect-Collects f volume ms sum d) (get_success_rate f volume m))
  where
    in_front : (r : Rates) → Collects ms r → Fits (m ∷ ms) r.valid_hosts
    in_front r (s, fit) =
        Fits-front m ms r.valid_hosts (Fits-apart m.host ms r.valid_hosts a fit) fit

    skips :
        Collects ms (collect f volume ms sum)
        → Collects
            (m ∷ ms)
            (record (collect f volume ms sum) { rated = m ∷ (collect f volume ms sum).rated })
    skips c = ((refl, refl, refl, c.0), in_front (collect f volume ms sum) c)

    by_rate :
        m.failed_outlier_check ≡ false
        → ((sum : Double) → Collects ms (collect f volume ms sum))
        → (rate : Option Double)
        → Collects (m ∷ ms) (elim rate [
          | none ↦ record (collect f volume ms sum) { rated = m ∷ (collect f volume ms sum).rated }
          | some rate ↦
              let counted = collect f volume ms (f.plus sum rate) in
              record counted {
                rated = record m { host_success_rate = rate } ∷ counted.rated;
                valid_hosts = (m.host, rate) ∷ counted.valid_hosts;
              }
        ])
    by_rate t c none = skips (c sum)
    by_rate t c (some rate) =
        let counted = collect f volume ms (f.plus sum rate) in
        let k = c (f.plus sum rate) in
        (
          (refl, refl, refl, k.0),
          (free, Fits-apart m.host ms counted.valid_hosts a k.1, in_front counted k),
        )
      where
        free : is_free m.host (m ∷ ms) ≡ true
        free = ground arith

pub process-IsValid :
    (o now : ℕ) (d : Detector) → IsValid o d → IsValid o (process_success_rate_ejections now d)
unfolding process_success_rate_ejections
process-IsValid o now d v =
    if_cases (IsValid o) (ltb (length d.monitors) minimum_hosts) _ _
      (λ t. record { distinct = v.distinct; timed = v.timed; active = v.active })
      (λ t.
        if_cases (IsValid o) (leb minimum_hosts (length rates.valid_hosts)) _ _
          (λ t.
            eject_outliers-IsValid o now _ rates.valid_hosts _
              (Same-Fits d.monitors rates.rated rates.valid_hosts c.0 c.1)
              (record { distinct = w.distinct; timed = w.timed; active = w.active }))
          (λ t. record { distinct = w.distinct; timed = w.timed; active = w.active }))
  where
    minimum_hosts : ℕ
    minimum_hosts =
        get_integer d.runtime "outlier_detection.success_rate_minimum_hosts"
          d.config.success_rate_minimum_hosts

    request_volume : ℕ
    request_volume =
        get_integer d.runtime "outlier_detection.success_rate_request_volume"
          d.config.success_rate_request_volume

    rates : Rates
    rates = collect d.doubles request_volume d.monitors (d.doubles.from 0)

    c : Collects d.monitors rates
    c = collect-Collects d.doubles request_volume d.monitors (d.doubles.from 0) v.distinct

    w : IsValid o (record d { monitors = rates.rated })
    w = Same-IsValid o rates.rated d c.0 v
