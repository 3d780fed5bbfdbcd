-- ===== src/Upstream/OutlierDetection/Ejections.antt =====
-- The gauge of the active ejections counts the hosts that are ejected.
use meliproxy.Upstream.OutlierDetection.{
  Monitor, Detector, at_host, find_monitor, eject_host, eject, EjectionType, enforce_ejection,
  max_percent,
}
use meliproxy.Shared.{
  Bool, ap, false, ◌+◌, some, if_cases, ℕ, refl, ◌%◌, if◌then◌else◌, suc, Option, ◌≡◌, not, [], ◌^◌,
  All, none, ◌∙◌, arith, length, ◌==◌, ◌||◌, ◌∷◌, true, List, some_inj, inr, ltb, Bool-cases, ◌*◌,
  inl,
}

abbrev pub bit : Bool → ℕ
bit true = 1
bit false = 0

-- How many hosts are ejected.
abbrev pub ejected : List Monitor → ℕ
ejected [] = 0
ejected (m ∷ ms) = bit m.failed_outlier_check + ejected ms

abbrev pub has : ℕ → List Monitor → Bool
has h [] = false
has h (m ∷ ms) = m.host == h || has h ms

abbrev pub IsDistinct : List Monitor → Type 0
IsDistinct [] = Unit
IsDistinct (m ∷ ms) = (has m.host ms ≡ false) × IsDistinct ms

abbrev pub is_some {ℓ} : {A : Type ℓ} → Option A → Bool
is_some none = false
is_some (some a) = true

-- An ejected host has its time of ejection.
abbrev pub IsTimed : Monitor → Type 0
IsTimed m = m.failed_outlier_check ≡ true → is_some m.last_ejection_time ≡ true

-- `others` is what detectors of the same name have counted in the gauge.
pub record IsValid (others : ℕ) (d : Detector) : Type 0 where
  pub distinct : IsDistinct d.monitors
  pub timed : All IsTimed d.monitors
  pub active : d.stats.ejections_active ≡ (others + ejected d.monitors) % 2 ^ 64

-- Whether a host has a monitor and is not ejected.
abbrev pub is_free : ℕ → List Monitor → Bool
is_free h [] = false
is_free h (m ∷ ms) = if m.host == h then not m.failed_outlier_check else is_free h ms

abbrev pub KeepsHost : (Monitor → Monitor) → Type 0
KeepsHost f = (m : Monitor) → (f m).host ≡ m.host

pub has-at_host :
    (k h : ℕ) (f : Monitor → Monitor) (ms : List Monitor)
    → KeepsHost f
    → has k (at_host h f ms) ≡ has k ms
unfolding at_host
has-at_host k h f [] e = refl
has-at_host k h f (m ∷ ms) e = ground (arith, e m, has-at_host k h f ms e)

pub at_host-IsDistinct :
    (h : ℕ) (f : Monitor → Monitor) (ms : List Monitor)
    → KeepsHost f
    → IsDistinct ms
    → IsDistinct (at_host h f ms)
unfolding at_host
at_host-IsDistinct h f [] e d = tt
at_host-IsDistinct h f (m ∷ ms) e (a, d) =
    if_cases IsDistinct (m.host == h) _ _ (λ t. (ap (λ k. has k ms) (e m) ∙ a, d))
      (λ t. (has-at_host m.host h f ms e ∙ a, at_host-IsDistinct h f ms e d))

pub All-at_host :
    (P : Monitor → Type 0) (h : ℕ) (f : Monitor → Monitor) (ms : List Monitor)
    → ((m : Monitor) → P m → P (f m))
    → All P ms
    → All P (at_host h f ms)
unfolding at_host
All-at_host P h f [] e a = tt
All-at_host P h f (m ∷ ms) e (p, a) =
    if_cases (All P) (m.host == h) _ _ (λ t. (e m p, a)) (λ t. (p, All-at_host P h f ms e a))

pub length-at_host :
    (h : ℕ) (f : Monitor → Monitor) (ms : List Monitor) → length (at_host h f ms) ≡ length ms
unfolding at_host
length-at_host h f [] = refl
length-at_host h f (m ∷ ms) = ground (arith, length-at_host h f ms)

pub is_free-at_host :
    (k h : ℕ) (f : Monitor → Monitor) (ms : List Monitor)
    → KeepsHost f
    → (k == h) ≡ false
    → is_free k (at_host h f ms) ≡ is_free k ms
unfolding at_host
is_free-at_host k h f [] e n = refl
is_free-at_host k h f (m ∷ ms) e n = ground (arith, e m, is_free-at_host k h f ms e n)

-- A change that keeps the flag keeps the number of ejected hosts.
pub ejected-at_host :
    (h : ℕ) (f : Monitor → Monitor) (ms : List Monitor)
    → ((m : Monitor) → (f m).failed_outlier_check ≡ m.failed_outlier_check)
    → ejected (at_host h f ms) ≡ ejected ms
unfolding at_host
ejected-at_host h f [] e = refl
ejected-at_host h f (m ∷ ms) e =
    if_cases (λ l. ejected l ≡ ejected (m ∷ ms)) (m.host == h) _ _
      (λ t. ap (λ b. bit b + ejected ms) (e m))
      (λ t. ap (λ n. bit m.failed_outlier_check + n) (ejected-at_host h f ms e))

ejected-eject :
    (now h : ℕ) (ms : List Monitor)
    → is_free h ms ≡ true
    → ejected (at_host h (eject now) ms) ≡ suc (ejected ms)
unfolding at_host eject
ejected-eject now h [] e = cc
ejected-eject now h (m ∷ ms) e = ground (arith, ejected-eject now h ms)

pub free-find_monitor :
    (h : ℕ) (m : Monitor) (ms : List Monitor)
    → find_monitor h ms ≡ some m
    → m.failed_outlier_check ≡ false
    → is_free h ms ≡ true
unfolding find_monitor
free-find_monitor h m [] e f = absurd (cc e)
free-find_monitor h m (x ∷ ms) e f = elim (Bool-cases (x.host == h)) [
  | inl t ↦
      let same : x ≡ m = some_inj (rw (t, find_monitor) at e) in
      rw t (rw (ap (λ m. m.failed_outlier_check) same ∙ f) refl)
  | inr t ↦ rw t (free-find_monitor h m ms (rw (t, find_monitor) at e) f)
]

-- The number of ejected hosts and their stay in the list, after `ejectHost`.
pub eject_host-IsValid :
    (o now h : ℕ) (type : EjectionType) (d : Detector)
    → is_free h d.monitors ≡ true
    → IsValid o d
    → IsValid o (eject_host now h type d)
unfolding eject_host eject
eject_host-IsValid o now h type d e v =
    if_cases (IsValid o) (ltb (100 * d.stats.ejections_active) (max_percent d * length d.monitors))
      _ _
      (λ t.
        if_cases (IsValid o) (enforce_ejection type d).0 _ _
          (λ t. record {
            distinct = at_host-IsDistinct h (eject now) d.monitors (λ m. refl) v.distinct;
            timed = All-at_host IsTimed h (eject now) d.monitors (λ m t e. refl) v.timed;
            active = omega (arith, v, ejected-eject now h d.monitors e);
          })
          (λ t. record { distinct = v.distinct; timed = v.timed; active = v.active }))
      (λ t. record { distinct = v.distinct; timed = v.timed; active = v.active })
