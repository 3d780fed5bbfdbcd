-- ===== src/Runtime/Sampling.antt =====
-- What the samplings of `featureEnabled` have in common.
use Prim.Native.String.{String}
use native.Mathlib.Nat.{mod-eq_of_lt}
use meliproxy.Runtime.{
  Snapshot, Random, get_integer, feature_enabled_of, feature_enabled_at, feature_enabled,
}
use meliproxy.Shared.{◌≡◌, ◌+◌, ◌&&◌, ℕ, ◌≤◌, arith, zero, if◌then◌else◌, suc, ltb, min}

-- `featureEnabled` with the generator answers as it does with the generator's next value as the
-- random value, although it does not always take that value: it takes one value if the integer under
-- the key is between 1 and 99, and none otherwise.
pub feature_enabled-sampled :
    (s : Snapshot) (r : Random) (key : String) (d : ℕ)
    → ((feature_enabled s r key d).0 ≡ feature_enabled_at s key d (r.draws r.used))
      × ((feature_enabled s r key d).1.used ≡ (
          if ltb 0 (get_integer s key d) && ltb (get_integer s key d) 100
          then r.used + 1
          else r.used))
unfolding feature_enabled feature_enabled_at feature_enabled_of
feature_enabled-sampled s r key d = (ground arith, ground arith)

-- Over the random values below a number of buckets, a feature is on for as many as the integer
-- under its key, and for all of them if that is larger.
abbrev pub enabled_below : Snapshot → String → ℕ → ℕ → ℕ → ℕ
enabled_below s key d buckets zero = 0
enabled_below s key d buckets (suc n) =
    (if feature_enabled_of s key d n buckets then 1 else 0) + enabled_below s key d buckets n

enabled_below_lem :
    (s : Snapshot) (key : String) (d buckets n : ℕ)
    → n ≤ buckets
    → enabled_below s key d buckets n ≡ min (get_integer s key d) n
unfolding feature_enabled_of
enabled_below_lem s key d buckets zero h = omega arith
enabled_below_lem s key d buckets (suc n) h =
    ground (arith, enabled_below_lem s key d buckets n, mod-eq_of_lt h)

-- Of the random values below the number of buckets, `featureEnabled` is true for exactly as many as
-- the integer under its key, or for all of them if that is larger.
pub feature_enabled_of-share :
    (s : Snapshot) (key : String) (d buckets : ℕ)
    → enabled_below s key d buckets buckets ≡ min (get_integer s key d) buckets
feature_enabled_of-share s key d buckets = enabled_below_lem s key d buckets buckets (omega arith)
