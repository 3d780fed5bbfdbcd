-- ===== src/Runtime.antt =====
-- envoy/envoy/source/common/runtime: the snapshot of runtime values, and the random generator.
pub mod Sampling
pub mod Tests
use text.Mathlib.Text.{◌==◌ as str_eq}
use Prim.Native.String.{String}
use meliproxy.Shared.{
  List, if◌then◌else◌, ◌==◌, ℕ, ◌+◌, min, some, [], false, ◌%◌, none, Bool, ltb, Option, ◌∷◌, Bytes,
  true,
}

pub record Entry : Type 0 where
  pub string_value : Bytes
  pub uint_value : Option ℕ

-- `values_`, as the list of its entries. A key stands once in it.
abbrev pub Snapshot : Type 0
Snapshot = List (String × Entry)

unfoldable pub find : Snapshot → String → Option Entry
find [] key = none
find ((k, e) ∷ s) key = if str_eq k key then some e else find s key

-- `get`: the empty string for a missing key.
pub get : Snapshot → String → Bytes
get s key = elim (find s key) [ none ↦ [] | some e ↦ e.string_value ]

unfoldable pub get_integer : Snapshot → String → ℕ → ℕ
unfolding find
get_integer s key default_value = elim (find s key) [
  | none ↦ default_value
  | some e ↦ elim e.uint_value [ none ↦ default_value | some v ↦ v ]
]

-- RandomGenerator: `draws` are the values that the operating system's generator will give, and
-- `used` says how many have been taken.
pub record Random : Type 0 where
  pub draws : ℕ → ℕ
  pub used : ℕ

abbrev pub random : Random → ℕ × Random
random r = (r.draws r.used, record r { used = r.used + 1 })

-- `featureEnabled` with a random value and a number of buckets, which is not 0 in the code's calls.
unfoldable pub feature_enabled_of : Snapshot → String → ℕ → ℕ → ℕ → Bool
feature_enabled_of s key default_value random_value num_buckets =
    ltb (random_value % num_buckets) (min (get_integer s key default_value) num_buckets)

-- `featureEnabled` with a random value.
pub feature_enabled_at : Snapshot → String → ℕ → ℕ → Bool
feature_enabled_at s key default_value random_value =
    feature_enabled_of s key default_value random_value 100

-- `featureEnabled` with the generator, which is left alone where the outcome does not need it.
unfoldable pub feature_enabled : Snapshot → Random → String → ℕ → Bool × Random
feature_enabled s r key default_value =
    let cutoff = min (get_integer s key default_value) 100 in
    let (draw, r') = random r in
    if cutoff == 0
    then (false, r)
    else if cutoff == 100
    then (true, r)
    else (ltb (draw % 100) cutoff, r')
