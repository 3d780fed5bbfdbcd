-- ===== src/Common/StringUtil/Tests.antt =====
-- Runs of StringUtil, and its theorems at concrete inputs.
use meliproxy.Common.StringUtil.{split, join, itoa, low_digits}
use meliproxy.Common.StringUtil.Split.{join-split, split-filled, filled}
use meliproxy.Shared.{◌∷◌, refl, false, ◌≡◌, some, [], arith, true, codes, ◌≢◌, ℕ}

split_commas : split (codes "a,,b,") (codes ",") true ≡ codes "a" ∷ [] ∷ codes "b" ∷ [] ∷ []
unfolding split
split_commas = refl

itoa_1024 : itoa 31 1024 ≡ some (codes "1024")
unfolding itoa low_digits
itoa_1024 = refl

join-split_example : join (split (codes "a,,b,") (codes ",") true) (codes ",") ≡ codes "a,,b,"
join-split_example =
    join-split (codes "a,,b,") (codes ",") (omega arith) (no_zero, tt) (omega arith)
  where
    no_zero : ◌≢◌ {A = ℕ} b',' 0
    no_zero = omega arith

split-filled_example :
    split (codes "a,,b,") (codes ",") false ≡ filled (split (codes "a,,b,") (codes ",") true)
split-filled_example = split-filled (codes "a,,b,") (codes ",") (omega arith)

-- A delimiter of one byte 0 is not written, and a byte of the joined string is cut off in its place.
join_zero : join ((97 ∷ []) ∷ (98 ∷ []) ∷ []) (0 ∷ []) ≡ 97 ∷ []
unfolding join
join_zero = refl
