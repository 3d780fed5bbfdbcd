-- ===== src/Http/HeaderString/Tests.antt =====
-- Writes to header strings.
use meliproxy.Http.HeaderString.{
  HeaderString, append, set_copy, set_integer, past_end, dynamic_storage, reference_storage,
}
use meliproxy.Http.HeaderString.Writes.{Writes, append-Writes, set-Writes}
use meliproxy.Http.HeaderString.Overruns.{overruns}
use meliproxy.Common.StringUtil.{itoa}
use meliproxy.Shared.{Bytes, ◌≡◌, zero, ◌∷◌, refl, [], length, suc, ◌^◌, arith, some, ℕ}

zeros : ℕ → Bytes
zeros zero = []
zeros (suc n) = 0 ∷ zeros n

length-zeros : (n : ℕ) → length (zeros n) ≡ n
unfolding zeros
length-zeros zero = refl
length-zeros (suc n) = omega (arith, length-zeros n)

abbrev allocated : HeaderString
allocated = record { storage = dynamic_storage 256; contents = 7 ∷ 8 ∷ [] }

append-Writes_example : Writes (7 ∷ 8 ∷ 9 ∷ []) (append allocated (9 ∷ []))
append-Writes_example =
    append-Writes allocated (9 ∷ []) (omega arith, omega arith, omega arith) (omega arith)

set-Writes_example :
    Writes (1 ∷ 2 ∷ []) (set_copy allocated (1 ∷ 2 ∷ []))
    × ((digits : Bytes) × (itoa 32 99 ≡ some digits) × Writes digits (set_integer allocated 99))
set-Writes_example =
    set-Writes allocated (1 ∷ 2 ∷ []) 99 (omega arith, omega arith, omega arith) (omega arith)
      (omega arith)

abbrev borrowed : HeaderString
borrowed = record { storage = reference_storage; contents = [] }

overruns_example :
    (set_copy borrowed (zeros (2 ^ 31)) ≡ past_end) × (append allocated (zeros (2 ^ 31)) ≡ past_end)
overruns_example =
    overruns borrowed (zeros (2 ^ 31)) 256 (7 ∷ 8 ∷ []) (omega (arith, length-zeros (2 ^ 31)))
      (omega (arith, length-zeros (2 ^ 31))) refl (omega (arith, length-zeros (2 ^ 31)))
