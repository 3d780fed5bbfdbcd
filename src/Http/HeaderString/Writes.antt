-- ===== src/Http/HeaderString/Writes.antt =====
-- What the writes to a header string leave in it, and when they stay inside its buffer.
use meliproxy.Common.StringUtil.Digits.{itoa-decimal}
use meliproxy.Http.HeaderString.{
  Storage, HeaderString, Outcome, goes, past_end, release_assert, reference_storage, inline_storage,
  dynamic_storage, append, append_own, set_copy, set_copy_own, set_integer, copy, is_reference,
  inline_size, itoa, capacity_of,
}
use meliproxy.Shared.{
  ◌++◌, length, false, arith, ltb, ◌<◌, Bytes, ◌^◌, ◌+◌, refl, ◌≡◌, ℕ, if◌then◌else◌, if_cases, ◌≤◌,
  [], leb, ◌*◌, ◌%◌, true, ◌-◌, length-append, some, none, sym, subst,
}

-- A buffer has room for the string and its null byte; an allocated one is larger than the inline one.
abbrev pub Fits : Storage → Bytes → Type 0
Fits reference_storage contents = Unit
Fits inline_storage contents = length contents < inline_size
Fits (dynamic_storage capacity) contents =
    (length contents < capacity) × (inline_size ≤ capacity) × (capacity < 2 ^ 32)

abbrev pub IsValid : HeaderString → Type 0
IsValid s = Fits s.storage s.contents

-- A write goes well, to a valid string with these contents.
abbrev pub Writes : Bytes → Outcome → Type 0
Writes contents (goes s) = IsValid s × (s.contents ≡ contents)
Writes contents past_end = ⊥
Writes contents release_assert = ⊥

-- What `append` appends to.
abbrev pub appended_to : HeaderString → Bytes
appended_to s = if is_reference s.storage then [] else s.contents

copy-Writes :
    (capacity : ℕ) (storage : Storage) (contents bytes : Bytes)
    → length contents + length bytes < capacity
    → Fits storage (contents ++ bytes)
    → Writes (contents ++ bytes) (copy capacity storage contents bytes)
unfolding copy
copy-Writes capacity storage contents bytes h f =
    if_cases (Writes (contents ++ bytes)) (ltb (length contents + length bytes) capacity) _ _
      (λ e. (f, refl)) (λ e. absurd (above e))
  where
    above : ltb (length contents + length bytes) capacity ≡ false → ⊥
    above e = ground arith

append_own-Writes :
    (storage : Storage) (contents bytes : Bytes)
    → is_reference storage ≡ false
    → Fits storage contents
    → length contents + length bytes < 2 ^ 31
    → Writes (contents ++ bytes) (append_own storage contents bytes)
unfolding append_own
append_own-Writes reference_storage contents bytes r f h = absurd (cc r)
append_own-Writes inline_storage contents bytes r f h =
    if_cases (Writes (contents ++ bytes))
      (leb ((length bytes + 1 + length contents) % 2 ^ 32) inline_size) _ _
      (λ e.
        copy-Writes inline_size inline_storage contents bytes (small e)
          (omega (arith, small e, length-append contents bytes)))
      (λ e.
        if_cases (Writes (contents ++ bytes))
          (leb ((length contents + length bytes) * 2) (2 ^ 32 - 1)) _ _
          (λ k.
            copy-Writes ((length contents + length bytes) * 2)
              (dynamic_storage ((length contents + length bytes) * 2)) contents bytes
              (omega (arith, large e))
              (
                omega (arith, large e, length-append contents bytes),
                omega (arith, large e),
                omega arith,
              ))
          (λ k. absurd (no k)))
  where
    small :
        leb ((length bytes + 1 + length contents) % 2 ^ 32) inline_size ≡ true
        → length contents + length bytes < inline_size
    small e = ground arith

    no : leb ((length contents + length bytes) * 2) (2 ^ 32 - 1) ≡ false → ⊥
    no k = ground arith

    large :
        leb ((length bytes + 1 + length contents) % 2 ^ 32) inline_size ≡ false
        → inline_size ≤ length contents + length bytes
    large e = ground arith
append_own-Writes (dynamic_storage capacity) contents bytes r f h =
    if_cases (Writes (contents ++ bytes))
      (ltb capacity ((length bytes + 1 + length contents) % 2 ^ 32)) _ _
      (λ e.
        copy-Writes ((length contents + length bytes) * 2 % 2 ^ 32)
          (dynamic_storage ((length contents + length bytes) * 2 % 2 ^ 32)) contents bytes
          (omega (arith, short e))
          (
            omega (arith, short e, length-append contents bytes),
            omega (arith, short e),
            omega arith,
          ))
      (λ e.
        copy-Writes capacity (dynamic_storage capacity) contents bytes (enough e)
          (omega (arith, enough e, length-append contents bytes), f.1, f.2))
  where
    short :
        ltb capacity ((length bytes + 1 + length contents) % 2 ^ 32) ≡ true
        → inline_size ≤ length contents + length bytes
    short e = ground arith

    enough :
        ltb capacity ((length bytes + 1 + length contents) % 2 ^ 32) ≡ false
        → length contents + length bytes < capacity
    enough e = ground arith

-- `append` to a valid string stays inside the buffer and appends the bytes, while both together have
-- less than 2 ^ 31 bytes. A reference counts as empty.
pub append-Writes :
    (s : HeaderString) (bytes : Bytes)
    → IsValid s
    → length (appended_to s) + length bytes < 2 ^ 31
    → Writes (appended_to s ++ bytes) (append s bytes)
unfolding append
append-Writes s bytes v h = by_storage s.storage v h
  where
    by_storage :
        (t : Storage)
        → Fits t s.contents
        → length (if is_reference t then [] else s.contents) + length bytes < 2 ^ 31
        → Writes ((if is_reference t then [] else s.contents) ++ bytes) (
            if is_reference t
            then append_own inline_storage [] bytes
            else append_own t s.contents bytes)
    by_storage reference_storage v h =
        append_own-Writes inline_storage [] bytes refl (omega arith) h
    by_storage inline_storage v h = append_own-Writes inline_storage s.contents bytes refl v h
    by_storage (dynamic_storage c) v h =
        append_own-Writes (dynamic_storage c) s.contents bytes refl v h

set_copy_own-Writes :
    (storage : Storage) (contents bytes : Bytes)
    → is_reference storage ≡ false
    → Fits storage contents
    → length bytes < 2 ^ 31
    → Writes bytes (set_copy_own storage bytes)
unfolding set_copy_own
set_copy_own-Writes reference_storage contents bytes r f h = absurd (cc r)
set_copy_own-Writes inline_storage contents bytes r f h =
    if_cases (Writes bytes) (leb ((length bytes + 1) % 2 ^ 32) inline_size) _ _
      (λ e. copy-Writes inline_size inline_storage [] bytes (omega (arith, small e)) (small e))
      (λ e.
        copy-Writes (length bytes * 2 % 2 ^ 32) (dynamic_storage (length bytes * 2 % 2 ^ 32)) []
          bytes (omega (arith, large e))
          (omega (arith, large e), omega (arith, large e), omega arith))
  where
    small : leb ((length bytes + 1) % 2 ^ 32) inline_size ≡ true → length bytes < inline_size
    small e = ground arith

    large : leb ((length bytes + 1) % 2 ^ 32) inline_size ≡ false → inline_size ≤ length bytes
    large e = ground arith
set_copy_own-Writes (dynamic_storage capacity) contents bytes r f h =
    if_cases (Writes bytes) (ltb capacity ((length bytes + 1) % 2 ^ 32)) _ _
      (λ e.
        copy-Writes (length bytes * 2 % 2 ^ 32) (dynamic_storage (length bytes * 2 % 2 ^ 32)) []
          bytes (omega (arith, short e))
          (omega (arith, short e), omega (arith, short e), omega arith))
      (λ e.
        copy-Writes capacity (dynamic_storage capacity) [] bytes (omega (arith, enough e))
          (enough e, f.1, f.2))
  where
    short : ltb capacity ((length bytes + 1) % 2 ^ 32) ≡ true → inline_size ≤ length bytes
    short e = ground arith

    enough : ltb capacity ((length bytes + 1) % 2 ^ 32) ≡ false → length bytes < capacity
    enough e = ground arith

set_copy-Writes :
    (s : HeaderString) (bytes : Bytes)
    → IsValid s
    → length bytes < 2 ^ 31
    → Writes bytes (set_copy s bytes)
unfolding set_copy
set_copy-Writes s bytes v h = by_storage s.storage v
  where
    by_storage :
        (t : Storage)
        → Fits t s.contents
        → Writes bytes (set_copy_own (if is_reference t then inline_storage else t) bytes)
    by_storage reference_storage v =
        set_copy_own-Writes inline_storage [] bytes refl (omega arith) h
    by_storage inline_storage v = set_copy_own-Writes inline_storage s.contents bytes refl v h
    by_storage (dynamic_storage c) v =
        set_copy_own-Writes (dynamic_storage c) s.contents bytes refl v h

set_integer-Writes :
    (s : HeaderString) (value : ℕ)
    → IsValid s
    → value < 2 ^ 64
    → (digits : Bytes) × (itoa 32 value ≡ some digits) × Writes digits (set_integer s value)
unfolding set_integer
set_integer-Writes s value v h =
    let (digits, e, d, l, u, k) = itoa-decimal 32 value (omega arith) h in
    (
      digits,
      e,
      subst
          (λ o. Writes digits (elim o [
            | none ↦ release_assert
            | some digits ↦
                copy (capacity_of (if is_reference s.storage then inline_storage else s.storage))
                  (if is_reference s.storage then inline_storage else s.storage) [] digits
          ]))
          (sym e) (by_storage s.storage v digits u),
    )
  where
    by_storage :
        (t : Storage)
        → Fits t s.contents
        → (digits : Bytes) → length digits ≤ 20
        → Writes digits (
            copy
              (capacity_of (if is_reference t then inline_storage else t))
              (if is_reference t then inline_storage else t)
              []
              digits)
    by_storage reference_storage v digits u =
        copy-Writes inline_size inline_storage [] digits (omega (arith, u)) (omega (arith, u))
    by_storage inline_storage v digits u =
        copy-Writes inline_size inline_storage [] digits (omega (arith, u)) (omega (arith, u))
    by_storage (dynamic_storage c) v digits u =
        copy-Writes c (dynamic_storage c) [] digits (omega (arith, u, v.1))
          (omega (arith, u, v.1), v.1, v.2)

-- `setCopy` of less than 2 ^ 31 bytes, and `setInteger`, stay inside the buffer of a valid string; the string
-- is then the bytes, or the digits that `itoa` gives, and it is valid again.
pub set-Writes :
    (s : HeaderString) (bytes : Bytes) (value : ℕ)
    → IsValid s
    → length bytes < 2 ^ 31
    → value < 2 ^ 64
    → Writes bytes (set_copy s bytes)
      × ((digits : Bytes) × (itoa 32 value ≡ some digits) × Writes digits (set_integer s value))
set-Writes s bytes value v h k = (set_copy-Writes s bytes v h, set_integer-Writes s value v k)
