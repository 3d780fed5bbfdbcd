-- ===== src/Http/HeaderString/Overruns.antt =====
-- Header strings of 2 ^ 31 bytes and more.
use meliproxy.Http.HeaderString.{
  Storage, HeaderString, past_end, reference_storage, inline_storage, dynamic_storage, append,
  append_own, set_copy, set_copy_own, copy, is_reference,
}
use meliproxy.Shared.{
  Bytes, Bool, ◌+◌, arith, true, ◌^◌, ◌≡◌, ◌<◌, length, ◌≤◌, if◌then◌else◌, false, ℕ,
}

abbrev pub is_dynamic : Storage → Bool
is_dynamic reference_storage = false
is_dynamic inline_storage = false
is_dynamic (dynamic_storage capacity) = true

inline-overruns :
    (bytes : Bytes)
    → 2 ^ 31 ≤ length bytes
    → length bytes < 2 ^ 32
    → set_copy_own inline_storage bytes ≡ past_end
unfolding set_copy_own copy
inline-overruns bytes h k = ground arith

set_copy-overruns :
    (s : HeaderString) (bytes : Bytes)
    → is_dynamic s.storage ≡ false
    → 2 ^ 31 ≤ length bytes
    → length bytes < 2 ^ 32
    → set_copy s bytes ≡ past_end
unfolding set_copy
set_copy-overruns s bytes d h k = by_storage s.storage d
  where
    by_storage :
        (t : Storage)
        → is_dynamic t ≡ false
        → set_copy_own (if is_reference t then inline_storage else t) bytes ≡ past_end
    by_storage reference_storage d = inline-overruns bytes h k
    by_storage inline_storage d = inline-overruns bytes h k
    by_storage (dynamic_storage c) d = absurd (cc d)

append-overruns :
    (capacity : ℕ) (contents bytes : Bytes)
    → capacity ≤ length contents + length bytes
    → 2 ^ 31 ≤ length contents + length bytes
    → length contents + length bytes < 2 ^ 32
    → append (record { storage = dynamic_storage capacity; contents = contents }) bytes ≡ past_end
unfolding append append_own copy
append-overruns capacity contents bytes c h k = ground arith

-- From 2 ^ 31 bytes on the doubled capacity wraps: `setCopy` to a string that is not allocated
-- writes past the end of its new buffer, and so does `append` to an allocated string whose buffer is
-- too small. Sizes are below 2 ^ 32.
pub overruns :
    (s : HeaderString) (bytes : Bytes) (capacity : ℕ) (contents : Bytes)
    → 2 ^ 31 ≤ length bytes
    → length contents + length bytes < 2 ^ 32
    → is_dynamic s.storage ≡ false
    → capacity ≤ length contents + length bytes
    → (set_copy s bytes ≡ past_end)
      × (append (record { storage = dynamic_storage capacity; contents = contents }) bytes
          ≡ past_end)
overruns s bytes capacity contents h k d c = (
  set_copy-overruns s bytes d h (omega (arith, k)),
  append-overruns capacity contents bytes c (omega (arith, h)) k,
)
