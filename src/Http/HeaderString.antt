-- ===== src/Http/HeaderString.antt =====
-- The class HeaderString of envoy/envoy/source/common/http/header_map_impl.cc and
-- envoy/envoy/include/envoy/http/header_map.h: a string in a buffer of its own, inline or allocated, or
-- in another's. Sizes have 32 bits. What is written past the end of a buffer is a value of the model.
pub mod Writes
pub mod Overruns
pub mod Tests
use meliproxy.Common.StringUtil.{itoa}
use meliproxy.Shared.{
  List, Bytes, ◌*◌, leb, ◌+◌, ◌%◌, [], ℕ, none, ltb, ◌-◌, length, false, ◌^◌, ◌++◌, some, true,
  if◌then◌else◌, Bool,
}

-- `HeaderString::Type`. The allocated buffer comes with its `dynamic_capacity_`, which shares its
-- memory with the inline buffer.
pub data Storage : Type 0 where
  reference_storage inline_storage : Storage
  dynamic_storage : ℕ → Storage

-- `contents` are the bytes of the string, `string_length_` many.
pub record HeaderString : Type 0 where
  pub storage : Storage
  pub contents : Bytes

abbrev pub inline_size : ℕ
inline_size = 128

pub data Outcome : Type 0 where
  goes : HeaderString → Outcome
  past_end release_assert : Outcome

-- The constructor without arguments.
pub empty_string : HeaderString
empty_string = record { storage = inline_storage; contents = [] }

-- `memcpy` behind the contents, and the null byte, in a buffer of `capacity` bytes.
pub copy : ℕ → Storage → Bytes → Bytes → Outcome
copy capacity storage contents bytes =
    if ltb (length contents + length bytes) capacity
    then goes (record { storage = storage; contents = contents ++ bytes })
    else past_end

abbrev pub is_reference : Storage → Bool
is_reference reference_storage = true
is_reference inline_storage = false
is_reference (dynamic_storage capacity) = false

-- `append` to a string that is not a reference.
pub append_own : Storage → Bytes → Bytes → Outcome
unfolding copy
append_own reference_storage contents bytes = past_end
append_own inline_storage contents bytes =
    let new_capacity = (length contents + length bytes) * 2 in
    if leb ((length bytes + 1 + length contents) % 2 ^ 32) inline_size
    then copy inline_size inline_storage contents bytes
    else if leb new_capacity (2 ^ 32 - 1)
    then copy new_capacity (dynamic_storage new_capacity) contents bytes
    else release_assert
append_own (dynamic_storage capacity) contents bytes =
    let new_capacity = (length contents + length bytes) * 2 % 2 ^ 32 in
    if ltb capacity ((length bytes + 1 + length contents) % 2 ^ 32)
    then copy new_capacity (dynamic_storage new_capacity) contents bytes
    else copy capacity (dynamic_storage capacity) contents bytes

-- `append`. A reference becomes an empty inline string first.
pub append : HeaderString → Bytes → Outcome
unfolding append_own
append s bytes =
    if is_reference s.storage
    then append_own inline_storage [] bytes
    else append_own s.storage s.contents bytes

-- `clear`
pub clear : HeaderString → HeaderString
clear s = if is_reference s.storage then s else record s { contents = [] }

-- `setCopy` of a string that is not a reference.
pub set_copy_own : Storage → Bytes → Outcome
unfolding copy
set_copy_own reference_storage bytes = past_end
set_copy_own inline_storage bytes =
    let new_capacity = length bytes * 2 % 2 ^ 32 in
    if leb ((length bytes + 1) % 2 ^ 32) inline_size
    then copy inline_size inline_storage [] bytes
    else copy new_capacity (dynamic_storage new_capacity) [] bytes
set_copy_own (dynamic_storage capacity) bytes =
    let new_capacity = length bytes * 2 % 2 ^ 32 in
    if ltb capacity ((length bytes + 1) % 2 ^ 32)
    then copy new_capacity (dynamic_storage new_capacity) [] bytes
    else copy capacity (dynamic_storage capacity) [] bytes

-- `setCopy`
pub set_copy : HeaderString → Bytes → Outcome
unfolding set_copy_own
set_copy s bytes = set_copy_own (if is_reference s.storage then inline_storage else s.storage) bytes

-- `setInteger`, whose `itoa` is told that 32 bytes are there.
abbrev pub capacity_of : Storage → ℕ
capacity_of reference_storage = 0
capacity_of inline_storage = inline_size
capacity_of (dynamic_storage capacity) = capacity

pub set_integer : HeaderString → ℕ → Outcome
unfolding copy
set_integer s value =
    let storage = if is_reference s.storage then inline_storage else s.storage in
    elim (itoa 32 value) [
      | none ↦ release_assert
      | some digits ↦ copy (capacity_of storage) storage [] digits
    ]

-- `setReference`, and the constructors from a string.
pub set_reference : Bytes → HeaderString
set_reference ref_value = record { storage = reference_storage; contents = ref_value }

-- The move constructor: the new string, and what is left in the old one.
pub move_value : HeaderString → HeaderString × HeaderString
unfolding empty_string
move_value s = if is_reference s.storage then (s, s) else (s, empty_string)
