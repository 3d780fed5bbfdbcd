-- ===== src/Http/HeaderMap.antt =====
-- The class HeaderMapImpl of envoy/envoy/source/common/http/header_map_impl.cc and header_map_impl.h: a list of
-- headers, with a pointer for each of the inline headers, which a trie finds by name. Keys and values
-- are C strings; how they are stored is the business of HeaderString. An entry of the list is named by
-- a number, and a pointer to it is that number.
pub mod Lookup
pub mod Closed
pub mod Pointers
pub mod Tests
use meliproxy.Shared.{
  Bytes, Option, some, none, List, bytes_eq, ◌++◌, ℕ, [], Bool, ◌&&◌, if◌then◌else◌, ◌+◌, ◌∷◌, true,
  false, length, ◌==◌,
}

-- `StaticLookupResponse`: an inline header and its key.
pub record Response : Type 0 where
  pub slot : ℕ
  pub name : Bytes

-- `StaticLookupEntry`, with the entries for the next bytes.
mutual
  pub data StaticLookupEntry : Type 0 where
    node : Option Response → Entries → StaticLookupEntry

  pub data Entries : Type 0 where
    no_entries : Entries
    entry : ℕ → StaticLookupEntry → Entries → Entries

abbrev pub new_entry : StaticLookupEntry
new_entry = node none no_entries

pub entry_at : ℕ → Entries → Option StaticLookupEntry
entry_at c no_entries = none
entry_at c (entry d e es) = if d == c then some e else entry_at c es

pub set_entry : ℕ → StaticLookupEntry → Entries → Entries
set_entry c e no_entries = entry c e no_entries
set_entry c e (entry d f es) = if d == c then entry d e es else entry d f (set_entry c e es)

abbrev pub or_new : Option StaticLookupEntry → StaticLookupEntry
or_new none = new_entry
or_new (some e) = e

-- `StaticLookupTable::add`
pub add : Bytes → Response → StaticLookupEntry → StaticLookupEntry
unfolding entry_at set_entry
add [] cb (node old es) = node (some cb) es
add (c ∷ key) cb (node old es) = node old (set_entry c (add key cb (or_new (entry_at c es))) es)

-- The constructor of `StaticLookupTable`: the inline headers under their own names, and a legacy name for
-- one of them.
pub add_all : List Response → StaticLookupEntry → StaticLookupEntry
unfolding add
add_all [] t = t
add_all (r ∷ rs) t = add_all rs (add r.name r t)

pub static_lookup_table : List Response → Bytes → Response → StaticLookupEntry
unfolding add_all
static_lookup_table inline_headers host_legacy host =
    add host_legacy host (add_all inline_headers new_entry)

-- `StaticLookupTable::find`
pub find_response : Bytes → StaticLookupEntry → Option Response
unfolding entry_at
find_response [] (node cb es) = cb
find_response (c ∷ key) (node cb es) = elim (entry_at c es) [
  | none ↦ none
  | some e ↦ find_response key e
]

-- `HeaderEntryImpl`
pub record HeaderEntry : Type 0 where
  pub id : ℕ
  pub key : Bytes
  pub value : Bytes

-- `HeaderMapImpl`
pub record HeaderMap : Type 0 where
  pub table : StaticLookupEntry
  pub headers : List HeaderEntry
  pub inline_headers : ℕ → Option ℕ
  pub next_id : ℕ

-- `headers_.emplace` at the end.
abbrev pub emplace : Bytes → Bytes → HeaderMap → HeaderMap
emplace key value m = record m {
  headers = m.headers ++ (record { id = m.next_id; key = key; value = value } ∷ []);
  next_id = m.next_id + 1;
}

abbrev pub point : ℕ → Option ℕ → (ℕ → Option ℕ) → ℕ → Option ℕ
point slot id inline_headers i = if i == slot then id else inline_headers i

-- `maybeCreateInline` with a value, which an entry that is there does not take.
pub maybe_create_inline : ℕ → Bytes → Bytes → HeaderMap → HeaderMap
maybe_create_inline slot key value m = elim (m.inline_headers slot) [
  | some id ↦ m
  | none ↦ record (emplace key value m) {
    inline_headers = point slot (some m.next_id) m.inline_headers;
  }
]

-- `insertByKey`, which `addViaMove` and the other additions come to.
pub insert_by_key : Bytes → Bytes → HeaderMap → HeaderMap
unfolding find_response maybe_create_inline
insert_by_key key value m = elim (find_response key m.table) [
  | some r ↦ maybe_create_inline r.slot r.name value m
  | none ↦ emplace key value m
]

-- `byteSize`
pub byte_size : List HeaderEntry → ℕ
byte_size [] = 0
byte_size (h ∷ hs) = length h.key + length h.value + byte_size hs

-- `get`
pub get_header : Bytes → List HeaderEntry → Option HeaderEntry
get_header key [] = none
get_header key (h ∷ hs) = if bytes_eq h.key key then some h else get_header key hs

-- `operator==`
pub equal_headers : List HeaderEntry → List HeaderEntry → Bool
equal_headers [] [] = true
equal_headers [] (j ∷ js) = false
equal_headers (i ∷ is) [] = false
equal_headers (i ∷ is) (j ∷ js) =
    bytes_eq i.key j.key && (bytes_eq i.value j.value && equal_headers is js)

pub erase_id : ℕ → List HeaderEntry → List HeaderEntry
erase_id id [] = []
erase_id id (h ∷ hs) = if h.id == id then hs else h ∷ erase_id id hs

-- `removeInline`
pub remove_inline : ℕ → HeaderMap → HeaderMap
unfolding erase_id
remove_inline slot m = elim (m.inline_headers slot) [
  | none ↦ m
  | some id ↦ record m {
    inline_headers = point slot none m.inline_headers;
    headers = erase_id id m.headers;
  }
]

pub remove_key : Bytes → List HeaderEntry → List HeaderEntry
remove_key key [] = []
remove_key key (h ∷ hs) = if bytes_eq h.key key then remove_key key hs else h ∷ remove_key key hs

-- `remove`
pub remove : Bytes → HeaderMap → HeaderMap
unfolding find_response remove_inline remove_key
remove key m = elim (find_response key m.table) [
  | some r ↦ remove_inline r.slot m
  | none ↦ record m { headers = remove_key key m.headers }
]
