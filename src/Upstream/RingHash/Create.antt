-- ===== src/Upstream/RingHash/Create.antt =====
-- The ring that is made for a list of hosts.
use meliproxy.Upstream.RingHash.{
  RingEntry, Library, hashes_per_host, host_entries, entries, create, choose_host_in,
}
use meliproxy.Upstream.RingHash.Search.{IsSorted, owner, key, choose_host_in-owner}
use meliproxy.Upstream.LoadBalancer.{Host}
use meliproxy.Runtime.{get_integer, Snapshot, Random}
use native.Mathlib.Nat.{mul-add, add-mul, div-add-mod', mod-lt}
use meliproxy.Shared.{
  length, List, ◌+◌, ◌++◌, suc, [], ◌==◌, Bool, ◌≤◌, if◌then◌else◌, ℕ, ◌⊎◌, refl, arith, ◌<◌, true,
  zero, ◌∷◌, ◌*◌, ◌≡◌, Option, ◌/◌, length-append, ◌∙◌, sym, some, inr, ==-false, ltb-false, inl,
  dec_lt,
}

-- How many entries of a list pass a test.
abbrev pub count_if {ℓ} : {A : Type ℓ} → (A → Bool) → List A → ℕ
count_if p [] = 0
count_if p (x ∷ xs) = (if p x then 1 else 0) + count_if p xs

count_if-append {ℓ} :
    {A : Type ℓ} (p : A → Bool) (xs ys : List A)
    → count_if p (xs ++ ys) ≡ count_if p xs + count_if p ys
count_if-append p [] ys = omega arith
count_if-append p (x ∷ xs) ys = omega (arith, count_if-append p xs ys)

count_if-all {ℓ} : {A : Type ℓ} (xs : List A) → count_if (λ x. true) xs ≡ length xs
count_if-all [] = refl
count_if-all (x ∷ xs) = omega (arith, count_if-all xs)

-- What is relied on of `std::sort` with the ring's comparison: the result is in order, and holds the
-- same entries.
pub record Sorts (lib : Library) : Type 0 where
  pub in_order : (xs : List RingEntry) → IsSorted (lib.sort xs)
  pub same_entries :
      (p : RingEntry → Bool) (xs : List RingEntry) → count_if p (lib.sort xs) ≡ count_if p xs

abbrev pub is_at : ℕ → Host → Bool
is_at address host = host.address == address

module _ (lib : Library) where
  host_entries-share :
      (n i a : ℕ) (host : Host)
      → count_if (λ (e : RingEntry). is_at a e.host) (host_entries lib n i host)
        ≡ n * (if is_at a host then 1 else 0)
  unfolding host_entries
  host_entries-share zero i a host = omega arith
  host_entries-share (suc n) i a host = omega (arith, host_entries-share n (i + 1) a host)

  length-host_entries : (n i : ℕ) (host : Host) → length (host_entries lib n i host) ≡ n
  unfolding host_entries
  length-host_entries zero i host = refl
  length-host_entries (suc n) i host = omega (arith, length-host_entries n (i + 1) host)

  entries-share :
      (n a : ℕ) (hosts : List Host)
      → count_if (λ (e : RingEntry). is_at a e.host) (entries lib n hosts)
        ≡ n * count_if (is_at a) hosts
  unfolding entries
  entries-share n a [] = omega arith
  entries-share n a (host ∷ hosts) =
      count_if-append (λ (e : RingEntry). is_at a e.host) (host_entries lib n 0 host)
        (entries lib n hosts)
      ∙ omega (
        arith,
        host_entries-share n 0 a host,
        entries-share n a hosts,
        mul-add n (if is_at a host then 1 else 0) (count_if (is_at a) hosts),
      )

  length-entries : (n : ℕ) (hosts : List Host) → length (entries lib n hosts) ≡ n * length hosts
  unfolding entries
  length-entries n [] = omega arith
  length-entries n (host ∷ hosts) = omega (
    arith,
    length-append (host_entries lib n 0 host) (entries lib n hosts),
    length-host_entries n 0 host,
    length-entries n hosts,
    mul-add n 1 (length hosts),
  )

-- The ring is no smaller than the minimum, and larger by less than the number of hosts, or it holds
-- each host once.
replication :
    (m k : ℕ)
    → 0 < k
    → (m ≤ hashes_per_host m k * k)
      × ((hashes_per_host m k * k < m + k) ⊎ (hashes_per_host m k ≡ 1))
unfolding hashes_per_host
replication m k h = ground (arith, div-add-mod' m k, mod-lt m {m = k} h, add-mul (m / k) 1 k)

none_to_fill : (m k : ℕ) → m ≡ 0 → hashes_per_host m k ≡ 1
unfolding hashes_per_host
none_to_fill m k e = rw (e, ltb-false k 0 (omega arith)) refl

positive : (m k : ℕ) → 0 < k → 0 < hashes_per_host m k * k
positive m k h = elim (dec_lt 0 m) [
  | yes p ↦ omega (arith, (replication m k h).0)
  | no p ↦ rw (none_to_fill m k (omega arith)) (omega arith)
]

-- For hosts that are not none, and a `std::sort` as documented: the ring is in order; it holds every
-- host as often as that stands among the hosts, times the same number; it has the minimum size at
-- least, and exceeds it by less than the number of hosts unless each host has one entry only; and a
-- lookup in it gives the owner of the key.
pub create_lem :
    (lib : Library) (runtime : Snapshot) (hosts : List Host)
    → Sorts lib
    → 0 < length hosts
    → let ring = create lib runtime hosts in
      let m = get_integer runtime "upstream.ring_hash.min_ring_size" 1024 in
      let n = hashes_per_host m (length hosts) in
      IsSorted ring
      × ((a : ℕ) → count_if (λ (e : RingEntry). is_at a e.host) ring ≡ n * count_if (is_at a) hosts)
      × (m ≤ length ring)
      × ((length ring < m + length hosts) ⊎ (n ≡ 1))
      × ((hash : Option ℕ) (g : Random)
          → (choose_host_in ring hash g).0 ≡ some (owner (key hash g) ring))
unfolding create
create_lem lib runtime hosts s k =
    let m = get_integer runtime "upstream.ring_hash.min_ring_size" 1024 in
    let n = hashes_per_host m (length hosts) in
    let made = entries lib n hosts in
    let e : length (lib.sort made) ≡ n * length hosts =
      sym (count_if-all (lib.sort made))
      ∙ s.same_entries (λ e. true) made
      ∙ count_if-all made
      ∙ length-entries lib n hosts in
    let r = replication m (length hosts) k in
    let filled : 0 < length (lib.sort made) = omega (arith, e, positive m (length hosts) k) in
    rw (==-false (length hosts) 0 (omega arith)) (
      s.in_order made,
      λ a. s.same_entries (λ e. is_at a e.host) made ∙ entries-share lib n a hosts,
      omega (arith, e, r.0),
      elim r.1 [ inl u ↦ inl (omega (arith, e, u)) | inr u ↦ inr u ],
      λ hash g. choose_host_in-owner (lib.sort made) hash g (s.in_order made) filled,
    )
