-- ===== src/Upstream/RingHash.antt =====
-- envoy/envoy/source/common/upstream/ring_hash_lb.h and ring_hash_lb.cc: the ring hash balancer.
-- The hash of a string, the decimal digits of a number and the sort are the standard library's. The
-- `int64_t` of the search are numbers here: the only negative value, -1 for `highp`, ends the loop.
pub mod Search
pub mod Create
pub mod Sorting
pub mod Tests
use meliproxy.Runtime.{Snapshot, Random, get_integer, random}
use meliproxy.Upstream.LoadBalancer.{HostSet, Host, is_global_panic}
use meliproxy.Shared.{
  ◌==◌, ◌+◌, Option, ◌/◌, leb, List, get_elem?, zero, ltb, [], length, ◌%◌, if◌then◌else◌, suc, ℕ,
  ◌∷◌, ◌&&◌, none, inc64, ◌-◌, ◌||◌, some, Bytes, ◌++◌,
}

pub record RingEntry : Type 0 where
  pub hash : ℕ
  pub host : Host

-- What the search gives: a host, a read past the end of the ring, or a loop that has not ended.
pub data Found : Type 0 where
  host_of : RingEntry → Found
  past_end stuck : Found

abbrev pub at : List RingEntry → ℕ → Found
at ring i = elim (get_elem? ring i) [ none ↦ past_end | some e ↦ host_of e ]

abbrev pub hash_at : List RingEntry → ℕ → ℕ
hash_at [] i = 0
hash_at (e ∷ ring) zero = e.hash
hash_at (e ∷ ring) (suc i) = hash_at ring i

-- The loop of `Ring::chooseHost`.
pub search : ℕ → List RingEntry → ℕ → ℕ → ℕ → Found
search zero ring h lowp highp = stuck
search (suc fuel) ring h lowp highp =
    let midp = (lowp + highp) / 2 in
    let midval = hash_at ring midp in
    let midval1 = if midp == 0 then 0 else hash_at ring (midp - 1) in
    let above = search fuel ring h (midp + 1) highp in
    let below = search fuel ring h lowp (midp - 1) in
    if midp == length ring
    then at ring 0
    else if ltb (length ring) midp
    then past_end
    else if leb h midval && ltb midval1 h
    then at ring midp
    else if ltb midval h
    then (if ltb highp (midp + 1) then at ring 0 else above)
    else if midp == 0 || ltb (midp - 1) lowp
    then at ring 0
    else below

-- `Ring::chooseHost`, where `hash` is what the context computes. `none` is the null pointer. A round
-- takes one entry out of the range at least, so the ring's length is fuel enough.
pub choose_host_in : List RingEntry → Option ℕ → Random → Option Found × Random
choose_host_in ring hash generator =
    let (draw, g) = random generator in
    if length ring == 0 then (none, generator) else elim hash [
      | none ↦ (some (search (length ring + 2) ring draw 0 (length ring)), g)
      | some h ↦ (some (search (length ring + 2) ring h 0 (length ring)), generator)
    ]

-- The replication of `Ring::create`; there is a host.
pub hashes_per_host : ℕ → ℕ → ℕ
hashes_per_host min_ring_size hosts =
    if ltb hosts min_ring_size
    then (if min_ring_size % hosts == 0 then min_ring_size / hosts else min_ring_size / hosts + 1)
    else 1

-- What the standard library is used for: `std::hash` of a string, `std::to_string` and `std::sort`.
-- `address_of` is the address of a host as a string.
pub record Library : Type 0 where
  pub string_hash : Bytes → ℕ
  pub to_string : ℕ → Bytes
  pub address_of : Host → Bytes
  pub sort : List RingEntry → List RingEntry

module _ (lib : Library) where
  -- The entries of a host from the hash number `i` on.
  pub host_entries : ℕ → ℕ → Host → List RingEntry
  host_entries zero i host = []
  host_entries (suc n) i host =
      record {
        hash = lib.string_hash (lib.address_of host ++ (b'_' ∷ lib.to_string i));
        host = host;
      }
      ∷ host_entries n (i + 1) host

  pub entries : ℕ → List Host → List RingEntry
  entries n [] = []
  entries n (host ∷ hosts) = host_entries n 0 host ++ entries n hosts

  -- `Ring::create`
  pub create : Snapshot → List Host → List RingEntry
  create runtime hosts =
      let min_ring_size = get_integer runtime "upstream.ring_hash.min_ring_size" 1024 in
      if length hosts == 0
      then []
      else lib.sort (entries (hashes_per_host min_ring_size (length hosts)) hosts)

-- `RingHashLoadBalancer`
pub record RingHash : Type 0 where
  pub host_set : HostSet
  pub runtime : Snapshot
  pub generator : Random
  pub healthy_panic : ℕ
  pub all_hosts_ring : List RingEntry
  pub healthy_hosts_ring : List RingEntry

-- `refresh`, which the constructor and the callback for member updates run.
pub refresh : Library → RingHash → RingHash
refresh lib b = record b {
  all_hosts_ring = create lib b.runtime b.host_set.hosts;
  healthy_hosts_ring = create lib b.runtime b.host_set.healthy_hosts;
}

-- `RingHashLoadBalancer::chooseHost`
pub choose_host : RingHash → Option ℕ → Option Found × RingHash
choose_host b hash =
    if is_global_panic b.host_set b.runtime
    then (let (found, g) = choose_host_in b.all_hosts_ring hash b.generator in
        (found, record b { generator = g; healthy_panic = inc64 b.healthy_panic }))
    else (let (found, g) = choose_host_in b.healthy_hosts_ring hash b.generator in
        (found, record b { generator = g }))
