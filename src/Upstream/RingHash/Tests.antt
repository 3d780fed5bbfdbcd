-- ===== src/Upstream/RingHash/Tests.antt =====
-- Runs of the ring hash balancer, and its theorems at concrete inputs.
use meliproxy.Upstream.LoadBalancer.{Host}
use meliproxy.Runtime.{Random, get_integer}
use meliproxy.Upstream.RingHash.{
  RingEntry, choose_host_in, create, hashes_per_host, search, host_of,
}
use meliproxy.Upstream.RingHash.Sorting.{constant, constant-Sorts}
use meliproxy.Upstream.RingHash.Search.{IsSorted, owner, key, choose_host_in-owner}
use meliproxy.Upstream.RingHash.Create.{count_if, is_at, create_lem}
use meliproxy.Shared.{
  ◌∷◌, suc, zero, ℕ, ◌≡◌, some, arith, [], List, refl, ◌*◌, ◌+◌, length, ◌⊎◌, Option, ◌≤◌, ◌<◌,
}

abbrev host : ℕ → Host
host address = record { address = address; weight = 1; rq_active = 0 }

abbrev ring : List RingEntry
ring =
    record { hash = 10; host = host 1 }
    ∷ record { hash = 20; host = host 2 }
    ∷ record { hash = 20; host = host 3 }
    ∷ []

abbrev generator : Random
generator = record { draws = λ n. n; used = 0 }

ring-IsSorted : IsSorted ring
ring-IsSorted zero zero h l = omega arith
ring-IsSorted zero (suc zero) h l = omega arith
ring-IsSorted zero (suc (suc zero)) h l = omega arith
ring-IsSorted (suc zero) (suc zero) h l = omega arith
ring-IsSorted (suc zero) (suc (suc zero)) h l = omega arith
ring-IsSorted (suc (suc zero)) (suc (suc zero)) h l = omega arith
ring-IsSorted i (suc (suc (suc j))) h l = absurd (omega arith)
ring-IsSorted (suc i) zero h l = absurd (omega arith)
ring-IsSorted (suc (suc i)) (suc zero) h l = absurd (omega arith)
ring-IsSorted (suc (suc (suc i))) (suc (suc zero)) h l = absurd (omega arith)

-- A key above all hashes goes round to the first entry.
choose_host_wraps :
    (choose_host_in ring (some 21) generator).0
    ≡ some (host_of (record { hash = 10; host = host 1 }))
unfolding choose_host_in search
choose_host_wraps = refl

choose_host_in-owner_example :
    (choose_host_in ring (some 15) generator).0 ≡ some (owner (key (some 15) generator) ring)
choose_host_in-owner_example =
    choose_host_in-owner ring (some 15) generator ring-IsSorted (omega arith)

create_lem_example :
    let made = create constant [] (host 1 ∷ host 2 ∷ host 3 ∷ []) in
    let n = hashes_per_host (get_integer [] "upstream.ring_hash.min_ring_size" 1024) 3 in
    IsSorted made
    × ((a : ℕ)
        → count_if (λ (e : RingEntry). is_at a e.host) made
          ≡ n * count_if (is_at a) (host 1 ∷ host 2 ∷ host 3 ∷ []))
    × (get_integer [] "upstream.ring_hash.min_ring_size" 1024 ≤ length made)
    × ((length made < get_integer [] "upstream.ring_hash.min_ring_size" 1024 + 3) ⊎ (n ≡ 1))
    × ((hash : Option ℕ) (g : Random)
        → (choose_host_in made hash g).0 ≡ some (owner (key hash g) made))
create_lem_example =
    create_lem constant [] (host 1 ∷ host 2 ∷ host 3 ∷ []) constant-Sorts (omega arith)

-- Three hosts share a ring of 1026 entries.
three_hosts_share : hashes_per_host 1024 3 ≡ 342
unfolding hashes_per_host
three_hosts_share = refl
