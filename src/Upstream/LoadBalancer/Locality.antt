-- ===== src/Upstream/LoadBalancer/Locality.antt =====
-- Locality routing: the structures made for it, and the choice of a locality by them.
use meliproxy.Upstream.LoadBalancer.{
  choose_by_state, no_locality_routing, locality_direct, locality_residual, regenerate, first,
  regenerate_locality_routing_structures, choose_cross_locality, choose_residual,
  try_choose_local_locality_hosts, locality_hosts, hosts_to_use, residuals, scan,
  LocalityRoutingState, Balancer, calculate_locality_percentage, early_exit_non_locality_routing,
  Host, set_of, percentage, total_hosts, random, routes_by_locality, is_global_panic,
  feature_enabled, panics, HostSet,
}
use meliproxy.Shared.{
  zero, true, Bool-cases, ◌≤◌, inr, ◌%◌, refl, List, suc, length, ◌^◌, ◌≡◌, ◌∷◌, ◌+◌, ◌-◌, ltb→lt,
  get_or, ltb, arith, if◌then◌else◌, inl, some, ℕ, ◌<◌, [], ap, map, get_elem?, false, drop,
  length-drop, leb, if_cases, ◌==◌, none, inc64, not, ne_of_==_false, Option,
}

pub length-residuals :
    (before : ℕ) (us ls : List ℕ)
    → length us ≡ length ls
    → length (residuals before us ls) ≡ length us
unfolding residuals
length-residuals before [] ls h = refl
length-residuals before (u ∷ us) [] h = absurd (omega (arith, h))
length-residuals before (u ∷ us) (l ∷ ls) h = omega (
  arith,
  length-residuals (if ltb l u then (before + u - l) % 2 ^ 64 else before) us ls (omega (arith, h)),
)

-- The entry of a list at an index, 0 past its end.
abbrev pub entry : List ℕ → ℕ → ℕ
entry rs i = get_or rs i 0

-- Where the scan stops: at the first entry that the threshold does not exceed.
abbrev pub StopsAt : ℕ → List ℕ → ℕ → Type 0
StopsAt threshold rs i =
    (scan threshold rs ≡ some i)
    × (i < length rs)
    × (threshold ≤ entry rs i)
    × ((j : ℕ) → j < i → entry rs j < threshold)

pub StopsAt-later :
    (threshold r : ℕ) (rs : List ℕ) (i : ℕ)
    → ltb r threshold ≡ true
    → StopsAt threshold rs i
    → StopsAt threshold (r ∷ rs) (suc i)
unfolding scan
StopsAt-later threshold r rs i l (e, b, t, below) =
    (rw (e, l) (ap some (omega arith)), omega (arith, b), t, below_next)
  where
    below_next : (j : ℕ) → j < suc i → entry (r ∷ rs) j < threshold
    below_next zero g = ltb→lt r threshold l
    below_next (suc j) g = below j (omega arith)

scan_lem :
    (threshold : ℕ) (rs : List ℕ) (m : ℕ)
    → m < length rs
    → threshold ≤ entry rs m
    → (i : ℕ) × StopsAt threshold rs i
unfolding scan
scan_lem threshold [] m h k = absurd (omega arith)
scan_lem threshold (r ∷ rs) m h k = elim (Bool-cases (ltb r threshold)) [
  | inr e ↦ (0, (rw e refl, omega arith, ground arith, λ j l. absurd (omega arith)))
  | inl e ↦ later (scan_lem threshold rs) m h k e
]
  where
    later :
        ((m : ℕ) → m < length rs → threshold ≤ entry rs m → (i : ℕ) × StopsAt threshold rs i)
        → (m : ℕ) → m < length (r ∷ rs)
        → threshold ≤ entry (r ∷ rs) m
        → ltb r threshold ≡ true
        → (i : ℕ) × StopsAt threshold (r ∷ rs) i
    later rest zero h k e = absurd (omega (arith, ltb→lt r threshold e, k))
    later rest (suc m) h k e =
        let (i, found) = rest m (omega arith) k in (suc i, StopsAt-later threshold r rs i e found)

pub get_elem?_lem :
    {A : Type 0} (xs : List A) (i : ℕ) → i < length xs → (x : A) × (get_elem? xs i ≡ some x)
get_elem?_lem [] i h = absurd (omega arith)
get_elem?_lem (x ∷ xs) zero h = (x, refl)
get_elem?_lem (x ∷ xs) (suc i) h = get_elem?_lem xs i (omega arith)

-- What the routing state relies on: the vectors are long enough for the reads of
-- `tryChooseLocalLocalityHosts`.
abbrev pub IsRoutable : LocalityRoutingState → ℕ → ℕ → Type 0
IsRoutable no_locality_routing localities residual = Unit
IsRoutable locality_direct localities residual = 2 ≤ localities
IsRoutable locality_residual localities residual = (2 ≤ localities) × (residual ≡ localities)

abbrev pub IsValid : Balancer → Type 0
IsValid b =
    IsRoutable b.locality_routing_state (length b.host_set.healthy_hosts_per_locality)
      (length b.residual_capacity)

length-map : {A B : Type 0} (f : A → B) (xs : List A) → length (map f xs) ≡ length xs
length-map f [] = refl
length-map f (x ∷ xs) = omega (arith, length-map f xs)

length-calculate_locality_percentage :
    (ls : List (List Host)) → length (calculate_locality_percentage ls) ≡ length ls
unfolding calculate_locality_percentage
length-calculate_locality_percentage ls = length-map (percentage (total_hosts ls)) ls

-- The early exit leaves the host sets alone, and what it lets through has two localities at least,
-- as many as the local cluster.
early_exit_lem :
    (b : Balancer)
    → ((early_exit_non_locality_routing b).1.host_set ≡ b.host_set)
      × ((early_exit_non_locality_routing b).1.local_host_set ≡ b.local_host_set)
      × ((early_exit_non_locality_routing b).0 ≡ false
          → (2 ≤ length b.host_set.healthy_hosts_per_locality)
            × (length b.host_set.healthy_hosts_per_locality ≡ length (set_of b.local_host_set)))
unfolding early_exit_non_locality_routing
early_exit_lem b = ground arith

regenerate-IsRoutable :
    (b : Balancer) (local upstream : List ℕ)
    → 2 ≤ length b.host_set.healthy_hosts_per_locality
    → length upstream ≡ length b.host_set.healthy_hosts_per_locality
    → length local ≡ length upstream
    → IsValid (regenerate b local upstream)
unfolding regenerate
regenerate-IsRoutable b local upstream k hu hl =
    if_cases IsValid (leb (first local) (first upstream)) _ _ (λ e. k) (λ e. (k, n))
  where
    n :
        suc (length (residuals 0 (drop 1 upstream) (drop 1 local)))
        ≡ length b.host_set.healthy_hosts_per_locality
    n = omega (
      arith,
      length-residuals 0 (drop 1 upstream) (drop 1 local)
          (omega (arith, length-drop 1 upstream, length-drop 1 local)),
      length-drop 1 upstream,
    )

-- Whenever the structures are made anew, for host sets of any shape, the vectors that the choice of
-- a locality reads are long enough for every read.
pub regenerate_locality_routing_structures-IsValid :
    (b : Balancer) → IsValid (regenerate_locality_routing_structures b)
unfolding regenerate_locality_routing_structures
regenerate_locality_routing_structures-IsValid b =
    if_cases IsValid (early_exit_non_locality_routing b₀).0 _ _ (λ e. tt)
      (λ e. routable ((early_exit_lem b₀).2 e))
  where
    b₀ : Balancer
    b₀ = record b {
      stats = record (b.stats) {
        recalculate_zone_structures = inc64 b.stats.recalculate_zone_structures;
      };
    }

    b₁ : Balancer
    b₁ = (early_exit_non_locality_routing b₀).1

    upstream : List ℕ
    upstream = calculate_locality_percentage b₁.host_set.healthy_hosts_per_locality

    local : List ℕ
    local = calculate_locality_percentage (set_of b₁.local_host_set)

    routable :
        (2 ≤ length b.host_set.healthy_hosts_per_locality)
          × (length b.host_set.healthy_hosts_per_locality ≡ length (set_of b.local_host_set))
        → IsValid (regenerate b₁ local upstream)
    routable (k, same) =
        let hs : length b₁.host_set.healthy_hosts_per_locality
            ≡ length b.host_set.healthy_hosts_per_locality =
          ap (λ (s : HostSet). length s.healthy_hosts_per_locality) (early_exit_lem b₀).0 in
        let ls : length (set_of b₁.local_host_set) ≡ length (set_of b.local_host_set) =
          ap (λ (s : Option HostSet). length (set_of s)) (early_exit_lem b₀).1 in
        let hu = length-calculate_locality_percentage b₁.host_set.healthy_hosts_per_locality in
        let hl = length-calculate_locality_percentage (set_of b₁.local_host_set) in
        regenerate-IsRoutable b₁ local upstream (omega arith) hu (omega arith)

abbrev pub Found : Option (List Host) × Balancer → Type 0
Found r = (hosts : List Host) × (r.0 ≡ some hosts)

cross-Found :
    (b : Balancer)
    → 2 ≤ length b.host_set.healthy_hosts_per_locality
    → length b.residual_capacity ≡ length b.host_set.healthy_hosts_per_locality
    → Found (choose_cross_locality b)
unfolding choose_cross_locality
cross-Found b k h =
    let ls = b.host_set.healthy_hosts_per_locality in
    let draw = b.generator.draws b.generator.used in
    let last = get_or b.residual_capacity (length ls - 1) 0 in
    if_cases Found (last == 0) _ _ (λ e. get_elem?_lem ls (draw % length ls) (omega arith))
      (λ e. sampled (
        scan_lem (draw % last) b.residual_capacity (length ls - 1) (omega arith)
          (omega (arith, ne_of_==_false last 0 e))))
  where
    sampled :
        {t : ℕ}
        → (i : ℕ) × StopsAt t b.residual_capacity i
        → (hosts : List Host) × (elim (scan t b.residual_capacity) [
          | none ↦ none
          | some i ↦ get_elem? b.host_set.healthy_hosts_per_locality i
        ]
            ≡ some hosts)
    sampled (i, (e, inside, most, rest)) =
        let (hosts, at) = get_elem?_lem b.host_set.healthy_hosts_per_locality i (omega arith) in
        (hosts, rw e at)

residual-Found :
    (b : Balancer)
    → 2 ≤ length b.host_set.healthy_hosts_per_locality
    → length b.residual_capacity ≡ length b.host_set.healthy_hosts_per_locality
    → Found (choose_residual b)
unfolding choose_residual
residual-Found b k h =
    let (draw, g) = random b.generator in
    if_cases Found (ltb (draw % 10000) b.local_percent_to_route) _ _
      (λ e. get_elem?_lem b.host_set.healthy_hosts_per_locality 0 (omega arith))
      (λ e. cross-Found (record b { generator = g }) k h)

routed-Found :
    (state : LocalityRoutingState) (b : Balancer)
    → IsRoutable state (length b.host_set.healthy_hosts_per_locality) (length b.residual_capacity)
    → routes_by_locality state ≡ true
    → Found (choose_by_state state b)
unfolding choose_by_state
routed-Found no_locality_routing b v h = cc
routed-Found locality_direct b v h =
    get_elem?_lem b.host_set.healthy_hosts_per_locality 0 (omega arith)
routed-Found locality_residual b (k, v) h = residual-Found b k v

locality-Found :
    (b : Balancer)
    → IsValid b
    → routes_by_locality b.locality_routing_state ≡ true
    → Found (locality_hosts b)
unfolding locality_hosts try_choose_local_locality_hosts
locality-Found b v h =
    let (enabled, g) = feature_enabled b.runtime b.generator "upstream.zone_routing.enabled" 100 in
    if_cases Found (not enabled) _ _ (λ e. (b.host_set.healthy_hosts, refl))
      (λ e.
        if_cases Found (panics b.local_host_set b.runtime) _ _
          (λ e'. (b.host_set.healthy_hosts, refl))
          (λ e'. routed-Found b.locality_routing_state (record b { generator = g }) v h))

-- With the vectors that the last update of the hosts has left, `hostsToUse` gives a list of hosts: no
-- read in it, the scan for the sampled capacity included, goes past the end of its vector.
pub hosts_to_use-Found : (b : Balancer) → IsValid b → Found (hosts_to_use b)
unfolding hosts_to_use
hosts_to_use-Found b v =
    if_cases Found (is_global_panic b.host_set b.runtime) _ _ (λ e. (b.host_set.hosts, refl))
      (λ e.
        if_cases Found (not (routes_by_locality b.locality_routing_state)) _ _
          (λ e'. (b.host_set.healthy_hosts, refl)) (λ e'. locality-Found b v (ground arith)))
