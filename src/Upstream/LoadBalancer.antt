-- ===== src/Upstream/LoadBalancer.antt =====
-- envoy/envoy/source/common/upstream/load_balancer_impl.h and load_balancer_impl.cc: panic routing,
-- locality routing, and the round robin, least request and random balancers.
-- A read past the end of a vector is `none`. The gauge of the greatest host weight, which the cluster
-- keeps, is an argument.
pub mod Locality
pub mod Capacity
pub mod Choices
pub mod Tests
use meliproxy.Runtime.{Snapshot, Random, get_integer, feature_enabled, random}
use meliproxy.Shared.{
  ℕ, ltb, drop, Bool, map, inc64, List, ◌%◌, false, [], get_elem?, ◌*◌, none, true, ◌/◌, ◌&&◌, some,
  Option, ◌||◌, ◌+◌, min, dec32, length, ◌==◌, ◌∷◌, leb, if◌then◌else◌, not, get_or, ◌^◌, ◌-◌,
}

-- Hosts are told apart by `address`.
pub record Host : Type 0 where
  pub address : ℕ
  pub weight : ℕ
  pub rq_active : ℕ

pub record HostSet : Type 0 where
  pub hosts : List Host
  pub healthy_hosts : List Host
  pub healthy_hosts_per_locality : List (List Host)

pub data LocalityRoutingState : Type 0 where
  no_locality_routing locality_direct locality_residual : LocalityRoutingState

pub record LbStats : Type 0 where
  pub recalculate_zone_structures : ℕ
  pub zone_number_differs : ℕ
  pub zone_cluster_too_small : ℕ
  pub zone_routing_all_directly : ℕ
  pub zone_routing_sampled : ℕ
  pub zone_routing_cross_zone : ℕ
  pub zone_no_capacity_left : ℕ
  pub healthy_panic : ℕ
  pub local_cluster_not_ok : ℕ

-- `LoadBalancerBase`, with the host sets as they are now.
pub record Balancer : Type 0 where
  pub stats : LbStats
  pub runtime : Snapshot
  pub generator : Random
  pub host_set : HostSet
  pub local_host_set : Option HostSet
  pub local_percent_to_route : ℕ
  pub locality_routing_state : LocalityRoutingState
  pub residual_capacity : List ℕ

-- `isGlobalPanic`. The quotient of doubles compares with a threshold of at most 100 as the fractions
-- do, for fewer than 2^46 hosts.
unfoldable pub is_global_panic : HostSet → Snapshot → Bool
is_global_panic set runtime =
    let threshold = min 100 (get_integer runtime "upstream.healthy_panic_threshold" 50) in
    if length set.hosts == 0
    then ltb 0 threshold
    else ltb (100 * length set.healthy_hosts) (threshold * length set.hosts)

pub total_hosts : List (List Host) → ℕ
total_hosts [] = 0
total_hosts (hosts ∷ more) = length hosts + total_hosts more

abbrev pub percentage : ℕ → List Host → ℕ
percentage total hosts = if ltb 0 total then 10000 * length hosts % 2 ^ 64 / total else 0

-- `calculateLocalityPercentage`
pub calculate_locality_percentage : List (List Host) → List ℕ
calculate_locality_percentage hosts_per_locality =
    map (percentage (total_hosts hosts_per_locality)) hosts_per_locality

abbrev pub set_of : Option HostSet → List (List Host)
set_of none = []
set_of (some set) = set.healthy_hosts_per_locality

-- `earlyExitNonLocalityRouting`, with the counters it raises.
pub early_exit_non_locality_routing : Balancer → Bool × Balancer
early_exit_non_locality_routing b =
    let localities = b.host_set.healthy_hosts_per_locality in
    let min_cluster_size = get_integer b.runtime "upstream.zone_routing.min_cluster_size" 6 in
    if ltb (length localities) 2
    then (true, b)
    else if length (get_or localities 0 []) == 0
    then (true, b)
    else if not (length localities == length (set_of b.local_host_set))
    then (
      true,
      record b {
        stats = record (b.stats) { zone_number_differs = inc64 b.stats.zone_number_differs };
      },
    )
    else if ltb (length b.host_set.healthy_hosts) min_cluster_size
    then (
      true,
      record b {
        stats = record (b.stats) { zone_cluster_too_small = inc64 b.stats.zone_cluster_too_small };
      },
    )
    else (false, b)

-- The loop that accumulates the capacity left in the localities behind the first.
pub residuals : ℕ → List ℕ → List ℕ → List ℕ
residuals before (u ∷ upstream) (l ∷ local) =
    let here = if ltb l u then (before + u - l) % 2 ^ 64 else before in
    here ∷ residuals here upstream local
residuals before [] local = []
residuals before (u ∷ upstream) [] = []

-- The first entry counts for the local locality.
abbrev pub first : List ℕ → ℕ
first ps = get_or ps 0 0

-- What follows the early exit in `regenerateLocalityRoutingStructures`.
pub regenerate : Balancer → List ℕ → List ℕ → Balancer
regenerate b local_percentage upstream_percentage =
    if leb (first local_percentage) (first upstream_percentage)
    then record b { locality_routing_state = locality_direct }
    else record b {
      locality_routing_state = locality_residual;
      local_percent_to_route = first upstream_percentage * 10000 % 2 ^ 64 / first local_percentage;
      residual_capacity = 0 ∷ residuals 0 (drop 1 upstream_percentage) (drop 1 local_percentage);
    }

-- `regenerateLocalityRoutingStructures`, which the member callbacks of both host sets run.
pub regenerate_locality_routing_structures : Balancer → Balancer
regenerate_locality_routing_structures b =
    let b₀ = record b {
      stats = record (b.stats) {
        recalculate_zone_structures = inc64 b.stats.recalculate_zone_structures;
      };
    } in
    let (exit, b₁) = early_exit_non_locality_routing b₀ in
    if exit
    then record b₁ { locality_routing_state = no_locality_routing }
    else regenerate b₁ (calculate_locality_percentage (set_of b₁.local_host_set))
        (calculate_locality_percentage b₁.host_set.healthy_hosts_per_locality)

-- The scan `while (threshold > residual_capacity_[i])`.
pub scan : ℕ → List ℕ → Option ℕ
scan threshold [] = none
scan threshold (r ∷ rs) =
    let rest = scan threshold rs in
    if ltb r threshold then elim rest [ none ↦ none | some i ↦ some (i + 1) ] else some 0

-- The end of `tryChooseLocalLocalityHosts`, where requests go to another locality.
pub choose_cross_locality : Balancer → Option (List Host) × Balancer
choose_cross_locality b =
    let localities = b.host_set.healthy_hosts_per_locality in
    let last = get_or b.residual_capacity (length localities - 1) 0 in
    let (draw, g) = random b.generator in
    let b₁ = record b {
      generator = g;
      stats = record (b.stats) { zone_routing_cross_zone = inc64 b.stats.zone_routing_cross_zone };
    } in
    if last == 0
    then (
      get_elem? localities (draw % length localities),
      record b₁ {
        stats = record (b₁.stats) { zone_no_capacity_left = inc64 b.stats.zone_no_capacity_left };
      },
    )
    else (
      elim (scan (draw % last) b.residual_capacity) [
        | none ↦ none
        | some i ↦ get_elem? localities i
      ],
      b₁,
    )

-- The part for LocalityResidual.
pub choose_residual : Balancer → Option (List Host) × Balancer
unfolding choose_cross_locality
choose_residual b =
    let (draw, g) = random b.generator in
    let b₁ = record b { generator = g } in
    if ltb (draw % 10000) b.local_percent_to_route
    then (
      get_elem? b.host_set.healthy_hosts_per_locality 0,
      record b₁ {
        stats = record (b.stats) { zone_routing_sampled = inc64 b.stats.zone_routing_sampled };
      },
    )
    else choose_cross_locality b₁

-- `tryChooseLocalLocalityHosts`, by the state. Its callers have left where that is
-- NoLocalityRouting, and only an assertion tells this state from LocalityResidual.
pub choose_by_state : LocalityRoutingState → Balancer → Option (List Host) × Balancer
choose_by_state locality_direct b = (
  get_elem? b.host_set.healthy_hosts_per_locality 0,
  record b {
    stats = record (b.stats) {
      zone_routing_all_directly = inc64 b.stats.zone_routing_all_directly;
    };
  },
)
choose_by_state locality_residual b = choose_residual b
choose_by_state no_locality_routing b = choose_residual b

pub try_choose_local_locality_hosts : Balancer → Option (List Host) × Balancer
try_choose_local_locality_hosts b = choose_by_state b.locality_routing_state b

abbrev pub panics : Option HostSet → Snapshot → Bool
panics none runtime = false
panics (some set) runtime = is_global_panic set runtime

-- What `hostsToUse` does where locality routing is on.
pub locality_hosts : Balancer → Option (List Host) × Balancer
locality_hosts b =
    let (enabled, g) = feature_enabled b.runtime b.generator "upstream.zone_routing.enabled" 100 in
    let b₁ = record b { generator = g } in
    if not enabled
    then (some b.host_set.healthy_hosts, b₁)
    else if panics b.local_host_set b.runtime
    then (
      some b.host_set.healthy_hosts,
      record b₁ {
        stats = record (b.stats) { local_cluster_not_ok = inc64 b.stats.local_cluster_not_ok };
      },
    )
    else try_choose_local_locality_hosts b₁

abbrev pub routes_by_locality : LocalityRoutingState → Bool
routes_by_locality no_locality_routing = false
routes_by_locality locality_direct = true
routes_by_locality locality_residual = true

-- `hostsToUse`
pub hosts_to_use : Balancer → Option (List Host) × Balancer
hosts_to_use b =
    if is_global_panic b.host_set b.runtime
    then (
      some b.host_set.hosts,
      record b { stats = record (b.stats) { healthy_panic = inc64 b.stats.healthy_panic } },
    )
    else if not (routes_by_locality b.locality_routing_state)
    then (some b.host_set.healthy_hosts, b)
    else locality_hosts b

-- A host, the null pointer, or a read past the end of a vector.
pub data Choice : Type 0 where
  chosen : Host → Choice
  no_host past_end : Choice

abbrev pub host_at : List Host → ℕ → Choice
host_at hosts i = elim (get_elem? hosts i) [ none ↦ past_end | some host ↦ chosen host ]

-- `RoundRobinLoadBalancer::chooseHost`, with `rr_index_`.
pub choose_in_turn : Balancer → ℕ → Choice × (Balancer × ℕ)
choose_in_turn b rr_index =
    let (to_use, b₁) = hosts_to_use b in
    elim to_use [
      | none ↦ (past_end, (b₁, rr_index))
      | some hosts ↦
          if length hosts == 0
          then (no_host, (b₁, rr_index))
          else (host_at hosts (rr_index % length hosts), (b₁, inc64 rr_index))
    ]

-- `RandomLoadBalancer::chooseHost`
pub choose_at_random : Balancer → Choice × Balancer
choose_at_random b =
    let (to_use, b₁) = hosts_to_use b in
    elim to_use [
      | none ↦ (past_end, b₁)
      | some hosts ↦
          let (draw, g) = random b₁.generator in
          if length hosts == 0
          then (no_host, b₁)
          else (host_at hosts (draw % length hosts), record b₁ { generator = g })
    ]

-- `LeastRequestLoadBalancer`
pub record LeastRequest : Type 0 where
  pub base : Balancer
  pub last_host : Option Host
  pub hits_left : ℕ

abbrev pub is_among : Host → List Host → Bool
is_among host [] = false
is_among host (h ∷ hosts) = h.address == host.address || is_among host hosts

-- The callback of `LeastRequestLoadBalancer` for removed hosts.
pub hosts_removed : LeastRequest → List Host → LeastRequest
hosts_removed l removed = elim l.last_host [
  | none ↦ l
  | some host ↦ if is_among host removed then record l { last_host = none; hits_left = 0 } else l
]

abbrev pub less_busy : Choice → Choice → Choice
less_busy (chosen a) (chosen b) = if ltb a.rq_active b.rq_active then chosen a else chosen b
less_busy (chosen a) no_host = past_end
less_busy (chosen a) past_end = past_end
less_busy no_host c = past_end
less_busy past_end c = past_end

-- The part of `chooseHost` that picks a host with a weight, and its hits.
pub choose_weighted : LeastRequest → List Host → Choice × LeastRequest
choose_weighted l hosts =
    let (draw, g) = random l.base.generator in
    let b₁ = record (l.base) { generator = g } in
    elim (get_elem? hosts (draw % length hosts)) [
      | none ↦ (past_end, record l { base = b₁ })
      | some host ↦ (
        chosen host,
        record {
          base = b₁;
          last_host = some host;
          hits_left = (host.weight + 2 ^ 32 - 1) % 2 ^ 32;
        },
      )
    ]

-- The part that draws two hosts and takes the one with fewer active requests.
pub choose_of_two : LeastRequest → List Host → Choice × LeastRequest
choose_of_two l hosts =
    let (draw₁, g₁) = random l.base.generator in
    let (draw₂, g₂) = random g₁ in
    (
      less_busy (host_at hosts (draw₁ % length hosts)) (host_at hosts (draw₂ % length hosts)),
      record l { base = record (l.base) { generator = g₂ } },
    )

-- `LeastRequestLoadBalancer::chooseHost`
pub choose_least_request : LeastRequest → ℕ → Choice × LeastRequest
choose_least_request l max_host_weight =
    let imbalanced = not (max_host_weight == 1) in
    let enabled = not (get_integer l.base.runtime "upstream.weight_enabled" 1 == 0) in
    let (to_use, b₁) = hosts_to_use l.base in
    let l₁ : LeastRequest = record { base = b₁; last_host = none; hits_left = 0 } in
    if imbalanced && (ltb 0 l.hits_left && enabled)
    then (
      elim l.last_host [ none ↦ no_host | some host ↦ chosen host ],
      record l { hits_left = dec32 l.hits_left },
    )
    else elim to_use [
      | none ↦ (past_end, l₁)
      | some hosts ↦
          if length hosts == 0
          then (no_host, l₁)
          else if imbalanced && enabled
          then choose_weighted l₁ hosts
          else choose_of_two l₁ hosts
    ]
