-- ===== src/Upstream/LoadBalancer/Tests.antt =====
-- Runs of the load balancers, and the theorems on them at concrete inputs.
use meliproxy.Upstream.LoadBalancer.{
  residuals, scan, Host, HostSet, Balancer, no_locality_routing,
  regenerate_locality_routing_structures,
}
use meliproxy.Upstream.LoadBalancer.Locality.{
  IsValid, regenerate_locality_routing_structures-IsValid, entry,
}
use meliproxy.Upstream.LoadBalancer.Capacity.{scan-capacity}
use meliproxy.Shared.{refl, [], ◌+◌, ℕ, zero, some, List, ◌∷◌, ◌<◌, ◌≡◌, suc}

abbrev host : ℕ → Host
host address = record { address = address; weight = 1; rq_active = 0 }

abbrev hosts_from : ℕ → ℕ → List Host
hosts_from first zero = []
hosts_from first (suc n) = host first ∷ hosts_from (first + 1) n

-- One host in the first locality, six in the second one.
abbrev upstream_set : HostSet
upstream_set = record {
  hosts = hosts_from 0 7;
  healthy_hosts = hosts_from 0 7;
  healthy_hosts_per_locality = hosts_from 0 1 ∷ hosts_from 1 6 ∷ [];
}

abbrev local_set : HostSet
local_set = record {
  hosts = hosts_from 0 2;
  healthy_hosts = hosts_from 0 2;
  healthy_hosts_per_locality = hosts_from 0 1 ∷ hosts_from 1 1 ∷ [];
}

abbrev balancer : Balancer
balancer = record {
  stats = record {
    recalculate_zone_structures = 0;
    zone_number_differs = 0;
    zone_cluster_too_small = 0;
    zone_routing_all_directly = 0;
    zone_routing_sampled = 0;
    zone_routing_cross_zone = 0;
    zone_no_capacity_left = 0;
    healthy_panic = 0;
    local_cluster_not_ok = 0;
  };
  runtime = [];
  generator = record { draws = λ n. n + 9000; used = 0 };
  host_set = upstream_set;
  local_host_set = some local_set;
  local_percent_to_route = 0;
  locality_routing_state = no_locality_routing;
  residual_capacity = [];
}

abbrev routing : Balancer
routing = regenerate_locality_routing_structures balancer

regenerate_locality_routing_structures-IsValid_example : IsValid routing
regenerate_locality_routing_structures-IsValid_example =
    regenerate_locality_routing_structures-IsValid balancer

-- The residual capacities 0, 0 and 3571: the value 17 goes to the third locality.
scan_third : scan 17 (0 ∷ residuals 0 (1428 ∷ 8571 ∷ []) (5000 ∷ 5000 ∷ [])) ≡ some 2
unfolding scan residuals
scan_third = refl

scan-capacity_example :
    (◌≡◌ {A = ℕ} 17 0 → ◌≡◌ {A = ℕ} 2 0)
    × (0 < 17
        → (k : ℕ) × (◌≡◌ {A = ℕ} 2 (suc k))
          × (entry (5000 ∷ 5000 ∷ []) k < entry (1428 ∷ 8571 ∷ []) k))
scan-capacity_example = scan-capacity 17 (1428 ∷ 8571 ∷ []) (5000 ∷ 5000 ∷ []) 2 refl scan_third
