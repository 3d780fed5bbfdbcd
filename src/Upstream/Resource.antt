-- ===== src/Upstream/Resource.antt =====
-- envoy/envoy/source/common/upstream/resource_manager_impl.h: circuit breaking.
use Prim.Native.String.{String}
use meliproxy.Runtime.{Snapshot, get_integer}
use meliproxy.Shared.{Bool, ltb, dec64, ◌≡◌, inc64, arith, IsU64, ℕ}

-- `ResourceImpl`. The runtime is an argument of the methods that read it.
pub record Resource : Type 0 where
  pub current : ℕ
  pub max : ℕ
  pub runtime_key : String

unfoldable pub max_value : Snapshot → Resource → ℕ
max_value runtime r = get_integer runtime r.runtime_key r.max

unfoldable pub can_create : Snapshot → Resource → Bool
can_create runtime r = ltb r.current (max_value runtime r)

unfoldable pub inc : Resource → Resource
inc r = record r { current = inc64 r.current }

unfoldable pub dec : Resource → Resource
dec r = record r { current = dec64 r.current }

pub record ResourceManager : Type 0 where
  pub connections : Resource
  pub pending_requests : Resource
  pub requests : Resource
  pub retries : Resource

-- `ResourceManagerImpl`: all four start unused.
pub resource_manager :
    (max_connections max_pending_requests max_requests max_retries : ℕ) (keys : String → String)
    → ResourceManager
resource_manager mc mp mr mt keys = record {
  connections = record { current = 0; max = mc; runtime_key = keys "max_connections" };
  pending_requests = record { current = 0; max = mp; runtime_key = keys "max_pending_requests" };
  requests = record { current = 0; max = mr; runtime_key = keys "max_requests" };
  retries = record { current = 0; max = mt; runtime_key = keys "max_retries" };
}

-- Taking a unit and giving it back leaves the resource as it was.
pub dec-inc : (r : Resource) → IsU64 r.current → dec (inc r) ≡ r
unfolding dec inc
dec-inc r h = ground arith
