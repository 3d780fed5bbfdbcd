-- ===== src/Http/ConnPool/Tests.antt =====
-- A pool that starts empty, with one connection allowed.
use meliproxy.Runtime.{get_integer, find}
use meliproxy.Upstream.Resource.{Resource, can_create, inc, max_value}
use meliproxy.Http.ConnPool.Accounting.{IsValid, Keeps, Elsewhere, new_stream-IsValid}
use meliproxy.Http.ConnPool.{
  Pool, step, Resource, new_stream, connection, queue_or_fail, connected, remote_close,
  create_new_connection, queue_request, take_client,
}
use meliproxy.Http.ConnPool.Step.{step-Keeps}
use meliproxy.Http.ConnPool.Serving.{step-Serves}
use meliproxy.Http.ConnPool.Waiting.{Serves, new_stream-IsServed}
use meliproxy.Shared.{[], length, ◌≡◌, ◌∷◌, refl, ℕ, max, inl, none}

abbrev unused : ℕ → Resource
unused max = record { current = 0; max = max; runtime_key = "k" }

abbrev empty_pool : Pool
empty_pool = record {
  runtime = [];
  connections = unused 1;
  pending_requests = unused 4;
  max_requests_per_connection = 2;
  stats = record {
    cx_total = 0;
    cx_active = 0;
    cx_overflow = 0;
    cx_connect_fail = 0;
    cx_connect_timeout = 0;
    cx_destroy_with_active_rq = 0;
    cx_destroy_local_with_active_rq = 0;
    cx_destroy_remote_with_active_rq = 0;
    cx_max_requests = 0;
    cx_close_notify = 0;
    rq_total = 0;
    rq_active = 0;
    rq_pending_total = 0;
    rq_pending_active = 0;
    rq_pending_overflow = 0;
    rq_pending_failure_eject = 0;
    rq_cancelled = 0;
  };
  next_name = 0;
  ready = [];
  busy = [];
  deferred = [];
  pending = [];
  drained_callbacks = 0;
  said = [];
}

abbrev alone : Elsewhere
alone = record { others = 0; queued = 0; cx = 0; rq = 0; waits = 0 }

empty_pool-IsValid : IsValid alone empty_pool
empty_pool-IsValid = record {
  idle = tt;
  working = tt;
  connections_taken = refl;
  requests_taken = refl;
  cx_gauge = refl;
  rq_gauge = refl;
  pending_gauge = refl;
}

-- A first request makes the pool connect, and a second one waits with it.
abbrev connecting : Pool
connecting = new_stream (new_stream empty_pool 7) 8

connecting-IsValid : IsValid alone connecting
connecting-IsValid =
    new_stream-IsValid alone (new_stream empty_pool 7) 8
      (new_stream-IsValid alone empty_pool 7 empty_pool-IsValid)

connecting-pending : (connecting.pending ≡ (8 ∷ 7 ∷ [])) × (length connecting.busy ≡ 1)
unfolding new_stream queue_or_fail create_new_connection queue_request can_create max_value
    get_integer inc
connecting-pending = (refl, refl)

connects : take_client 0 connecting.ready ≡ none
unfolding new_stream queue_or_fail create_new_connection queue_request take_client can_create
    max_value get_integer find inc
connects = refl

step-Keeps_example : Keeps alone (step connecting (connection 0 connected))
step-Keeps_example =
    step-Keeps alone connecting (connection 0 connected) connecting-IsValid connects

step-Serves_example : Serves (step connecting (connection 0 remote_close))
step-Serves_example =
    step-Serves alone connecting (connection 0 remote_close) connecting-IsValid (
      new_stream-IsServed (new_stream empty_pool 7) 8 (new_stream-IsServed empty_pool 7 (inl refl)))
