-- ===== src/Http/ConnPool/State.antt =====
-- The state of the pool of HTTP/1 connections: envoy/envoy/source/common/http/http1/conn_pool.h.

use meliproxy.Runtime.{Snapshot}
use meliproxy.Upstream.Resource.{Resource}
use meliproxy.Shared.{true, List, none, suc, dec64, some, false, Bool, zero, ◌∷◌, Option, ℕ}

-- `StreamWrapper`
pub record Stream : Type 0 where
  pub encode_complete : Bool
  pub saw_close_header : Bool
  pub decode_complete : Bool

-- `ActiveClient`; `connect_timer` says whether the timer exists.
pub record Client : Type 0 where
  pub name : ℕ
  pub stream : Option Stream
  pub connect_timer : Bool
  pub remaining_requests : ℕ

pub data ConnectionEvent : Type 0 where
  connected remote_close local_close : ConnectionEvent

pub data PoolFailureReason : Type 0 where
  overflow connection_failure : PoolFailureReason

pub data Said : Type 0 where
  pool_ready : ℕ → Said
  pool_failure : ℕ → PoolFailureReason → Said
  drained : Said

pub record Stats : Type 0 where
  pub cx_total : ℕ
  pub cx_active : ℕ
  pub cx_overflow : ℕ
  pub cx_connect_fail : ℕ
  pub cx_connect_timeout : ℕ
  pub cx_destroy_with_active_rq : ℕ
  pub cx_destroy_local_with_active_rq : ℕ
  pub cx_destroy_remote_with_active_rq : ℕ
  pub cx_max_requests : ℕ
  pub cx_close_notify : ℕ
  pub rq_total : ℕ
  pub rq_active : ℕ
  pub rq_pending_total : ℕ
  pub rq_pending_active : ℕ
  pub rq_pending_overflow : ℕ
  pub rq_pending_failure_eject : ℕ
  pub rq_cancelled : ℕ

-- `ConnPoolImpl`, with the two resources that it takes from, and the clients that are removed and not
-- yet deleted. `pending` has the last request first.
pub record Pool : Type 0 where
  pub runtime : Snapshot
  pub connections : Resource
  pub pending_requests : Resource
  pub max_requests_per_connection : ℕ
  pub stats : Stats
  pub next_name : ℕ
  pub ready : List Client
  pub busy : List Client
  pub deferred : List Client
  pub pending : List ℕ
  pub drained_callbacks : ℕ
  pub said : List Said

abbrev pub is_none {ℓ} : {A : Type ℓ} → Option A → Bool
is_none none = true
is_none (some a) = false

abbrev pub tell : Said → Pool → Pool
tell s p = record p { said = s ∷ p.said }

-- `~StreamWrapper`, for what a client has.
abbrev pub end_stream : Option Stream → Stats → Stats
end_stream none s = s
end_stream (some w) s = record s { rq_active = dec64 s.rq_active }

-- The stream of a request as it begins.
abbrev pub fresh_stream : Stream
fresh_stream = record { encode_complete = false; saw_close_header = false; decode_complete = false }

abbrev pub call_drained : ℕ → List Said → List Said
call_drained zero said = said
call_drained (suc n) said = drained ∷ call_drained n said

-- How a call ends. `misuse` is the removal of a client from a list that it does not stand in, and
-- `absent` the call on a client or a request that the pool does not hold.
pub data Outcome : Type 0 where
  goes : Pool → Outcome
  misuse absent : Outcome

abbrev pub is_local : ConnectionEvent → Bool
is_local local_close = true
is_local remote_close = false
is_local connected = false

abbrev pub is_remote : ConnectionEvent → Bool
is_remote remote_close = true
is_remote local_close = false
is_remote connected = false

-- A call of the codec on the stream of a client: `onEncodeComplete`, `decodeHeaders`, and
-- `onDecodeComplete`.
pub data StreamCall : Type 0 where
  encode_completes : StreamCall
  decodes_headers : Bool → StreamCall
  decode_completes : Bool → StreamCall

-- What happens to a pool.
pub data Event : Type 0 where
  asks : ℕ → Event
  connection : ℕ → ConnectionEvent → Event
  times_out : ℕ → Event
  resets : ℕ → Event
  cancels : ℕ → Event
  calls : ℕ → StreamCall → Event
  adds_drained deletes : Event
