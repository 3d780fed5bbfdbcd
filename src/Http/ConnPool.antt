-- ===== src/Http/ConnPool.antt =====
-- envoy/envoy/source/common/http/http1/conn_pool.h and conn_pool.cc: the pool of HTTP/1 connections.
-- Closing a connection calls `onConnectionEvent` with LocalClose at once. A callback is written down
-- in `said`; what it calls in its turn is a later event. The statistics of the host are the cluster's
-- again and are left out. The order of the busy clients is not kept: the pool never looks at it. The
-- pool's destructor is not modelled.
mod State
pub mod Accounting
pub mod Deaths
pub mod Events
pub mod Step
pub mod Waiting
pub mod Serving
pub mod Tests
pub use meliproxy.Http.ConnPool.State.{
  Stream, Client, ConnectionEvent, connected, remote_close, local_close, PoolFailureReason,
  overflow, connection_failure, Said, pool_ready, pool_failure, drained, Stats, Pool, is_none, tell,
  end_stream, fresh_stream, call_drained, Outcome, goes, misuse, absent, is_local, is_remote,
  StreamCall, encode_completes, decodes_headers, decode_completes, Event, asks, connection,
  times_out, resets, cancels, calls, adds_drained, deletes,
}
use meliproxy.Upstream.Resource
use meliproxy.Runtime.{Snapshot}
use meliproxy.Upstream.Resource.{Resource}
use meliproxy.Shared.{
  true, List, length, none, suc, ◌-◌, ◌+◌, ◌==◌, dec64, inc64, some, ◌&&◌, [], ◌^◌, false, Bool,
  not, ltb, ◌%◌, ◌||◌, zero, ◌∷◌, Option, ℕ, if◌then◌else◌,
}

-- `attachRequestToClient`, beside the new stream of the client. Its old one is reset before.
pub attach_request_to_client : Pool → ℕ → Pool
attach_request_to_client p request = tell (pool_ready request) (record p {
  stats = record (p.stats) {
    rq_total = inc64 p.stats.rq_total;
    rq_active = inc64 p.stats.rq_active;
  };
})

-- The constructor of `ActiveClient`, and its place at the front of the busy clients.
pub create_new_connection : Pool → Pool
create_new_connection p = record p {
  next_name = p.next_name + 1;
  busy =
      record {
        name = p.next_name;
        stream = none;
        connect_timer = true;
        remaining_requests = p.max_requests_per_connection;
      }
      ∷ p.busy;
  connections = Resource.inc p.connections;
  stats = record (p.stats) {
    cx_total = inc64 p.stats.cx_total;
    cx_active = inc64 p.stats.cx_active;
  };
}

-- `deferredDelete`, and the new connection for what is pending.
pub after_removal : Pool → Client → Pool
unfolding create_new_connection
after_removal p c =
    let p₁ = record p { deferred = c ∷ p.deferred } in
    if ltb (length p.ready + length p.busy) (length p.pending) then create_new_connection p₁ else p₁

-- `onConnectionEvent` of an idle client that is closed.
pub idle_died : Pool → Client → List Client → Pool
idle_died p c rest = after_removal (record p { ready = rest }) c

-- The loop of `checkForDrained` that closes the ready clients.
pub close_ready : List Client → Pool → Pool
unfolding idle_died
close_ready [] p = p
close_ready (c ∷ cs) p = close_ready cs (idle_died p c cs)

-- `checkForDrained`
pub check_for_drained : Pool → Pool
check_for_drained p =
    let p₁ = close_ready p.ready p in
    if not (p.drained_callbacks == 0) && (length p.pending == 0 && length p.busy == 0)
    then record p₁ { said = call_drained p₁.drained_callbacks p₁.said }
    else p

-- `addDrainedCallback`
pub add_drained_callback : Pool → Pool
unfolding check_for_drained
add_drained_callback p =
    check_for_drained (record p { drained_callbacks = p.drained_callbacks + 1 })

-- The constructor of `PendingRequest`, and its place at the front of the pending ones.
pub queue_request : Pool → ℕ → Pool
queue_request p request = record p {
  pending = request ∷ p.pending;
  pending_requests = Resource.inc p.pending_requests;
  stats = record (p.stats) {
    rq_pending_total = inc64 p.stats.rq_pending_total;
    rq_pending_active = inc64 p.stats.rq_pending_active;
  };
}

-- `~PendingRequest`
pub end_request : Pool → Pool
end_request p = record p {
  pending_requests = Resource.dec p.pending_requests;
  stats = record (p.stats) { rq_pending_active = dec64 p.stats.rq_pending_active };
}

-- `newStream` where no client is ready.
pub queue_or_fail : Pool → ℕ → Pool
unfolding create_new_connection queue_request
queue_or_fail p request =
    let can_create_connection = Resource.can_create p.runtime p.connections in
    let p₁ =
      if can_create_connection
      then p
      else record p { stats = record (p.stats) { cx_overflow = inc64 p.stats.cx_overflow } } in
    let p₂ =
      if (length p.ready == 0 && length p.busy == 0) || can_create_connection
      then create_new_connection p₁
      else p₁ in
    if Resource.can_create p.runtime p.pending_requests
    then queue_request p₂ request
    else tell (pool_failure request overflow) (record p {
      stats = record (p.stats) { rq_pending_overflow = inc64 p.stats.rq_pending_overflow };
    })

-- `newStream`
pub new_stream : Pool → ℕ → Pool
unfolding attach_request_to_client
new_stream p request = elim p.ready [
  | [] ↦ queue_or_fail p request
  | c ∷ cs ↦
      attach_request_to_client
        (record p { ready = cs; busy = record c { stream = some fresh_stream } ∷ p.busy }) request
]

-- Splits off the request at the back.
pub unqueue : ℕ → List ℕ → ℕ × List ℕ
unqueue r [] = (r, [])
unqueue r (q ∷ qs) = let (last, rest) = unqueue q qs in (last, r ∷ rest)

-- `processIdleClient`, for a client that stood among the busy ones beside `rest`.
pub process_idle_client : Pool → Client → List Client → Pool
unfolding attach_request_to_client end_request check_for_drained
process_idle_client p c rest =
    let p₁ = record p { stats = end_stream c.stream p.stats } in
    elim p.pending [
      | [] ↦
          check_for_drained
            (record p₁ { busy = rest; ready = record c { stream = none } ∷ p.ready })
      | r ∷ rs ↦
          let (request, left) = unqueue r rs in
          check_for_drained (
            end_request
              (record (attach_request_to_client
                (record p₁ { busy = record c { stream = some fresh_stream } ∷ rest }) request) {
                  pending = left;
                }))
    ]

-- The purge of the pending requests after a failure to connect, from the last one queued on.
pub purge : List ℕ → Pool → Pool
unfolding end_request
purge [] p = p
purge (r ∷ rs) p = purge rs (
    end_request (
      tell (pool_failure r connection_failure) (record p {
        stats = record (p.stats) {
          rq_pending_failure_eject = inc64 p.stats.rq_pending_failure_eject;
        };
      })))

-- The statistics of a client that dies with a stream.
pub count_active : ConnectionEvent → Stream → Stats → Stats
count_active event w s = if w.decode_complete then s else record s {
  cx_destroy_local_with_active_rq =
      if is_local event
      then inc64 s.cx_destroy_local_with_active_rq
      else s.cx_destroy_local_with_active_rq;
  cx_destroy_remote_with_active_rq =
      if is_remote event
      then inc64 s.cx_destroy_remote_with_active_rq
      else s.cx_destroy_remote_with_active_rq;
  cx_destroy_with_active_rq = inc64 s.cx_destroy_with_active_rq;
}

-- `onConnectionEvent` with a close, for a busy client. The connect timer is what tells a failure to
-- connect.
pub busy_died : Pool → ConnectionEvent → Client → List Client → Outcome
unfolding after_removal check_for_drained purge
busy_died p event c rest = elim c.stream [
  | some w ↦ goes (
      check_for_drained
        (after_removal (record p { busy = rest; stats = count_active event w p.stats }) c))
  | none ↦
      let p₁ = record p {
        busy = rest;
        pending = [];
        stats = record (p.stats) { cx_connect_fail = inc64 p.stats.cx_connect_fail };
      } in
      if not c.connect_timer
      then misuse
      else goes (
          check_for_drained
            (after_removal (purge p.pending p₁) (record c { connect_timer = false })))
]

-- The same for a client that stands among the ready ones.
pub ready_died : Pool → Client → List Client → Outcome
ready_died p c rest = elim c.stream [
  | some w ↦ misuse
  | none ↦ if c.connect_timer then misuse else goes (idle_died p c rest)
]

-- `onConnectionEvent` with Connected: the timer goes first.
pub client_connected : Pool → Client → List Client → Outcome
unfolding process_idle_client
client_connected p c rest = goes (process_idle_client p (record c { connect_timer = false }) rest)

-- Takes the client of a name out of a list.
pub take_client : ℕ → List Client → Option (Client × List Client)
take_client n [] = none
take_client n (c ∷ cs) =
    if c.name == n
    then some (c, cs)
    else elim (take_client n cs) [ none ↦ none | some (d, rest) ↦ some (d, c ∷ rest) ]

-- `onConnectionEvent`. Moving to the ready list is only possible from the busy one.
pub on_connection_event : Pool → ℕ → ConnectionEvent → Outcome
unfolding busy_died ready_died client_connected
on_connection_event p n event = elim (take_client n p.busy) [
  | some (c, rest) ↦ elim event [
    | connected ↦ client_connected p c rest
    | local_close ↦ busy_died p local_close c rest
    | remote_close ↦ busy_died p remote_close c rest
  ]
  | none ↦ elim (take_client n p.ready) [
    | none ↦ absent
    | some (c, rest) ↦ elim event [
      | connected ↦ misuse
      | local_close ↦ ready_died p c rest
      | remote_close ↦ ready_died p c rest
    ]
  ]
]

-- `onConnectTimeout`
pub on_connect_timeout : Pool → ℕ → Outcome
unfolding on_connection_event
on_connect_timeout p n =
    on_connection_event
      (record p {
        stats = record (p.stats) { cx_connect_timeout = inc64 p.stats.cx_connect_timeout };
      })
      n local_close

-- `onDownstreamReset`
pub on_downstream_reset : Pool → ℕ → Outcome
unfolding on_connection_event
on_downstream_reset p n = on_connection_event p n local_close

-- `onPendingRequestCancel`, with the removal of the request.
pub without : ℕ → List ℕ → Option (List ℕ)
without r [] = none
without r (q ∷ qs) =
    if q == r then some qs else elim (without r qs) [ none ↦ none | some rest ↦ some (q ∷ rest) ]

pub on_pending_request_cancel : Pool → ℕ → Outcome
unfolding end_request check_for_drained
on_pending_request_cancel p request = elim (without request p.pending) [
  | none ↦ absent
  | some rest ↦
      let p₁ = end_request (record p { pending = rest }) in
      goes (
        check_for_drained
          (record p₁ { stats = record (p₁.stats) { rq_cancelled = inc64 p₁.stats.rq_cancelled } }))
]

-- `onResponseComplete`, for a busy client with the stream `w`; `remote_closed` is what the codec's
-- client says.
pub on_response_complete : Pool → Client → Stream → List Client → Bool → Outcome
unfolding process_idle_client busy_died
on_response_complete p c w rest remote_closed =
    let left = (c.remaining_requests + 2 ^ 64 - 1) % 2 ^ 64 in
    let counts = ltb 0 c.remaining_requests in
    let c₁ = if counts then record c { remaining_requests = left } else c in
    if not w.encode_complete
    then busy_died p local_close c rest
    else if w.saw_close_header || remote_closed
    then busy_died p local_close c rest
    else if counts && left == 0
    then busy_died
        (record p { stats = record (p.stats) { cx_max_requests = inc64 p.stats.cx_max_requests } })
        local_close c₁ rest
    else goes (process_idle_client p c₁ rest)

pub on_stream : Pool → StreamCall → Client → Stream → List Client → Outcome
unfolding on_response_complete
on_stream p encode_completes c w rest =
    goes
      (record p { busy = record c { stream = some (record w { encode_complete = true }) } ∷ rest })
on_stream p (decodes_headers close) c w rest =
    if close
    then goes (record p {
      busy = record c { stream = some (record w { saw_close_header = true }) } ∷ rest;
      stats = record (p.stats) { cx_close_notify = inc64 p.stats.cx_close_notify };
    })
    else goes (record p { busy = c ∷ rest })
on_stream p (decode_completes remote_closed) c w rest =
    let w₁ = record w { decode_complete = w.encode_complete } in
    on_response_complete p (record c { stream = some w₁ }) w₁ rest remote_closed

pub on_client_stream : Pool → ℕ → StreamCall → Outcome
unfolding on_stream
on_client_stream p n call = elim (take_client n p.busy) [
  | none ↦ absent
  | some (c, rest) ↦ elim c.stream [ none ↦ absent | some w ↦ on_stream p call c w rest ]
]

-- `clearDeferredDeleteList`: `~ActiveClient` for each client.
pub clear_deferred : List Client → Pool → Pool
clear_deferred [] p = record p { deferred = [] }
clear_deferred (c ∷ cs) p = clear_deferred cs (record p {
  connections = Resource.dec p.connections;
  stats = end_stream c.stream (record (p.stats) { cx_active = dec64 p.stats.cx_active });
})

pub step : Pool → Event → Outcome
unfolding new_stream on_connection_event on_connect_timeout on_downstream_reset
    on_pending_request_cancel on_client_stream add_drained_callback clear_deferred
step p (asks request) = goes (new_stream p request)
step p (connection n event) = on_connection_event p n event
step p (times_out n) = on_connect_timeout p n
step p (resets n) = on_downstream_reset p n
step p (cancels request) = on_pending_request_cancel p request
step p (calls n call) = on_client_stream p n call
step p adds_drained = goes (add_drained_callback p)
step p deletes = goes (clear_deferred p.deferred p)
