-- ===== src/Http/ConnPool/Serving.antt =====
-- The events of a pool and the requests that wait in it.
use meliproxy.Http.ConnPool.Accounting.{IsValid, Elsewhere}
use meliproxy.Http.ConnPool.Events.{timeout-IsValid}
use meliproxy.Http.ConnPool.Step.{length-without}
use meliproxy.Http.ConnPool.Waiting.{
  IsServed, Serves, check_for_drained-IsServed, busy_died-Serves, process_idle_client-IsServed,
  new_stream-IsServed, on_connection_event-Serves,
}
use meliproxy.Http.ConnPool.{
  Pool, Client, Stream, goes, absent, Event, step, connection, asks, resets, cancels, calls,
  times_out, adds_drained, deletes, StreamCall, decodes_headers, decode_completes, encode_completes,
  local_close, on_pending_request_cancel, on_response_complete, on_stream, on_client_stream,
  clear_deferred, on_connect_timeout, end_request, busy_died, take_client, on_downstream_reset,
  without, process_idle_client, add_drained_callback, check_for_drained,
}
use meliproxy.Shared.{
  if_cases, ◌≤◌, [], refl, Bool, Option, ℕ, ◌≡◌, ◌||◌, false, ◌+◌, inc64, true, ltb, ◌==◌, ◌^◌, ◌-◌,
  if◌then◌else◌, ◌%◌, some, none, ◌∷◌, suc, not, ◌⊎◌, List, arith, ◌&&◌, length,
}

cancel-Serves : (p : Pool) (r : ℕ) → IsServed p → Serves (on_pending_request_cancel p r)
unfolding on_pending_request_cancel end_request
cancel-Serves p r s = by_rest (without r p.pending) refl
  where
    by_rest :
        (t : Option (List ℕ))
        → without r p.pending ≡ t
        → Serves (elim t [
          | none ↦ absent
          | some rest ↦
              let p₁ = end_request (record p { pending = rest }) in
              goes (
                check_for_drained (record p₁ {
                  stats = record (p₁.stats) { rq_cancelled = inc64 p₁.stats.rq_cancelled };
                }))
        ])
    by_rest none e = tt
    by_rest (some rest) e =
        let p₁ = end_request (record p { pending = rest }) in
        check_for_drained-IsServed
          (record p₁ { stats = record (p₁.stats) { rq_cancelled = inc64 p₁.stats.rq_cancelled } })
          (shorter s (length-without r p.pending rest e))
      where
        shorter :
            IsServed p
            → length p.pending ≡ suc (length rest)
            → (length rest ≡ 0) ⊎ ((length p.ready ≡ 0) × (1 ≤ length p.busy))
        shorter s e = ground arith

on_response_complete-Serves :
    (p : Pool) (c : Client) (w : Stream) (rest : List Client) (remote_closed : Bool)
    → IsServed p
    → Serves (on_response_complete p c w rest remote_closed)
unfolding on_response_complete
on_response_complete-Serves p c w rest remote_closed s =
    if_cases Serves (not w.encode_complete) _ _ (λ e. busy_died-Serves p local_close c rest s)
      (λ e.
        if_cases Serves (w.saw_close_header || remote_closed) _ _
          (λ e. busy_died-Serves p local_close c rest s)
          (λ e. by_count (ltb 0 c.remaining_requests)))
  where
    by_count :
        (counts : Bool)
        → Serves (
            let left = (c.remaining_requests + 2 ^ 64 - 1) % 2 ^ 64 in
            let c₁ = if counts then record c { remaining_requests = left } else c in
            if counts && left == 0
            then busy_died
                (record p {
                  stats = record (p.stats) { cx_max_requests = inc64 p.stats.cx_max_requests };
                })
                local_close
                c₁
                rest
            else goes (process_idle_client p c₁ rest))
    by_count false = process_idle_client-IsServed p c rest s
    by_count true =
        if_cases Serves ((c.remaining_requests + 2 ^ 64 - 1) % 2 ^ 64 == 0) _ _
          (λ e. busy_died-Serves _ local_close _ rest s)
          (λ e. process_idle_client-IsServed p _ rest s)

on_stream-Serves :
    (p : Pool) (call : StreamCall) (c : Client) (w : Stream) (rest : List Client)
    → IsServed p
    → Serves (on_stream p call c w rest)
unfolding on_stream
on_stream-Serves p encode_completes c w rest s = ground arith
on_stream-Serves p (decodes_headers close) c w rest s = ground arith
on_stream-Serves p (decode_completes remote_closed) c w rest s =
    on_response_complete-Serves p
      (record c { stream = some (record w { decode_complete = w.encode_complete }) })
      (record w { decode_complete = w.encode_complete }) rest remote_closed s

on_client_stream-Serves :
    (p : Pool) (n : ℕ) (call : StreamCall) → IsServed p → Serves (on_client_stream p n call)
unfolding on_client_stream
on_client_stream-Serves p n call s = by_busy (take_client n p.busy)
  where
    by_stream :
        (c : Client) (rest : List Client) (w : Option Stream)
        → Serves (elim w [ none ↦ absent | some w ↦ on_stream p call c w rest ])
    by_stream c rest none = tt
    by_stream c rest (some w) = on_stream-Serves p call c w rest s

    by_busy :
        (t : Option (Client × List Client))
        → Serves (elim t [
          | none ↦ absent
          | some (c, rest) ↦ elim c.stream [ none ↦ absent | some w ↦ on_stream p call c w rest ]
        ])
    by_busy none = tt
    by_busy (some (c, rest)) = by_stream c rest c.stream

clear_deferred-IsServed :
    (cs : List Client) (p : Pool) → IsServed p → IsServed (clear_deferred cs p)
unfolding clear_deferred
clear_deferred-IsServed [] p s = s
clear_deferred-IsServed (c ∷ cs) p s = clear_deferred-IsServed cs _ s

-- From a valid pool in which requests wait only while no client is ready and some client is busy, every
-- event that goes through leads to a pool of which the same is true: no request is left in the queue with nobody
-- to take it.
pub step-Serves :
    (o : Elsewhere) (p : Pool) (e : Event) → IsValid o p → IsServed p → Serves (step p e)
unfolding step on_connect_timeout on_downstream_reset add_drained_callback
step-Serves o p (asks r) v s = new_stream-IsServed p r s
step-Serves o p (connection n event) v s = on_connection_event-Serves o p n event v s
step-Serves o p (times_out n) v s =
    on_connection_event-Serves o
      (record p {
        stats = record (p.stats) { cx_connect_timeout = inc64 p.stats.cx_connect_timeout };
      })
      n local_close (timeout-IsValid o p _ v) s
step-Serves o p (resets n) v s = on_connection_event-Serves o p n local_close v s
step-Serves o p (cancels r) v s = cancel-Serves p r s
step-Serves o p (calls n call) v s = on_client_stream-Serves p n call s
step-Serves o p adds_drained v s =
    check_for_drained-IsServed (record p { drained_callbacks = p.drained_callbacks + 1 }) s
step-Serves o p deletes v s = clear_deferred-IsServed p.deferred p s
