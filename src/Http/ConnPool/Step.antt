-- ===== src/Http/ConnPool/Step.antt =====
-- What happens to a pool, from one event to the next.
use meliproxy.Http.ConnPool.Accounting.{
  IsValid, Keeps, Elsewhere, IsBusy, streams, held, check_for_drained-IsValid, new_stream-IsValid,
}
use meliproxy.Http.ConnPool.Deaths.{
  Splits, take_client-Splits, process_idle_client-IsValid, busy_died-Keeps, served-IsValid,
}
use meliproxy.Http.ConnPool.Events.{
  Connects, on_connection_event-Keeps, timeout-IsValid, clear_deferred-IsValid,
}
use meliproxy.Http.ConnPool.{
  connection, asks, resets, cancels, calls, times_out, adds_drained, deletes, StreamCall,
  decodes_headers, decode_completes, encode_completes, local_close, goes, absent, Pool, Client,
  Stream, goes, absent, Event, step, without, on_pending_request_cancel, on_stream,
  on_client_stream, on_connect_timeout, on_downstream_reset, add_drained_callback, end_request,
  on_response_complete, take_client, check_for_drained, busy_died, process_idle_client,
}
use meliproxy.Shared.{
  ◌∙◌, arith, All, inr, suc, ◌∷◌, List, inl, ◌==◌, ap, some, ◌≡◌, inc64, some_inj, ℕ, Bool-cases,
  none, refl, ◌+◌, [], Option-cases, length, Option, ◌-◌, ◌||◌, if_cases, if◌then◌else◌, ◌%◌, true,
  ◌^◌, false, Bool, not, ltb, ◌&&◌,
}

pub length-without :
    (r : ℕ) (qs rest : List ℕ) → without r qs ≡ some rest → length qs ≡ suc (length rest)
unfolding without
length-without r [] rest e = absurd (cc e)
length-without r (q ∷ qs) rest e = elim (Bool-cases (q == r)) [
  | inl t ↦ ap (λ l. suc (length l)) (some_inj (rw (t, without) at e))
  | inr t ↦ elim (Option-cases (without r qs)) [
    | inl z ↦ absurd (no (rw (t, z, without) at e))
    | inr (l, z) ↦ ap suc (length-without r qs l z ∙ ap length (some_inj (rw (t, z, without) at e)))
  ]
]
  where
    no : none ≡ some rest → ⊥
    no e = cc

pub cancel-Keeps :
    (o : Elsewhere) (p : Pool) (r : ℕ) → IsValid o p → Keeps o (on_pending_request_cancel p r)
unfolding on_pending_request_cancel
cancel-Keeps o p r v = by_rest (without r p.pending) refl
  where
    cancelled-IsValid :
        (o : Elsewhere) (p : Pool) (n : ℕ)
        → IsValid o p
        → IsValid o (record p { stats = record (p.stats) { rq_cancelled = n } })
    cancelled-IsValid o p n v = record {
      idle = v.idle;
      working = v.working;
      connections_taken = v.connections_taken;
      requests_taken = v.requests_taken;
      cx_gauge = v.cx_gauge;
      rq_gauge = v.rq_gauge;
      pending_gauge = v.pending_gauge;
    }

    by_rest :
        (t : Option (List ℕ))
        → without r p.pending ≡ t
        → Keeps o (elim t [
          | none ↦ absent
          | some rest ↦
              let p₁ = end_request (record p { pending = rest }) in
              goes (
                check_for_drained (record p₁ {
                  stats = record (p₁.stats) { rq_cancelled = inc64 p₁.stats.rq_cancelled };
                }))
        ])
    by_rest none e = tt
    by_rest (some rest) e = check_for_drained-IsValid o _ (
        cancelled-IsValid o (end_request (record p { pending = rest })) _
          (served-IsValid o p rest (length-without r p.pending rest e) v))

on_response_complete-Keeps :
    (o : Elsewhere) (p : Pool) (c : Client) (w : Stream) (rest : List Client) (remote_closed : Bool)
    → IsBusy c
    → c.connect_timer ≡ false
    → length p.busy ≡ suc (length rest)
    → streams p.busy ≡ held c.stream + streams rest
    → All IsBusy rest
    → IsValid o p
    → Keeps o (on_response_complete p c w rest remote_closed)
unfolding on_response_complete
on_response_complete-Keeps o p c w rest remote_closed b t n m h v =
    if_cases (Keeps o) (not w.encode_complete) _ _ (λ e. died)
      (λ e.
        if_cases (Keeps o) (w.saw_close_header || remote_closed) _ _ (λ e. died)
          (λ e. by_count (ltb 0 c.remaining_requests)))
  where
    died : Keeps o (busy_died p local_close c rest)
    died = busy_died-Keeps o p local_close c rest b n m h v

    max-IsValid :
        (n : ℕ) → IsValid o (record p { stats = record (p.stats) { cx_max_requests = n } })
    max-IsValid n = record {
      idle = v.idle;
      working = v.working;
      connections_taken = v.connections_taken;
      requests_taken = v.requests_taken;
      cx_gauge = v.cx_gauge;
      rq_gauge = v.rq_gauge;
      pending_gauge = v.pending_gauge;
    }

    by_count :
        (counts : Bool)
        → Keeps o (
            let left = (c.remaining_requests + 2 ^ 64 - 1) % 2 ^ 64 in
            let c₁ = if counts then record c { remaining_requests = left } else c in
            if counts && left == 0
            then busy_died
                (record p {
                  stats = record (p.stats) { cx_max_requests = inc64 p.stats.cx_max_requests };
                })
                local_close
                c₁
                rest
            else goes (process_idle_client p c₁ rest))
    by_count false = process_idle_client-IsValid o p c rest t n m h v
    by_count true =
        if_cases (Keeps o) ((c.remaining_requests + 2 ^ 64 - 1) % 2 ^ 64 == 0) _ _
          (λ e. busy_died-Keeps o _ local_close _ rest b n m h (max-IsValid _))
          (λ e. process_idle_client-IsValid o p _ rest t n m h v)

-- A call of a stream, for the client `c` that stood beside `rest`.
pub on_stream-Keeps :
    (o : Elsewhere) (p : Pool) (call : StreamCall) (c : Client) (w : Stream) (rest : List Client)
    → c.stream ≡ some w
    → IsBusy c
    → length p.busy ≡ suc (length rest)
    → streams p.busy ≡ held c.stream + streams rest
    → All IsBusy rest
    → IsValid o p
    → Keeps o (on_stream p call c w rest)
unfolding on_stream
on_stream-Keeps o p encode_completes c w rest e b n m h v = record {
  idle = v.idle;
  working = (cc (b, e), h);
  connections_taken = omega (arith, n, v);
  requests_taken = v.requests_taken;
  cx_gauge = omega (arith, n, v);
  rq_gauge = omega (arith, m, ap held e, v);
  pending_gauge = v.pending_gauge;
}
on_stream-Keeps o p (decodes_headers close) c w rest e b n m h v =
    if_cases (Keeps o) close _ _
      (λ t. record {
        idle = v.idle;
        working = (cc (b, e), h);
        connections_taken = omega (arith, n, v);
        requests_taken = v.requests_taken;
        cx_gauge = omega (arith, n, v);
        rq_gauge = omega (arith, m, ap held e, v);
        pending_gauge = v.pending_gauge;
      })
      (λ t. record {
        idle = v.idle;
        working = (b, h);
        connections_taken = omega (arith, n, v);
        requests_taken = v.requests_taken;
        cx_gauge = omega (arith, n, v);
        rq_gauge = omega (arith, m, v);
        pending_gauge = v.pending_gauge;
      })
on_stream-Keeps o p (decode_completes remote_closed) c w rest e b n m h v =
    on_response_complete-Keeps o p
      (record c { stream = some (record w { decode_complete = w.encode_complete }) })
      (record w { decode_complete = w.encode_complete }) rest remote_closed (cc (b, e)) (cc (b, e))
      n (omega (arith, m, ap held e)) h v

pub on_client_stream-Keeps :
    (o : Elsewhere) (p : Pool) (n : ℕ) (call : StreamCall)
    → IsValid o p
    → Keeps o (on_client_stream p n call)
unfolding on_client_stream
on_client_stream-Keeps o p n call v =
    by_busy (take_client n p.busy) (λ x e. take_client-Splits IsBusy n p.busy x e v.working)
  where
    by_stream :
        (c : Client) (rest : List Client)
        → Splits IsBusy p.busy (c, rest)
        → (s : Option Stream) → c.stream ≡ s
        → Keeps o (elim s [ none ↦ absent | some w ↦ on_stream p call c w rest ])
    by_stream c rest k none e = tt
    by_stream c rest k (some w) e = on_stream-Keeps o p call c w rest e k.2 k.0 k.1 k.3 v

    by_busy :
        (t : Option (Client × List Client))
        → ((x : Client × List Client) → t ≡ some x → Splits IsBusy p.busy x)
        → Keeps o (elim t [
          | none ↦ absent
          | some (c, rest) ↦ elim c.stream [ none ↦ absent | some w ↦ on_stream p call c w rest ]
        ])
    by_busy none k = tt
    by_busy (some (c, rest)) k = by_stream c rest (k (c, rest) refl) c.stream refl

-- An event that can come at this moment.
abbrev pub IsPossible : Pool → Event → Type 0
IsPossible p (connection n event) = Connects p n event
IsPossible p (asks r) = Unit
IsPossible p (times_out n) = Unit
IsPossible p (resets n) = Unit
IsPossible p (cancels r) = Unit
IsPossible p (calls n call) = Unit
IsPossible p adds_drained = Unit
IsPossible p deletes = Unit

-- From a valid pool any event keeps the accounts: the connections, the pending requests and the gauges count
-- the clients, the requests and the streams that the pool has, beside what others have. No event
-- takes a client out of a list that it does not stand in. A client that is ready has connected
-- already, so that it does not connect again.
pub step-Keeps :
    (o : Elsewhere) (p : Pool) (e : Event) → IsValid o p → IsPossible p e → Keeps o (step p e)
unfolding step on_connect_timeout on_downstream_reset add_drained_callback
step-Keeps o p (asks r) v h = new_stream-IsValid o p r v
step-Keeps o p (connection n event) v h = on_connection_event-Keeps o p n event v h
step-Keeps o p (times_out n) v h =
    on_connection_event-Keeps o _ n local_close (timeout-IsValid o p _ v) tt
step-Keeps o p (resets n) v h = on_connection_event-Keeps o p n local_close v tt
step-Keeps o p (cancels r) v h = cancel-Keeps o p r v
step-Keeps o p (calls n call) v h = on_client_stream-Keeps o p n call v
step-Keeps o p adds_drained v h =
    check_for_drained-IsValid o _ (callback-IsValid (p.drained_callbacks + 1))
  where
    callback-IsValid : (n : ℕ) → IsValid o (record p { drained_callbacks = n })
    callback-IsValid n = record {
      idle = v.idle;
      working = v.working;
      connections_taken = v.connections_taken;
      requests_taken = v.requests_taken;
      cx_gauge = v.cx_gauge;
      rq_gauge = v.rq_gauge;
      pending_gauge = v.pending_gauge;
    }
step-Keeps o p deletes v h = clear_deferred-IsValid o p.deferred p v
