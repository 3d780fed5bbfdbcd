-- ===== src/Http/ConnPool/Waiting.antt =====
-- A request that waits in the pool has a busy client that it can wait for.
use meliproxy.Http.ConnPool.Accounting.{IsValid, Elsewhere, IsIdle}
use meliproxy.Http.ConnPool.Deaths.{take_client-Splits}
use meliproxy.Http.ConnPool.{
  connected, remote_close, Pool, Client, Stream, Outcome, goes, misuse, absent, local_close,
  after_removal, idle_died, close_ready, check_for_drained, queue_or_fail, new_stream,
  process_idle_client, purge, busy_died, create_new_connection, attach_request_to_client,
  end_stream, end_request, ConnectionEvent, queue_request, fresh_stream, unqueue, count_active,
  take_client, ready_died, on_connection_event, client_connected,
}
use meliproxy.Shared.{
  true, false, inc64, refl, List, ◌==◌, [], inl, ap, ◌∷◌, arith, ◌≤◌, ◌⊎◌, ◌&&◌, none, if_cases,
  if◌then◌else◌, some, ℕ, length, ◌≡◌, ◌∙◌, not, Option, suc, inr,
}

-- While requests wait, no client is ready and one is busy.
abbrev pub IsServed : Pool → Type 0
IsServed p = (length p.pending ≡ 0) ⊎ ((length p.ready ≡ 0) × (1 ≤ length p.busy))

abbrev IsQuiet : Pool → Type 0
IsQuiet p = (length p.pending ≡ 0) ⊎ (length p.ready ≡ 0)

abbrev pub Serves : Outcome → Type 0
Serves (goes p) = IsServed p
Serves misuse = Unit
Serves absent = Unit

quiet : (p : Pool) → IsServed p → IsQuiet p
quiet p (inl e) = inl e
quiet p (inr (e, b)) = inr e

none_pending : (p : Pool) (n : ℕ) → IsServed p → length p.ready ≡ suc n → length p.pending ≡ 0
none_pending p n s e = ground arith

none_ready : (p : Pool) (n : ℕ) → IsServed p → length p.pending ≡ suc n → length p.ready ≡ 0
none_ready p n s e = ground arith

after_removal-IsServed : (p : Pool) (c : Client) → IsQuiet p → IsServed (after_removal p c)
unfolding after_removal create_new_connection
after_removal-IsServed p c q = ground arith

pending-idle_died :
    (p : Pool) (c : Client) (cs : List Client) → (idle_died p c cs).pending ≡ p.pending
unfolding idle_died after_removal create_new_connection
pending-idle_died p c cs = ground arith

pending-close_ready : (cs : List Client) (p : Pool) → (close_ready cs p).pending ≡ p.pending
unfolding close_ready
pending-close_ready [] p = refl
pending-close_ready (c ∷ cs) p =
    pending-close_ready cs (idle_died p c cs) ∙ pending-idle_died p c cs

pub check_for_drained-IsServed : (p : Pool) → IsServed p → IsServed (check_for_drained p)
unfolding check_for_drained
check_for_drained-IsServed p s =
    if_cases IsServed
      (not (p.drained_callbacks == 0) && (length p.pending == 0 && length p.busy == 0)) _ _
      (λ e. inl (ap length (pending-close_ready p.ready p) ∙ no_requests e)) (λ e. s)
  where
    no_requests :
        (not (p.drained_callbacks == 0) && (length p.pending == 0 && length p.busy == 0)) ≡ true
        → length p.pending ≡ 0
    no_requests e = ground arith

queue_or_fail-IsServed :
    (p : Pool) (r : ℕ) → length p.ready ≡ 0 → IsServed p → IsServed (queue_or_fail p r)
unfolding queue_or_fail create_new_connection queue_request
queue_or_fail-IsServed p r e s = ground arith

pub new_stream-IsServed : (p : Pool) (r : ℕ) → IsServed p → IsServed (new_stream p r)
unfolding new_stream attach_request_to_client
new_stream-IsServed p r s = by_ready p.ready refl
  where
    by_ready :
        (cs : List Client)
        → p.ready ≡ cs
        → IsServed (elim cs [
          | [] ↦ queue_or_fail p r
          | c ∷ cs ↦
              attach_request_to_client
                (record p { ready = cs; busy = record c { stream = some fresh_stream } ∷ p.busy })
                r
        ])
    by_ready [] e = queue_or_fail-IsServed p r (ap length e) s
    by_ready (c ∷ cs) e = inl (none_pending p (length cs) s (ap length e))

pub process_idle_client-IsServed :
    (p : Pool) (c : Client) (rest : List Client)
    → IsServed p
    → IsServed (process_idle_client p c rest)
unfolding process_idle_client attach_request_to_client end_request
process_idle_client-IsServed p c rest s = by_pending p.pending refl
  where
    p₁ : Pool
    p₁ = record p { stats = end_stream c.stream p.stats }

    by_pending :
        (rs : List ℕ)
        → p.pending ≡ rs
        → IsServed (elim rs [
          | [] ↦
              check_for_drained
                (record p₁ { busy = rest; ready = record c { stream = none } ∷ p.ready })
          | r ∷ rs ↦
              let (request, left) = unqueue r rs in
              check_for_drained (
                end_request
                  (record (attach_request_to_client
                    (record p₁ { busy = record c { stream = some fresh_stream } ∷ rest })
                    request) { pending = left }))
        ])
    by_pending [] e = check_for_drained-IsServed _ (inl (ap length e))
    by_pending (r ∷ rs) e =
        let (request, left) = unqueue r rs in
        check_for_drained-IsServed
          (end_request
            (record (attach_request_to_client
              (record p₁ { busy = record c { stream = some fresh_stream } ∷ rest }) request) {
                pending = left;
              }))
          (inr (none_ready p (length rs) s (ap length e), omega arith))

pending-purge : (rs : List ℕ) (p : Pool) → (purge rs p).pending ≡ p.pending
unfolding purge end_request
pending-purge [] p = refl
pending-purge (r ∷ rs) p = pending-purge rs _

pub busy_died-Serves :
    (p : Pool) (event : ConnectionEvent) (c : Client) (rest : List Client)
    → IsServed p
    → Serves (busy_died p event c rest)
unfolding busy_died
busy_died-Serves p event c rest s = by_stream c.stream
  where
    by_stream :
        (w : Option Stream)
        → Serves (elim w [
          | some w ↦ goes (
              check_for_drained
                (after_removal (record p { busy = rest; stats = count_active event w p.stats }) c))
          | none ↦
              let p₁ = record p {
                busy = rest;
                pending = [];
                stats = record (p.stats) { cx_connect_fail = inc64 p.stats.cx_connect_fail };
              } in
              if not c.connect_timer
              then misuse
              else goes (
                  check_for_drained
                    (after_removal (purge p.pending p₁) (record c { connect_timer = false })))
        ])
    by_stream (some w) = check_for_drained-IsServed _ (
        after_removal-IsServed (record p { busy = rest; stats = count_active event w p.stats }) c
          (quiet p s))
    by_stream none =
        if_cases Serves (not c.connect_timer) _ _ (λ e. tt)
          (λ e.
            check_for_drained-IsServed _
              (after_removal-IsServed _ _ (inl (ap length (pending-purge p.pending _)))))

take_ready :
    (o : Elsewhere) (p : Pool) (n : ℕ) (c : Client) (rest : List Client)
    → IsValid o p
    → IsServed p
    → take_client n p.ready ≡ some (c, rest)
    → length p.pending ≡ 0
take_ready o p n c rest v s e =
    none_pending p (length rest) s (take_client-Splits IsIdle n p.ready (c, rest) e v.idle).0

ready_died-Serves :
    (p : Pool) (c : Client) (rest : List Client)
    → length p.pending ≡ 0
    → Serves (ready_died p c rest)
unfolding ready_died idle_died
ready_died-Serves p c rest e = by_stream c.stream
  where
    by_stream :
        (w : Option Stream)
        → Serves (elim w [
          | some w ↦ misuse
          | none ↦ if c.connect_timer then misuse else goes (idle_died p c rest)
        ])
    by_stream (some w) = tt
    by_stream none =
        if_cases Serves c.connect_timer _ _ (λ t. tt)
          (λ t. after_removal-IsServed (record p { ready = rest }) c (inl e))

pub on_connection_event-Serves :
    (o : Elsewhere) (p : Pool) (n : ℕ) (event : ConnectionEvent)
    → IsValid o p
    → IsServed p
    → Serves (on_connection_event p n event)
unfolding on_connection_event client_connected
on_connection_event-Serves o p n event v s = by_busy (take_client n p.busy)
  where
    by_ready :
        (t : Option (Client × List Client))
        → take_client n p.ready ≡ t
        → (event : ConnectionEvent)
        → Serves (elim t [
          | none ↦ absent
          | some (c, rest) ↦ elim event [
            | connected ↦ misuse
            | local_close ↦ ready_died p c rest
            | remote_close ↦ ready_died p c rest
          ]
        ])
    by_ready none e event = tt
    by_ready (some (c, rest)) e connected = tt
    by_ready (some (c, rest)) e local_close =
        ready_died-Serves p c rest (take_ready o p n c rest v s e)
    by_ready (some (c, rest)) e remote_close =
        ready_died-Serves p c rest (take_ready o p n c rest v s e)

    by_event :
        (c : Client) (rest : List Client) (event : ConnectionEvent)
        → Serves (elim event [
          | connected ↦ client_connected p c rest
          | local_close ↦ busy_died p local_close c rest
          | remote_close ↦ busy_died p remote_close c rest
        ])
    by_event c rest connected = process_idle_client-IsServed p _ rest s
    by_event c rest local_close = busy_died-Serves p local_close c rest s
    by_event c rest remote_close = busy_died-Serves p remote_close c rest s

    by_busy :
        (t : Option (Client × List Client))
        → Serves (elim t [
          | some (c, rest) ↦ elim event [
            | connected ↦ client_connected p c rest
            | local_close ↦ busy_died p local_close c rest
            | remote_close ↦ busy_died p remote_close c rest
          ]
          | none ↦ elim (take_client n p.ready) [
            | none ↦ absent
            | some (c, rest) ↦ elim event [
              | connected ↦ misuse
              | local_close ↦ ready_died p c rest
              | remote_close ↦ ready_died p c rest
            ]
          ]
        ])
    by_busy none = by_ready (take_client n p.ready) refl event
    by_busy (some (c, rest)) = by_event c rest event
