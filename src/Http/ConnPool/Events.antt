-- ===== src/Http/ConnPool/Events.antt =====
-- Every event of a pool keeps its accounts.
use meliproxy.Upstream.Resource.{dec}
use meliproxy.Http.ConnPool.{
  Pool, Client, Stream, goes, misuse, absent, ConnectionEvent, connected, local_close, remote_close,
  ready_died, on_connection_event, clear_deferred, idle_died, take_client, client_connected,
  busy_died,
}
use meliproxy.Http.ConnPool.Accounting.{
  IsValid, Keeps, Elsewhere, IsBusy, IsIdle, streams, idle_died-IsValid, end_stream-rq_active,
}
use meliproxy.Http.ConnPool.Deaths.{
  Splits, take_client-Splits, busy_died-Keeps, process_idle_client-IsValid, end_stream-keeps,
}
use meliproxy.Shared.{
  ◌∷◌, length, List, ◌+◌, ◌≡◌, ℕ, [], All, suc, dec64, arith, none, Option, some, if_cases, refl,
  if◌then◌else◌, false,
}

ready_died-Keeps :
    (o : Elsewhere) (p : Pool) (c : Client) (rest : List Client)
    → IsIdle c
    → All IsIdle rest
    → length p.ready ≡ suc (length rest)
    → IsValid o p
    → Keeps o (ready_died p c rest)
unfolding ready_died
ready_died-Keeps o p c rest i a n v = by_stream c.stream i.0
  where
    by_stream :
        (w : Option Stream)
        → w ≡ none
        → Keeps o (elim w [
          | some w ↦ misuse
          | none ↦ if c.connect_timer then misuse else goes (idle_died p c rest)
        ])
    by_stream (some w) e = absurd (cc e)
    by_stream none e =
        if_cases (Keeps o) c.connect_timer _ _ (λ t. absurd (cc (t, i.1)))
          (λ t. idle_died-IsValid o p c rest i a n v)

-- A client connects once, so that `connected` is not raised for a ready client.
abbrev pub Connects : Pool → ℕ → ConnectionEvent → Type 0
Connects p n connected = take_client n p.ready ≡ none
Connects p n local_close = Unit
Connects p n remote_close = Unit

pub on_connection_event-Keeps :
    (o : Elsewhere) (p : Pool) (n : ℕ) (event : ConnectionEvent)
    → IsValid o p
    → Connects p n event
    → Keeps o (on_connection_event p n event)
unfolding on_connection_event
on_connection_event-Keeps o p n event v h =
    by_busy (take_client n p.busy) (λ x e. take_client-Splits IsBusy n p.busy x e v.working)
  where
    by_ready :
        (t : Option (Client × List Client))
        → take_client n p.ready ≡ t
        → Keeps o (elim t [
          | none ↦ absent
          | some (c, rest) ↦ elim event [
            | connected ↦ misuse
            | local_close ↦ ready_died p c rest
            | remote_close ↦ ready_died p c rest
          ]
        ])
    by_ready none e = tt
    by_ready (some (c, rest)) e = by_event event h
      where
        s : Splits IsIdle p.ready (c, rest)
        s = take_client-Splits IsIdle n p.ready (c, rest) e v.idle

        by_event :
            (event : ConnectionEvent)
            → Connects p n event
            → Keeps o (elim event [
              | connected ↦ misuse
              | local_close ↦ ready_died p c rest
              | remote_close ↦ ready_died p c rest
            ])
        by_event connected h = absurd (cc (e, h))
        by_event local_close h = ready_died-Keeps o p c rest s.2 s.3 s.0 v
        by_event remote_close h = ready_died-Keeps o p c rest s.2 s.3 s.0 v

    by_busy :
        (t : Option (Client × List Client))
        → ((x : Client × List Client) → t ≡ some x → Splits IsBusy p.busy x)
        → Keeps o (elim t [
          | some (c, rest) ↦ elim event [
            | connected ↦ client_connected p c rest
            | local_close ↦ busy_died p local_close c rest
            | remote_close ↦ busy_died p remote_close c rest
          ]
          | none ↦ elim (take_client n p.ready) [
            | none ↦ absent
            | some (c, rest) ↦ elim event [
              | connected ↦ misuse
              | local_close ↦ ready_died p c rest
              | remote_close ↦ ready_died p c rest
            ]
          ]
        ])
    by_busy none k = by_ready (take_client n p.ready) refl
    by_busy (some (c, rest)) k = by_event event
      where
        s : Splits IsBusy p.busy (c, rest)
        s = k (c, rest) refl

        by_event :
            (event : ConnectionEvent)
            → Keeps o (elim event [
              | connected ↦ client_connected p c rest
              | local_close ↦ busy_died p local_close c rest
              | remote_close ↦ busy_died p remote_close c rest
            ])
        by_event connected =
            process_idle_client-IsValid o p (record c { connect_timer = false }) rest refl s.0 s.1
              s.3 v
        by_event local_close = busy_died-Keeps o p local_close c rest s.2 s.0 s.1 s.3 v
        by_event remote_close = busy_died-Keeps o p remote_close c rest s.2 s.0 s.1 s.3 v

pub timeout-IsValid :
    (o : Elsewhere) (p : Pool) (n : ℕ)
    → IsValid o p
    → IsValid o (record p { stats = record (p.stats) { cx_connect_timeout = n } })
timeout-IsValid o p n v = record {
  idle = v.idle;
  working = v.working;
  connections_taken = v.connections_taken;
  requests_taken = v.requests_taken;
  cx_gauge = v.cx_gauge;
  rq_gauge = v.rq_gauge;
  pending_gauge = v.pending_gauge;
}

pub clear_deferred-IsValid :
    (o : Elsewhere) (cs : List Client) (p : Pool)
    → IsValid o (record p { deferred = cs })
    → IsValid o (clear_deferred cs p)
unfolding clear_deferred dec
clear_deferred-IsValid o [] p v = v
clear_deferred-IsValid o (c ∷ cs) p v = clear_deferred-IsValid o cs _ (record {
  idle = v.idle;
  working = v.working;
  connections_taken = omega (arith, v);
  requests_taken = v.requests_taken;
  cx_gauge = omega (
    arith,
    v,
    (end_stream-keeps c.stream (record (p.stats) { cx_active = dec64 p.stats.cx_active })).0,
  );
  rq_gauge = end_stream-rq_active c.stream _ o.rq (streams p.busy + streams cs) (omega (arith, v));
  pending_gauge = omega (
    arith,
    v,
    (end_stream-keeps c.stream (record (p.stats) { cx_active = dec64 p.stats.cx_active })).1,
  );
})
