-- ===== src/Http/ConnPool/Accounting.antt =====
-- The pool takes one unit of the connections for each client that is not deleted, and one unit of
-- the pending requests for each request in its queue.
use meliproxy.Upstream.Resource.{inc, can_create}
use meliproxy.Http.ConnPool.{
  Pool, Client, Stream, Outcome, goes, misuse, absent, Stats, create_new_connection, queue_request,
  idle_died, after_removal, close_ready, Said, check_for_drained, queue_or_fail, new_stream,
  attach_request_to_client, unqueue, end_stream, fresh_stream, is_none,
}
use meliproxy.Shared.{
  List, ◌≡◌, if◌then◌else◌, [], length, ◌^◌, arith, ◌+◌, false, ◌%◌, All, ◌∷◌, ℕ, some, ◌&&◌, suc,
  ap, ◌==◌, ltb, none, subst, refl, not, if_cases, Option, inc64, ◌||◌,
}

abbrev pub held : Option Stream → ℕ
held none = 0
held (some w) = 1

-- How many clients of a list have a stream.
abbrev pub streams : List Client → ℕ
streams [] = 0
streams (c ∷ cs) = held c.stream + streams cs

-- A ready client has no stream, and its timer is gone.
abbrev pub IsIdle : Client → Type 0
IsIdle c = (c.stream ≡ none) × (c.connect_timer ≡ false)

-- A busy client has either its timer or a stream.
abbrev pub IsBusy : Client → Type 0
IsBusy c = c.connect_timer ≡ is_none c.stream

abbrev pub clients : Pool → ℕ
clients p = length p.ready + length p.busy + length p.deferred

-- `others` and `queued` are the units that other pools have taken of the two resources, and `cx`,
-- `rq` and `waits` what other pools have counted in the gauges.
pub record Elsewhere : Type 0 where
  pub others : ℕ
  pub queued : ℕ
  pub cx : ℕ
  pub rq : ℕ
  pub waits : ℕ

pub record IsValid (o : Elsewhere) (p : Pool) : Type 0 where
  pub idle : All IsIdle p.ready
  pub working : All IsBusy p.busy
  pub connections_taken : p.connections.current ≡ (o.others + clients p) % 2 ^ 64
  pub requests_taken : p.pending_requests.current ≡ (o.queued + length p.pending) % 2 ^ 64
  pub cx_gauge : p.stats.cx_active ≡ (o.cx + clients p) % 2 ^ 64
  pub rq_gauge : p.stats.rq_active ≡ (o.rq + (streams p.busy + streams p.deferred)) % 2 ^ 64
  pub pending_gauge : p.stats.rq_pending_active ≡ (o.waits + length p.pending) % 2 ^ 64

ready-idle_died : (p : Pool) (c : Client) (rest : List Client) → (idle_died p c rest).ready ≡ rest
unfolding idle_died after_removal create_new_connection
ready-idle_died p c rest = ground arith

abbrev pub Keeps : Elsewhere → Outcome → Type 0
Keeps o (goes p) = IsValid o p
Keeps o absent = Unit
Keeps o misuse = ⊥

pub create-IsValid : (o : Elsewhere) (p : Pool) → IsValid o p → IsValid o (create_new_connection p)
unfolding create_new_connection inc
create-IsValid o p v = ground arith

pub queue-IsValid : (o : Elsewhere) (p : Pool) (r : ℕ) → IsValid o p → IsValid o (queue_request p r)
unfolding queue_request inc
queue-IsValid o p r v = ground arith

-- A client that moves between the lists, with its stream.
pub moved-IsValid :
    (o : Elsewhere) (p : Pool) (r b d : List Client)
    → All IsIdle r
    → All IsBusy b
    → length r + length b + length d ≡ clients p
    → streams b + streams d ≡ streams p.busy + streams p.deferred
    → IsValid o p
    → IsValid o (record p { ready = r; busy = b; deferred = d })
moved-IsValid o p r b d hr hb n m v = record {
  idle = hr;
  working = hb;
  connections_taken = omega (arith, n, v);
  requests_taken = v.requests_taken;
  cx_gauge = omega (arith, n, v);
  rq_gauge = omega (arith, m, v);
  pending_gauge = v.pending_gauge;
}

pub after_removal-IsValid :
    (o : Elsewhere) (p : Pool) (c : Client)
    → IsValid o (record p { deferred = c ∷ p.deferred })
    → IsValid o (after_removal p c)
unfolding after_removal
after_removal-IsValid o p c v =
    if_cases (IsValid o) (ltb (length p.ready + length p.busy) (length p.pending)) _ _
      (λ e. create-IsValid o (record p { deferred = c ∷ p.deferred }) v) (λ e. v)

pub idle_died-IsValid :
    (o : Elsewhere) (p : Pool) (c : Client) (rest : List Client)
    → IsIdle c
    → All IsIdle rest
    → length p.ready ≡ suc (length rest)
    → IsValid o p
    → IsValid o (idle_died p c rest)
unfolding idle_died
idle_died-IsValid o p c rest h a e v =
    after_removal-IsValid o (record p { ready = rest }) c
      (moved-IsValid o p rest p.busy (c ∷ p.deferred) a v.working (omega (arith, e))
        (omega (arith, ap held h.0)) v)

pub close_ready-IsValid :
    (o : Elsewhere) (cs : List Client) (p : Pool)
    → p.ready ≡ cs
    → IsValid o p
    → IsValid o (close_ready cs p)
unfolding close_ready
close_ready-IsValid o [] p e v = v
close_ready-IsValid o (c ∷ cs) p e v =
    let all : All IsIdle (c ∷ cs) = subst (All IsIdle) e v.idle in
    close_ready-IsValid o cs (idle_died p c cs) (ready-idle_died p c cs)
      (idle_died-IsValid o p c cs all.0 all.1 (ap length e) v)

pub drained-IsValid :
    (o : Elsewhere) (p : Pool) (said : List Said)
    → IsValid o p
    → IsValid o (record p { said = said })
drained-IsValid o p said v = record {
  idle = v.idle;
  working = v.working;
  connections_taken = v.connections_taken;
  requests_taken = v.requests_taken;
  cx_gauge = v.cx_gauge;
  rq_gauge = v.rq_gauge;
  pending_gauge = v.pending_gauge;
}

pub check_for_drained-IsValid :
    (o : Elsewhere) (p : Pool) → IsValid o p → IsValid o (check_for_drained p)
unfolding check_for_drained
check_for_drained-IsValid o p v =
    if_cases (IsValid o)
      (not (p.drained_callbacks == 0) && (length p.pending == 0 && length p.busy == 0)) _ _
      (λ e. drained-IsValid o (close_ready p.ready p) _ (close_ready-IsValid o p.ready p refl v))
      (λ e. v)

pub overflow-IsValid :
    (o : Elsewhere) (p : Pool) (n : ℕ)
    → IsValid o p
    → IsValid o (record p { stats = record (p.stats) { cx_overflow = n } })
overflow-IsValid o p n v = record {
  idle = v.idle;
  working = v.working;
  connections_taken = v.connections_taken;
  requests_taken = v.requests_taken;
  cx_gauge = v.cx_gauge;
  rq_gauge = v.rq_gauge;
  pending_gauge = v.pending_gauge;
}

pub queue_or_fail-IsValid :
    (o : Elsewhere) (p : Pool) (request : ℕ) → IsValid o p → IsValid o (queue_or_fail p request)
unfolding queue_or_fail
queue_or_fail-IsValid o p request v =
    if_cases (IsValid o) (can_create p.runtime p.pending_requests) _ _
      (λ e. queue-IsValid o _ request (
        if_cases (IsValid o)
          ((length p.ready == 0 && length p.busy == 0) || can_create p.runtime p.connections) _ _
          (λ e. create-IsValid o _ counted) (λ e. counted)))
      (λ e. ground arith)
  where
    counted : IsValid o (
        if can_create p.runtime p.connections
        then p
        else record p { stats = record (p.stats) { cx_overflow = inc64 p.stats.cx_overflow } })
    counted =
        if_cases (IsValid o) (can_create p.runtime p.connections) _ _ (λ e. v)
          (λ e. overflow-IsValid o p (inc64 p.stats.cx_overflow) v)

-- A client that gets a new stream.
pub attach-IsValid :
    (o : Elsewhere) (p : Pool) (r b : List Client) (c : Client) (request : ℕ)
    → c.connect_timer ≡ false
    → All IsIdle r
    → All IsBusy b
    → length r + suc (length b) + length p.deferred ≡ clients p
    → p.stats.rq_active ≡ (o.rq + (streams b + streams p.deferred)) % 2 ^ 64
    → p.connections.current ≡ (o.others + clients p) % 2 ^ 64
    → p.pending_requests.current ≡ (o.queued + length p.pending) % 2 ^ 64
    → p.stats.cx_active ≡ (o.cx + clients p) % 2 ^ 64
    → p.stats.rq_pending_active ≡ (o.waits + length p.pending) % 2 ^ 64
    → IsValid o (
        attach_request_to_client
          (record p { ready = r; busy = record c { stream = some fresh_stream } ∷ b })
          request)
unfolding attach_request_to_client
attach-IsValid o p r b c request t hr hb n m a e f g = record {
  idle = hr;
  working = (t, hb);
  connections_taken = omega (arith, n, a);
  requests_taken = e;
  cx_gauge = omega (arith, n, f);
  rq_gauge = omega (arith, m);
  pending_gauge = g;
}

pub new_stream-IsValid :
    (o : Elsewhere) (p : Pool) (request : ℕ) → IsValid o p → IsValid o (new_stream p request)
unfolding new_stream
new_stream-IsValid o p request v = by_ready p.ready refl
  where
    by_ready :
        (cs : List Client)
        → p.ready ≡ cs
        → IsValid o (elim cs [
          | [] ↦ queue_or_fail p request
          | c ∷ cs ↦
              attach_request_to_client
                (record p { ready = cs; busy = record c { stream = some fresh_stream } ∷ p.busy })
                request
        ])
    by_ready [] e = queue_or_fail-IsValid o p request v
    by_ready (c ∷ cs) e =
        let all : All IsIdle (c ∷ cs) = subst (All IsIdle) e v.idle in
        let n : length p.ready ≡ suc (length cs) = ap length e in
        attach-IsValid o p cs p.busy c request all.0.1 all.1 v.working (omega (arith, n)) v.rq_gauge
          v.connections_taken v.requests_taken v.cx_gauge v.pending_gauge

pub length-unqueue : (r : ℕ) (rs : List ℕ) → length (unqueue r rs).1 ≡ length rs
unfolding unqueue
length-unqueue r [] = refl
length-unqueue r (q ∷ qs) = omega (arith, length-unqueue q qs)

pub end_stream-rq_active :
    (w : Option Stream) (s : Stats) (n m : ℕ)
    → s.rq_active ≡ (n + (held w + m)) % 2 ^ 64
    → (end_stream w s).rq_active ≡ (n + m) % 2 ^ 64
end_stream-rq_active none s n m e = omega (arith, e)
end_stream-rq_active (some w) s n m e = omega (arith, e)
