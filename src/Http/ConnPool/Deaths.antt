-- ===== src/Http/ConnPool/Deaths.antt =====
-- The accounting over the events of connections, streams and requests.
use meliproxy.Upstream.Resource.{dec}
use meliproxy.Http.ConnPool.{
  Pool, Client, Stream, goes, misuse, Stats, ConnectionEvent, take_client, process_idle_client,
  end_stream, check_for_drained, unqueue, end_request, attach_request_to_client, fresh_stream,
  purge, tell, after_removal, count_active, busy_died, pool_failure, connection_failure,
}
use meliproxy.Http.ConnPool.Accounting.{
  IsValid, Keeps, Elsewhere, IsBusy, streams, held, end_stream-rq_active, check_for_drained-IsValid,
  length-unqueue, attach-IsValid, after_removal-IsValid,
}
use meliproxy.Shared.{
  inr, false, ℕ, refl, ◌==◌, subst, inl, some, ◌≡◌, Bool-cases, none, some_inj, List, arith,
  Option-cases, ◌∷◌, [], suc, ◌%◌, ◌+◌, ◌^◌, All, length, Option, sym, ap, ◌∙◌, true, if_cases, not,
  inc64, if◌then◌else◌,
}

abbrev pub Splits : (Client → Type 0) → List Client → Client × List Client → Type 0
Splits P cs x =
    (length cs ≡ suc (length x.1))
    × (streams cs ≡ held x.0.stream + streams x.1)
    × P x.0
    × All P x.1

pub take_client-Splits :
    (P : Client → Type 0) (n : ℕ) (cs : List Client) (x : Client × List Client)
    → take_client n cs ≡ some x
    → All P cs
    → Splits P cs x
unfolding take_client
take_client-Splits P n [] x e h = cc
take_client-Splits P n (d ∷ ds) x e (hd, h) = elim (Bool-cases (d.name == n)) [
  | inl t ↦ subst (Splits P (d ∷ ds)) (some_inj (rw (t, take_client) at e)) (refl, refl, hd, h)
  | inr t ↦ elim (Option-cases (take_client n ds)) [
    | inl z ↦ absurd (no (rw (t, z, take_client) at e))
    | inr ((c, rest), z) ↦
        subst (Splits P (d ∷ ds)) (some_inj (rw (t, z, take_client) at e))
          (there c rest (take_client-Splits P n ds (c, rest) z h))
  ]
]
  where
    no : none ≡ some x → ⊥
    no e = cc

    there :
        (c : Client) (rest : List Client) → Splits P ds (c, rest) → Splits P (d ∷ ds) (c, d ∷ rest)
    there c rest (a, b, pc, pr) = (omega arith, omega arith, pc, (hd, pr))

pub end_stream-keeps :
    (w : Option Stream) (s : Stats)
    → ((end_stream w s).cx_active ≡ s.cx_active)
      × ((end_stream w s).rq_pending_active ≡ s.rq_pending_active)
end_stream-keeps none s = (refl, refl)
end_stream-keeps (some w) s = (refl, refl)

-- The end of a request that has left the queue.
pub served-IsValid :
    (o : Elsewhere) (p : Pool) (left : List ℕ)
    → length p.pending ≡ suc (length left)
    → IsValid o p
    → IsValid o (end_request (record p { pending = left }))
unfolding end_request dec
served-IsValid o p left n v = record {
  idle = v.idle;
  working = v.working;
  connections_taken = v.connections_taken;
  requests_taken = omega (arith, n, v);
  cx_gauge = v.cx_gauge;
  rq_gauge = v.rq_gauge;
  pending_gauge = omega (arith, n, v);
}

pending-attach : (p : Pool) (request : ℕ) → (attach_request_to_client p request).pending ≡ p.pending
unfolding attach_request_to_client
pending-attach p request = refl

pub process_idle_client-IsValid :
    (o : Elsewhere) (p : Pool) (c : Client) (rest : List Client)
    → c.connect_timer ≡ false
    → length p.busy ≡ suc (length rest)
    → streams p.busy ≡ held c.stream + streams rest
    → All IsBusy rest
    → IsValid o p
    → IsValid o (process_idle_client p c rest)
unfolding process_idle_client
process_idle_client-IsValid o p c rest t n m h v = by_pending p.pending refl
  where
    p₁ : Pool
    p₁ = record p { stats = end_stream c.stream p.stats }

    rq : p₁.stats.rq_active ≡ (o.rq + (streams rest + streams p.deferred)) % 2 ^ 64
    rq =
        end_stream-rq_active c.stream p.stats o.rq (streams rest + streams p.deferred)
          (omega (arith, v.rq_gauge, m))

    by_pending :
        (rs : List ℕ)
        → p.pending ≡ rs
        → IsValid o (elim rs [
          | [] ↦
              check_for_drained
                (record p₁ { busy = rest; ready = record c { stream = none } ∷ p.ready })
          | r ∷ rs ↦
              let (request, left) = unqueue r rs in
              check_for_drained (
                end_request
                  (record (attach_request_to_client
                    (record p₁ { busy = record c { stream = some fresh_stream } ∷ rest })
                    request) { pending = left }))
        ])
    by_pending [] e =
        check_for_drained-IsValid o
          (record p₁ { busy = rest; ready = record c { stream = none } ∷ p.ready })
          (record {
            idle = ((refl, t), v.idle);
            working = h;
            connections_taken = omega (arith, n, v);
            requests_taken = v.requests_taken;
            cx_gauge = omega (arith, n, v, (end_stream-keeps c.stream p.stats).0);
            rq_gauge = rq;
            pending_gauge = omega (arith, v, (end_stream-keeps c.stream p.stats).1);
          })
    by_pending (r ∷ rs) e =
        let request = (unqueue r rs).0 in
        let left = (unqueue r rs).1 in
        let q =
          attach_request_to_client
            (record p₁ { busy = record c { stream = some fresh_stream } ∷ rest }) request in
        let k = end_stream-keeps c.stream p.stats in
        check_for_drained-IsValid o (end_request (record q { pending = left })) (
          served-IsValid o q left
            (ap length (
                pending-attach (record p₁ { busy = record c { stream = some fresh_stream } ∷ rest })
                  request
                ∙ e)
              ∙ ap suc (sym (length-unqueue r rs)))
            (attach-IsValid o p₁ p.ready rest c request t v.idle h (omega (arith, n)) rq
              v.connections_taken v.requests_taken (k.0 ∙ v.cx_gauge) (k.1 ∙ v.pending_gauge)))

-- Requests, or a client, that are on their way from one list to another are counted elsewhere.
abbrev purged : Elsewhere → ℕ → Elsewhere
purged o n = record o { queued = o.queued + n; waits = o.waits + n }

abbrev removed : Elsewhere → Client → Elsewhere
removed o c = record o { others = o.others + 1; cx = o.cx + 1; rq = o.rq + held c.stream }

refused-IsValid :
    (o : Elsewhere) (n r : ℕ) (p : Pool)
    → IsValid (purged o (suc n)) p
    → IsValid (purged o n) (
        end_request (
          tell (pool_failure r connection_failure) (record p {
            stats = record (p.stats) {
              rq_pending_failure_eject = inc64 p.stats.rq_pending_failure_eject;
            };
          })))
unfolding end_request dec
refused-IsValid o n r p v = record {
  idle = v.idle;
  working = v.working;
  connections_taken = v.connections_taken;
  requests_taken = omega (arith, v);
  cx_gauge = v.cx_gauge;
  rq_gauge = v.rq_gauge;
  pending_gauge = omega (arith, v);
}

purge-IsValid :
    (o : Elsewhere) (rs : List ℕ) (p : Pool)
    → IsValid (purged o (length rs)) p
    → IsValid o (purge rs p)
unfolding purge
purge-IsValid o [] p v = record {
  idle = v.idle;
  working = v.working;
  connections_taken = v.connections_taken;
  requests_taken = omega (arith, v);
  cx_gauge = v.cx_gauge;
  rq_gauge = v.rq_gauge;
  pending_gauge = omega (arith, v);
}
purge-IsValid o (r ∷ rs) p v = purge-IsValid o rs _ (refused-IsValid o (length rs) r p v)

deferred-IsValid :
    (o : Elsewhere) (c : Client) (p : Pool)
    → IsValid (removed o c) p
    → IsValid o (record p { deferred = c ∷ p.deferred })
deferred-IsValid o c p v = record {
  idle = v.idle;
  working = v.working;
  connections_taken = omega (arith, v);
  requests_taken = v.requests_taken;
  cx_gauge = omega (arith, v);
  rq_gauge = omega (arith, v);
  pending_gauge = v.pending_gauge;
}

-- The end of `onConnectionEvent` for a busy client.
gone-IsValid :
    (o : Elsewhere) (c : Client) (p : Pool)
    → IsValid (removed o c) p
    → IsValid o (check_for_drained (after_removal p c))
gone-IsValid o c p v =
    check_for_drained-IsValid o (after_removal p c)
      (after_removal-IsValid o p c (deferred-IsValid o c p v))

count_active-keeps :
    (event : ConnectionEvent) (w : Stream) (s : Stats)
    → ((count_active event w s).cx_active ≡ s.cx_active)
      × ((count_active event w s).rq_active ≡ s.rq_active)
      × ((count_active event w s).rq_pending_active ≡ s.rq_pending_active)
unfolding count_active
count_active-keeps event w s = ground arith

pub busy_died-Keeps :
    (o : Elsewhere) (p : Pool) (event : ConnectionEvent) (c : Client) (rest : List Client)
    → IsBusy c
    → length p.busy ≡ suc (length rest)
    → streams p.busy ≡ held c.stream + streams rest
    → All IsBusy rest
    → IsValid o p
    → Keeps o (busy_died p event c rest)
unfolding busy_died
busy_died-Keeps o p event c rest b n m h v = by_stream c.stream refl
  where
    by_stream :
        (w : Option Stream)
        → c.stream ≡ w
        → Keeps o (elim w [
          | some w ↦ goes (
              check_for_drained
                (after_removal (record p { busy = rest; stats = count_active event w p.stats }) c))
          | none ↦
              let p₁ = record p {
                busy = rest;
                pending = [];
                stats = record (p.stats) { cx_connect_fail = inc64 p.stats.cx_connect_fail };
              } in
              if not c.connect_timer
              then misuse
              else goes (
                  check_for_drained
                    (after_removal (purge p.pending p₁) (record c { connect_timer = false })))
        ])
    by_stream (some w) e =
        let k = count_active-keeps event w p.stats in
        gone-IsValid o c (record p { busy = rest; stats = count_active event w p.stats })
          (record {
            idle = v.idle;
            working = h;
            connections_taken = omega (arith, n, v);
            requests_taken = v.requests_taken;
            cx_gauge = omega (arith, n, v, k);
            rq_gauge = omega (arith, m, v, k);
            pending_gauge = omega (arith, v, k);
          })
    by_stream none e =
        let p₁ : Pool = record p {
          busy = rest;
          pending = [];
          stats = record (p.stats) { cx_connect_fail = inc64 p.stats.cx_connect_fail };
        } in
        let c₁ : Client = record c { connect_timer = false } in
        if_cases (Keeps o) (not c.connect_timer) _ _ (λ t. absurd (timer t e))
          (λ t. gone-IsValid o c₁ (purge p.pending p₁) (
            purge-IsValid (removed o c₁) p.pending p₁ (record {
              idle = v.idle;
              working = h;
              connections_taken = omega (arith, n, v);
              requests_taken = omega (arith, v);
              cx_gauge = omega (arith, n, v);
              rq_gauge = omega (arith, m, v);
              pending_gauge = omega (arith, v);
            })))
      where
        timer : not c.connect_timer ≡ true → c.stream ≡ none → ⊥
        timer t e = absurd (cc (b, t, e))
