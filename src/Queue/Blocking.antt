-- ===== src/Queue/Blocking.antt =====
-- inmemory_queue.go: the loop of `Dequeue`.
use fluxo.Common.{
  ℕ, zero, suc, ◌+◌, ◌*◌, ◌≤◌, ◌<◌, String, ◌≡◌, refl, ap, ◌∙◌, inl, inr, true, some, arith, lookup,
  lookup-insert_self, ◌==◌, Option-cases, Bool-cases,
}
use fluxo.Api.{Err, reason_err, Context, ctx_err, Result, value, error}
use fluxo.Queue.Counts.{take_runnable-some}
use fluxo.Queue.{
  Task, LeasedTask, InMemoryQueue, is_runnable, requeue_expired, take_runnable, poll, poll_interval,
  dequeue_loop, dequeue, bad_ttl,
}

abbrev pub Dequeued : Type 0
Dequeued = InMemoryQueue × Result Task × ℕ

-- The context has ended by the time of its end.
pub ctx_err-done :
    (ctx : Context) (d t : ℕ) → ctx.done_at ≡ some d → d ≤ t → (e : Err) × (ctx_err ctx t ≡ some e)
unfolding ctx_err
ctx_err-done ctx d t ends over = (reason_err ctx.reason, rw ends (ground arith))

dequeue_loop-returns :
    (fuel : ℕ) (ctx : Context) (owner : String) (ttl now : ℕ) (q : InMemoryQueue) (d : ℕ)
    → ctx.done_at ≡ some d
    → d ≤ now + fuel * poll_interval
    → (res : Dequeued) × (dequeue_loop (suc fuel) ctx owner ttl now q ≡ some res)
unfolding dequeue_loop
dequeue_loop-returns zero ctx owner ttl now q d ends enough =
    let (e, done) = ctx_err-done ctx d now ends (omega arith) in
    ((q, error e, now), rw (done, dequeue_loop) refl)
dequeue_loop-returns (suc fuel) ctx owner ttl now q d ends enough =
    elim (Option-cases (ctx_err ctx now)) [
      | inr (e, done) ↦ ((q, error e, now), rw (done, dequeue_loop) refl)
      | inl live ↦ elim (Option-cases (poll owner ttl now q).1) [
        | inr (t, got) ↦
            (((poll owner ttl now q).0, value t, now), rw (live, got, dequeue_loop) refl)
        | inl nothing ↦
            let (res, e) =
              dequeue_loop-returns fuel ctx owner ttl (now + poll_interval) (poll owner ttl now q).0
                d ends (omega arith) in
            (res, rw (live, nothing, dequeue_loop) e)
      ]
    ]

-- `dequeue` with a context that ends returns, whatever is in the queue: one round more than there
-- are poll intervals up to the end of the context is enough fuel.
pub dequeue-returns :
    (fuel : ℕ) (ctx : Context) (owner : String) (ttl now : ℕ) (q : InMemoryQueue) (d : ℕ)
    → ctx.done_at ≡ some d
    → d ≤ now + fuel * poll_interval
    → (res : Dequeued) × (dequeue (suc fuel) ctx owner ttl now q ≡ some res)
unfolding dequeue
dequeue-returns fuel ctx owner ttl now q d ends enough = elim (Bool-cases (ttl == 0)) [
  | inl no_ttl ↦ ((q, error bad_ttl, now), ground (arith, no_ttl))
  | inr some_ttl ↦
      let (res, e) = dequeue_loop-returns fuel ctx owner ttl now q d ends enough in
      (res, ground (arith, some_ttl, e))
]

-- What a task that is handed out comes with, at the time `t'` of the return.
pub record HandedOut (owner : String) (ttl now : ℕ) (t : Task) (q' : InMemoryQueue) (t' : ℕ)
    : Type 0 where
  pub later : now ≤ t'
  pub may_run : is_runnable t' t ≡ true
  pub leased :
      lookup t.id q'.inflight ≡ some (record { task = t; owner = owner; expiry = t' + ttl })

poll-HandedOut :
    (owner : String) (ttl now : ℕ) (q : InMemoryQueue) (t : Task)
    → (poll owner ttl now q).1 ≡ some t
    → HandedOut owner ttl now t (poll owner ttl now q).0 now
unfolding poll
poll-HandedOut owner ttl now q t got =
    let ready = (requeue_expired now q.inflight q).ready in
    elim (Option-cases (take_runnable now ready)) [
      | inl e ↦ absurd (ground (arith, e))
      | inr ((u, us), e) ↦
          let same : u ≡ t = ground (arith, e) in
          let lease : LeasedTask = record { task = u; owner = owner; expiry = now + ttl } in
          record {
            later = omega arith;
            may_run = rw (← same) (take_runnable-some now ready u us e).0;
            leased =
                rw (← same, e, poll)
                  (lookup-insert_self u.id lease (requeue_expired now q.inflight q).inflight);
          }
    ]

dequeue_loop-HandedOut :
    (fuel : ℕ) (ctx : Context) (owner : String) (ttl now : ℕ) (q q' : InMemoryQueue) (t : Task)
    (t' : ℕ)
    → dequeue_loop fuel ctx owner ttl now q ≡ some (q', value t, t')
    → HandedOut owner ttl now t q' t'
unfolding dequeue_loop
dequeue_loop-HandedOut zero ctx owner ttl now q q' t t' got = absurd (ground arith)
dequeue_loop-HandedOut (suc fuel) ctx owner ttl now q q' t t' got =
    elim (Option-cases (ctx_err ctx now)) [
      | inr (e, done) ↦ absurd (ground (arith, done))
      | inl live ↦ elim (Option-cases (poll owner ttl now q).1) [
        | inr (u, found) ↦
            let same_queue : (poll owner ttl now q).0 ≡ q' = ground (arith, live, found) in
            let same_task : u ≡ t = ground (arith, live, found) in
            let same_time : now ≡ t' = ground (arith, live, found) in
            rw (← same_queue, ← same_time)
              (poll-HandedOut owner ttl now q t (found ∙ ap some same_task))
        | inl nothing ↦
            let rest =
              dequeue_loop-HandedOut fuel ctx owner ttl (now + poll_interval)
                (poll owner ttl now q).0 q' t t' (ground (arith, live, nothing)) in
            record {
              later = omega (arith, rest.later);
              may_run = rest.may_run;
              leased = rest.leased;
            }
      ]
    ]

-- What `dequeue` hands out may run at the time of its return, and is leased from then on to the
-- caller for the time that it asked for.
pub dequeue-HandedOut :
    (fuel : ℕ) (ctx : Context) (owner : String) (ttl now : ℕ) (q q' : InMemoryQueue) (t : Task)
    (t' : ℕ)
    → dequeue fuel ctx owner ttl now q ≡ some (q', value t, t')
    → (0 < ttl) × HandedOut owner ttl now t q' t'
unfolding dequeue
dequeue-HandedOut fuel ctx owner ttl now q q' t t' got = elim (Bool-cases (ttl == 0)) [
  | inl no_ttl ↦ absurd (ground (arith, no_ttl))
  | inr some_ttl ↦ (
    ground (arith, some_ttl),
    dequeue_loop-HandedOut fuel ctx owner ttl now q q' t t' (ground (arith, some_ttl)),
  )
]
