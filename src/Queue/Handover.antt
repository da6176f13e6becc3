-- ===== src/Queue/Handover.antt =====
-- inmemory_queue.go: a lease over a sequence of calls.
use fluxo.Common.{
  ℕ, ◌+◌, ◌<◌, String, ◌≡◌, ◌≢◌, ◌⊎◌, inl, inr, some, List, [], ◌∷◌, arith, All, lookup,
  lookup-insert, lookup-delete, eq_iff, Option-cases,
}
use fluxo.Api.{background, ctx_err}
use fluxo.Queue.Exclusion.{poll-leased}
use fluxo.Queue.Calls.{
  QueueCall, enqueues, polls, renews, acks, nacks, queue_call, queue_calls, IsOrderly,
  queue_call-IsOrderly, AllFresh,
}
use fluxo.Queue.{Task, LeasedTask, InMemoryQueue, poll, renew_lease, ack, nack, enqueue}

-- A call that a lease stands in the way of: a poll before it runs out, or a call on a lease that
-- is of another task or made by another owner.
abbrev pub Spares : String → LeasedTask → QueueCall → Type 0
Spares id lt (enqueues now t) = Unit {0}
Spares id lt (polls now owner ttl) = now < lt.expiry
Spares id lt (renews now j owner ttl) = (j ≢ id) ⊎ (lt.owner ≢ owner)
Spares id lt (acks now j owner) = (j ≢ id) ⊎ (lt.owner ≢ owner)
Spares id lt (nacks now j owner not_before attempts) = (j ≢ id) ⊎ (lt.owner ≢ owner)

module _ (format_int : ℕ → String) (id : String) (lt : LeasedTask) where
  queue_call-leased :
      (c : QueueCall) (q : InMemoryQueue)
      → IsOrderly format_int q
      → Spares id lt c
      → lookup id q.inflight ≡ some lt
      → lookup id (queue_call format_int c q).inflight ≡ some lt
  unfolding queue_call enqueue renew_lease ack nack ctx_err background
  queue_call-leased (enqueues now t) q o h leased = ground (arith, leased)
  queue_call-leased (polls now owner ttl) q o h leased =
      (poll-leased owner ttl now q o.valid id lt leased h).0
  queue_call-leased (renews now j owner ttl) q o h leased =
      elim (Option-cases (lookup j q.inflight)) [
        | inl e ↦ ground (arith, e, leased)
        | inr (x, e) ↦ ground (
          arith,
          e,
          leased,
          h,
          eq_iff j id,
          eq_iff x.owner owner,
          lookup-insert j id (record x { expiry = now + ttl }) q.inflight,
        )
      ]
  queue_call-leased (acks now j owner) q o h leased = elim (Option-cases (lookup j q.inflight)) [
    | inl e ↦ ground (arith, e, leased)
    | inr (x, e) ↦
        ground
          (arith, e, leased, h, eq_iff j id, eq_iff x.owner owner, lookup-delete j id q.inflight)
  ]
  queue_call-leased (nacks now j owner not_before attempts) q o h leased =
      elim (Option-cases (lookup j q.inflight)) [
        | inl e ↦ ground (arith, e, leased)
        | inr (x, e) ↦
            ground (
              arith,
              e,
              leased,
              h,
              eq_iff j id,
              eq_iff x.owner owner,
              lookup-delete j id q.inflight,
            )
      ]

  module _ (injective : (m n : ℕ) → format_int m ≡ format_int n → m ≡ n) where
    pub queue_calls-leased :
        (cs : List QueueCall) (q : InMemoryQueue)
        → IsOrderly format_int q
        → AllFresh format_int cs q
        → All (Spares id lt) cs
        → lookup id q.inflight ≡ some lt
        → IsOrderly format_int (queue_calls format_int cs q)
          × (lookup id (queue_calls format_int cs q).inflight ≡ some lt)
    unfolding queue_calls
    queue_calls-leased [] q o fresh h leased = (o, leased)
    queue_calls-leased (c ∷ cs) q o (fresh, rest) h leased =
        queue_calls-leased cs (queue_call format_int c q)
          (queue_call-IsOrderly format_int injective c q fresh o) rest h.1
          (queue_call-leased c q o h.0 leased)

    -- Where numbers are written down one-to-one: until its lease runs out, a leased task of an
    -- orderly queue is handed out by no poll, whatever calls come in between that put in no id which
    -- stands in the queue at that time or which it is yet to give out, that poll before the lease
    -- runs out, and that renew, acknowledge or give back other tasks or for other owners.
    pub task_lease_exclusion :
        (cs : List QueueCall) (q : InMemoryQueue) (owner : String) (ttl now : ℕ) (t : Task)
        → IsOrderly format_int q
        → lookup id q.inflight ≡ some lt
        → AllFresh format_int cs q
        → All (Spares id lt) cs
        → now < lt.expiry
        → (poll owner ttl now (queue_calls format_int cs q)).1 ≡ some t
        → t.id ≢ id
    task_lease_exclusion cs q owner ttl now t o leased fresh h live =
        let (o', leased') = queue_calls-leased cs q o fresh h leased in
        (poll-leased owner ttl now (queue_calls format_int cs q) o'.valid id lt leased' live).1 t
