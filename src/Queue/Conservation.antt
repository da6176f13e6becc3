-- ===== src/Queue/Conservation.antt =====
-- inmemory_queue.go: no call of the queue loses a task or hands one out twice.
use fluxo.Common.{
  ℕ, ◌+◌, ◌≤◌, String, ◌≡◌, refl, inl, inr, none, some, List, arith, lookup, ◌==ₛ◌, eq_iff,
  Option-cases, if◌then◌else◌, str_self,
}
use fluxo.Queue.Counts.{
  count_leased, count_task, Keyed, count_ready-last, count_leased-delete, count_leased-insert,
  count_leased-insert_known, count_leased-lookup, Keyed-lookup, Keyed-insert, requeue_expired-count,
  requeue_expired-Keyed, take_runnable-some,
}
use fluxo.Queue.{
  Task, LeasedTask, InMemoryQueue, requeue_expired, take_runnable, poll, renew_lease, ack, nack,
}

-- Each lease is kept under its task's id, and no id stands in the queue twice.
pub record IsValid (q : InMemoryQueue) : Type 0 where
  pub keyed : Keyed q.inflight
  pub unique : (k : String) → count_task k q ≤ 1

module _ (owner : String) (ttl now : ℕ) (q : InMemoryQueue) (v : IsValid q) where
  unfoldable pub requeued : InMemoryQueue
  requeued = requeue_expired now q.inflight q

  pub requeued-count : (k : String) → count_task k requeued ≡ count_task k q
  unfolding requeued
  requeued-count = requeue_expired-count now q.inflight q v.keyed (λ k. (omega arith, below_one k))
    where
      below_one : (k : String) → count_leased k q.inflight ≤ 1
      below_one k = omega (arith, v.unique k)

  -- A task that is ready is not leased.
  pub ready_not_leased :
      (t : Task) (us : List Task)
      → take_runnable now requeued.ready ≡ some (t, us)
      → count_leased t.id requeued.inflight ≡ 0
  ready_not_leased t us e = ground (
    arith,
    (take_runnable-some now requeued.ready t us e).1 t.id,
    requeued-count t.id,
    v.unique t.id,
    str_self t.id,
  )

  lease_of : Task → LeasedTask
  lease_of t = record { task = t; owner = owner; expiry = now + ttl }

  -- A poll hands out or keeps every task: each id stands in the queue as often as before.
  pub poll-count : (k : String) → count_task k (poll owner ttl now q).0 ≡ count_task k q
  unfolding poll requeued lease_of
  poll-count k = elim (Option-cases (take_runnable now requeued.ready)) [
    | inl e ↦ rw (e, poll) (requeued-count k)
    | inr ((t, us), e) ↦
        rw (e, poll)
          (omega (
            arith,
            (take_runnable-some now requeued.ready t us e).1 k,
            count_leased-insert t.id k (lease_of t) requeued.inflight (ready_not_leased t us e),
            requeued-count k,
          ))
  ]

  requeued-Keyed : Keyed requeued.inflight
  unfolding requeued
  requeued-Keyed = requeue_expired-Keyed now q.inflight q v.keyed

  poll-Keyed : Keyed (poll owner ttl now q).0.inflight
  unfolding poll requeued lease_of
  poll-Keyed = elim (Option-cases (take_runnable now requeued.ready)) [
    | inl e ↦ rw (e, poll) requeued-Keyed
    | inr ((t, us), e) ↦
        rw (e, poll) (Keyed-insert (lease_of t) t.id requeued.inflight refl requeued-Keyed)
  ]

  pub poll-IsValid : IsValid (poll owner ttl now q).0
  poll-IsValid = record {
    keyed = poll-Keyed;
    unique = λ k. omega (arith, poll-count k, v.unique k);
  }

-- What is left of the queue's tasks by a call for the task `id` of an owner: all of them, or all
-- but that one.
pub renew_lease-count :
    (id owner : String) (ttl now : ℕ) (q : InMemoryQueue) (k : String)
    → count_task k (renew_lease id owner ttl now q).0 ≡ count_task k q
unfolding renew_lease
renew_lease-count id owner ttl now q k = elim (Option-cases (lookup id q.inflight)) [
  | inl e ↦ ground (arith, e)
  | inr (lt, e) ↦
      ground (
        arith,
        e,
        count_leased-insert_known id k lt (record lt { expiry = now + ttl }) q.inflight e,
      )
]

-- The lease of the task `id` is `owner`'s.
abbrev pub Owns : InMemoryQueue → String → String → Type 0
Owns q id owner = (lt : LeasedTask) × (lookup id q.inflight ≡ some lt) × (lt.owner ≡ owner)

module _ (id owner : String) (q : InMemoryQueue) (v : IsValid q) where
  leased_once : (lt : LeasedTask) → lookup id q.inflight ≡ some lt → count_task id q ≡ 1
  leased_once lt e = omega (arith, v.unique id, count_leased-lookup id lt q.inflight e)

  -- `ack` by the owner of a lease takes that task out of the queue for good and touches no other.
  pub ack-count :
      Owns q id owner
      → ((ack id owner q).1 ≡ none)
        × ((k : String)
            → count_task k (ack id owner q).0 ≡ (if id ==ₛ k then 0 else count_task k q))
  unfolding ack
  ack-count (lt, e, own) = (
    ground (arith, e, own, str_self owner),
    λ k. ground (
      arith,
      e,
      own,
      str_self owner,
      eq_iff id k,
      count_leased-delete id k q.inflight,
      leased_once lt e,
      count_leased-lookup id lt q.inflight e,
    ),
  )

  -- `nack` by the owner of a lease keeps every task.
  pub nack-count :
      (not_before attempts : ℕ) (k : String)
      → count_task k (nack id owner not_before attempts q).0 ≡ count_task k q
  unfolding nack
  nack-count not_before attempts k = elim (Option-cases (lookup id q.inflight)) [
    | inl e ↦ ground (arith, e)
    | inr (lt, e) ↦ ground (
      arith,
      e,
      count_leased-delete id k q.inflight,
      eq_iff id k,
      eq_iff lt.task.id k,
      Keyed-lookup id lt q.inflight v.keyed e,
      leased_once lt e,
      count_leased-lookup id lt q.inflight e,
      count_ready-last k q.ready
          (let t = lt.task in record t { not_before = not_before; attempts = attempts }),
    )
  ]
