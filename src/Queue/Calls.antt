-- ===== src/Queue/Calls.antt =====
-- inmemory_queue.go: sequences of calls, by any number of producers and workers.
use fluxo.Common.{
  ℕ, ◌+◌, ◌≤◌, ◌<◌, String, ◌≡◌, ◌≢◌, ◌⊎◌, refl, ◌∙◌, inl, inr, List, [], ◌∷◌, ◌++◌, arith, All,
  lookup, ◌==ₛ◌, eq_iff, Option-cases, Bool-cases,
}
use fluxo.Api.{ctx_err, background}
use fluxo.Queue.Counts.{
  count_ready, count_leased, count_task, Keyed, Keyed-delete, Keyed-insert, Keyed-lookup,
  count_ready-last,
}
use fluxo.Queue.Conservation.{
  IsValid, poll-count, poll-IsValid, renew_lease-count, ack-count, nack-count,
}
use fluxo.Queue.{
  Task, LeasedTask, InMemoryQueue, new_queue, poll, renew_lease, ack, nack, enqueue,
  requeue_expired,
}

-- One call, at a time.
pub data QueueCall : Type 0 where
  enqueues : ℕ → Task → QueueCall
  polls : ℕ → String → ℕ → QueueCall
  renews : ℕ → String → String → ℕ → QueueCall
  acks : ℕ → String → String → QueueCall
  nacks : ℕ → String → String → ℕ → ℕ → QueueCall

module _ (format_int : ℕ → String) where
  unfoldable pub queue_call : QueueCall → InMemoryQueue → InMemoryQueue
  queue_call (enqueues now t) q = (enqueue format_int background now t q).0
  queue_call (polls now owner ttl) q = (poll owner ttl now q).0
  queue_call (renews now id owner ttl) q = (renew_lease id owner ttl now q).0
  queue_call (acks now id owner) q = (ack id owner q).0
  queue_call (nacks now id owner not_before attempts) q = (nack id owner not_before attempts q).0

  unfoldable pub queue_calls : List QueueCall → InMemoryQueue → InMemoryQueue
  queue_calls [] q = q
  queue_calls (c ∷ cs) q = queue_calls cs (queue_call c q)

  -- Beside the invariant: the ids to be given out are new.
  pub record IsOrderly (q : InMemoryQueue) : Type 0 where
    pub valid : IsValid q
    pub numbered : (n : ℕ) → q.next_id < n → count_task (format_int n) q ≡ 0

  pub enqueue-blank :
      (now : ℕ) (t : Task) (q : InMemoryQueue)
      → t.id ≡ ""
      → (enqueue format_int background now t q).0 ≡ record q {
        next_id = q.next_id + 1;
        ready = q.ready ++ record t { id = format_int (q.next_id + 1) } ∷ [];
      }
  unfolding enqueue ctx_err background
  enqueue-blank now t q blank = ground (arith, eq_iff t.id "")

  pub enqueue-named :
      (now : ℕ) (t : Task) (q : InMemoryQueue)
      → t.id ≢ ""
      → (enqueue format_int background now t q).0 ≡ record q { ready = q.ready ++ t ∷ [] }
  unfolding enqueue ctx_err background
  enqueue-named now t q named = ground (arith, named, eq_iff t.id "")

  -- The call puts in no id that stands in the queue, and none that the queue is yet to give out. A
  -- task without an id is always new.
  abbrev pub IsFresh : QueueCall → InMemoryQueue → Type 0
  IsFresh (enqueues now t) q =
      (t.id ≡ "") ⊎ ((count_task t.id q ≡ 0) × ((n : ℕ) → q.next_id < n → format_int n ≢ t.id))
  IsFresh _ q = Unit {0}

  -- The same of each call, in the queue that it finds.
  abbrev pub AllFresh : List QueueCall → InMemoryQueue → Type 0
  AllFresh [] q = Unit {0}
  AllFresh (c ∷ cs) q = IsFresh c q × AllFresh cs (queue_call c q)

  module _ (injective : (m n : ℕ) → format_int m ≡ format_int n → m ≡ n) where
    numbered-IsOrderly :
        (t : Task) (q : InMemoryQueue)
        → IsOrderly q
        → IsOrderly (record q {
          next_id = q.next_id + 1;
          ready = q.ready ++ record t { id = format_int (q.next_id + 1) } ∷ [];
        })
    numbered-IsOrderly t q o =
        let new : Task = record t { id = format_int (q.next_id + 1) } in
        record {
          valid = record {
            keyed = o.valid.keyed;
            unique = λ k. ground (
              arith,
              count_ready-last k q.ready new,
              o.valid.unique k,
              o.numbered (q.next_id + 1),
              eq_iff (format_int (q.next_id + 1)) k,
            );
          };
          numbered = λ n later. ground (
            arith,
            count_ready-last (format_int n) q.ready new,
            o.numbered n,
            eq_iff (format_int (q.next_id + 1)) (format_int n),
            injective (q.next_id + 1) n,
          );
        }

    named-IsOrderly :
        (t : Task) (q : InMemoryQueue)
        → count_task t.id q ≡ 0
        → ((n : ℕ) → q.next_id < n → format_int n ≢ t.id)
        → IsOrderly q
        → IsOrderly (record q { ready = q.ready ++ t ∷ [] })
    named-IsOrderly t q new unnumbered o = record {
      valid = record {
        keyed = o.valid.keyed;
        unique =
            λ k. ground (arith, count_ready-last k q.ready t, o.valid.unique k, new, eq_iff t.id k);
      };
      numbered = λ n later. ground (
        arith,
        count_ready-last (format_int n) q.ready t,
        o.numbered n,
        unnumbered n,
        eq_iff t.id (format_int n),
      );
    }

    enqueue-IsOrderly :
        (now : ℕ) (t : Task) (q : InMemoryQueue)
        → IsFresh (enqueues now t) q
        → IsOrderly q
        → IsOrderly (enqueue format_int background now t q).0
    enqueue-IsOrderly now t q fresh o = elim (Bool-cases (t.id ==ₛ "")) [
      | inl blank ↦ rw (enqueue-blank now t q ((eq_iff t.id "").0 blank)) (numbered-IsOrderly t q o)
      | inr named ↦
          let differ : t.id ≢ "" = ground (arith, named, eq_iff t.id "") in
          elim fresh [
            | inl blank ↦ absurd (differ blank)
            | inr (new, unnumbered) ↦
                rw (enqueue-named now t q differ) (named-IsOrderly t q new unnumbered o)
          ]
    ]

-- What the calls on one lease keep of the invariant.
renew_lease-Keyed :
    (id owner : String) (ttl now : ℕ) (q : InMemoryQueue)
    → Keyed q.inflight
    → Keyed (renew_lease id owner ttl now q).0.inflight
unfolding renew_lease
renew_lease-Keyed id owner ttl now q h = elim (Option-cases (lookup id q.inflight)) [
  | inl e ↦ ground (arith, e)
  | inr (lt, e) ↦
      let own = Keyed-lookup id lt q.inflight h e in
      let kept = Keyed-insert (record lt { expiry = now + ttl }) id q.inflight own h in
      ground (arith, e, kept)
]

ack-Keyed :
    (id owner : String) (q : InMemoryQueue) → Keyed q.inflight → Keyed (ack id owner q).0.inflight
unfolding ack
ack-Keyed id owner q h = ground (arith, Keyed-delete id q.inflight h)

nack-Keyed :
    (id owner : String) (not_before attempts : ℕ) (q : InMemoryQueue)
    → Keyed q.inflight
    → Keyed (nack id owner not_before attempts q).0.inflight
unfolding nack
nack-Keyed id owner not_before attempts q h = ground (arith, Keyed-delete id q.inflight h)

-- `ack` for another id leaves a task; for its own it may take it.
ack-le :
    (id owner k : String) (q : InMemoryQueue)
    → IsValid q
    → count_task k (ack id owner q).0 ≤ count_task k q
ack-le id owner k q v = elim (Option-cases (lookup id q.inflight)) [
  | inl e ↦ unfold ack in ground (arith, e)
  | inr (lt, e) ↦ elim (Bool-cases (lt.owner ==ₛ owner)) [
    | inl own ↦
        let same = (eq_iff lt.owner owner).0 own in
        ground (arith, (ack-count id owner q v (lt, e, same)).1 k)
    | inr foreign ↦ unfold ack in ground (arith, e, foreign)
  ]
]

ack-other :
    (id owner k : String) (q : InMemoryQueue)
    → IsValid q
    → id ≢ k
    → count_task k (ack id owner q).0 ≡ count_task k q
ack-other id owner k q v differ = elim (Option-cases (lookup id q.inflight)) [
  | inl e ↦ unfold ack in ground (arith, e)
  | inr (lt, e) ↦ elim (Bool-cases (lt.owner ==ₛ owner)) [
    | inl own ↦
        let same = (eq_iff lt.owner owner).0 own in
        ground (arith, (ack-count id owner q v (lt, e, same)).1 k, eq_iff id k)
    | inr foreign ↦ unfold ack in ground (arith, e, foreign)
  ]
]

requeue_expired-next_id :
    (now : ℕ) (rest : List (String × LeasedTask)) (q : InMemoryQueue)
    → (requeue_expired now rest q).next_id ≡ q.next_id
unfolding requeue_expired
requeue_expired-next_id now [] q = refl
requeue_expired-next_id now ((id, lt) ∷ rest) q = requeue_expired-next_id now rest _ ∙ ground arith

module _ (format_int : ℕ → String) where
  -- No call but `enqueue` draws a number.
  draws_none : (c : QueueCall) (q : InMemoryQueue) → q.next_id ≤ (queue_call format_int c q).next_id
  unfolding queue_call enqueue poll renew_lease ack nack
  draws_none (enqueues now t) q = ground arith
  draws_none (polls now owner ttl) q = ground (arith, requeue_expired-next_id now q.inflight q)
  draws_none (renews now id owner ttl) q = ground arith
  draws_none (acks now id owner) q = ground arith
  draws_none (nacks now id owner not_before attempts) q = ground arith

  -- A call that adds no task and keeps the leases keyed keeps the queue in order.
  shrunk-IsOrderly :
      (q q' : InMemoryQueue)
      → IsOrderly format_int q
      → Keyed q'.inflight
      → q.next_id ≤ q'.next_id
      → ((k : String) → count_task k q' ≤ count_task k q)
      → IsOrderly format_int q'
  shrunk-IsOrderly q q' o keyed later fewer = record {
    valid = record { keyed = keyed; unique = λ k. omega (arith, fewer k, o.valid.unique k) };
    numbered = λ n h. omega (arith, fewer (format_int n), o.numbered n (omega (arith, h, later)));
  }

  module _ (injective : (m n : ℕ) → format_int m ≡ format_int n → m ≡ n) where
    pub queue_call-IsOrderly :
        (c : QueueCall) (q : InMemoryQueue)
        → IsFresh format_int c q
        → IsOrderly format_int q
        → IsOrderly format_int (queue_call format_int c q)
    unfolding queue_call
    queue_call-IsOrderly (enqueues now t) q fresh o =
        enqueue-IsOrderly format_int injective now t q fresh o
    queue_call-IsOrderly (polls now owner ttl) q fresh o =
        shrunk-IsOrderly q _ o (poll-IsValid owner ttl now q o.valid).keyed
          (draws_none (polls now owner ttl) q)
          (λ k. omega (arith, poll-count owner ttl now q o.valid k))
    queue_call-IsOrderly (renews now id owner ttl) q fresh o =
        shrunk-IsOrderly q _ o (renew_lease-Keyed id owner ttl now q o.valid.keyed)
          (draws_none (renews now id owner ttl) q)
          (λ k. omega (arith, renew_lease-count id owner ttl now q k))
    queue_call-IsOrderly (acks now id owner) q fresh o =
        shrunk-IsOrderly q _ o (ack-Keyed id owner q o.valid.keyed)
          (draws_none (acks now id owner) q) (λ k. ack-le id owner k q o.valid)
    queue_call-IsOrderly (nacks now id owner not_before attempts) q fresh o =
        shrunk-IsOrderly q _ o (nack-Keyed id owner not_before attempts q o.valid.keyed)
          (draws_none (nacks now id owner not_before attempts) q)
          (λ k. omega (arith, nack-count id owner q o.valid not_before attempts k))

    -- Where numbers are written down one-to-one, a queue in order stays so under any calls of
    -- producers and workers that put in no id which stands in it at that time or which it is yet
    -- to give out: each task id stands in it at most once, ready or leased, each lease is kept
    -- under its task's id, and the ids to be given out are new.
    pub queue_calls-IsOrderly :
        (cs : List QueueCall) (q : InMemoryQueue)
        → AllFresh format_int cs q
        → IsOrderly format_int q
        → IsOrderly format_int (queue_calls format_int cs q)
    unfolding queue_calls
    queue_calls-IsOrderly [] q fresh o = o
    queue_calls-IsOrderly (c ∷ cs) q (fresh, rest) o =
        queue_calls-IsOrderly cs (queue_call format_int c q) rest (queue_call-IsOrderly c q fresh o)

    -- Not an `ack` of the task `k`.
    abbrev pub NoAck : String → QueueCall → Type 0
    NoAck k (acks now id owner) = id ≢ k
    NoAck k _ = Unit {0}

    -- A further task leaves the task `k` where it is, once.
    last-kept :
        (k : String) (t : Task) (q : InMemoryQueue)
        → count_task k q ≡ 1
        → count_task t.id q ≡ 0
        → count_ready k (q.ready ++ t ∷ []) + count_leased k q.inflight ≡ 1
    last-kept k t q one new = ground (arith, one, count_ready-last k q.ready t, new, eq_iff t.id k)

    queue_call-kept :
        (c : QueueCall) (q : InMemoryQueue) (k : String)
        → IsOrderly format_int q
        → IsFresh format_int c q
        → NoAck k c
        → count_task k q ≡ 1
        → count_task k (queue_call format_int c q) ≡ 1
    unfolding queue_call
    queue_call-kept (enqueues now t) q k o fresh h one = elim (Bool-cases (t.id ==ₛ "")) [
      | inl blank ↦ rw (enqueue-blank format_int now t q ((eq_iff t.id "").0 blank)) (
          last-kept k (record t { id = format_int (q.next_id + 1) }) q one
            (o.numbered (q.next_id + 1) (omega arith)))
      | inr named ↦
          let differ : t.id ≢ "" = ground (arith, named, eq_iff t.id "") in
          elim fresh [
            | inl blank ↦ absurd (differ blank)
            | inr (new, unnumbered) ↦
                rw (enqueue-named format_int now t q differ) (last-kept k t q one new)
          ]
    ]
    queue_call-kept (polls now owner ttl) q k o fresh h one =
        poll-count owner ttl now q o.valid k ∙ one
    queue_call-kept (renews now id owner ttl) q k o fresh h one =
        renew_lease-count id owner ttl now q k ∙ one
    queue_call-kept (acks now id owner) q k o fresh h one = ack-other id owner k q o.valid h ∙ one
    queue_call-kept (nacks now id owner not_before attempts) q k o fresh h one =
        nack-count id owner q o.valid not_before attempts k ∙ one

    -- Where numbers are written down one-to-one: a task of an orderly queue stands in it once, ready
    -- or leased, after any calls but an `ack` for its id that put in no id which stands in the queue
    -- at that time or which it is yet to give out.
    pub queue_calls-kept :
        (cs : List QueueCall) (q : InMemoryQueue) (k : String)
        → IsOrderly format_int q
        → AllFresh format_int cs q
        → All (NoAck k) cs
        → count_task k q ≡ 1
        → count_task k (queue_calls format_int cs q) ≡ 1
    unfolding queue_calls
    queue_calls-kept [] q k o fresh h one = one
    queue_calls-kept (c ∷ cs) q k o (fresh, rest) h one =
        queue_calls-kept cs (queue_call format_int c q) k (queue_call-IsOrderly c q fresh o) rest
          h.1 (queue_call-kept c q k o fresh h.0 one)

  pub new_queue-IsOrderly : IsOrderly format_int new_queue
  unfolding new_queue count_ready count_leased
  new_queue-IsOrderly = record {
    valid = record { keyed = tt; unique = λ k. omega arith };
    numbered = λ n h. refl;
  }
