-- ===== src/Queue/Fairness.antt =====
-- inmemory_queue.go: a ready task is not passed over for ever.
use fluxo.Common.{
  ℕ, suc, ◌<◌, ◌≡◌, refl, sym, ◌∙◌, ap, inl, inr, ◌⊎◌, String, true, false, Option, none, some,
  List, [], ◌∷◌, ◌++◌, arith, All, length, leb, ◌==ₛ◌, lookup, Option-cases, Bool-cases, eq_iff,
}
use mathlib.Core.List.{append_assoc, append-nil}
use fluxo.Queue.Calls.{
  enqueue-blank, enqueue-named, QueueCall, enqueues, polls, renews, acks, nacks, queue_call,
}
use fluxo.Queue.{
  Task, LeasedTask, InMemoryQueue, is_runnable, requeue_expired, take_runnable, poll, renew_lease,
  ack, nack,
}

-- A list that begins with another.
abbrev pub Extends : List Task → List Task → Type 0
Extends ready ready' = (more : List Task) × (ready' ≡ ready ++ more)

Extends-refl : (xs : List Task) → Extends xs xs
Extends-refl xs = ([], sym (append-nil xs))

Extends-trans : (xs ys zs : List Task) → Extends xs ys → Extends ys zs → Extends xs zs
Extends-trans xs ys zs (more, e) (more', e') =
    (more ++ more', e' ∙ ap (λ l. l ++ more') e ∙ append_assoc xs more more')

-- Leases that run out put their tasks behind the ready ones.
requeue_expired-Extends :
    (now : ℕ) (rest : List (String × LeasedTask)) (q : InMemoryQueue)
    → Extends q.ready (requeue_expired now rest q).ready
unfolding requeue_expired
requeue_expired-Extends now [] q = Extends-refl q.ready
requeue_expired-Extends now ((id, lt) ∷ rest) q = elim (Bool-cases (leb lt.expiry now)) [
  | inl over ↦
      rw (over, requeue_expired)
        (Extends-trans q.ready _ _ (lt.task ∷ [], refl) (requeue_expired-Extends now rest _))
  | inr live ↦ rw (live, requeue_expired) (requeue_expired-Extends now rest q)
]

-- `t` is ready, behind `p` other tasks.
pub record IsWaiting (t : Task) (p : ℕ) (q : InMemoryQueue) : Type 0 where
  pub front : List Task
  pub back : List Task
  pub stands : q.ready ≡ front ++ t ∷ back
  pub behind : length front ≡ p

Extends-IsWaiting :
    (t : Task) (p : ℕ) (q q' : InMemoryQueue)
    → Extends q.ready q'.ready
    → IsWaiting t p q
    → IsWaiting t p q'
Extends-IsWaiting t p q q' (more, e) w = record {
  front = w.front;
  back = w.back ++ more;
  stands = e ∙ ap (λ l. l ++ more) w.stands ∙ append_assoc w.front (t ∷ w.back) more;
  behind = w.behind;
}

-- The first runnable task of a list in which `t` may run is `t` itself, or one before it.
take_runnable-before :
    (now : ℕ) (t : Task) (front back : List Task)
    → is_runnable now t ≡ true
    → ((rest : List Task) × (take_runnable now (front ++ t ∷ back) ≡ some (t, rest)))
      ⊎ ((u : Task) × (front' : List Task) × (take_runnable now (front ++ t ∷ back)
            ≡ some (u, front' ++ t ∷ back))
          × (length front ≡ suc (length front')))
unfolding take_runnable
take_runnable-before now t [] back may = inl (back, ground (arith, may))
take_runnable-before now t (x ∷ front) back may = elim (Bool-cases (is_runnable now x)) [
  | inl first ↦ inr (x, front, ground (arith, first), refl)
  | inr later ↦ elim (take_runnable-before now t front back may) [
    | inl (rest, e) ↦ inl (x ∷ rest, ground (arith, later, e))
    | inr (u, front', e, shorter) ↦
        inr (u, x ∷ front', ground (arith, later, e), ground (arith, shorter))
  ]
]

-- A poll at a time when `t` may run hands `t` out, or brings it nearer to the front.
poll-IsWaiting :
    (owner : String) (ttl now : ℕ) (t : Task) (p : ℕ) (q : InMemoryQueue)
    → is_runnable now t ≡ true
    → IsWaiting t p q
    → ((poll owner ttl now q).1 ≡ some t)
      ⊎ ((p' : ℕ) × (p ≡ suc p') × IsWaiting t p' (poll owner ttl now q).0)
unfolding poll
poll-IsWaiting owner ttl now t p q may w =
    let q' : InMemoryQueue = requeue_expired now q.inflight q in
    let w' = Extends-IsWaiting t p q q' (requeue_expired-Extends now q.inflight q) w in
    elim (take_runnable-before now t w'.front w'.back may) [
      | inl (rest, e) ↦ inl (ground (arith, ap (take_runnable now) w'.stands ∙ e))
      | inr (u, front', e, shorter) ↦ inr (
        length front',
        sym w'.behind ∙ shorter,
        rw (ap (take_runnable now) w'.stands ∙ e, poll)
            (record { front = front'; back = w'.back; stands = refl; behind = refl }),
      )
    ]

module _ (format_int : ℕ → String) where
  -- What a call hands out.
  abbrev pub handed : QueueCall → InMemoryQueue → Option Task
  handed (polls now owner ttl) q = (poll owner ttl now q).1
  handed _ q = none

  -- One of the calls hands `t` out.
  abbrev pub HandsOut : Task → List QueueCall → InMemoryQueue → Type 0
  HandsOut t [] q = false ≡ true
  HandsOut t (c ∷ cs) q = (handed c q ≡ some t) ⊎ HandsOut t cs (queue_call format_int c q)

-- The number of polls among the calls.
abbrev pub polls_in : List QueueCall → ℕ
polls_in [] = 0
polls_in (polls now owner ttl ∷ cs) = suc (polls_in cs)
polls_in (_ ∷ cs) = polls_in cs

-- A poll comes at a time when `t` may run.
abbrev pub IsDue : Task → QueueCall → Type 0
IsDue t (polls now owner ttl) = is_runnable now t ≡ true
IsDue t _ = Unit {0}

module _ (format_int : ℕ → String) where
  -- A call after which the ready tasks are the same.
  same-Extends : (xs ys : List Task) → ys ≡ xs → Extends xs ys
  same-Extends xs ys e = ([], e ∙ sym (append-nil xs))

  renew_lease-ready :
      (id owner : String) (ttl now : ℕ) (q : InMemoryQueue)
      → (renew_lease id owner ttl now q).0.ready ≡ q.ready
  unfolding renew_lease
  renew_lease-ready id owner ttl now q = ground arith

  ack-ready : (id owner : String) (q : InMemoryQueue) → (ack id owner q).0.ready ≡ q.ready
  unfolding ack
  ack-ready id owner q = ground arith

  nack-Extends :
      (id owner : String) (not_before attempts : ℕ) (q : InMemoryQueue)
      → Extends q.ready (nack id owner not_before attempts q).0.ready
  unfolding nack
  nack-Extends id owner not_before attempts q = elim (Option-cases (lookup id q.inflight)) [
    | inl e ↦ rw (e, nack) (Extends-refl q.ready)
    | inr (lt, e) ↦ elim (Bool-cases (lt.owner ==ₛ owner)) [
      | inl own ↦ rw (e, own, nack) (_, refl)
      | inr foreign ↦ rw (e, foreign, nack) (Extends-refl q.ready)
    ]
  ]

  -- A call that is no poll leaves the ready tasks where they are.
  queue_call-Extends :
      (c : QueueCall) (q : InMemoryQueue)
      → polls_in (c ∷ []) ≡ 0
      → Extends q.ready (queue_call format_int c q).ready
  unfolding queue_call
  queue_call-Extends (enqueues now t) q other = elim (Bool-cases (t.id ==ₛ "")) [
    | inl blank ↦
        (_, ap (λ q'. q'.ready) (enqueue-blank format_int now t q ((eq_iff t.id "").0 blank)))
    | inr named ↦ (
      _,
      ap (λ q'. q'.ready)
          (enqueue-named format_int now t q (ground (arith, named, eq_iff t.id ""))),
    )
  ]
  queue_call-Extends (polls now owner ttl) q other = ground arith
  queue_call-Extends (renews now id owner ttl) q other =
      same-Extends q.ready _ (renew_lease-ready id owner ttl now q)
  queue_call-Extends (acks now id owner) q other = same-Extends q.ready _ (ack-ready id owner q)
  queue_call-Extends (nacks now id owner not_before attempts) q other =
      nack-Extends id owner not_before attempts q

  queue_call-IsWaiting :
      (c : QueueCall) (t : Task) (p : ℕ) (q : InMemoryQueue)
      → polls_in (c ∷ []) ≡ 0
      → IsWaiting t p q
      → IsWaiting t p (queue_call format_int c q)
  queue_call-IsWaiting c t p q other =
      Extends-IsWaiting t p q (queue_call format_int c q) (queue_call-Extends c q other)

  -- No starvation: of a task that is ready behind `p` others, one of any calls of producers and
  -- workers hands it out, as soon as more than `p` of them are polls, at times when the task may
  -- run.
  pub queue_calls-HandsOut :
      (cs : List QueueCall) (t : Task) (p : ℕ) (q : InMemoryQueue)
      → IsWaiting t p q
      → All (IsDue t) cs
      → p < polls_in cs
      → HandsOut format_int t cs q
  unfolding queue_call
  queue_calls-HandsOut [] t p q w due enough = absurd (omega (arith, enough))
  queue_calls-HandsOut (polls now owner ttl ∷ cs) t p q w (may, due) enough =
      elim (poll-IsWaiting owner ttl now t p q may w) [
        | inl got ↦ inl got
        | inr (p', closer, w') ↦
            inr (queue_calls-HandsOut cs t p' _ w' due (omega (arith, closer, enough)))
      ]
  queue_calls-HandsOut (enqueues now u ∷ cs) t p q w (_, due) enough = inr (
      queue_calls-HandsOut cs t p _ (queue_call-IsWaiting (enqueues now u) t p q refl w) due enough)
  queue_calls-HandsOut (renews now id owner ttl ∷ cs) t p q w (_, due) enough = inr (
      queue_calls-HandsOut cs t p _ (queue_call-IsWaiting (renews now id owner ttl) t p q refl w)
        due enough)
  queue_calls-HandsOut (acks now id owner ∷ cs) t p q w (_, due) enough = inr (
      queue_calls-HandsOut cs t p _ (queue_call-IsWaiting (acks now id owner) t p q refl w) due
        enough)
  queue_calls-HandsOut (nacks now id owner not_before attempts ∷ cs) t p q w (_, due) enough = inr (
      queue_calls-HandsOut cs t p _
        (queue_call-IsWaiting (nacks now id owner not_before attempts) t p q refl w) due enough)
