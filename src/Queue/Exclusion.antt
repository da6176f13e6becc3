-- ===== src/Queue/Exclusion.antt =====
-- inmemory_queue.go: a leased task stays with its owner until the lease runs out.
use fluxo.Common.{
  ℕ, ◌+◌, ◌≤◌, ◌<◌, String, ◌≡◌, ◌≢◌, refl, ◌∙◌, inl, inr, some, List, [], ◌∷◌, arith, lookup,
  lookup-insert, lookup-delete, leb, ◌==ₛ◌, eq_iff, Option-cases, Bool-cases,
}
use fluxo.Queue.Counts.{Leases, count_leased, count_leased-lookup, requeue_one}
use fluxo.Queue.Conservation.{IsValid, requeued, ready_not_leased}
use fluxo.Queue.{Task, LeasedTask, InMemoryQueue, requeue_expired, take_runnable, poll}

-- The lease of `id` in this part of the map has not run out.
abbrev IsLive : ℕ → String → Leases → Type 0
IsLive now id [] = Unit {0}
IsLive now id ((j, lt) ∷ m) = (j ≡ id → now < lt.expiry) × IsLive now id m

IsLive-none : (now : ℕ) (id : String) (m : Leases) → count_leased id m ≡ 0 → IsLive now id m
unfolding count_leased
IsLive-none now id [] h = tt
IsLive-none now id ((j, lt) ∷ m) h =
    (λ e. absurd (ground (arith, e, eq_iff j id)), IsLive-none now id m (omega (arith, h)))

IsLive-lookup :
    (now : ℕ) (id : String) (lt : LeasedTask) (m : Leases)
    → lookup id m ≡ some lt
    → count_leased id m ≤ 1
    → now < lt.expiry
    → IsLive now id m
unfolding count_leased lookup
IsLive-lookup now id lt [] e once live = tt
IsLive-lookup now id lt ((j, x) ∷ m) e once live = elim (Bool-cases (j ==ₛ id)) [
  | inl here ↦ (λ _. ground (arith, here), IsLive-none now id m (ground (arith, here)))
  | inr there ↦ (
    λ same. absurd (ground (arith, there, eq_iff j id, same)),
    IsLive-lookup now id lt m (ground (arith, there)) (ground (arith, there)) live,
  )
]

requeue_expired-lookup :
    (now : ℕ) (id : String) (rest : Leases) (q : InMemoryQueue)
    → IsLive now id rest
    → lookup id (requeue_expired now rest q).inflight ≡ lookup id q.inflight
unfolding requeue_expired requeue_one
requeue_expired-lookup now id [] q live = refl
requeue_expired-lookup now id ((j, x) ∷ rest) q live = elim (Bool-cases (leb x.expiry now)) [
  | inl over ↦
      let ih = requeue_expired-lookup now id rest (requeue_one j x q) live.1 in
      ground (arith, over, ih, lookup-delete j id q.inflight, eq_iff j id, live.0)
  | inr running ↦
      let ih = requeue_expired-lookup now id rest q live.1 in ground (arith, running, ih)
]

module _ (owner : String) (ttl now : ℕ) (q : InMemoryQueue) (v : IsValid q) (id : String)
    (lt : LeasedTask) (leased : lookup id q.inflight ≡ some lt) (live : now < lt.expiry) where
  once : count_leased id q.inflight ≤ 1
  once = omega (arith, v.unique id)

  requeued-lookup : lookup id (requeued owner ttl now q v).inflight ≡ some lt
  unfolding requeued
  requeued-lookup =
      requeue_expired-lookup now id q.inflight q
        (IsLive-lookup now id lt q.inflight leased once live)
      ∙ leased

  handed-ne :
      (t : Task) (us : List Task)
      → take_runnable now (requeued owner ttl now q v).ready ≡ some (t, us)
      → t.id ≢ id
  handed-ne t us e same =
      let none_leased = ready_not_leased owner ttl now q v t us e in
      let some_leased = count_leased-lookup id lt _ requeued-lookup in
      absurd (omega (arith, rw same at none_leased, some_leased))

  -- Until its lease runs out, a poll by anyone leaves a task with its owner and hands out another.
  pub poll-leased :
      (lookup id (poll owner ttl now q).0.inflight ≡ some lt)
      × ((t : Task) → (poll owner ttl now q).1 ≡ some t → t.id ≢ id)
  unfolding poll requeued
  poll-leased = elim (Option-cases (take_runnable now (requeued owner ttl now q v).ready)) [
    | inl e ↦ rw (e, poll) (requeued-lookup, λ t some_task. cc)
    | inr ((t, us), e) ↦
        rw
          (
            e,
            poll,
            lookup-insert {V = LeasedTask} t.id id
                (record { task = t; owner = owner; expiry = now + ttl }),
          )
          (
            ground (arith, eq_iff t.id id, handed-ne t us e, requeued-lookup),
            λ u same. ground (arith, same, handed-ne t us e),
          )
  ]
