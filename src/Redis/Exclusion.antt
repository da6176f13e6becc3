-- ===== src/Redis/Exclusion.antt =====
-- redis_queue.go: a lease keeps every other client off the task.
use fluxo.Common.{
  ℕ, ◌+◌, false, ◌*◌, ◌<◌, ◌≡◌, inl, inr, Bool, some, Option, String, List, [], ◌∷◌, arith, lookup,
  lookup-insert, Option-cases, str_self, All,
}
use fluxo.Redis.Moves.{IsValid}
use fluxo.Redis.Validity.{KeyCall, takes, key_call, key_calls, AllFresh, key_call-IsValid}
use fluxo.Redis.{Keys, first_due, due, requeue, dequeue_script}
use fluxo.Redis.Sets.{IsDistinct, insert-IsDistinct, delete-IsDistinct}
use fluxo.Redis.Holding.{IsHeld, is_claimed, IsOutside, dequeue_script-IsHeld, key_calls-IsHeld}

module _ (round : ℕ → ℕ) (precedes : String → String → Bool) where
  module _ {blob : Type 0} where
    requeue-IsDistinct :
        (now : ℕ) (ids : List String) (q : Keys blob)
        → IsDistinct q.inflight
        → IsDistinct (requeue round precedes now ids q).inflight
    unfolding requeue
    requeue-IsDistinct now [] q set = set
    requeue-IsDistinct now (id ∷ ids) q set =
        requeue-IsDistinct now ids _ (delete-IsDistinct id q.inflight set)

    -- What the script hands out is leased to the caller.
    dequeue_script-leased :
        (now lease_ms : ℕ) (owner id : String) (bytes : Option blob) (q : Keys blob)
        → IsValid q
        → IsDistinct q.inflight
        → (dequeue_script round precedes now lease_ms owner q).1 ≡ some (id, bytes)
        → IsHeld round precedes id owner
            (round (round now + lease_ms * 1000000))
            (dequeue_script round precedes now lease_ms owner q).0
    unfolding dequeue_script key_call
    dequeue_script-leased now lease_ms owner id bytes q valid set got =
        let ids = due round precedes 100 (round now) q.inflight in
        let q' : Keys blob = requeue round precedes (round now) ids q in
        let set' = requeue-IsDistinct (round now) ids q set in
        let expiry : ℕ = round (round now + lease_ms * 1000000) in
        let valid' = key_call-IsValid round precedes (takes now lease_ms owner) q valid tt in
        elim (Option-cases (first_due round precedes (round now) q'.ready)) [
          | inl e ↦ absurd (ground (arith, e, got))
          | inr ((j, score), e) ↦
              let same : j ≡ id = ground (arith, e, got) in
              rw (← same, e, dequeue_script)
                (record {
                  valid = rw (e, key_call, dequeue_script) at valid';
                  set = insert-IsDistinct j expiry q'.inflight set';
                  leased = ground (arith, str_self j, lookup-insert j j expiry q'.inflight);
                  owned = ground (arith, str_self j, lookup-insert j j owner q'.owner);
                })
        ]

    -- Mutual exclusion: where the keys are sound and no id is put in while it is leased, a task that
    -- the script hands out at `now` stays leased to the caller until the end of that lease, whatever
    -- is put in or rewritten, whoever polls before that end, and whatever other owners renew,
    -- acknowledge or give back; and no poll before that end, by anyone, gets the task.
    pub dequeue_exclusion :
        (now lease_ms later lease_ms' : ℕ) (owner other id : String) (bytes : Option blob)
        (q : Keys blob) (calls : List (KeyCall blob))
        → IsValid q
        → IsDistinct q.inflight
        → (dequeue_script round precedes now lease_ms owner q).1 ≡ some (id, bytes)
        → All (IsOutside round precedes id owner (round (round now + lease_ms * 1000000))) calls
        → AllFresh round precedes calls (dequeue_script round precedes now lease_ms owner q).0
        → round later < round (round now + lease_ms * 1000000)
        → let q' =
            key_calls round precedes calls (dequeue_script round precedes now lease_ms owner q).0 in
          (lookup id q'.inflight ≡ some (round (round now + lease_ms * 1000000)))
          × (lookup id q'.owner ≡ some owner)
          × (is_claimed id (dequeue_script round precedes later lease_ms' other q').1 ≡ false)
    unfolding key_call
    dequeue_exclusion now lease_ms later lease_ms' owner other id bytes q calls valid set got
          outside fresh before =
        let until : ℕ = round (round now + lease_ms * 1000000) in
        let first = dequeue_script-leased now lease_ms owner id bytes q valid set got in
        let held = key_calls-IsHeld round precedes id owner until calls _ first outside fresh in
        (
          held.leased,
          held.owned,
          (dequeue_script-IsHeld round precedes id owner until later lease_ms' other _ held before
              (key_call-IsValid round precedes (takes later lease_ms' other) _ held.valid tt)).1,
        )
