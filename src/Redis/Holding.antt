-- ===== src/Redis/Holding.antt =====
-- redis_queue.go: a lease stands, whatever the scripts of others do.
use fluxo.Common.{
  ℕ, ◌+◌, ◌∙◌, false, ◌*◌, ◌<◌, ◌≡◌, ◌≢◌, refl, inl, inr, Bool, none, some, Option, String, List,
  [], ◌∷◌, arith, lookup, lookup-insert, lookup-delete, delete, ◌==ₛ◌, eq_iff, Option-cases,
  Bool-cases, All,
}
use fluxo.Postgres.Delivery.{one_if_some}
use fluxo.Redis.Moves.{IsValid, requeue-IsValid, due-AllThere, first_due-there}
use fluxo.Redis.Validity.{
  KeyCall, puts, takes, renews, acks, rewrites, nacks, key_call, key_calls, AllFresh,
  key_call-IsValid,
}
use fluxo.Redis.{
  Keys, Scores, first_due, due, requeue, dequeue_script, ack_script, nack_script, renew_script,
}
use fluxo.Redis.Sets.{IsDistinct, insert-IsDistinct, delete-IsDistinct, AllOther, due-AllOther}

-- The id that the script hands out is `k`.
abbrev pub is_claimed : {blob : Type 0} → String → Option (String × Option blob) → Bool
is_claimed k none = false
is_claimed k (some (id, bytes)) = id ==ₛ k

module _ (round : ℕ → ℕ) (precedes : String → String → Bool) where
  module _ {blob : Type 0} (k owner : String) (until : ℕ) where
    -- `k` is leased to `owner` until `until`.
    pub record IsHeld (q : Keys blob) : Type 0 where
      pub valid : IsValid q
      pub set : IsDistinct q.inflight
      pub leased : lookup k q.inflight ≡ some until
      pub owned : lookup k q.owner ≡ some owner

    -- The requeueing of other ids leaves the lease.
    requeue-kept :
        (now : ℕ) (ids : List String) (q : Keys blob)
        → AllOther k ids
        → IsDistinct q.inflight
        → IsDistinct (requeue round precedes now ids q).inflight
          × (lookup k (requeue round precedes now ids q).inflight ≡ lookup k q.inflight)
          × (lookup k (requeue round precedes now ids q).owner ≡ lookup k q.owner)
    unfolding requeue
    requeue-kept now [] q others set = (set, refl, refl)
    requeue-kept now (id ∷ ids) q (other, others) set =
        let (set', leased', owned') =
          requeue-kept now ids _ others (delete-IsDistinct id q.inflight set) in
        (
          set',
          ground (arith, leased', other, eq_iff id k, lookup-delete id k q.inflight),
          ground (arith, owned', other, eq_iff id k, lookup-delete id k q.owner),
        )

    -- The keys when the script has put the expired ids back.
    abbrev requeued : ℕ → Keys blob → Keys blob
    requeued now q = requeue round precedes now (due round precedes 100 now q.inflight) q

    requeued-IsHeld : (now : ℕ) (q : Keys blob) → IsHeld q → now < until → IsHeld (requeued now q)
    requeued-IsHeld now q held before =
        let others =
          due-AllOther round precedes 100 now q.inflight k until held.set held.leased before in
        let (set', leased', owned') =
          requeue-kept now (due round precedes 100 now q.inflight) q others held.set in
        record {
          valid =
              requeue-IsValid round precedes now (due round precedes 100 now q.inflight) q
                held.valid (due-AllThere round precedes 100 now q.inflight);
          set = set';
          leased = leased' ∙ held.leased;
          owned = owned' ∙ held.owned;
        }

    -- What is ready is another id.
    ready-other :
        (now : ℕ) (q : Keys blob) (id : String) (score : ℕ)
        → IsHeld q
        → first_due round precedes now q.ready ≡ some (id, score)
        → id ≢ k
    ready-other now q id score held e same =
        let there = first_due-there round precedes now q.ready id score e in
        let ready : one_if_some (lookup k q.ready) ≡ 1 = rw same at there in
        ground (arith, ready, held.leased, (held.valid k).apart)

    pub dequeue_script-IsHeld :
        (now lease_ms : ℕ) (other : String) (q : Keys blob)
        → IsHeld q
        → round now < until
        → IsValid (dequeue_script round precedes now lease_ms other q).0
        → IsHeld (dequeue_script round precedes now lease_ms other q).0
          × (is_claimed k (dequeue_script round precedes now lease_ms other q).1 ≡ false)
    unfolding dequeue_script
    dequeue_script-IsHeld now lease_ms other q held before valid' =
        let q' : Keys blob = requeued (round now) q in
        let held' : IsHeld q' = requeued-IsHeld (round now) q held before in
        elim (Option-cases (first_due round precedes (round now) q'.ready)) [
          | inl e ↦ rw (e, dequeue_script) (held', refl)
          | inr ((id, score), e) ↦
              let differ = ready-other (round now) q' id score held' e in
              let expiry : ℕ = round (round now + lease_ms * 1000000) in
              rw (e, dequeue_script)
                (
                  record {
                    valid = rw (e, dequeue_script) at valid';
                    set = insert-IsDistinct id expiry q'.inflight held'.set;
                    leased = ground (
                      arith,
                      held'.leased,
                      differ,
                      eq_iff id k,
                      lookup-insert id k expiry q'.inflight,
                    );
                    owned = ground (
                      arith,
                      held'.owned,
                      differ,
                      eq_iff id k,
                      lookup-insert id k other q'.owner,
                    );
                  },
                  ground (arith, differ, eq_iff id k),
                )
        ]

    -- A call that the lease does not let at the task: a poll before the lease ends, whoever polls,
    -- or the call of another owner.
    abbrev pub IsOutside : KeyCall blob → Type 0
    IsOutside (puts id bytes not_before) = Unit {0}
    IsOutside (takes now lease_ms other) = round now < until
    IsOutside (renews id other expiry) = other ≢ owner
    IsOutside (acks id other) = other ≢ owner
    IsOutside (rewrites id bytes) = Unit {0}
    IsOutside (nacks id other not_before) = other ≢ owner

    -- Another id leaves the leases.
    removed-IsHeld :
        (id : String) (q : Keys blob) {ready not_before : Scores} {payload : List (String × blob)}
        → IsHeld q
        → id ≢ k
        → IsValid (record {
          ready = ready;
          inflight = delete id q.inflight;
          payload = payload;
          not_before = not_before;
          owner = delete id q.owner;
        })
        → IsHeld (record {
          ready = ready;
          inflight = delete id q.inflight;
          payload = payload;
          not_before = not_before;
          owner = delete id q.owner;
        })
    removed-IsHeld id q held differ valid' = record {
      valid = valid';
      set = delete-IsDistinct id q.inflight held.set;
      leased = ground (arith, held.leased, differ, eq_iff id k, lookup-delete id k q.inflight);
      owned = ground (arith, held.owned, differ, eq_iff id k, lookup-delete id k q.owner);
    }

    -- The id whose owner is another one is another id.
    owner-other :
        (id other : String) (q : Keys blob)
        → IsHeld q
        → other ≢ owner
        → lookup id q.owner ≡ some other
        → id ≢ k
    owner-other id other q held differ e same =
        let there : lookup k q.owner ≡ some other = rw same at e in
        ground (arith, there, held.owned, differ)

    key_call-IsHeld :
        (call : KeyCall blob) (q : Keys blob)
        → IsHeld q
        → IsOutside call
        → IsValid (key_call round precedes call q)
        → IsHeld (key_call round precedes call q)
    unfolding key_call ack_script nack_script renew_script
    key_call-IsHeld (puts id bytes time) q held outside valid' = record {
      valid = valid';
      set = held.set;
      leased = held.leased;
      owned = held.owned;
    }
    key_call-IsHeld (rewrites id bytes) q held outside valid' = record {
      valid = valid';
      set = held.set;
      leased = held.leased;
      owned = held.owned;
    }
    key_call-IsHeld (takes now lease_ms other) q held outside valid' =
        (dequeue_script-IsHeld now lease_ms other q held outside valid').0
    key_call-IsHeld (renews id other expiry) q held outside valid' =
        elim (Option-cases (lookup id q.owner)) [
          | inl e ↦ rw (e, key_call, renew_script) held
          | inr (cur, e) ↦ elim (Bool-cases (cur ==ₛ other)) [
            | inr differs ↦ rw (e, differs, key_call, renew_script) held
            | inl same ↦
                let differ =
                  owner-other id cur q held (ground (arith, same, outside, eq_iff cur other)) e in
                rw (e, same, key_call, renew_script)
                  (record {
                    valid = rw (e, same, key_call, renew_script) at valid';
                    set = insert-IsDistinct id (round expiry) q.inflight held.set;
                    leased = ground (
                      arith,
                      held.leased,
                      differ,
                      eq_iff id k,
                      lookup-insert id k (round expiry) q.inflight,
                    );
                    owned = held.owned;
                  })
          ]
        ]
    key_call-IsHeld (acks id other) q held outside valid' =
        elim (Option-cases (lookup id q.owner)) [
          | inl e ↦ rw (e, key_call, ack_script) held
          | inr (cur, e) ↦ elim (Bool-cases (cur ==ₛ other)) [
            | inr differs ↦ rw (e, differs, key_call, ack_script) held
            | inl same ↦
                let differ =
                  owner-other id cur q held (ground (arith, same, outside, eq_iff cur other)) e in
                rw (e, same, key_call, ack_script)
                  (removed-IsHeld id q held differ (rw (e, same, key_call, ack_script) at valid'))
          ]
        ]
    key_call-IsHeld (nacks id other time) q held outside valid' =
        elim (Option-cases (lookup id q.owner)) [
          | inl e ↦ rw (e, key_call, nack_script) held
          | inr (cur, e) ↦ elim (Bool-cases (cur ==ₛ other)) [
            | inr differs ↦ rw (e, differs, key_call, nack_script) held
            | inl same ↦
                let differ =
                  owner-other id cur q held (ground (arith, same, outside, eq_iff cur other)) e in
                rw (e, same, key_call, nack_script)
                  (removed-IsHeld id q held differ (rw (e, same, key_call, nack_script) at valid'))
          ]
        ]

    pub key_calls-IsHeld :
        (calls : List (KeyCall blob)) (q : Keys blob)
        → IsHeld q
        → All IsOutside calls
        → AllFresh round precedes calls q
        → IsHeld (key_calls round precedes calls q)
    unfolding key_calls
    key_calls-IsHeld [] q held outside fresh = held
    key_calls-IsHeld (call ∷ calls) q held (outside, rest) (fresh, later) =
        key_calls-IsHeld calls (key_call round precedes call q)
          (key_call-IsHeld call q held outside
            (key_call-IsValid round precedes call q held.valid fresh))
          rest later
