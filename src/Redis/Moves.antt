-- ===== src/Redis/Moves.antt =====
-- redis_queue.go: what holds of the five keys together, and what each change of them keeps.
use fluxo.Common.{
  ℕ, zero, suc, ◌+◌, ◌≤◌, ◌≡◌, inl, inr, Bool, none, some, String, List, [], ◌∷◌, arith, lookup,
  lookup-insert, lookup-delete, insert, delete, eq_iff, Option-cases, Bool-cases, str_self,
}
use fluxo.Postgres.Delivery.{one_if_some}
use fluxo.Redis.{
  Keys, Scores, comes_before, first_due, due, requeue, dequeue_script, put, write_payload,
}

-- Of one id: it is ready or leased, never both, exactly if it has a time; it has an owner exactly if
-- it is leased; and if it has a time, it has a payload.
pub record IsSound {blob : Type 0} (q : Keys blob) (k : String) : Type 0 where
  pub apart :
      one_if_some (lookup k q.ready) + one_if_some (lookup k q.inflight)
      ≡ one_if_some (lookup k q.not_before)
  pub owned : one_if_some (lookup k q.owner) ≡ one_if_some (lookup k q.inflight)
  pub filled : one_if_some (lookup k q.not_before) ≤ one_if_some (lookup k q.payload)

abbrev pub IsValid : {blob : Type 0} → Keys blob → Type 0
IsValid q = (k : String) → IsSound q k

module _ (round : ℕ → ℕ) (precedes : String → String → Bool) where
  -- What is due is in the set.
  pub first_due-there :
      (now : ℕ) (scores : Scores) (id : String) (score : ℕ)
      → first_due round precedes now scores ≡ some (id, score)
      → one_if_some (lookup id scores) ≡ 1
  unfolding first_due lookup
  first_due-there now [] id score e = absurd (ground (arith, e))
  first_due-there now ((j, m) ∷ scores) id score e =
      let ih = first_due-there now scores id score in
      elim (Option-cases (first_due round precedes now scores)) [
        | inl nothing ↦ ground (arith, e, nothing, str_self id)
        | inr ((i, n), found) ↦ elim (Bool-cases (comes_before round precedes (i, n) (j, m))) [
          | inl first ↦ ground (arith, e, found, first, ih)
          | inr later ↦ ground (arith, e, found, later, ih, str_self j)
        ]
      ]

  -- Each id is in the set when its turn comes to be taken out.
  abbrev pub AllThere : List String → Scores → Type 0
  AllThere [] scores = Unit {0}
  AllThere (id ∷ ids) scores =
      (one_if_some (lookup id scores) ≡ 1) × AllThere ids (delete id scores)

  pub due-AllThere :
      (n now : ℕ) (scores : Scores) → AllThere (due round precedes n now scores) scores
  unfolding due
  due-AllThere zero now scores = tt
  due-AllThere (suc n) now scores = elim (Option-cases (first_due round precedes now scores)) [
    | inl e ↦ rw (e, due) tt
    | inr ((id, score), e) ↦
        rw (e, due) (first_due-there now scores id score e, due-AllThere n now (delete id scores))
  ]

  module _ {blob : Type 0} where
    -- A leased id goes back to the ready ones.
    requeue_one-IsValid :
        (id : String) (score : ℕ) (q : Keys blob)
        → IsValid q
        → one_if_some (lookup id q.inflight) ≡ 1
        → IsValid (record q {
          ready = insert id score q.ready;
          inflight = delete id q.inflight;
          owner = delete id q.owner;
        })
    requeue_one-IsValid id score q valid leased k =
        let old = valid k in
        record {
          apart = ground (
            arith,
            old.apart,
            leased,
            eq_iff id k,
            lookup-insert id k score q.ready,
            lookup-delete id k q.inflight,
          );
          owned = ground (
            arith,
            old.owned,
            eq_iff id k,
            lookup-delete id k q.owner,
            lookup-delete id k q.inflight,
          );
          filled = old.filled;
        }

    pub requeue-IsValid :
        (now : ℕ) (ids : List String) (q : Keys blob)
        → IsValid q
        → AllThere ids q.inflight
        → IsValid (requeue round precedes now ids q)
    unfolding requeue
    requeue-IsValid now [] q valid there = valid
    requeue-IsValid now (id ∷ ids) q valid (leased, there) =
        requeue-IsValid now ids _ (requeue_one-IsValid id _ q valid leased) there

    -- A ready id is leased.
    claim-IsValid :
        (id owner : String) (expiry : ℕ) (q : Keys blob)
        → IsValid q
        → one_if_some (lookup id q.ready) ≡ 1
        → IsValid (record q {
          ready = delete id q.ready;
          inflight = insert id expiry q.inflight;
          owner = insert id owner q.owner;
        })
    claim-IsValid id owner expiry q valid ready k =
        let old = valid k in
        record {
          apart = ground (
            arith,
            old.apart,
            ready,
            eq_iff id k,
            one_at_most k q valid,
            lookup-delete id k q.ready,
            lookup-insert id k expiry q.inflight,
          );
          owned = ground (
            arith,
            old.owned,
            eq_iff id k,
            lookup-insert id k owner q.owner,
            lookup-insert id k expiry q.inflight,
          );
          filled = old.filled;
        }
      where
        one_at_most :
            (k : String) (q : Keys blob)
            → IsValid q
            → one_if_some (lookup k q.ready) + one_if_some (lookup k q.inflight) ≤ 1
        one_at_most k q valid = ground (arith, (valid k).apart)

    pub dequeue_script-IsValid :
        (now lease_ms : ℕ) (owner : String) (q : Keys blob)
        → IsValid q
        → IsValid (dequeue_script round precedes now lease_ms owner q).0
    unfolding dequeue_script
    dequeue_script-IsValid now lease_ms owner q valid =
        let ids = due round precedes 100 (round now) q.inflight in
        let q' : Keys blob = requeue round precedes (round now) ids q in
        let valid' : IsValid q' =
          requeue-IsValid (round now) ids q valid (due-AllThere 100 (round now) q.inflight) in
        elim (Option-cases (first_due round precedes (round now) q'.ready)) [
          | inl e ↦ rw (e, dequeue_script) valid'
          | inr ((id, score), e) ↦
              rw (e, dequeue_script)
                (claim-IsValid id owner _ q' valid'
                  (first_due-there (round now) q'.ready id score e))
        ]

    -- The holder takes a leased id out of every key.
    pub remove-IsValid :
        (id : String) (q : Keys blob)
        → IsValid q
        → one_if_some (lookup id q.inflight) ≡ 1
        → IsValid (record q {
          inflight = delete id q.inflight;
          payload = delete id q.payload;
          not_before = delete id q.not_before;
          owner = delete id q.owner;
        })
    remove-IsValid id q valid leased k =
        let old = valid k in
        record {
          apart = ground (
            arith,
            old.apart,
            leased,
            eq_iff id k,
            lookup-delete id k q.inflight,
            lookup-delete id k q.not_before,
          );
          owned = ground (
            arith,
            old.owned,
            eq_iff id k,
            lookup-delete id k q.owner,
            lookup-delete id k q.inflight,
          );
          filled = ground (
            arith,
            old.filled,
            eq_iff id k,
            lookup-delete id k q.not_before,
            lookup-delete id k q.payload,
          );
        }

    -- The holder gives a leased id back.
    pub give_back-IsValid :
        (id : String) (score time : ℕ) (q : Keys blob)
        → IsValid q
        → one_if_some (lookup id q.inflight) ≡ 1
        → IsValid (record q {
          ready = insert id score q.ready;
          inflight = delete id q.inflight;
          not_before = insert id time q.not_before;
          owner = delete id q.owner;
        })
    give_back-IsValid id score time q valid leased k =
        let old = valid k in
        let moved = requeue_one-IsValid id score q valid leased k in
        record {
          apart = ground (
            arith,
            moved.apart,
            (valid id).apart,
            leased,
            eq_iff id k,
            lookup-insert id k time q.not_before,
            lookup-insert id k score q.ready,
            lookup-delete id k q.inflight,
          );
          owned = moved.owned;
          filled = ground (
            arith,
            old.filled,
            old.apart,
            leased,
            eq_iff id k,
            lookup-insert id k time q.not_before,
          );
        }

    -- An id that is not leased is put in.
    pub put-IsValid :
        (id : String) (bytes : blob) (time : ℕ) (q : Keys blob)
        → IsValid q
        → lookup id q.inflight ≡ none
        → IsValid (put round precedes id bytes time q)
    put-IsValid id bytes time q valid free k =
        let old = valid k in
        record {
          apart = ground (
            arith,
            old.apart,
            free,
            eq_iff id k,
            lookup-insert id k (round time) q.ready,
            lookup-insert id k time q.not_before,
          );
          owned = old.owned;
          filled = ground (
            arith,
            old.filled,
            eq_iff id k,
            lookup-insert id k time q.not_before,
            lookup-insert id k bytes q.payload,
          );
        }

    pub write_payload-IsValid :
        (id : String) (bytes : blob) (q : Keys blob)
        → IsValid q
        → IsValid (write_payload round precedes id bytes q)
    write_payload-IsValid id bytes q valid k =
        let old = valid k in
        record {
          apart = old.apart;
          owned = old.owned;
          filled = ground (arith, old.filled, eq_iff id k, lookup-insert id k bytes q.payload);
        }

    pub renew-IsValid :
        (id : String) (expiry : ℕ) (q : Keys blob)
        → IsValid q
        → one_if_some (lookup id q.inflight) ≡ 1
        → IsValid (record q { inflight = insert id expiry q.inflight })
    renew-IsValid id expiry q valid leased k =
        let old = valid k in
        record {
          apart =
              ground (arith, old.apart, leased, eq_iff id k, lookup-insert id k expiry q.inflight);
          owned =
              ground (arith, old.owned, leased, eq_iff id k, lookup-insert id k expiry q.inflight);
          filled = old.filled;
        }

    -- What has an owner is leased.
    pub owner-leased :
        (id owner : String) (q : Keys blob)
        → IsValid q
        → lookup id q.owner ≡ some owner
        → one_if_some (lookup id q.inflight) ≡ 1
    owner-leased id owner q valid e = ground (arith, (valid id).owned, e)
