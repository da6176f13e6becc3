-- ===== src/Sqlite/Tasks/Calls.antt =====
-- sqlite_queue.go: sequences of calls, by any number of producers and workers, on one table.
use fluxo.Common.{
  ℕ, ◌+◌, ◌<◌, ◌≡◌, refl, inl, inr, none, some, String, List, [], ◌∷◌, arith, lookup_int,
  lookup_int-insert_int, lookup_int-delete_int, insert_int, delete_int, insert_int-Distinct,
  delete_int-Distinct, Distinct, ◌==ₛ◌, Option-cases, Bool-cases,
}
use fluxo.Api.{Result, Result-cases}
use fluxo.Queue.{Task}
use fluxo.Sqlite.{works, Codec}
use fluxo.Sqlite.Tasks.{
  new_table, Tasks, TaskRow, first_claimable, claim, update_leased, delete_leased, renew_lease, ack,
  nack, enqueue, to_row,
}
use fluxo.Sqlite.Tasks.Claims.{first_claimable-IsFirst}

-- No id stands twice, and the ids to be drawn are new.
pub record IsValid {blob : Type 0} (q : Tasks blob) : Type 0 where
  pub distinct : Distinct q.rows
  pub fresh : (n : ℕ) → q.sequence < n → lookup_int n q.rows ≡ none

pub new_table-IsValid : {blob : Type 0} → IsValid {blob = blob} new_table
unfolding new_table lookup_int
new_table-IsValid = record { distinct = tt; fresh = λ n later. refl }

-- One call: for the id of a task, by an owner, at a time.
pub data TaskCall : Type 0 where
  enqueues : ℕ → Task → TaskCall
  claims : ℕ → String → ℕ → TaskCall
  renews : ℕ → String → String → ℕ → TaskCall
  acks : String → String → TaskCall
  nacks : String → String → ℕ → ℕ → TaskCall

module _ (c : Codec) (parse_int : String → Result ℕ) where
  unfoldable pub task_call : TaskCall → Tasks c.blob → Tasks c.blob
  task_call (enqueues now t) q = (enqueue c none now t q).0
  task_call (claims now owner ttl) q = (claim owner ttl now q).0
  task_call (renews now id owner ttl) q = (renew_lease parse_int works id owner ttl now q).0
  task_call (acks id owner) q = (ack parse_int works id owner q).0
  task_call (nacks id owner not_before attempts) q =
      (nack parse_int works id owner not_before attempts q).0

  unfoldable pub task_calls : List TaskCall → Tasks c.blob → Tasks c.blob
  task_calls [] q = q
  task_calls (call ∷ calls) q = task_calls calls (task_call call q)

module _ {blob : Type 0} where
  insert_int-IsValid :
      (id : ℕ) (row old : TaskRow blob) (q : Tasks blob)
      → IsValid q
      → lookup_int id q.rows ≡ some old
      → IsValid (record q { rows = insert_int id row q.rows })
  insert_int-IsValid id row old q valid there = record {
    distinct = insert_int-Distinct id row q.rows valid.distinct;
    fresh = λ n later.
        ground (arith, lookup_int-insert_int id n row q.rows, valid.fresh n later, there);
  }

  delete_int-IsValid :
      (id : ℕ) (q : Tasks blob) → IsValid q → IsValid (record q { rows = delete_int id q.rows })
  delete_int-IsValid id q valid = record {
    distinct = delete_int-Distinct id q.rows valid.distinct;
    fresh = λ n later. ground (arith, lookup_int-delete_int id n q.rows, valid.fresh n later);
  }

  pub claim-IsValid :
      (owner : String) (ttl now : ℕ) (q : Tasks blob)
      → IsValid q
      → IsValid (claim owner ttl now q).0
  unfolding claim
  claim-IsValid owner ttl now q valid =
      let first = first_claimable-IsFirst now q.rows valid.distinct in
      elim (Option-cases (first_claimable now q.rows)) [
        | inl e ↦ rw (e, claim) valid
        | inr ((id, row), e) ↦ rw (e, claim) (insert_int-IsValid id _ row q valid (rw e at first).0)
      ]

  -- A row under a new id.
  insert_int-grown :
      (row : TaskRow blob) (q : Tasks blob)
      → IsValid q
      → IsValid
          (record { sequence = q.sequence + 1; rows = insert_int (q.sequence + 1) row q.rows })
  insert_int-grown row q valid = record {
    distinct = insert_int-Distinct (q.sequence + 1) row q.rows valid.distinct;
    fresh = λ n later.
        ground (arith, later, lookup_int-insert_int (q.sequence + 1) n row q.rows, valid.fresh n);
  }

  update_leased-IsValid :
      (id : ℕ) (owner : String) (set : TaskRow blob → TaskRow blob) (q : Tasks blob)
      → IsValid q
      → IsValid (update_leased id owner set q).0
  unfolding update_leased
  update_leased-IsValid id owner set q valid = elim (Option-cases (lookup_int id q.rows)) [
    | inl e ↦ rw (e, update_leased) valid
    | inr (row, e) ↦ elim (Bool-cases (row.leased_by ==ₛ owner)) [
      | inl own ↦ rw (e, own, update_leased) (insert_int-IsValid id (set row) row q valid e)
      | inr foreign ↦ rw (e, foreign, update_leased) valid
    ]
  ]

  delete_leased-IsValid :
      (id : ℕ) (owner : String) (q : Tasks blob) → IsValid q → IsValid (delete_leased id owner q)
  unfolding delete_leased
  delete_leased-IsValid id owner q valid = elim (Option-cases (lookup_int id q.rows)) [
    | inl e ↦ rw (e, delete_leased) valid
    | inr (row, e) ↦ elim (Bool-cases (row.leased_by ==ₛ owner)) [
      | inl own ↦ rw (e, own, delete_leased) (delete_int-IsValid id q valid)
      | inr foreign ↦ rw (e, foreign, delete_leased) valid
    ]
  ]

pub enqueue-IsValid :
    (c : Codec) (now : ℕ) (t : Task) (q : Tasks c.blob)
    → IsValid q
    → IsValid (enqueue c none now t q).0
unfolding enqueue
enqueue-IsValid c now t q valid = elim (Result-cases (c.encode t.payload)) [
  | inr (e, bad) ↦ rw (bad, enqueue) valid
  | inl (payload, good) ↦ rw (good, enqueue) (insert_int-grown (to_row c now t payload) q valid)
]

module _ (c : Codec) (parse_int : String → Result ℕ) where
  pub task_call-IsValid :
      (call : TaskCall) (q : Tasks c.blob) → IsValid q → IsValid (task_call c parse_int call q)
  unfolding task_call renew_lease ack nack
  task_call-IsValid (enqueues now t) q valid = enqueue-IsValid c now t q valid
  task_call-IsValid (claims now owner ttl) q valid = claim-IsValid owner ttl now q valid
  task_call-IsValid (renews now id owner ttl) q valid = elim (Result-cases (parse_int id)) [
    | inr (e, bad) ↦ rw (bad, task_call, renew_lease) valid
    | inl (n, good) ↦ rw (good, task_call, renew_lease) (update_leased-IsValid n owner _ q valid)
  ]
  task_call-IsValid (acks id owner) q valid = elim (Result-cases (parse_int id)) [
    | inr (e, bad) ↦ rw (bad, task_call, ack) valid
    | inl (n, good) ↦ rw (good, task_call, ack) (delete_leased-IsValid n owner q valid)
  ]
  task_call-IsValid (nacks id owner not_before attempts) q valid =
      elim (Result-cases (parse_int id)) [
        | inr (e, bad) ↦ rw (bad, task_call, nack) valid
        | inl (n, good) ↦ rw (good, task_call, nack) (update_leased-IsValid n owner _ q valid)
      ]
