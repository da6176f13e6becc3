-- ===== src/Sqlite/Tasks/Exclusion.antt =====
-- sqlite_queue.go: a lease keeps every other claim off the row.
use fluxo.Common.{
  ℕ, ◌+◌, ◌<◌, ◌≡◌, ◌≢◌, refl, sym, ◌∙◌, inl, inr, Bool, false, none, some, Option, String, List,
  [], ◌∷◌, arith, All, lookup_int, lookup_int-insert_int, lookup_int-delete_int, ◌==◌, eq_iff,
  Option-cases,
}
use fluxo.Api.{Result, Result-cases}
use fluxo.Sqlite.{Codec}
use fluxo.Sqlite.Tasks.{
  Tasks, TaskRow, first_claimable, claim, is_claimable, leased, update_leased, delete_leased,
  renew_lease, ack, nack, enqueue, to_row,
}
use fluxo.Sqlite.Tasks.Claims.{first_claimable-IsFirst}
use fluxo.Sqlite.Tasks.Calls.{
  IsValid, TaskCall, enqueues, claims, renews, acks, nacks, task_call, task_calls, claim-IsValid,
  task_call-IsValid,
}

-- A call that `owner`'s lease until `until` does not let at a task: one that claims before the
-- lease ends, whoever calls, or one of another owner.
abbrev pub IsOutside : String → ℕ → TaskCall → Type 0
IsOutside owner until (enqueues now t) = Unit {0}
IsOutside owner until (claims now other ttl) = now < until
IsOutside owner until (renews now id other ttl) = other ≢ owner
IsOutside owner until (acks id other) = other ≢ owner
IsOutside owner until (nacks id other not_before attempts) = other ≢ owner

-- What was claimed is the row `k`.
abbrev pub is_row : {blob : Type 0} → ℕ → Option (ℕ × TaskRow blob) → Bool
is_row k none = false
is_row k (some (id, row)) = id == k

-- The row `k`, leased to `owner` until `until`.
module _ {blob : Type 0} (k : ℕ) (row : TaskRow blob) (owner : String) (until : ℕ)
    (named : owner ≢ "") (own : row.leased_by ≡ owner) (exp : row.lease_expires_at ≡ until) where
  -- Before the lease ends, the row is not claimable.
  held-unclaimable : (now : ℕ) → now < until → is_claimable now row ≡ false
  held-unclaimable now before = ground (arith, own, exp, named, eq_iff row.leased_by "")

  -- A row that is claimed is another one.
  first_claimable-other :
      (now id : ℕ) (claimed : TaskRow blob) (q : Tasks blob)
      → IsValid q
      → lookup_int k q.rows ≡ some row
      → now < until
      → first_claimable now q.rows ≡ some (id, claimed)
      → id ≢ k
  first_claimable-other now id claimed q valid there before e same =
      let (found, may, least) = rw e at (first_claimable-IsFirst now q.rows valid.distinct) in
      let idle = held-unclaimable now before in
      let found' : lookup_int k q.rows ≡ some claimed = rw same at found in
      ground (arith, idle, may, sym there ∙ found')

  claim-held :
      (other : String) (ttl now : ℕ) (q : Tasks blob)
      → IsValid q
      → now < until
      → lookup_int k q.rows ≡ some row
      → lookup_int k (claim other ttl now q).0.rows ≡ some row
  unfolding claim
  claim-held other ttl now q valid before there = elim (Option-cases (first_claimable now q.rows)) [
    | inl e ↦ rw (e, claim) there
    | inr ((id, claimed), e) ↦
        let differ = first_claimable-other now id claimed q valid there before e in
        let entry : TaskRow blob = leased other (now + ttl) claimed in
        ground (arith, e, differ, there, lookup_int-insert_int id k entry q.rows)
  ]

  update_leased-held :
      (id : ℕ) (other : String) (set : TaskRow blob → TaskRow blob) (q : Tasks blob)
      → other ≢ owner
      → lookup_int k q.rows ≡ some row
      → lookup_int k (update_leased id other set q).0.rows ≡ some row
  unfolding update_leased
  update_leased-held id other set q differ there = elim (Option-cases (lookup_int id q.rows)) [
    | inl e ↦ rw (e, update_leased) there
    | inr (old, e) ↦ ground (
      arith,
      e,
      there,
      own,
      differ,
      eq_iff old.leased_by other,
      lookup_int-insert_int id k (set old) q.rows,
    )
  ]

  delete_leased-held :
      (id : ℕ) (other : String) (q : Tasks blob)
      → other ≢ owner
      → lookup_int k q.rows ≡ some row
      → lookup_int k (delete_leased id other q).rows ≡ some row
  unfolding delete_leased
  delete_leased-held id other q differ there = elim (Option-cases (lookup_int id q.rows)) [
    | inl e ↦ rw (e, delete_leased) there
    | inr (old, e) ↦ ground (
      arith,
      e,
      there,
      own,
      differ,
      eq_iff old.leased_by other,
      lookup_int-delete_int id k q.rows,
    )
  ]

module _ (c : Codec) (parse_int : String → Result ℕ) where
  module _ (k : ℕ) (row : TaskRow c.blob) (owner : String) (until : ℕ) (named : owner ≢ "")
      (own : row.leased_by ≡ owner) (exp : row.lease_expires_at ≡ until) where
    task_call-held :
        (call : TaskCall) (q : Tasks c.blob)
        → IsValid q
        → IsOutside owner until call
        → lookup_int k q.rows ≡ some row
        → lookup_int k (task_call c parse_int call q).rows ≡ some row
    unfolding task_call renew_lease ack nack enqueue
    task_call-held (enqueues now t) q valid outside there =
        elim (Result-cases (c.encode t.payload)) [
          | inr (e, bad) ↦ rw (bad, task_call, enqueue) there
          | inl (payload, good) ↦
              let entry : TaskRow c.blob = to_row c now t payload in
              ground (
                arith,
                good,
                there,
                lookup_int-insert_int (q.sequence + 1) k entry q.rows,
                valid.fresh (q.sequence + 1),
              )
        ]
    task_call-held (claims now other ttl) q valid outside there =
        claim-held k row owner until named own exp other ttl now q valid outside there
    task_call-held (renews now id other ttl) q valid outside there =
        elim (Result-cases (parse_int id)) [
          | inr (e, bad) ↦ rw (bad, task_call, renew_lease) there
          | inl (n, good) ↦
              rw (good, task_call, renew_lease)
                (update_leased-held k row owner until named own exp n other _ q outside there)
        ]
    task_call-held (acks id other) q valid outside there = elim (Result-cases (parse_int id)) [
      | inr (e, bad) ↦ rw (bad, task_call, ack) there
      | inl (n, good) ↦
          rw (good, task_call, ack)
            (delete_leased-held k row owner until named own exp n other q outside there)
    ]
    task_call-held (nacks id other not_before attempts) q valid outside there =
        elim (Result-cases (parse_int id)) [
          | inr (e, bad) ↦ rw (bad, task_call, nack) there
          | inl (n, good) ↦
              rw (good, task_call, nack)
                (update_leased-held k row owner until named own exp n other _ q outside there)
        ]

    task_calls-held :
        (calls : List TaskCall) (q : Tasks c.blob)
        → IsValid q
        → All (IsOutside owner until) calls
        → lookup_int k q.rows ≡ some row
        → IsValid (task_calls c parse_int calls q)
          × (lookup_int k (task_calls c parse_int calls q).rows ≡ some row)
    unfolding task_calls
    task_calls-held [] q valid outside there = (valid, there)
    task_calls-held (call ∷ calls) q valid (outside, rest) there =
        task_calls-held calls (task_call c parse_int call q)
          (task_call-IsValid c parse_int call q valid) rest
          (task_call-held call q valid outside there)

    -- A row that is held is not the one that a claim gets.
    claim-other :
        (other : String) (ttl now : ℕ) (q : Tasks c.blob)
        → IsValid q
        → now < until
        → lookup_int k q.rows ≡ some row
        → is_row k (claim other ttl now q).1 ≡ false
    unfolding claim
    claim-other other ttl now q valid before there =
        elim (Option-cases (first_claimable now q.rows)) [
          | inl e ↦ ground (arith, e)
          | inr ((id, claimed), e) ↦ ground (
            arith,
            e,
            first_claimable-other k row owner until named own exp now id claimed q valid there
                before e,
          )
        ]

  -- The row that a claim gets is then leased to the caller.
  claim-leased :
      (owner : String) (ttl now : ℕ) (q : Tasks c.blob) (id : ℕ) (claimed : TaskRow c.blob)
      → (claim owner ttl now q).1 ≡ some (id, claimed)
      → lookup_int id (claim owner ttl now q).0.rows ≡ some (leased owner (now + ttl) claimed)
  unfolding claim
  claim-leased owner ttl now q id claimed got = elim (Option-cases (first_claimable now q.rows)) [
    | inl e ↦ ground (arith, e, got)
    | inr ((j, row), e) ↦
        let entry : TaskRow c.blob = leased owner (now + ttl) row in
        ground (arith, e, got, lookup_int-insert_int j id entry q.rows)
  ]

  -- Mutual exclusion: in a table where no id stands twice and the ids to be drawn are new, a row
  -- that a caller whose id is not blank claims at `now` stands there leased to that caller until
  -- `now + ttl`, whatever is enqueued, whoever claims before `now + ttl`, and whatever other owners
  -- renew, acknowledge or give back; and no claim before `now + ttl`, by anyone, gets that row.
  pub claim_exclusion :
      (owner other : String) (ttl now ttl' later : ℕ) (q : Tasks c.blob) (id : ℕ)
      (claimed : TaskRow c.blob) (calls : List TaskCall)
      → IsValid q
      → owner ≢ ""
      → (claim owner ttl now q).1 ≡ some (id, claimed)
      → All (IsOutside owner (now + ttl)) calls
      → later < now + ttl
      → let q' = task_calls c parse_int calls (claim owner ttl now q).0 in
        (lookup_int id q'.rows ≡ some (leased owner (now + ttl) claimed))
        × (is_row id (claim other ttl' later q').1 ≡ false)
  claim_exclusion owner other ttl now ttl' later q id claimed calls valid named got outside before =
      let entry : TaskRow c.blob = leased owner (now + ttl) claimed in
      let (valid', there) =
        task_calls-held id entry owner (now + ttl) named refl refl calls _
          (claim-IsValid owner ttl now q valid) outside
          (claim-leased owner ttl now q id claimed got) in
      (
        there,
        claim-other id entry owner (now + ttl) named refl refl other ttl' later _ valid' before
            there,
      )
