-- ===== src/Sqlite/Tasks.antt =====
-- sqlite_queue.go: `SQLiteQueue`, on the table `tasks`.
--
-- `INSERT` draws the next number of the table's sequence as the key (`AUTOINCREMENT`). The texts
-- that may be null are never written as null. `time.Now()` is an argument.
pub mod Claims
pub mod Calls
pub mod Polling
pub mod Exclusion
use fluxo.Common.{
  ℕ, zero, suc, ◌+◌, String, Bool, true, false, Option, none, some, List, [], ◌∷◌, leb, ltb, ◌==◌,
  ◌==ₛ◌, is_blank, ◌||◌, ◌&&◌, if◌then◌else◌, lookup_int, insert_int, delete_int, length,
}
use fluxo.Api.{Err, Result, value, error, Context, ctx_err}
use fluxo.Queue.{Task, TaskType, bad_ttl, other_owner}
use fluxo.Sqlite.{Fault, works, fails, uncounted, Codec}

-- The columns beside `id`.
pub record TaskRow (blob : Type 0) : Type 0 where
  pub type : TaskType
  pub workflow_name : String
  pub instance_id : String
  pub signal_name : String
  pub payload : blob
  pub enqueued_at : ℕ
  pub not_before : ℕ
  pub attempts : ℕ
  pub leased_by : String
  pub lease_expires_at : ℕ

-- The table, and the last number of its sequence.
pub record Tasks (blob : Type 0) : Type 0 where
  pub sequence : ℕ
  pub rows : List (ℕ × TaskRow blob)

unfoldable pub new_table : {blob : Type 0} → Tasks blob
new_table = record { sequence = 0; rows = [] }

-- `20 * time.Millisecond`.
abbrev pub poll_interval : ℕ
poll_interval = 20000000

module _ {blob : Type 0} where
  -- `not_before <= ? AND (leased_by = '' OR lease_expires_at <= ?)`.
  abbrev pub is_claimable : ℕ → TaskRow blob → Bool
  is_claimable now row =
      leb row.not_before now && (is_blank row.leased_by || leb row.lease_expires_at now)

  -- `ORDER BY not_before, id`.
  abbrev pub comes_before : ℕ × TaskRow blob → ℕ × TaskRow blob → Bool
  comes_before (i, r) (j, s) =
      ltb r.not_before s.not_before || (r.not_before == s.not_before && ltb i j)

  abbrev pub earlier_of : ℕ × TaskRow blob → Option (ℕ × TaskRow blob) → ℕ × TaskRow blob
  earlier_of e none = e
  earlier_of e (some e') = if comes_before e' e then e' else e

  -- The first claimable row in that order: `LIMIT 1`.
  unfoldable pub first_claimable : ℕ → List (ℕ × TaskRow blob) → Option (ℕ × TaskRow blob)
  first_claimable now [] = none
  first_claimable now ((id, row) ∷ rows) =
      let rest = first_claimable now rows in
      if is_claimable now row then some (earlier_of (id, row) rest) else rest

  abbrev pub leased : String → ℕ → TaskRow blob → TaskRow blob
  leased owner until row = record row { leased_by = owner; lease_expires_at = until }

  -- The `UPDATE ... RETURNING` of `Dequeue`.
  unfoldable pub claim : String → ℕ → ℕ → Tasks blob → Tasks blob × Option (ℕ × TaskRow blob)
  unfolding first_claimable
  claim owner lease_ttl now q = elim (first_claimable now q.rows) [
    | none ↦ (q, none)
    | some (id, row) ↦ (
      record q { rows = insert_int id (leased owner (now + lease_ttl) row) q.rows },
      some (id, row),
    )
  ]

  -- `UPDATE tasks SET ... WHERE id = ? AND leased_by = ?`, and whether a row was affected.
  unfoldable pub update_leased :
      ℕ → String → (TaskRow blob → TaskRow blob) → Tasks blob → Tasks blob × Bool
  update_leased id owner set q = elim (lookup_int id q.rows) [
    | none ↦ (q, false)
    | some row ↦
        if row.leased_by ==ₛ owner
        then (record q { rows = insert_int id (set row) q.rows }, true)
        else (q, false)
  ]

  -- `DELETE FROM tasks WHERE id = ? AND leased_by = ?`.
  unfoldable pub delete_leased : ℕ → String → Tasks blob → Tasks blob
  delete_leased id owner q = elim (lookup_int id q.rows) [
    | none ↦ q
    | some row ↦ if row.leased_by ==ₛ owner then record q { rows = delete_int id q.rows } else q
  ]

  -- `strconv.ParseInt` is Go's library. A number below 0, which is no row's, reads as 0, which is
  -- none's either.
  module _ (parse_int : String → Result ℕ) where
    -- `n, _ := res.RowsAffected()`: where the count fails, it is 0.
    unfoldable pub renew_lease :
        Fault → String → String → ℕ → ℕ → Tasks blob → Tasks blob × Option Err
    unfolding update_leased
    renew_lease fault task_id owner lease_ttl now q = elim (parse_int task_id) [
      | error e ↦ (q, some e)
      | value id ↦
          let set : TaskRow blob → TaskRow blob =
            λ row. record row { lease_expires_at = now + lease_ttl } in
          elim fault [
            | fails e ↦ (q, some e)
            | uncounted e ↦ ((update_leased id owner set q).0, some other_owner)
            | works ↦
                let (q', affected) = update_leased id owner set q in
                (q', if affected then none else some other_owner)
          ]
    ]

    unfoldable pub ack : Fault → String → String → Tasks blob → Tasks blob × Option Err
    unfolding delete_leased
    ack fault task_id owner q = elim (parse_int task_id) [
      | error e ↦ (q, some e)
      | value id ↦ elim fault [ fails e ↦ (q, some e) | _ ↦ (delete_leased id owner q, none) ]
    ]

    unfoldable pub nack : Fault → String → String → ℕ → ℕ → Tasks blob → Tasks blob × Option Err
    unfolding update_leased
    nack fault task_id owner not_before attempts q = elim (parse_int task_id) [
      | error e ↦ (q, some e)
      | value id ↦ elim fault [
        | fails e ↦ (q, some e)
        | _ ↦ (
          (update_leased id owner
              (λ row. record row {
                leased_by = "";
                lease_expires_at = 0;
                not_before = not_before;
                attempts = attempts;
              })
              q).0,
          none,
        )
      ]
    ]

  unfoldable pub len : Option Err → Tasks blob → ℕ
  len (some e) q = 0
  len none q = length q.rows

module _ (c : Codec) where
  abbrev pub not_before_of : ℕ → ℕ → ℕ
  not_before_of now t = if t == 0 then now else t

  abbrev pub to_row : ℕ → Task → c.blob → TaskRow c.blob
  to_row now t payload = record {
    type = t.type;
    workflow_name = t.workflow_name;
    instance_id = t.instance_id;
    signal_name = t.signal_name;
    payload = payload;
    enqueued_at = now;
    not_before = not_before_of now t.not_before;
    attempts = t.attempts;
    leased_by = "";
    lease_expires_at = 0;
  }

  unfoldable pub enqueue : Option Err → ℕ → Task → Tasks c.blob → Tasks c.blob × Option Err
  enqueue fault now t q = elim (c.encode t.payload) [
    | error e ↦ (q, some e)
    | value payload ↦ elim fault [
      | some e ↦ (q, some e)
      | none ↦
          let id = q.sequence + 1 in
          (record { sequence = id; rows = insert_int id (to_row now t payload) q.rows }, none)
    ]
  ]

  -- `fmt.Sprintf("%d", id)` is Go's library.
  module _ (format_int : ℕ → String) where
    -- The payload is decoded after the row has been claimed.
    unfoldable pub of_row : ℕ → TaskRow c.blob → Result Task
    of_row id row = elim (c.decode row.payload) [
      | error e ↦ error e
      | value payload ↦ value (record {
        id = format_int id;
        type = row.type;
        workflow_name = row.workflow_name;
        instance_id = row.instance_id;
        signal_name = row.signal_name;
        payload = payload;
        enqueued_at = row.enqueued_at;
        not_before = row.not_before;
        attempts = row.attempts;
      })
    ]

    -- The loop of `Dequeue` on fuel, with the time at which it returns. `faults` gives the error
    -- of a statement that is issued at a time and fails. `none` means that the fuel ran out: the
    -- call still blocks. A context that ends during a wait is seen at the wait's end.
    unfoldable pub dequeue_loop :
        ℕ
        → (ℕ → Option Err)
        → Context
        → String
        → ℕ
        → ℕ
        → Tasks c.blob
        → Option (Tasks c.blob × Result Task × ℕ)
    unfolding claim of_row
    dequeue_loop zero faults ctx owner lease_ttl now q = none
    dequeue_loop (suc fuel) faults ctx owner lease_ttl now q = elim (ctx_err ctx now) [
      | some e ↦ some (q, error e, now)
      | none ↦ elim (faults now) [
        | some e ↦ some (q, error e, now)
        | none ↦
            let (q', claimed) = claim owner lease_ttl now q in
            elim claimed [
              | some (id, row) ↦ some (q', of_row id row, now)
              | none ↦ dequeue_loop fuel faults ctx owner lease_ttl (now + poll_interval) q'
            ]
      ]
    ]

    unfoldable pub dequeue :
        ℕ
        → (ℕ → Option Err)
        → Context
        → String
        → ℕ
        → ℕ
        → Tasks c.blob
        → Option (Tasks c.blob × Result Task × ℕ)
    unfolding dequeue_loop
    dequeue fuel faults ctx owner lease_ttl now q =
        let polled = dequeue_loop fuel faults ctx owner lease_ttl now q in
        if lease_ttl == 0 then some (q, error bad_ttl, now) else polled
