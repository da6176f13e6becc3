-- ===== src/Sqlite/Instances.antt =====
-- sqlite_store.go: `SQLiteInstanceStore`, on the table `instances`.
--
-- The zero time, whose UnixNano is below zero, stands in a row as 0: every test of the column reads
-- the two alike. `NOT NULL` columns are never null, and `error` is never written as null.
pub mod RoundTrip
pub mod Leases
pub mod StaleWrites
use fluxo.Common.{
  ℕ, ◌+◌, String, Bool, true, false, Option, none, some, List, [], ◌∷◌, leb, ◌==ₛ◌, is_blank, ◌||◌,
  ◌&&◌, if◌then◌else◌, lookup, insert,
}
use fluxo.Api.{
  Status, status_eq, Value, Err, instance_not_found, instance_locked, message, Result, value, error,
  WorkflowInstance,
}
use fluxo.Store.{InstanceFilter}
use fluxo.Sqlite.{Fault, works, fails, uncounted, Codec}

-- The columns beside `id`.
pub record InstanceRow (blob : Type 0) : Type 0 where
  pub workflow_name : String
  pub workflow_version : String
  pub workflow_fingerprint : String
  pub status : Status
  pub current_step : ℕ
  pub input : blob
  pub output : blob
  pub step_results : blob
  pub err : String
  pub lease_owner : String
  pub lease_expires_at : ℕ

abbrev pub Instances : Type 0 → Type 0
Instances blob = List (String × InstanceRow blob)

-- The `errStr` of an instance.
abbrev pub err_column : (Err → String) → Option Err → String
err_column error_text none = ""
err_column error_text (some e) = error_text e

-- `errors.New` of a column that is not empty.
abbrev pub err_of : String → Option Err
err_of s = if is_blank s then none else some (message s [])

-- An error, or `e` where the statement affected no row.
abbrev pub refused_if_none : Err → Result Bool → Option Err
refused_if_none e (error e') = some e'
refused_if_none e (value true) = none
refused_if_none e (value false) = some e

-- The error of the statement, where the count of its rows is thrown away with its error.
abbrev pub error_of_exec : Fault → Option Err
error_of_exec (fails e) = some e
error_of_exec _ = none

module _ {blob : Type 0} where
  -- `UPDATE instances SET ... WHERE id = ? AND ...`, with the test whether a row was affected.
  unfoldable pub update_where :
      String
      → (InstanceRow blob → Bool)
      → (InstanceRow blob → InstanceRow blob)
      → Instances blob
      → Instances blob × Bool
  update_where id test set table = elim (lookup id table) [
    | none ↦ (table, false)
    | some row ↦ if test row then (insert id (set row) table, true) else (table, false)
  ]

  -- The outcome of such a statement: the table, and whether a row was affected or an error.
  unfoldable pub exec_update :
      Fault
      → String
      → (InstanceRow blob → Bool)
      → (InstanceRow blob → InstanceRow blob)
      → Instances blob
      → Instances blob × Result Bool
  unfolding update_where
  exec_update (fails e) id test set table = (table, error e)
  exec_update (uncounted e) id test set table = ((update_where id test set table).0, error e)
  exec_update works id test set table =
      let (table', affected) = update_where id test set table in (table', value affected)

  unfoldable pub try_acquire_lease :
      Fault → String → String → ℕ → ℕ → Instances blob → Instances blob × Result Bool
  unfolding exec_update
  try_acquire_lease fault id owner ttl now table =
      exec_update fault id
        (λ row.
          is_blank row.lease_owner || leb row.lease_expires_at now || row.lease_owner ==ₛ owner)
        (λ row. record row { lease_owner = owner; lease_expires_at = now + ttl }) table

  unfoldable pub renew_lease :
      Fault → String → String → ℕ → ℕ → Instances blob → Instances blob × Option Err
  unfolding exec_update
  renew_lease fault id owner ttl now table =
      let (table', r) =
        exec_update fault id (λ row. row.lease_owner ==ₛ owner)
          (λ row. record row { lease_expires_at = now + ttl }) table in
      (table', refused_if_none instance_locked r)

  unfoldable pub release_lease :
      Fault → String → String → Instances blob → Instances blob × Option Err
  unfolding exec_update
  release_lease fault id owner table = (
    (exec_update fault id (λ row. is_blank row.lease_owner || row.lease_owner ==ₛ owner)
        (λ row. record row { lease_owner = ""; lease_expires_at = 0 }) table).0,
    error_of_exec fault,
  )

module _ (c : Codec) (error_text : Err → String) where
  abbrev Row : Type 0
  Row = InstanceRow c.blob

  -- The three encodings and `errStr`, in their order.
  unfoldable pub to_row : WorkflowInstance → Result Row
  to_row inst = elim (c.encode inst.input) [
    | error e ↦ error e
    | value input ↦ elim (c.encode inst.output) [
      | error e ↦ error e
      | value output ↦ elim (c.encode_results inst.step_results) [
        | error e ↦ error e
        | value step_results ↦ value (record {
          workflow_name = inst.name;
          workflow_version = inst.version;
          workflow_fingerprint = inst.fingerprint;
          status = inst.status;
          current_step = inst.current_step;
          input = input;
          output = output;
          step_results = step_results;
          err = err_column error_text inst.err;
          lease_owner = inst.lease_owner;
          lease_expires_at = inst.lease_expires_at;
        })
      ]
    ]
  ]

  -- `rows.Scan` and the three decodings, in their order.
  unfoldable pub of_row : String → Row → Result WorkflowInstance
  of_row id row = elim (c.decode row.input) [
    | error e ↦ error e
    | value input ↦ elim (c.decode row.output) [
      | error e ↦ error e
      | value output ↦ elim (c.decode_results row.step_results) [
        | error e ↦ error e
        | value step_results ↦ value (record {
          id = id;
          name = row.workflow_name;
          version = row.workflow_version;
          fingerprint = row.workflow_fingerprint;
          lease_owner = row.lease_owner;
          lease_expires_at = row.lease_expires_at;
          status = row.status;
          output = output;
          err = err_of row.err;
          input = input;
          current_step = row.current_step;
          step_results = step_results;
        })
      ]
    ]
  ]

  -- `constraint` is the driver's error for a primary key that is there already.
  unfoldable pub save_instance :
      Err → Option Err → WorkflowInstance → Instances c.blob → Instances c.blob × Option Err
  unfolding to_row
  save_instance constraint fault inst table = elim (to_row inst) [
    | error e ↦ (table, some e)
    | value row ↦ elim fault [
      | some e ↦ (table, some e)
      | none ↦ elim (lookup inst.id table) [
        | some _ ↦ (table, some constraint)
        | none ↦ (insert inst.id row table, none)
      ]
    ]
  ]

  unfoldable pub update_instance :
      Fault → WorkflowInstance → Instances c.blob → Instances c.blob × Option Err
  unfolding to_row exec_update
  update_instance fault inst table = elim (to_row inst) [
    | error e ↦ (table, some e)
    | value row ↦
        let (table', r) = exec_update fault inst.id (λ _. true) (λ _. row) table in
        (table', refused_if_none instance_not_found r)
  ]

  unfoldable pub get_instance : Option Err → String → Instances c.blob → Result WorkflowInstance
  unfolding of_row
  get_instance fault id table = elim fault [
    | some e ↦ error e
    | none ↦ elim (lookup id table) [ none ↦ error instance_not_found | some row ↦ of_row id row ]
  ]

  -- The `WHERE` of `ListInstances`: the clauses whose filter is set.
  abbrev pub matches : InstanceFilter → Row → Bool
  matches filter row =
      (is_blank filter.workflow_name || row.workflow_name ==ₛ filter.workflow_name)
      && elim filter.status [ none ↦ true | some st ↦ status_eq row.status st ]

  -- The loop over the rows, which the first row that does not decode ends.
  unfoldable pub scan_rows : InstanceFilter → Instances c.blob → Result (List WorkflowInstance)
  unfolding of_row
  scan_rows filter [] = value []
  scan_rows filter ((id, row) ∷ table) =
      let rest = scan_rows filter table in
      if matches filter row
      then elim (of_row id row) [
        | error e ↦ error e
        | value inst ↦ elim rest [ error e ↦ error e | value insts ↦ value (inst ∷ insts) ]
      ]
      else rest

  unfoldable pub list_instances :
      Option Err → InstanceFilter → Instances c.blob → Result (List WorkflowInstance)
  unfolding scan_rows
  list_instances (some e) filter table = error e
  list_instances none filter table = scan_rows filter table
