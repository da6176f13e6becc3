-- ===== src/Sqlite/Instances/StaleWrites.antt =====
-- sqlite_store.go under engine_impl.go: `GetInstance` gives the caller a copy of the row, which it
-- writes back after it has acquired the lease.
use fluxo.Common.{
  ℕ, ◌≡◌, ◌∙◌, ap, sym, inl, inr, true, false, none, some, Option, String, arith, lookup,
  lookup-insert_self, Option-cases, eq_iff,
}
use fluxo.Api.{Err, instance_locked, value, error, Result-cases, WorkflowInstance}
use fluxo.Engine.{restarted}
use fluxo.Sqlite.{works, Codec}
use fluxo.Sqlite.Instances.{
  Instances, InstanceRow, get_instance, try_acquire_lease, update_instance, update_where,
  exec_update, to_row, of_row,
}

module _ (c : Codec) (error_text : Err → String) where
  -- The calls of the store with which `resumeInline` readies an instance that may be resumed:
  -- `GetInstance`, `TryAcquireLease`, and `UpdateInstance` of what was read, with the fields of a
  -- fresh run.
  unfoldable pub ready_to_replay :
      String → ℕ → ℕ → String → Instances c.blob → Instances c.blob × Option Err
  ready_to_replay engine_id lease_ttl now id table =
      elim (get_instance c error_text none id table) [
        | error e ↦ (table, some e)
        | value inst ↦
            let (table1, r) = try_acquire_lease works id engine_id lease_ttl now table in
            elim r [
              | error e ↦ (table1, some e)
              | value false ↦ (table1, some instance_locked)
              | value true ↦ update_instance c error_text works (restarted inst) table1
            ]
      ]

  -- What is read and written back keeps the lease columns, and the id.
  of_row-lease :
      (id : String) (row : InstanceRow c.blob) (inst : WorkflowInstance)
      → of_row c error_text id row ≡ value inst
      → (inst.id ≡ id) × (inst.lease_owner ≡ row.lease_owner)
  unfolding of_row
  of_row-lease id row inst read = elim (Result-cases (c.decode row.input)) [
    | inr (e, bad) ↦ ground (arith, bad, read)
    | inl (input, e1) ↦ elim (Result-cases (c.decode row.output)) [
      | inr (e, bad) ↦ ground (arith, e1, bad, read)
      | inl (output, e2) ↦ elim (Result-cases (c.decode_results row.step_results)) [
        | inr (e, bad) ↦ ground (arith, e1, e2, bad, read)
        | inl (results, e3) ↦ ground (arith, e1, e2, e3, read)
      ]
    ]
  ]

  to_row-lease :
      (inst : WorkflowInstance) (row : InstanceRow c.blob)
      → to_row c error_text inst ≡ value row
      → row.lease_owner ≡ inst.lease_owner
  unfolding to_row
  to_row-lease inst row written = elim (Result-cases (c.encode inst.input)) [
    | inr (e, bad) ↦ ground (arith, bad, written)
    | inl (input, e1) ↦ elim (Result-cases (c.encode inst.output)) [
      | inr (e, bad) ↦ ground (arith, e1, bad, written)
      | inl (output, e2) ↦ elim (Result-cases (c.encode_results inst.step_results)) [
        | inr (e, bad) ↦ ground (arith, e1, e2, bad, written)
        | inl (results, e3) ↦ ground (arith, e1, e2, e3, written)
      ]
    ]
  ]

  -- An instance that is written leaves its own lease owner in the table.
  update_instance-lease :
      (inst : WorkflowInstance) (table : Instances c.blob)
      → (update_instance c error_text works inst table).1 ≡ none
      → (row : InstanceRow c.blob) × (lookup inst.id
            (update_instance c error_text works inst table).0
          ≡ some row)
        × (row.lease_owner ≡ inst.lease_owner)
  unfolding update_instance exec_update update_where
  update_instance-lease inst table written = elim (Result-cases (to_row c error_text inst)) [
    | inr (e, bad) ↦ ground (arith, bad, written)
    | inl (row, encoded) ↦ elim (Option-cases (lookup inst.id table)) [
      | inl missing ↦ ground (arith, encoded, missing, written)
      | inr (old, there) ↦ (
        row,
        ground (arith, encoded, there, lookup-insert_self inst.id row table),
        to_row-lease inst row encoded,
      )
    ]
  ]

  -- A row without an owner is anybody's.
  try_acquire_lease-blank :
      (id owner : String) (ttl now : ℕ) (table : Instances c.blob) (row : InstanceRow c.blob)
      → lookup id table ≡ some row
      → row.lease_owner ≡ ""
      → (try_acquire_lease works id owner ttl now table).1 ≡ value true
  unfolding try_acquire_lease exec_update update_where
  try_acquire_lease-blank id owner ttl now table row there blank =
      rw (there, try_acquire_lease, exec_update, update_where)
        (ground (arith, (eq_iff row.lease_owner "").1 blank))

  -- What was read before the lease was acquired carries no lease, and takes it away again: where an
  -- engine readies an unleased instance for a run in SQLite without an error, every other engine is
  -- granted the lease of the instance at once, at any time.
  pub ready_to_replay-unleased :
      (engine_id other id : String) (ttl ttl' now later : ℕ) (table : Instances c.blob)
      (row : InstanceRow c.blob)
      → lookup id table ≡ some row
      → row.lease_owner ≡ ""
      → (ready_to_replay engine_id ttl now id table).1 ≡ none
      → (try_acquire_lease works id other ttl' later
          (ready_to_replay engine_id ttl now id table).0).1
        ≡ value true
  unfolding ready_to_replay get_instance
  ready_to_replay-unleased engine_id other id ttl ttl' now later table row there blank ended =
      elim (Result-cases (of_row c error_text id row)) [
        | inr (e, bad) ↦ ground (arith, there, bad, ended)
        | inl (inst, read) ↦
            let taken = try_acquire_lease-blank id engine_id ttl now table row there blank in
            let (same, owner) = of_row-lease id row inst read in
            let table1 : Instances c.blob =
              (try_acquire_lease works id engine_id ttl now table).0 in
            let readied : ready_to_replay engine_id ttl now id table
                ≡ update_instance c error_text works (restarted inst) table1 =
              ground (arith, there, read, taken) in
            let ended' : (update_instance c error_text works (restarted inst) table1).1 ≡ none =
              rw readied at ended in
            let (row', there', owner') = update_instance-lease (restarted inst) table1 ended' in
            let table2 : Instances c.blob =
              (update_instance c error_text works (restarted inst) table1).0 in
            let free =
              try_acquire_lease-blank inst.id other ttl' later table2 row' there'
                (owner' ∙ owner ∙ blank) in
            rw readied
              (ap (λ k. (try_acquire_lease works k other ttl' later table2).1) (sym same) ∙ free)
      ]
