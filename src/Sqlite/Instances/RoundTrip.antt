-- ===== src/Sqlite/Instances/RoundTrip.antt =====
-- sqlite_store.go: what `SaveInstance` and `UpdateInstance` write, `GetInstance` reads.
use fluxo.Common.{
  ℕ, String, ◌≡◌, inl, inr, none, some, Option, List, arith, lookup, insert, lookup-insert, ◌==ₛ◌,
  eq_iff, Option-cases, Bool-cases, if◌then◌else◌,
}
use fluxo.Api.{Value, Err, value, WorkflowInstance, Result-cases}
use fluxo.Sqlite.{works, Codec, IsFaithful}
use fluxo.Sqlite.Instances.{
  Instances, InstanceRow, err_column, err_of, to_row, of_row, save_instance, update_instance,
  get_instance, update_where, exec_update,
}

-- What is left of an instance in a row: of its error only the text, and no error where that is
-- empty.
abbrev pub stored : (Err → String) → WorkflowInstance → WorkflowInstance
stored error_text inst = record inst { err = err_of (err_column error_text inst.err) }

-- The two methods that write an instance.
pub data Write : Type 0 where
  saves updates : Write

abbrev pub write :
    (c : Codec)
    → (Err → String)
    → Err
    → Write
    → WorkflowInstance
    → Instances c.blob
    → Instances c.blob × Option Err
write c error_text constraint saves inst table =
    save_instance c error_text constraint none inst table
write c error_text constraint updates inst table = update_instance c error_text works inst table

module _ (c : Codec) (error_text : Err → String) (faithful : IsFaithful c) (inst : WorkflowInstance)
    (m : List (ℕ × Value)) (made : inst.step_results ≡ some m) where
  of_row-to_row :
      (row : InstanceRow c.blob)
      → to_row c error_text inst ≡ value row
      → of_row c error_text inst.id row ≡ value (stored error_text inst)
  unfolding to_row of_row
  of_row-to_row row h = elim (Result-cases (c.encode inst.input)) [
    | inr (e, bad) ↦ ground (arith, bad, h)
    | inl (input, e1) ↦ elim (Result-cases (c.encode inst.output)) [
      | inr (e, bad) ↦ ground (arith, e1, bad, h)
      | inl (output, e2) ↦ elim (Result-cases (c.encode_results inst.step_results)) [
        | inr (e, bad) ↦ ground (arith, e1, e2, bad, h)
        | inl (results, e3) ↦
            let d1 = faithful.reads_back inst.input input e1 in
            let d2 = faithful.reads_back inst.output output e2 in
            let d3 = faithful.results_read_back m results (rw made at e3) in
            ground (arith, e1, e2, e3, d1, d2, d3, made, h)
      ]
    ]
  ]

  -- The row of the instance put under its id is what `GetInstance` then reads there, and no other
  -- id is touched.
  get_instance-insert :
      (row : InstanceRow c.blob) (k : String) (table : Instances c.blob)
      → to_row c error_text inst ≡ value row
      → get_instance c error_text none k (insert inst.id row table) ≡ (
          if inst.id ==ₛ k
          then value (stored error_text inst)
          else get_instance c error_text none k table)
  unfolding get_instance
  get_instance-insert row k table encoded = elim (Bool-cases (inst.id ==ₛ k)) [
    | inl same ↦
        let read = of_row-to_row row encoded in
        ground (arith, same, lookup-insert inst.id k row table, read, (eq_iff inst.id k).0 same)
    | inr differ ↦ ground (arith, differ, lookup-insert inst.id k row table)
  ]

  save_instance-get :
      (constraint : Err) (k : String) (table : Instances c.blob)
      → (save_instance c error_text constraint none inst table).1 ≡ none
      → get_instance c error_text none k (save_instance c error_text constraint none inst table).0
        ≡ (if inst.id ==ₛ k
            then value (stored error_text inst)
            else get_instance c error_text none k table)
  unfolding save_instance
  save_instance-get constraint k table saved = elim (Result-cases (to_row c error_text inst)) [
    | inr (e, bad) ↦ ground (arith, bad, saved)
    | inl (row, encoded) ↦ elim (Option-cases (lookup inst.id table)) [
      | inl new ↦ rw (encoded, new, save_instance) (get_instance-insert row k table encoded)
      | inr (old, there) ↦ ground (arith, encoded, there, saved)
    ]
  ]

  update_instance-get :
      (k : String) (table : Instances c.blob)
      → (update_instance c error_text works inst table).1 ≡ none
      → get_instance c error_text none k (update_instance c error_text works inst table).0 ≡ (
          if inst.id ==ₛ k
          then value (stored error_text inst)
          else get_instance c error_text none k table)
  unfolding update_instance exec_update update_where
  update_instance-get k table written = elim (Result-cases (to_row c error_text inst)) [
    | inr (e, bad) ↦ ground (arith, bad, written)
    | inl (row, encoded) ↦ elim (Option-cases (lookup inst.id table)) [
      | inl new ↦ ground (arith, encoded, new, written)
      | inr (old, there) ↦
          rw (encoded, there, update_instance, exec_update, update_where)
            (get_instance-insert row k table encoded)
    ]
  ]

  -- Where gob reads back what it has written, and the instance has its map of step results: once
  -- `SaveInstance` or `UpdateInstance` has succeeded for an instance, `GetInstance` of its id
  -- reads every field of it, the error as its text, and `GetInstance` of another id answers as
  -- before.
  pub get_instance-write :
      (constraint : Err) (call : Write) (k : String) (table : Instances c.blob)
      → (write c error_text constraint call inst table).1 ≡ none
      → get_instance c error_text none k (write c error_text constraint call inst table).0 ≡ (
          if inst.id ==ₛ k
          then value (stored error_text inst)
          else get_instance c error_text none k table)
  get_instance-write constraint saves k table written = save_instance-get constraint k table written
  get_instance-write constraint updates k table written = update_instance-get k table written
