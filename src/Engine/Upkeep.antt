-- ===== src/Engine/Upkeep.antt =====
-- engine_impl.go: `GetInstance`, the lists, and `RecoverStuckInstances`.
use fluxo.Common.{ℕ, ◌+◌, String, Option, none, some, List, [], ◌∷◌, not, if◌then◌else◌}
use fluxo.Api.{
  Status, running, failed, status_eq, Err, message, definition_mismatch, value, error,
  WorkflowEvent,
}
use fluxo.Api.Errors.{is_workflow_not_found}
use fluxo.Store.{get_workflow, update_instance, get_instance, list_instances, list_events}
use fluxo.World.{World, EngineConfig, Env, deref, assign, release_instance_lease}
use fluxo.Execute.{success, failure}
use fluxo.Engine.{Reply, version_or_v1, describe, is_mismatch}

module _ (env : Env) (eng : EngineConfig) where
  -- The method `GetInstance` of the engine.
  unfoldable pub inspect_instance : String → World → Reply
  inspect_instance id w = elim (get_instance id w.store) [
    | error e ↦ (w, none, failure (describe id e))
    | value r ↦ elim (get_workflow (deref r w).name (version_or_v1 (deref r w).version) w.store) [
      | error e ↦
          if is_workflow_not_found e
          then (release_instance_lease eng (deref r w).id w, some r, success)
          else (w, none, failure e)
      | value def ↦
          if is_mismatch (deref r w) def
          then (w, none, failure definition_mismatch)
          else (release_instance_lease eng (deref r w).id w, some r, success)
    ]
  ]

  unfoldable pub list_workflow_instances : String → Option Status → World → List ℕ
  unfolding list_instances
  list_workflow_instances name st w =
      list_instances (record { workflow_name = name; status = st }) w.store

  unfoldable pub list_workflow_events : String → World → List WorkflowEvent
  unfolding list_events
  list_workflow_events id w = if eng.has_events then list_events id w.store else []

abbrev pub stuck_err : Err
stuck_err = message "workflow engine recovered stuck running instance after crash" []

-- The loop of `RecoverStuckInstances`, with the count so far.
unfoldable pub recover_loop : List ℕ → ℕ → World → World × ℕ × Option Err
recover_loop [] count w = (w, count, none)
recover_loop (r ∷ rs) count w =
    let w1 = assign r (λ inst. record inst { status = failed; err = some stuck_err }) w in
    let (s, e) = update_instance r w1.store in
    let w2 = record w1 { store = s } in
    let skip = recover_loop rs count w in
    let next = recover_loop rs (count + 1) w2 in
    if not (status_eq (deref r w).status running)
    then skip
    else elim e [ some e' ↦ (w2, count, some e') | none ↦ next ]

unfoldable pub recover_stuck_instances : World → World × ℕ × Option Err
unfolding recover_loop list_instances
recover_stuck_instances w =
    recover_loop (list_instances (record { workflow_name = ""; status = some running }) w.store) 0 w
