-- ===== src/Engine/Registry.antt =====
-- engine_impl.go: `RegisterWorkflow` and `validateWorkflowFingerprint`.
use fluxo.Common.{Option, none, some, [], ◌∷◌, ◌==◌, ◌==ₛ◌, is_blank, not, if◌then◌else◌, length}
use fluxo.Api.{Err, message, wrap, definition_mismatch, value, error, WorkflowDefinition}
use fluxo.Api.Errors.{is_workflow_not_found}
use fluxo.Api.Fingerprint.{compute_workflow_fingerprint_strict}
use fluxo.Store.{save_workflow, get_workflow}
use fluxo.World.{World, Env}
use fluxo.Engine.{version_or_v1}

module _ (env : Env) where
  abbrev pub with_version : WorkflowDefinition → WorkflowDefinition
  with_version def = record def { version = version_or_v1 def.version }

  abbrev pub with_fingerprint : WorkflowDefinition → WorkflowDefinition
  with_fingerprint def =
      if is_blank def.fingerprint
      then record def { fingerprint = compute_workflow_fingerprint_strict env.toolchain def }
      else def

  -- `SaveWorkflow` with the definition that stands in the registry.
  abbrev pub save : WorkflowDefinition → World → World × Option Err
  save def w = let (s, e) = save_workflow def w.store in (record w { store = s }, e)

  unfoldable pub register_workflow : WorkflowDefinition → World → World × Option Err
  register_workflow def w =
      if is_blank def.name
      then (w, some (message "workflow name is required" []))
      else if length def.steps == 0
      then (w, some (message "workflow must have at least one step" []))
      else (let d = with_fingerprint (with_version def) in
          elim (get_workflow d.name d.version w.store) [
            | value existing ↦
                if not (is_blank existing.name)
                then (if existing.fingerprint ==ₛ d.fingerprint then (w, none) else (
                  w,
                  some (
                      wrap "%w: workflow %s@%s fingerprint differs (existing=%s new=%s)"
                        (d.name ∷ d.version ∷ existing.fingerprint ∷ d.fingerprint ∷ [])
                        definition_mismatch),
                ))
                else save d w
            | error e ↦ if is_workflow_not_found e then save d w else (w, some e)
          ])

  unfoldable pub validate_workflow_fingerprint : WorkflowDefinition → Option Err
  validate_workflow_fingerprint def =
      if is_blank def.fingerprint
      then none
      else if compute_workflow_fingerprint_strict env.toolchain def ==ₛ def.fingerprint
      then none
      else some definition_mismatch
