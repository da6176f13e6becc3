-- ===== src/Engine/Starts.antt =====
-- engine_impl.go: `Run`, `RunVersion`, `Start`, `StartVersion` and `RunInstance`.
use fluxo.Common.{ℕ, String, Option, none, some, [], ◌∷◌, ltb, if◌then◌else◌, length}
use fluxo.Api.{
  Status, pending, running, failed, Value, null, start_workflow_payload, Err, message, value, error,
  Context, WorkflowDefinition, WorkflowInstance, workflow_enqueued, workflow_started,
  workflow_failed,
}
use fluxo.Api.Errors.{is_workflow_not_found}
use fluxo.Store.{
  allocate, get_workflow, get_latest_workflow, list_workflow_versions, save_instance, get_instance,
}
use fluxo.Queue.{InMemoryQueue, Task, start_workflow}
use fluxo.World.{
  World, EngineConfig, Env, on_workflow_start, on_workflow_failed, deref, assign, update, notify,
  emit_event, acquire_instance_lease, next_instance_id,
}
use fluxo.Execute.{failure}
use fluxo.Engine.{Reply, execute, exit_of, enqueue_task, replay}
use fluxo.Engine.Registry.{validate_workflow_fingerprint}

abbrev pub new_instance : String → WorkflowDefinition → Status → Value → WorkflowInstance
new_instance id def st input = record {
  id = id;
  name = def.name;
  version = def.version;
  fingerprint = def.fingerprint;
  lease_owner = "";
  lease_expires_at = 0;
  status = st;
  output = null;
  err = none;
  input = input;
  current_step = 0;
  step_results = some [];
}

module _ (env : Env) (eng : EngineConfig) where
  -- A new instance, announced to the observer and saved.
  unfoldable pub create : WorkflowDefinition → Status → Value → World → World × ℕ × Option Err
  unfolding next_instance_id allocate save_instance
  create def st input w =
      let (w1, id) = next_instance_id env w in
      let (s, r) = allocate (new_instance id def st input) w1.store in
      let w2 = notify (on_workflow_start id) (record w1 { store = s }) in
      let (s', saved) = save_instance r w2.store in
      let w3 = record w2 { store = s' } in
      elim saved [
        | none ↦ (w3, r, none)
        | some e ↦
            let w4 = assign r (λ inst. record inst { status = failed; err = some e }) w3 in
            (notify (on_workflow_failed id e) w4, r, some e)
      ]

  -- "Distinguish "unknown workflow" from "ambiguous workflow (multiple versions)"."
  abbrev pub lookup_failure : String → Err → World → Err
  lookup_failure name e w =
      if is_workflow_not_found e
      then elim (list_workflow_versions name w.store) [
        | value versions ↦
            if ltb 1 (length versions)
            then message "workflow %s has multiple registered versions %v; use RunVersion"
                (name ∷ versions)
            else message "unknown workflow: %s" (name ∷ [])
        | error _ ↦ message "unknown workflow: %s" (name ∷ [])
      ]
      else e

  unfoldable pub run : Context → String → Value → World → Reply
  unfolding create
  run ctx name input w = elim (get_latest_workflow name w.store) [
    | error e ↦ (w, none, failure (lookup_failure name e w))
    | value def ↦
        let (w1, r, saved) = create def running input w in
        elim saved [
          | some e ↦ (w1, some r, failure e)
          | none ↦ execute env eng ctx def r 0 input (emit_event eng r workflow_started none "" w1)
        ]
  ]

  unfoldable pub run_version : Context → String → String → Value → World → Reply
  unfolding create
  run_version ctx name version input w = elim (get_workflow name version w.store) [
    | error e ↦ (w, none, failure e)
    | value def ↦
        let (w1, r, saved) = create def running input w in
        elim saved [
          | some e ↦ (w1, some r, failure e)
          | none ↦ execute env eng ctx def r 0 (deref r w1).input w1
        ]
  ]

  abbrev start_task : ℕ → Value → World → Task
  start_task r input w = record {
    id = "";
    type = start_workflow;
    workflow_name = (deref r w).name;
    instance_id = (deref r w).id;
    signal_name = "";
    payload = start_workflow_payload input;
    enqueued_at = w.clock;
    not_before = 0;
    attempts = 0;
  }

  -- What `Start` and `StartVersion` do with the definition.
  unfoldable pub schedule : Context → WorkflowDefinition → Value → InMemoryQueue → World → Reply
  unfolding create enqueue_task
  schedule ctx def input q w =
      let (w1, r, saved) = create def pending input w in
      elim saved [
        | some e ↦ (w1, some r, failure e)
        | none ↦
            let w2 = emit_event eng r workflow_enqueued none "start" w1 in
            let (w3, e) = enqueue_task env eng ctx (start_task r input w2) q w2 in
            (w3, some r, exit_of e)
      ]

  unfoldable pub start : Context → String → Value → World → Reply
  unfolding run schedule
  start ctx name input w = elim w.queue [
    | none ↦ run ctx name input w
    | some q ↦ elim (get_latest_workflow name w.store) [
      | error e ↦ (w, none, failure e)
      | value def ↦ schedule ctx def input q w
    ]
  ]

  unfoldable pub start_version : Context → String → String → Value → World → Reply
  unfolding run_version schedule
  start_version ctx name version input w = elim w.queue [
    | none ↦ run_version ctx name version input w
    | some q ↦ elim (get_workflow name version w.store) [
      | error e ↦ (w, none, failure e)
      | value def ↦ schedule ctx def input q w
    ]
  ]

  -- The instance of a definition that has changed is failed on the spot.
  unfoldable pub reject_instance : ℕ → Err → World → Reply
  reject_instance r e w =
      let w1 = update r (assign r (λ inst. record inst { status = failed; err = some e }) w) in
      (emit_event eng r workflow_failed none (env.error_text e) w1, some r, failure e)

  unfoldable pub run_instance : Context → String → World → Reply
  unfolding reject_instance replay
  run_instance ctx id w = elim (get_instance id w.store) [
    | error e ↦ (w, none, failure e)
    | value r ↦ elim (get_workflow (deref r w).name (deref r w).version w.store) [
      | error e ↦ (w, some r, failure e)
      | value def ↦ elim (validate_workflow_fingerprint env def) [
        | some e ↦ reject_instance r e w
        | none ↦
            let (w1, e) = acquire_instance_lease eng (deref r w).id w in
            elim e [
              | some e' ↦ (w1, some r, failure e')
              | none ↦ replay env eng ctx def r workflow_started w1
            ]
      ]
    ]
  ]
