-- ===== src/Engine/Resumes.antt =====
-- engine_impl.go: `Resume`, `ResumeNow`, `Signal` and `SignalNow`.
use fluxo.Common.{ℕ, String, none, some, [], ◌∷◌, not, if◌then◌else◌}
use fluxo.Api.{
  Status, running, failed, waiting, status_eq, Value, null, signal_payload, Err, message,
  definition_mismatch, value, error, Context, WorkflowInstance, workflow_enqueued, workflow_resumed,
  signal_received,
}
use fluxo.Store.{get_workflow, get_instance}
use fluxo.Queue.{InMemoryQueue, Task, signal, resume}
use fluxo.World.{World, EngineConfig, Env, deref, assign, emit_event, acquire_instance_lease}
use fluxo.Execute.{failure}
use fluxo.Engine.{
  Reply, version_or_v1, status_text, execute, exit_of, enqueue_task, updated, replay, describe,
  is_mismatch, releasing,
}

abbrev pub cannot_resume : String → Status → Err
cannot_resume id st = message "cannot resume instance %s in status %s" (id ∷ status_text st ∷ [])

abbrev pub cannot_signal : String → Status → Err
cannot_signal id st = message "cannot signal instance %s in status %s" (id ∷ status_text st ∷ [])

module _ (env : Env) (eng : EngineConfig) where
  -- `resumeInline` from the lookup of the definition on.
  unfoldable pub resume_leased : Context → ℕ → World → Reply
  unfolding replay
  resume_leased ctx r w =
      elim (get_workflow (deref r w).name (version_or_v1 (deref r w).version) w.store) [
        | error e ↦ (w, none, failure e)
        | value def ↦
            if is_mismatch (deref r w) def
            then (w, none, failure definition_mismatch)
            else replay env eng ctx def r workflow_resumed w
      ]

  unfoldable pub resume_inline : Context → String → World → Reply
  unfolding resume_leased
  resume_inline ctx id w = elim (get_instance id w.store) [
    | error e ↦ (w, none, failure (describe id e))
    | value r ↦
        if not (status_eq (deref r w).status failed)
        then (w, none, failure (cannot_resume id (deref r w).status))
        else (let (w1, e) = acquire_instance_lease eng id w in
            elim e [
              | some e' ↦ (w1, none, failure e')
              | none ↦ releasing env eng id (resume_leased ctx r w1)
            ])
  ]

  abbrev pub signalled : String → Value → WorkflowInstance → WorkflowInstance
  signalled name payload inst = record inst {
    status = running;
    err = none;
    input = signal_payload name payload;
    output = null;
  }

  -- `signalInline` from the lookup of the definition on: the run goes on AT the waiting step.
  unfoldable pub signal_leased : Context → ℕ → String → Value → World → Reply
  signal_leased ctx r name payload w =
      elim (get_workflow (deref r w).name (version_or_v1 (deref r w).version) w.store) [
        | error e ↦ (w, none, failure e)
        | value def ↦
            if is_mismatch (deref r w) def
            then (w, none, failure definition_mismatch)
            else (let (w1, e) = updated r (assign r (signalled name payload) w) in
                elim e [
                  | some e' ↦ (w1, some r, failure e')
                  | none ↦
                      let w2 =
                        emit_event eng r workflow_resumed (some (deref r w1).current_step) "signal"
                          w1 in
                      execute env eng ctx def r (deref r w2).current_step
                        (signal_payload name payload) w2
                ])
      ]

  unfoldable pub signal_inline : Context → String → String → Value → World → Reply
  unfolding signal_leased
  signal_inline ctx id name payload w = elim (get_instance id w.store) [
    | error e ↦ (w, none, failure (describe id e))
    | value r ↦
        if not (status_eq (deref r w).status waiting)
        then (w, none, failure (cannot_signal id (deref r w).status))
        else (let (w1, e) = acquire_instance_lease eng id w in
            elim e [
              | some e' ↦ (w1, none, failure e')
              | none ↦ releasing env eng id (signal_leased ctx r name payload w1)
            ])
  ]

  unfoldable pub signal_now : Context → String → String → Value → World → Reply
  unfolding signal_inline
  signal_now = signal_inline

  unfoldable pub resume_now : Context → String → World → Reply
  unfolding resume_inline
  resume_now = resume_inline

  abbrev resume_task : String → World → Task
  resume_task id w = record {
    id = "";
    type = resume;
    workflow_name = "";
    instance_id = id;
    signal_name = "";
    payload = null;
    enqueued_at = w.clock;
    not_before = 0;
    attempts = 0;
  }

  unfoldable pub resume_workflow : Context → String → World → Reply
  unfolding resume_inline enqueue_task
  resume_workflow ctx id w = elim w.queue [
    | none ↦ resume_inline ctx id w
    | some q ↦ elim (get_instance id w.store) [
      | error e ↦ (w, none, failure e)
      | value r ↦
          if not (status_eq (deref r w).status failed)
          then (w, none, failure (cannot_resume id (deref r w).status))
          else (let w1 = emit_event eng r workflow_enqueued none "resume" w in
              let (w2, e) = enqueue_task env eng ctx (resume_task id w1) q w1 in
              (w2, some r, exit_of e))
    ]
  ]

  abbrev signal_task : String → String → Value → World → Task
  signal_task id name payload w = record {
    id = "";
    type = signal;
    workflow_name = "";
    instance_id = id;
    signal_name = name;
    payload = payload;
    enqueued_at = w.clock;
    not_before = 0;
    attempts = 0;
  }

  -- The queued `Signal`, for a waiting instance.
  unfoldable pub enqueue_signal :
      Context → ℕ → String → String → Value → InMemoryQueue → World → Reply
  unfolding enqueue_task
  enqueue_signal ctx r id name payload q w =
      let (w1, e) =
        updated r
          (assign r (λ inst. record inst { err = none; input = signal_payload name payload }) w) in
      elim e [
        | some e' ↦ (w1, some r, failure e')
        | none ↦
            let w2 = emit_event eng r signal_received (some (deref r w1).current_step) name w1 in
            let w3 = emit_event eng r workflow_enqueued none "signal" w2 in
            let (w4, e') = enqueue_task env eng ctx (signal_task id name payload w3) q w3 in
            (w4, some r, exit_of e')
      ]

  unfoldable pub signal_workflow : Context → String → String → Value → World → Reply
  unfolding signal_inline enqueue_signal
  signal_workflow ctx id name payload w = elim w.queue [
    | none ↦ signal_inline ctx id name payload w
    | some q ↦ elim (get_instance id w.store) [
      | error e ↦ (w, none, failure e)
      | value r ↦
          if not (status_eq (deref r w).status waiting)
          then (w, none, failure (cannot_signal id (deref r w).status))
          else enqueue_signal ctx r id name payload q w
    ]
  ]
