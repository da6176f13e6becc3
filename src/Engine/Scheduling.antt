-- ===== src/Engine/Scheduling.antt =====
-- engine_impl.go: `Start` with a queue, and `RunInstance`, which a worker calls for the task.
use fluxo.Common.{
  ℕ, ◌+◌, String, ◌≡◌, refl, inl, inr, true, none, some, [], ◌∷◌, ◌++◌, arith, lookup,
  lookup-insert_self, length, ==-self, Option-cases,
}
use fluxo.Api.{
  pending, Value, EventType, start_workflow_payload, value, Context, ctx_err, WorkflowDefinition,
  workflow_started,
}
use fluxo.Store.{
  get_instance, get_workflow, is_free_for, allocate, save_instance, modify, append_event,
  try_acquire_lease, update_instance,
}
use fluxo.Queue.{InMemoryQueue, Task, start_workflow, enqueue}
use fluxo.World.{
  World, EngineConfig, Env, deref, assign, notify, emit_event, acquire_instance_lease,
  next_instance_id,
}
use fluxo.Execute.{success}
use fluxo.Execute.Exits.{Ended, execute_steps-Ended}
use fluxo.Engine.{enqueue_task, replay, restarted}
use fluxo.Engine.Registry.{validate_workflow_fingerprint}
use fluxo.Engine.Starts.{new_instance, create, schedule, run_instance}

module _ (env : Env) (eng : EngineConfig) where
  -- The id that the next instance gets, and its reference.
  abbrev pub next_name : World → String
  next_name w = env.format_id (w.next_id + 1)

  -- The task for a new instance, as the queue keeps it.
  abbrev pub scheduled_task : WorkflowDefinition → Value → InMemoryQueue → World → Task
  scheduled_task def input q w = record {
    id = env.format_int (q.next_id + 1);
    type = start_workflow;
    workflow_name = def.name;
    instance_id = next_name w;
    signal_name = "";
    payload = start_workflow_payload input;
    enqueued_at = w.clock;
    not_before = 0;
    attempts = 0;
  }

  -- The world after a new instance has been saved and its task enqueued.
  pub record Scheduled (def : WorkflowDefinition) (input : Value) (q : InMemoryQueue) (w w' : World)
      : Type 0 where
    pub found : get_instance (next_name w) w'.store ≡ value w.store.next_ref
    pub made : deref w.store.next_ref w' ≡ new_instance (next_name w) def pending input
    pub queued :
        w'.queue
        ≡ some (record q {
          next_id = q.next_id + 1;
          ready = q.ready ++ scheduled_task def input q w ∷ [];
        })
    pub registered : w'.store.workflows ≡ w.store.workflows
    pub at_once : w'.clock ≡ w.clock

  pub schedule-Scheduled :
      (ctx : Context) (def : WorkflowDefinition) (input : Value) (q : InMemoryQueue) (w : World)
      → ctx_err ctx w.clock ≡ none
      → let (w', r, x) = schedule env eng ctx def input q w in
        Scheduled def input q w w' × (r ≡ some w.store.next_ref) × (x ≡ success)
  unfolding schedule create next_instance_id allocate modify save_instance notify emit_event
      append_event enqueue_task enqueue get_instance
  schedule-Scheduled ctx def input q w live =
      let self = ==-self w.store.next_ref in
      let there = lookup-insert_self (next_name w) w.store.next_ref w.store.instances in
      (
        record {
          found = ground (arith, self, there, live);
          made = ground (arith, self, live);
          queued = ground (arith, self, live);
          registered = ground (arith, self, live);
          at_once = ground (arith, self, live);
        },
        refl,
        ground (arith, self, live),
      )

  -- The lease of an instance that is free for the engine is acquired, and the instance stays known.
  acquire_instance_lease-free :
      (id : String) (r : ℕ) (w : World)
      → get_instance id w.store ≡ value r
      → (deref r w).id ≡ id
      → is_free_for (deref r w) eng.engine_id w.clock ≡ true
      → let (w', e) = acquire_instance_lease eng id w in
        (e ≡ none) × (lookup (deref r w').id w'.store.instances ≡ some r)
  unfolding acquire_instance_lease try_acquire_lease modify get_instance
  acquire_instance_lease-free id r w found named free =
      elim (Option-cases (lookup id w.store.instances)) [
        | inl missing ↦ ground (arith, missing, found)
        | inr (q, there) ↦
            let same : q ≡ r = ground (arith, there, found) in
            ground (arith, there, found, same, named, free)
      ]

  -- An instance that the store knows is updated without an error.
  updated-known :
      (r : ℕ) (w : World)
      → lookup (deref r w).id w.store.instances ≡ some r
      → (update_instance r (assign r restarted w).store).1 ≡ none
  unfolding assign modify update_instance
  updated-known r w there = ground (arith, there, ==-self r)

  replay-Ended :
      (ctx : Context) (def : WorkflowDefinition) (r : ℕ) (typ : EventType) (w : World)
      → lookup (deref r w).id w.store.instances ≡ some r
      → let (w', inst, x) = replay env eng ctx def r typ w in
        (inst ≡ some r) × Ended (length def.steps) (deref r w') x
  unfolding replay
  replay-Ended ctx def r typ w there =
      rw (updated-known r w there, replay) (refl, execute_steps-Ended env eng ctx r def 0 _ _)

  -- A run of an instance that the engine gets the lease of ends like every run of the steps.
  pub run_instance-Ended :
      (ctx : Context) (id : String) (r : ℕ) (def : WorkflowDefinition) (w : World)
      → get_instance id w.store ≡ value r
      → (deref r w).id ≡ id
      → get_workflow (deref r w).name (deref r w).version w.store ≡ value def
      → validate_workflow_fingerprint env def ≡ none
      → is_free_for (deref r w) eng.engine_id w.clock ≡ true
      → let (w', inst, x) = run_instance env eng ctx id w in
        (inst ≡ some r) × Ended (length def.steps) (deref r w') x
  unfolding run_instance get_instance
  run_instance-Ended ctx id r def w found named known same free =
      let w1 : World = (acquire_instance_lease eng (deref r w).id w).0 in
      let (got, there) =
        acquire_instance_lease-free (deref r w).id r w (rw named found) refl free in
      rw (found, known, same, got, run_instance) (replay-Ended ctx def r workflow_started w1 there)
