-- ===== src/World.antt =====
-- What an engine acts on, and the small helpers of internal/engine/engine_impl.go: events,
-- observer calls, leases and instance ids.
--
-- The engine is `NewInMemoryEngine`'s, with or without a queue (`bundle.go` adds one). `e.observer`
-- is taken as one that writes each call down; `e.mu` guards `nextID`, which is a field here.
-- The clock moves when a step function or a backoff takes time.
pub mod Cells
use fluxo.Common.{ℕ, ◌+◌, String, Bool, Option, none, some, List, [], ◌∷◌, ◌++◌, if◌then◌else◌}
use fluxo.Api.{
  Value, Err, Outcome, value, error, Context, WorkflowInstance, WorkflowEvent, EventType,
  instance_locked,
}
use fluxo.Api.Fingerprint.{Toolchain}
use fluxo.Store.{
  Store, modify, update_instance, try_acquire_lease, renew_lease, release_lease, append_event,
}
use fluxo.Queue.{InMemoryQueue}

-- A call of the observer, by the id of the instance.
pub data Notice : Type 0 where
  on_workflow_start on_workflow_completed : String → Notice
  on_workflow_failed : String → Err → Notice
  on_step_start : String → String → ℕ → Notice
  on_step_completed : String → String → ℕ → Outcome → Notice

pub record World : Type 0 where
  pub store : Store
  pub queue : Option InMemoryQueue
  pub clock : ℕ
  pub next_id : ℕ
  pub observed : List Notice

-- `engineImpl`'s settings. `has_events` is `e.events != nil`.
pub record EngineConfig : Type 0 where
  pub engine_id : String
  pub lease_ttl : ℕ
  pub has_events : Bool

-- What the engine calls and this repository does not define: the step functions of the program
-- that embeds it, Go's formatting, and float64 arithmetic. `scale d m` is
-- `time.Duration(float64(d) * m)`, `is_positive m` is `m > 0`, `two` is 2.0.
pub record Env : Type 0 where
  pub step_fn : ℕ → Context → Value → World → World × Outcome
  pub toolchain : Toolchain
  pub format_id : ℕ → String
  pub format_int : ℕ → String
  pub error_text : Err → String
  pub scale : ℕ → ℕ → ℕ
  pub is_positive : ℕ → Bool
  pub two : ℕ

-- `inst`, for the instance that a reference names.
abbrev pub deref : ℕ → World → WorkflowInstance
deref r w = w.store.cell r

-- Assignments to fields of `*inst`.
unfoldable pub assign : ℕ → (WorkflowInstance → WorkflowInstance) → World → World
unfolding modify
assign r f w = record w { store = modify r f w.store }

-- `_ = e.instances.UpdateInstance(inst)`.
unfoldable pub update : ℕ → World → World
unfolding update_instance
update r w = record w { store = (update_instance r w.store).0 }

unfoldable pub notify : Notice → World → World
notify n w = record w { observed = w.observed ++ n ∷ [] }

module _ (eng : EngineConfig) where
  unfoldable pub emit_event : ℕ → EventType → Option ℕ → String → World → World
  unfolding append_event
  emit_event r typ step detail w =
      let ev : WorkflowEvent = record {
        instance_id = (deref r w).id;
        time = w.clock;
        type = typ;
        workflow_name = (deref r w).name;
        workflow_version = (deref r w).version;
        step = step;
        detail = detail;
      } in
      if eng.has_events then record w { store = append_event ev w.store } else w

  unfoldable pub acquire_instance_lease : String → World → World × Option Err
  unfolding try_acquire_lease
  acquire_instance_lease id w =
      let (s, acquired) = try_acquire_lease id eng.engine_id eng.lease_ttl w.clock w.store in
      (
        record w { store = s },
        elim acquired [ error e ↦ some e | value got ↦ if got then none else some instance_locked ],
      )

  unfoldable pub renew_instance_lease : String → World → World
  unfolding renew_lease
  renew_instance_lease id w = record w {
    store = (renew_lease id eng.engine_id eng.lease_ttl w.clock w.store).0;
  }

  unfoldable pub release_instance_lease : String → World → World
  unfolding release_lease
  release_instance_lease id w = record w { store = (release_lease id eng.engine_id w.store).0 }

unfoldable pub next_instance_id : Env → World → World × String
next_instance_id env w = (record w { next_id = w.next_id + 1 }, env.format_id (w.next_id + 1))
