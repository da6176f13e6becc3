-- ===== src/Engine.antt =====
-- internal/engine/engine_impl.go: the operations of `engineImpl`, and with them the interfaces
-- `Engine`, `AsyncStarter`, `HistoryReader` and `WorkerDirect` of pkg/api.
--
-- An operation that returns `(*api.WorkflowInstance, error)` gives the reference of the instance,
-- `none` for nil, and how the call ends. Other calls of the engine run between, not inside, the
-- steps of one operation, but for those that a step function makes.
--
-- This file has what the methods share. Registry registers definitions, Starts creates and runs
-- instances, Resumes goes on with them, Upkeep inspects and recovers them; the other children are
-- about these.
pub mod Registry
pub mod Starts
pub mod Resumes
pub mod Upkeep
pub mod Guards
pub mod Registration
pub mod Inspection
pub mod Recovery
pub mod Scheduling
use fluxo.Common.{
  ℕ, String, Bool, Option, none, some, [], ◌∷◌, ◌==◌, ◌==ₛ◌, is_blank, not, ◌&&◌, if◌then◌else◌,
}
use fluxo.Api.{
  Status, pending, running, failed, waiting, Value, null, Err, message, Context, WorkflowDefinition,
  WorkflowInstance, EventType,
}
use fluxo.Api.Errors.{is_instance_not_found}
use fluxo.Store.{update_instance}
use fluxo.Queue.{InMemoryQueue, Task, enqueue}
use fluxo.World.{World, EngineConfig, Env, deref, assign, emit_event, release_instance_lease}
use fluxo.Execute.{Exit, success, failure, execute_steps}

abbrev pub Reply : Type 0
Reply = World × Option ℕ × Exit

-- `if version == "" { version = "v1" }`.
abbrev pub version_or_v1 : String → String
version_or_v1 v = if is_blank v then "v1" else v

abbrev pub status_text : Status → String
status_text pending = "PENDING"
status_text running = "RUNNING"
status_text Status.completed = "COMPLETED"
status_text failed = "FAILED"
status_text waiting = "WAITING"

abbrev pub exit_of : Option Err → Exit
exit_of none = success
exit_of (some e) = failure e

-- `e.instances.UpdateInstance(inst)` where its error is returned.
abbrev updated : ℕ → World → World × Option Err
updated r w = let (s, e) = update_instance r w.store in (record w { store = s }, e)

-- "Reset runtime fields and replay from the beginning."
abbrev pub restarted : WorkflowInstance → WorkflowInstance
restarted inst = record inst { status = running; err = none; output = null; current_step = 0 }

-- `instance not found: %s` in place of the store's error.
abbrev pub describe : String → Err → Err
describe id e = if is_instance_not_found e then message "instance not found: %s" (id ∷ []) else e

-- `inst.Fingerprint != "" && inst.Fingerprint != def.Fingerprint`.
abbrev pub is_mismatch : WorkflowInstance → WorkflowDefinition → Bool
is_mismatch inst def = not (is_blank inst.fingerprint) && not (inst.fingerprint ==ₛ def.fingerprint)

module _ (env : Env) (eng : EngineConfig) where
  -- `return e.executeSteps(...)`.
  abbrev pub execute : Context → WorkflowDefinition → ℕ → ℕ → Value → World → Reply
  execute ctx def r start input w =
      let (w', x) = execute_steps env eng ctx r def start input w in (w', some r, x)

  -- `e.queue.Enqueue`, on the engine's queue `q`.
  unfoldable pub enqueue_task : Context → Task → InMemoryQueue → World → World × Option Err
  enqueue_task ctx t q w =
      let (q', e) = enqueue env.format_int ctx w.clock t q in (record w { queue = some q' }, e)

  -- The same fields, reset, and the run from step 0, with the event that it begins with.
  unfoldable pub replay : Context → WorkflowDefinition → ℕ → EventType → World → Reply
  replay ctx def r typ w =
      let (w1, e) = updated r (assign r restarted w) in
      elim e [
        | some e' ↦ (w1, some r, failure e')
        | none ↦
            let w2 = emit_event eng r typ none "" w1 in execute ctx def r 0 (deref r w2).input w2
      ]

  -- `defer e.releaseInstanceLease(...)`: on every way out, a panic too.
  abbrev pub releasing : String → Reply → Reply
  releasing id (w, inst, x) = (release_instance_lease eng id w, inst, x)
