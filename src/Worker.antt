-- ===== src/Worker.antt =====
-- pkg/worker/worker.go: the worker, which takes a task from the queue, has the engine carry it
-- out, and acknowledges it or gives it back.
--
-- The engine and the queue are seen through a `Host`: a state that both act on, with the engine's
-- methods as `api.Engine` and `api.WorkerDirect` name them. Worker/EngineHost.antt fills it with the
-- engine of this library, with a queue of the worker's own or with the engine's.
--
-- The heartbeat's goroutine is `beats`: its renewals, and between them whatever other clients of the
-- queue do meanwhile, which the host tells as `others`. In `process_one` they stand behind the
-- engine's call, each at its tick's time; the engine renews and polls nothing on the queue.
pub mod Budget
pub mod Heartbeat
pub mod EngineHost
pub mod EndToEnd
use fluxo.Common.{
  ℕ, zero, suc, ◌+◌, ◌-◌, ◌*◌, ◌/◌, String, str_append, Bool, true, false, Option, none, some, List,
  [], ◌∷◌, ltb, leb, ◌==◌, ◌&&◌, not, is_blank, if◌then◌else◌,
}
use fluxo.Api.{
  Value, null, start_workflow_payload, timeout_payload, Err, message, value, error, Context,
}
use fluxo.Api.Errors.{is_wait_for_signal_error}
use fluxo.Queue.{
  InMemoryQueue, Task, TaskType, start_workflow, signal, resume, other, dequeue, renew_lease, ack,
  nack, enqueue,
}
use fluxo.Queue.Calls.{QueueCall, queue_calls}
use fluxo.Execute.{Exit, success, failure, panicked}

-- How an engine's method ends: with the id of the instance it returns, `none` for nil.
abbrev pub Answer : Type 0 → Type 0
Answer S = S × Option String × Exit

-- `api.WorkerDirect`.
pub record WorkerDirect (S : Type 0) : Type 0 where
  pub run_instance : Context → String → S → Answer S
  pub signal_now : Context → String → String → Value → S → Answer S
  pub resume_now : Context → String → S → Answer S

-- What is called on the queue, by anyone else, between two ticks of the heartbeat, and how late the
-- second of them comes.
pub record Beat : Type 0 where
  pub calls : List QueueCall
  pub late : ℕ

-- The first `n` of some beats, and where there are no more, ticks in time with no call in between.
abbrev ticks : ℕ → List Beat → List Beat
ticks zero bs = []
ticks (suc n) [] = record { calls = []; late = 0 } ∷ ticks n []
ticks (suc n) (b ∷ bs) = b ∷ ticks n bs

-- What a worker works on. `direct` is the type assertion `w.engine.(api.WorkerDirect)`.
pub record Host (S : Type 0) : Type 0 where
  pub queue : S → InMemoryQueue
  pub set_queue : InMemoryQueue → S → S
  pub clock : S → ℕ
  pub set_clock : ℕ → S → S
  pub run : Context → String → Value → S → Answer S
  pub signal : Context → String → String → Value → S → Answer S
  pub resume : Context → String → S → Answer S
  pub direct : Option (WorkerDirect S)
  pub format_int : ℕ → String
  pub others : ℕ → List Beat

pub record Config : Type 0 where
  pub max_attempts : ℕ
  pub backoff : ℕ
  pub default_signal_timeout : ℕ
  pub worker_id : String
  pub lease_ttl : ℕ
  pub heartbeat_interval : ℕ

-- `30 * time.Second`.
abbrev default_lease_ttl : ℕ
default_lease_ttl = 30000000000

-- `NewWithConfig`; `fresh` is the id that `randomWorkerID` draws.
unfoldable pub with_defaults : String → Config → Config
with_defaults fresh cfg = record cfg {
  max_attempts = if cfg.max_attempts == 0 then 1 else cfg.max_attempts;
  worker_id = if is_blank cfg.worker_id then fresh else cfg.worker_id;
  lease_ttl = if cfg.lease_ttl == 0 then default_lease_ttl else cfg.lease_ttl;
}

-- `New`.
unfoldable pub new_worker : String → Config
unfolding with_defaults
new_worker fresh = with_defaults fresh (record {
  max_attempts = 1;
  backoff = 0;
  default_signal_timeout = 0;
  worker_id = "";
  lease_ttl = 0;
  heartbeat_interval = 0;
})

-- `10 * time.Millisecond`.
abbrev pub min_heartbeat : ℕ
min_heartbeat = 10000000

-- The interval that `startHeartbeat` ticks at.
unfoldable pub heartbeat_interval : Config → ℕ
heartbeat_interval cfg =
    let chosen =
      if cfg.heartbeat_interval == 0 then cfg.lease_ttl / 3 else cfg.heartbeat_interval in
    let clamped = if ltb chosen min_heartbeat then min_heartbeat else chosen in
    let max_heartbeat = cfg.lease_ttl / 2 in
    if ltb 0 max_heartbeat && ltb max_heartbeat clamped then max_heartbeat else clamped

-- A panic of the engine goes through the worker.
pub data Done : Type 0 where
  returned : Bool → Option Err → Done
  crashed : Done

-- `task.Payload.(api.StartWorkflowPayload)`.
abbrev pub start_input : Value → Option Value
start_input (start_workflow_payload input) = some input
start_input _ = none

abbrev pub is_timeout : Value → Bool
is_timeout (timeout_payload reason) = true
is_timeout _ = false

abbrev pub type_text : TaskType → String
type_text start_workflow = "start-workflow"
type_text signal = "signal"
type_text resume = "resume"
type_text (other t) = t

abbrev pub start_task_at : String → Value → ℕ → ℕ → Task
start_task_at name input at now = record {
  id = "";
  type = start_workflow;
  workflow_name = name;
  instance_id = "";
  signal_name = "";
  payload = start_workflow_payload input;
  enqueued_at = now;
  not_before = at;
  attempts = 0;
}

abbrev pub signal_task_at : String → String → Value → ℕ → ℕ → Task
signal_task_at id name payload at now = record {
  id = "";
  type = signal;
  workflow_name = "";
  instance_id = id;
  signal_name = name;
  payload = payload;
  enqueued_at = now;
  not_before = at;
  attempts = 0;
}

-- The goroutine of `startHeartbeat`, which began at `start` and has seen `k` ticks, over some more.
module _ (format_int : ℕ → String) (cfg : Config) (task : Task) where
  unfoldable pub beats : ℕ → ℕ → List Beat → InMemoryQueue → InMemoryQueue
  beats k start [] q = q
  beats k start (b ∷ bs) q =
      let q1 = queue_calls format_int b.calls q in
      let now = start + suc k * heartbeat_interval cfg + b.late in
      beats (suc k) start bs (renew_lease task.id cfg.worker_id cfg.lease_ttl now q1).0

module _ {S : Type 0} (host : Host S) where
  -- A method of the queue.
  abbrev on_queue : (InMemoryQueue → InMemoryQueue × Option Err) → S → S × Option Err
  on_queue f s = let (q, e) = f (host.queue s) in (host.set_queue q s, e)

  unfoldable pub enqueue_now : Context → Task → S → S × Option Err
  enqueue_now ctx t s = on_queue (enqueue host.format_int ctx (host.clock s) t) s

  unfoldable pub enqueue_start_workflow : Context → String → Value → S → S × Option Err
  unfolding enqueue_now
  enqueue_start_workflow ctx name input s =
      enqueue_now ctx (start_task_at name input 0 (host.clock s)) s

  unfoldable pub enqueue_start_workflow_at : Context → String → Value → ℕ → S → S × Option Err
  unfolding enqueue_now
  enqueue_start_workflow_at ctx name input at s =
      enqueue_now ctx (start_task_at name input at (host.clock s)) s

  unfoldable pub enqueue_signal : Context → String → String → Value → S → S × Option Err
  unfolding enqueue_now
  enqueue_signal ctx id name payload s =
      enqueue_now ctx (signal_task_at id name payload 0 (host.clock s)) s

  unfoldable pub enqueue_signal_at : Context → String → String → Value → ℕ → S → S × Option Err
  unfolding enqueue_now
  enqueue_signal_at ctx id name payload at s =
      enqueue_now ctx (signal_task_at id name payload at (host.clock s)) s

  module _ (cfg : Config) (ctx : Context) (task : Task) where
    unfoldable pub ack_task : S → S × Option Err
    ack_task s = on_queue (ack task.id cfg.worker_id) s

    -- `handleErr`.
    unfoldable pub handle_err : Option Err → S → S × Option Err
    unfolding ack_task enqueue_now
    handle_err none s = ack_task s
    handle_err (some e) s =
        if ltb (task.attempts + 1) cfg.max_attempts
        then (let next = task.attempts + 1 in
            let nb = host.clock s + cfg.backoff in
            let (s1, refused) = on_queue (nack task.id cfg.worker_id nb next) s in
            elim refused [
              | none ↦ (s1, none)
              | some _ ↦
                  let retry_task = record task { attempts = next; not_before = nb } in
                  ((enqueue_now ctx retry_task (ack_task s1).0).0, some e)
            ])
        else ((ack_task s).0, some e)

    -- `n` ticks after `start`, between the calls of others.
    unfoldable pub heartbeats : ℕ → ℕ → S → S
    unfolding beats
    heartbeats n start s =
        let company = ticks n (host.others start) in
        host.set_queue (beats host.format_int cfg task 0 start company (host.queue s)) s

    -- A call of the engine between `startHeartbeat` and `stopHB`. A panic skips `stopHB`.
    unfoldable pub with_heartbeat : (S → Answer S) → S → Answer S
    unfolding heartbeats
    with_heartbeat run s =
        let (s1, inst, x) = run s in
        (
          heartbeats ((host.clock s1 - host.clock s) / heartbeat_interval cfg) (host.clock s) s1,
          inst,
          x,
        )

    abbrev done : S × Option Err → S × Done
    done (s, e) = (s, returned true e)

    -- What follows a call of the engine: `handle` its error, `nil` if it has none.
    abbrev settle : (Option Err → S → S × Done) → S → Exit → S × Done
    settle handle s success = handle none s
    settle handle s (failure e) = handle (some e) s
    settle handle s panicked = (s, crashed)

    -- `handleErr(nil)` and `handleErr(runErr)` of the start of a workflow.
    unfoldable pub after_run : Option String → Option Err → S → S × Done
    unfolding handle_err enqueue_now
    after_run inst none s = done (handle_err none s)
    after_run none (some e) s = done (handle_err (some e) s)
    after_run (some id) (some e) s = elim (is_wait_for_signal_error e) [
      | none ↦ done (handle_err (some e) s)
      | some name ↦
          if ltb 0 cfg.default_signal_timeout
          then (let at = host.clock s + cfg.default_signal_timeout in
              let timeout_task =
                signal_task_at id name (timeout_payload "signal timeout") at (host.clock s) in
              done (handle_err none (enqueue_now ctx timeout_task s).0))
          else done (handle_err (some e) s)
    ]

    -- The engine's call for the start of a workflow.
    unfoldable pub start_call : Value → S → Answer S
    start_call input s =
        if not (is_blank task.instance_id)
        then elim host.direct [
          | some de ↦ de.run_instance ctx task.instance_id s
          | none ↦
              (s, none, failure (message "engine does not support RunInstance for queued start" []))
        ]
        else host.run ctx task.workflow_name input s

    unfoldable pub signal_call : S → Answer S
    signal_call s = elim host.direct [
      | some de ↦ de.signal_now ctx task.instance_id task.signal_name task.payload s
      | none ↦ host.signal ctx task.instance_id task.signal_name task.payload s
    ]

    unfoldable pub resume_call : S → Answer S
    resume_call s = elim host.direct [
      | some de ↦ de.resume_now ctx task.instance_id s
      | none ↦ host.resume ctx task.instance_id s
    ]

    -- An auto-timeout signal is acknowledged however its delivery ends.
    unfoldable pub after_signal : Option Err → S → S × Done
    unfolding handle_err ack_task
    after_signal e s =
        if is_timeout task.payload
        then done (handle_err none (ack_task s).0)
        else done (handle_err e s)

    after_resume : Option Err → S → S × Done
    unfolding handle_err
    after_resume e s = done (handle_err e s)

    -- The `switch` over the task's type.
    unfoldable pub process_task : S → S × Done
    unfolding with_heartbeat start_call signal_call resume_call after_run after_signal after_resume
        ack_task
    process_task s = elim task.type [
      | start_workflow ↦ elim (start_input task.payload) [
        | none ↦
            (s, returned true (some (message "invalid payload type for start-workflow task" [])))
        | some input ↦
            let (s1, inst, x) = with_heartbeat (start_call input) s in settle (after_run inst) s1 x
      ]
      | TaskType.signal ↦
          let (s1, inst, x) = with_heartbeat signal_call s in settle after_signal s1 x
      | TaskType.resume ↦
          let (s1, inst, x) = with_heartbeat resume_call s in settle after_resume s1 x
      | other t ↦ (
        (ack_task s).0,
        returned true (some (message "unknown task type: " (type_text task.type ∷ []))),
      )
    ]

  -- `ProcessOne`. The fuel is `Dequeue`'s; `none` means that the call still blocks on it.
  unfoldable pub process_one : ℕ → Config → Context → S → Option (S × Done)
  unfolding process_task
  process_one fuel cfg ctx s =
      elim (dequeue fuel ctx cfg.worker_id cfg.lease_ttl (host.clock s) (host.queue s)) [
        | none ↦ none
        | some (q, taken, now) ↦
            let s1 = host.set_clock now (host.set_queue q s) in
            elim taken [
              | error e ↦ some (s1, returned false (some e))
              | value task ↦ some (process_task cfg ctx task s1)
            ]
      ]
