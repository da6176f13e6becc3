-- ===== src/Worker/EndToEnd.antt =====
-- worker.go with engine_impl.go: a workflow that is started on an engine with a queue, and the worker
-- that takes its task.
use fluxo.Common.{
  ℕ, suc, ◌+◌, ◌-◌, ◌/◌, List, String, ◌≡◌, refl, ap, ◌∙◌, inl, inr, true, false, Option, none,
  some, [], ◌∷◌, ◌++◌, arith, is_blank, ltb, ◌==◌, length, Option-cases, Bool-cases,
}
use fluxo.Api.{Value, Err, value, Context, ctx_err, WorkflowDefinition}
use fluxo.Api.Errors.{is_wait_for_signal_error}
use fluxo.Store.{Store, get_instance, get_workflow, get_latest_workflow}
use fluxo.Queue.{
  start_workflow, InMemoryQueue, Task, poll, dequeue, dequeue_loop, requeue_expired, take_runnable,
}
use fluxo.World.{World, EngineConfig, Env, deref}
use fluxo.Execute.{Exit, success, failure, panicked}
use fluxo.Execute.Exits.{Ended}
use fluxo.Engine.Registry.{validate_workflow_fingerprint}
use fluxo.Engine.Starts.{start, schedule, run_instance}
use fluxo.Engine.Scheduling.{
  next_name, scheduled_task, Scheduled, schedule-Scheduled, run_instance-Ended,
}
use fluxo.Worker.EngineHost.{State, engine_host, queue_or}
use fluxo.Worker.{
  start_input, Answer, heartbeat_interval, Host, Config, Done, returned, crashed, process_one,
  process_task, with_heartbeat, heartbeats, Beat, after_run, handle_err, enqueue_now, start_call,
  settle, ack_task,
}

module _ (env : Env) (eng : EngineConfig) (others : ℕ → List Beat) (cfg : Config)
    (ctx : Context) where
  abbrev host : Host State
  host = engine_host env eng others true

  heartbeats-world :
      (task : Task) (n start : ℕ) (s : State) → (heartbeats host cfg ctx task n start s).0 ≡ s.0
  unfolding heartbeats
  heartbeats-world task n start s = refl

  with_heartbeat-world :
      (task : Task) (run : State → Answer State) (s : State)
      → (with_heartbeat host cfg ctx task run s).0.0 ≡ (run s).0.0
  unfolding with_heartbeat
  with_heartbeat-world task run s =
      let s1 : State = (run s).0 in
      heartbeats-world task ((host.clock s1 - host.clock s) / heartbeat_interval cfg) (host.clock s)
        s1

  handle_err-world :
      (task : Task) (e : Option Err) (s : State) → (handle_err host cfg ctx task e s).0.0 ≡ s.0
  unfolding handle_err enqueue_now ack_task
  handle_err-world task none s = refl
  handle_err-world task (some e) s = ground arith

  -- How the worker reports the engine's exit, and leaves the world as the engine left it.
  abbrev pub IsReported : Exit → Done → Type 0
  IsReported panicked d = d ≡ crashed
  IsReported x d = (e : Option Err) × (d ≡ returned true e)

  IsReported-of : (x y : Exit) (d : Done) → x ≡ y → IsReported x d → IsReported y d
  IsReported-of x y d e h = rw e at h

  after_run-world :
      (task : Task) (inst : Option String) (e : Option Err) (s : State)
      → ((after_run host cfg ctx task inst e s).0.0 ≡ s.0)
        × ((e' : Option Err) × ((after_run host cfg ctx task inst e s).1 ≡ returned true e'))
  unfolding after_run enqueue_now
  after_run-world task inst none s = (handle_err-world task none s, (_, refl))
  after_run-world task none (some e) s = (handle_err-world task (some e) s, (_, refl))
  after_run-world task (some id) (some e) s =
      let kept = handle_err-world task (some e) s in
      elim (Option-cases (is_wait_for_signal_error e)) [
        | inl other ↦ rw (other, after_run) (kept, (_, refl))
        | inr (name, parks) ↦ elim (Bool-cases (ltb 0 cfg.default_signal_timeout)) [
          | inl timed ↦ rw (parks, timed, after_run) (refl, (_, refl))
          | inr untimed ↦ rw (parks, untimed, after_run) (kept, (_, refl))
        ]
      ]

  settled-world :
      (task : Task) (inst : Option String) (x : Exit) (s : State)
      → let t = settle host cfg ctx task (after_run host cfg ctx task inst) s x in
        (t.0.0 ≡ s.0) × IsReported x t.1
  settled-world task inst success s = after_run-world task inst none s
  settled-world task inst (failure e) s = after_run-world task inst (some e) s
  settled-world task inst panicked s = (refl, refl)

  -- The first poll of a queue that holds one task that may run hands it out.
  poll-only :
      (now : ℕ) (t : Task) (q : InMemoryQueue)
      → q.ready ≡ t ∷ []
      → q.inflight ≡ []
      → t.not_before ≡ 0
      → (poll cfg.worker_id cfg.lease_ttl now q).1 ≡ some t
  unfolding poll requeue_expired take_runnable
  poll-only now t q one idle at_once = rw (idle, poll) (ground (arith, one, at_once))

  dequeue-only :
      (fuel now : ℕ) (t : Task) (q : InMemoryQueue)
      → (poll cfg.worker_id cfg.lease_ttl now q).1 ≡ some t
      → ctx_err ctx now ≡ none
      → (cfg.lease_ttl == 0) ≡ false
      → dequeue (suc fuel) ctx cfg.worker_id cfg.lease_ttl now q
        ≡ some ((poll cfg.worker_id cfg.lease_ttl now q).0, value t, now)
  unfolding dequeue dequeue_loop
  dequeue-only fuel now t q got live some_ttl = ground (arith, live, some_ttl, got)

  -- The worker has the engine run the instance of a start task.
  process_task-world :
      (task : Task) (input : Value) (s : State)
      → task.type ≡ start_workflow
      → start_input task.payload ≡ some input
      → is_blank task.instance_id ≡ false
      → let (w', inst, x) =
          run_instance env eng ctx task.instance_id (record s.0 { queue = some s.1 }) in
        ((process_task host cfg ctx task s).0.0 ≡ w')
        × IsReported x (process_task host cfg ctx task s).1
  unfolding process_task with_heartbeat start_call
  process_task-world task input s starts holds named =
      let reply = run_instance env eng ctx task.instance_id (record s.0 { queue = some s.1 }) in
      let w' : World = reply.0 in
      let x : Exit = reply.2 in
      let t : State × Option String × Exit =
        with_heartbeat host cfg ctx task (start_call host cfg ctx task input) s in
      let ran : (start_call host cfg ctx task input s).0.0 ≡ w' = ground (arith, named) in
      let same : t.0.0 ≡ w' =
        with_heartbeat-world task (start_call host cfg ctx task input) s ∙ ran in
      let exits : t.2 ≡ x = ground (arith, named) in
      let (kept, reported) = settled-world task t.1 t.2 t.0 in
      rw (starts, holds, process_task) (kept ∙ same, IsReported-of t.2 x _ exits reported)

  -- The state of the worker after the first poll.
  abbrev polled : World → InMemoryQueue → State
  polled w q = (w, (poll cfg.worker_id cfg.lease_ttl w.clock q).0)

  process_one-task :
      (fuel : ℕ) (t : Task) (w : World) (q : InMemoryQueue)
      → (poll cfg.worker_id cfg.lease_ttl w.clock q).1 ≡ some t
      → ctx_err ctx w.clock ≡ none
      → (cfg.lease_ttl == 0) ≡ false
      → process_one host (suc fuel) cfg ctx (w, q) ≡ some (process_task host cfg ctx t (polled w q))
  unfolding process_one
  process_one-task fuel t w q got live some_ttl =
      rw (dequeue-only fuel w.clock t q got live some_ttl, process_one) refl

  get_workflow-registered :
      (s s' : Store) (name version : String)
      → s.workflows ≡ s'.workflows
      → get_workflow name version s ≡ get_workflow name version s'
  unfolding get_workflow
  get_workflow-registered s s' name version same = rw same refl

  -- A scheduled instance is one that the engine may run.
  Scheduled-Ended :
      (def : WorkflowDefinition) (input : Value) (q q2 : InMemoryQueue) (w w1 : World)
      → Scheduled env eng def input q w w1
      → get_workflow def.name def.version w.store ≡ value def
      → validate_workflow_fingerprint env def ≡ none
      → let (w', inst, x) =
          run_instance env eng ctx (next_name env eng w) (record w1 { queue = some q2 }) in
        (inst ≡ some w.store.next_ref) × Ended (length def.steps) (deref w.store.next_ref w') x
  Scheduled-Ended def input q q2 w w1 sch known same =
      run_instance-Ended env eng ctx (next_name env eng w) w.store.next_ref def
        (record w1 { queue = some q2 }) sch.found (ap (λ inst. inst.id) sch.made)
        (rw (sch.made, get_workflow-registered w1.store w.store def.name def.version sch.registered)
          known)
        same (rw sch.made refl)

  -- `ProcessOne` has returned, and the instance `r` has ended as the engine's run and the worker's
  -- report say.
  abbrev pub HasEnded : ℕ → ℕ → Option (State × Done) → Type 0
  HasEnded n r t =
      (s : State) × (d : Done) × (x : Exit) × (t ≡ some (s, d))
      × Ended n (deref r s.0) x
      × IsReported x d

  -- A worker that polls after the start carries the instance out.
  Scheduled-HasEnded :
      (fuel : ℕ) (def : WorkflowDefinition) (input : Value) (q : InMemoryQueue) (w w1 : World)
      → Scheduled env eng def input q w w1
      → q.ready ≡ []
      → q.inflight ≡ []
      → get_workflow def.name def.version w.store ≡ value def
      → validate_workflow_fingerprint env def ≡ none
      → is_blank (next_name env eng w) ≡ false
      → ctx_err ctx w.clock ≡ none
      → (cfg.lease_ttl == 0) ≡ false
      → HasEnded
          (length def.steps)
          w.store.next_ref
          (process_one host (suc fuel) cfg ctx (w1, queue_or q w1.queue))
  Scheduled-HasEnded fuel def input q w w1 sch idle unleased known same named live some_ttl =
      let task : Task = scheduled_task env eng def input q w in
      let q1 : InMemoryQueue = record q { next_id = q.next_id + 1; ready = q.ready ++ task ∷ [] } in
      let only : q1.ready ≡ task ∷ [] = rw idle refl in
      let got = poll-only w1.clock task q1 only unleased refl in
      let q2 : InMemoryQueue = (poll cfg.worker_id cfg.lease_ttl w1.clock q1).0 in
      let (ran, reported) = process_task-world task input (w1, q2) refl refl named in
      let (inst, over) = Scheduled-Ended def input q q2 w w1 sch known same in
      let reply = run_instance env eng ctx (next_name env eng w) (record w1 { queue = some q2 }) in
      let (s, d) = process_task host cfg ctx task (w1, q2) in
      let polls = process_one-task fuel task w1 q1 got (rw sch.at_once live) some_ttl in
      let queued = ap (λ o. process_one host (suc fuel) cfg ctx (w1, queue_or q o)) sch.queued in
      (s, d, reply.2, queued ∙ polls, rw ran over, reported)

  -- Starting a workflow on an engine whose queue is empty, and then one `ProcessOne` of a worker that
  -- shares the queue, runs the workflow to its end, whatever others call on the queue between the
  -- ticks of the heartbeat: where the name has one definition, found under its version and with a
  -- fingerprint that still matches, the ids are not blank, neither context has ended and the lease
  -- time is positive, the start returns an instance that is found under its id; the worker does not
  -- block; and the instance is then completed with all of its steps behind it, or waiting, or failed with the returned error, as the engine's run ended, unless a step function panicked,
  -- which alone crashes the worker.
  pub start-process_one :
      (fuel : ℕ) (caller : Context) (name : String) (input : Value) (w : World) (q : InMemoryQueue)
      (def : WorkflowDefinition)
      → w.queue ≡ some q
      → q.ready ≡ []
      → q.inflight ≡ []
      → get_latest_workflow name w.store ≡ value def
      → get_workflow def.name def.version w.store ≡ value def
      → validate_workflow_fingerprint env def ≡ none
      → is_blank (next_name env eng w) ≡ false
      → ctx_err caller w.clock ≡ none
      → ctx_err ctx w.clock ≡ none
      → (cfg.lease_ttl == 0) ≡ false
      → let (w1, inst, x) = start env eng caller name input w in
        (inst ≡ some w.store.next_ref)
        × (x ≡ success)
        × (get_instance (next_name env eng w) w1.store ≡ value w.store.next_ref)
        × HasEnded
            (length def.steps)
            w.store.next_ref
            (process_one host (suc fuel) cfg ctx (w1, queue_or q w1.queue))
  unfolding start
  start-process_one fuel caller name input w q def set idle unleased latest known same named live
        live' some_ttl =
      let (sch, inst, ended) = schedule-Scheduled env eng caller def input q w live in
      let w1 : World = (schedule env eng caller def input q w).0 in
      rw (set, latest, start)
        (
          inst,
          ended,
          sch.found,
          Scheduled-HasEnded fuel def input q w w1 sch idle unleased known same named live'
              some_ttl,
        )
