-- ===== src/Witnesses/Workers.antt =====
-- A worker with the engine of this library and a queue that they share.
use fluxo.Common.{
  ◌≡◌, ℕ, ◌+◌, ◌*◌, ◌<◌, ◌≤◌, List, false, inl, inr, insert, refl, true, some, [], ◌∷◌, lookup,
  arith,
}
use fluxo.Api.{failed, null, value, background, ctx_err, WorkflowDefinition}
use fluxo.Store.{get_instance, get_latest_workflow, get_workflow}
use fluxo.Api.Fingerprint.{compute_workflow_fingerprint_strict}
use fluxo.Engine.Registry.{validate_workflow_fingerprint}
use fluxo.World.{World}
use fluxo.Engine.Starts.{start}
use fluxo.Queue.{Task, InMemoryQueue, new_queue, start_workflow, enqueue, poll, take_runnable}
use fluxo.Execute.{success}
use fluxo.Worker.{
  Host, Config, heartbeat_interval, handle_err, with_defaults, Beat, beats, process_one,
}
use fluxo.Worker.Budget.{budget, handle_err-spends}
use fluxo.Worker.Heartbeat.{IsLeased, is_got, beats-IsLeased}
use fluxo.Queue.Calls.{
  QueueCall, enqueues, polls, nacks, queue_call, queue_calls, IsOrderly, new_queue-IsOrderly,
  queue_calls-IsOrderly,
}
use fluxo.Worker.EngineHost.{State, engine_host, queue_or, engine_host-IsLawful}
use fluxo.Worker.EndToEnd.{HasEnded, start-process_one}
use fluxo.Witnesses.{
  flow, world_of, store_in, instance_in, unary, unary-injective, texts_differ, env, eng, boom,
  world_in,
}

-- Another worker polls after the first tick.
abbrev others : ℕ → List Beat
others start =
    record { calls = []; late = 0 } ∷ record { calls = polls start "two" 5 ∷ []; late = 0 } ∷ []

abbrev host : Host State
host = engine_host env eng others true

abbrev cfg : Config
cfg = record {
  max_attempts = 3;
  backoff = 7;
  default_signal_timeout = 0;
  worker_id = "w";
  lease_ttl = 60000000;
  heartbeat_interval = 0;
}

abbrev task : Task
task = record {
  id = "x";
  type = start_workflow;
  workflow_name = "flow";
  instance_id = "";
  signal_name = "";
  payload = null;
  enqueued_at = 0;
  not_before = 0;
  attempts = 1;
}

-- The worker has just leased the task.
abbrev working : State
working = (
  world_in failed,
  record {
    next_id = 1;
    ready = [];
    inflight = ("x", record { task = task; owner = "w"; expiry = 60000010 }) ∷ [];
  },
)

handle_err-spends_example :
    budget cfg (host.queue (handle_err host cfg background task (some boom) working).0)
    < budget cfg (host.queue working)
unfolding lookup
handle_err-spends_example =
    handle_err-spends host (engine_host-IsLawful env eng others true) cfg background task
      (some boom) 60000010 working refl (omega arith)

-- The task is put in and leased to the worker at 10.
abbrev first_calls : List QueueCall
first_calls = enqueues 1 (record task { id = "" }) ∷ polls 10 "w" 60000000 ∷ []

abbrev leased : InMemoryQueue
leased = queue_calls unary first_calls new_queue

leased-IsOrderly : IsOrderly unary leased
leased-IsOrderly =
    queue_calls-IsOrderly unary unary-injective first_calls new_queue (inl refl, (tt, tt))
      (new_queue-IsOrderly unary)

-- Another worker polls before the first tick, which comes late, and gives the task back before the
-- second.
abbrev rivals : List Beat
rivals =
    record { calls = polls 20000011 "two" 5 ∷ []; late = 19000000 }
    ∷ record { calls = nacks 39000020 "x" "two" 0 7 ∷ []; late = 0 }
    ∷ []

beats-IsLeased_example :
    let q' = beats unary (with_defaults "new" cfg) task 0 10 rivals leased in
    (0 < heartbeat_interval (with_defaults "new" cfg))
    × ((until : ℕ) × IsLeased q' task "w" until × (10 + 2 * 20000000 + 20000000 + 20000000 ≤ until))
    × (is_got "x" (poll "two" 5 80000009 q').1 ≡ false)
unfolding lookup heartbeat_interval with_defaults queue_calls queue_call enqueue poll take_runnable
    insert ctx_err background new_queue unary
beats-IsLeased_example =
    beats-IsLeased unary "new" cfg task rivals 10 leased "two" 5 80000009 unary-injective
      (λ one. ground (arith, one)) leased-IsOrderly
      (
        omega arith,
        (tt, tt),
        (omega arith, tt),
        (omega arith, (tt, tt), (inr (texts_differ "w" "two" refl), tt), tt),
      )
      refl (omega arith)

-- Registered with the fingerprint that `env` computes.
abbrev stamped : WorkflowDefinition
stamped = record flow { fingerprint = "xx" }

-- An engine with an empty queue.
abbrev office : World
office =
    record (world_of (record (store_in (instance_in failed)) {
      workflows = ("flow", ("v1", stamped) ∷ []) ∷ [];
    })) { queue = some new_queue }

start-process_one_example :
    let (w1, inst, x) = start env eng background "flow" null office in
    (inst ≡ some 1)
    × (x ≡ success)
    × (get_instance "x" w1.store ≡ value 1)
    × HasEnded env eng others cfg background 2 1
        (process_one host 1 cfg background (w1, queue_or new_queue w1.queue))
unfolding lookup new_queue get_latest_workflow get_workflow validate_workflow_fingerprint
    compute_workflow_fingerprint_strict unary ctx_err background
start-process_one_example =
    start-process_one env eng others cfg background 0 background "flow" null office new_queue
      stamped refl refl refl refl refl refl refl refl refl refl
