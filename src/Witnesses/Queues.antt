-- ===== src/Witnesses/Queues.antt =====
-- The task queue.
use fluxo.Common.{
  ◌<◌, ◌≡◌, ◌≢◌, refl, inl, inr, String, some, List, [], ◌∷◌, lookup, insert, delete, false, arith,
}
use fluxo.Api.{null, background, ctx_err, Context, cancellation}
use fluxo.Queue.{
  Task, InMemoryQueue, start_workflow, new_queue, poll, dequeue, dequeue_loop, take_runnable,
  requeue_expired, enqueue, ack, nack,
}
use fluxo.Queue.Counts.{count_task, count_ready, count_leased}
use fluxo.Queue.Calls.{
  QueueCall, AllFresh, enqueues, polls, acks, nacks, queue_call, queue_calls, IsOrderly,
  new_queue-IsOrderly, queue_calls-IsOrderly, queue_calls-kept,
}
use fluxo.Queue.Blocking.{Dequeued, HandedOut, dequeue-returns, dequeue-HandedOut}
use fluxo.Queue.Fairness.{HandsOut, queue_calls-HandsOut}
use fluxo.Queue.Handover.{task_lease_exclusion}
use fluxo.Witnesses.{unary, unary-injective, texts_differ}

abbrev new_task : Task
new_task = record {
  id = "";
  type = start_workflow;
  workflow_name = "flow";
  instance_id = "";
  signal_name = "";
  payload = null;
  enqueued_at = 0;
  not_before = 0;
  attempts = 0;
}

-- Two tasks come, the first is handed out and given back, and handed out again.
abbrev calls : List QueueCall
calls =
    enqueues 1 new_task
    ∷ enqueues 2 new_task
    ∷ polls 3 "one" 10
    ∷ nacks 4 "x" "one" 0 1
    ∷ polls 20 "two" 10
    ∷ []

abbrev filled : InMemoryQueue
filled = queue_calls unary calls new_queue

calls-AllFresh : AllFresh unary calls new_queue
calls-AllFresh = (inl refl, (inl refl, (tt, (tt, (tt, tt)))))

queue_calls-IsOrderly_example : IsOrderly unary filled
queue_calls-IsOrderly_example =
    queue_calls-IsOrderly unary unary-injective calls new_queue calls-AllFresh
      (new_queue-IsOrderly unary)

queue_calls-kept_example :
    count_task "x" (queue_calls unary (acks 30 "xx" "two" ∷ polls 31 "one" 5 ∷ []) filled) ≡ 1
unfolding count_ready queue_calls queue_call poll take_runnable nack lookup enqueue ctx_err
    background new_queue insert unary delete count_leased
queue_calls-kept_example =
    queue_calls-kept unary unary-injective (acks 30 "xx" "two" ∷ polls 31 "one" 5 ∷ []) filled "x"
      (queue_calls-IsOrderly unary unary-injective calls new_queue calls-AllFresh
        (new_queue-IsOrderly unary))
      (tt, (tt, tt)) (texts_differ "xx" "x" refl, (tt, tt)) refl

-- The context ends after 25 milliseconds.
abbrev short : Context
short = record { done_at = some 25000000; reason = cancellation; has_engine = false }

dequeue-returns_example : (res : Dequeued) × (dequeue 4 short "one" 10 0 new_queue ≡ some res)
dequeue-returns_example = dequeue-returns 3 short "one" 10 0 new_queue 25000000 refl (omega arith)

abbrev one_ready : InMemoryQueue
one_ready = record { next_id = 1; ready = record new_task { id = "x" } ∷ []; inflight = [] }

abbrev one_leased : InMemoryQueue
one_leased = record {
  next_id = 1;
  ready = [];
  inflight = ("x", record { task = record new_task { id = "x" }; owner = "one"; expiry = 15 }) ∷ [];
}

dequeue-HandedOut_example :
    (0 < 10) × HandedOut "one" 10 5 (record new_task { id = "x" }) one_leased 5
unfolding dequeue dequeue_loop ctx_err background poll take_runnable insert
dequeue-HandedOut_example =
    dequeue-HandedOut 1 background "one" 10 5 one_ready one_leased (record new_task { id = "x" }) 5
      refl

abbrev first : List QueueCall
first = enqueues 1 new_task ∷ polls 3 "one" 10 ∷ []

abbrev held : InMemoryQueue
held = queue_calls unary first new_queue

-- While worker `one` holds the first task, worker `two` is handed the other one.
task_lease_exclusion_example : ◌≢◌ {A = String} "xx" "x"
unfolding lookup queue_calls queue_call poll take_runnable enqueue ctx_err background new_queue
    insert unary ack
task_lease_exclusion_example =
    task_lease_exclusion unary "x"
      (record { task = record new_task { id = "x" }; owner = "one"; expiry = 13 }) unary-injective
      (enqueues 5 new_task ∷ acks 6 "x" "two" ∷ []) held "two" 10 7 (record new_task { id = "xx" })
      (queue_calls-IsOrderly unary unary-injective first new_queue (inl refl, (tt, tt))
        (new_queue-IsOrderly unary))
      refl (inl refl, (tt, tt)) (tt, (inr (texts_differ "one" "two" refl), tt)) (omega arith) refl

-- The task `x` is ready behind another one.
abbrev two_ready : InMemoryQueue
two_ready = record {
  next_id = 2;
  ready = record new_task { id = "y" } ∷ record new_task { id = "x" } ∷ [];
  inflight = [];
}

abbrev rush : List QueueCall
rush = polls 3 "one" 10 ∷ enqueues 4 new_task ∷ polls 5 "two" 10 ∷ []

queue_calls-HandsOut_example : HandsOut unary (record new_task { id = "x" }) rush two_ready
queue_calls-HandsOut_example =
    queue_calls-HandsOut unary rush (record new_task { id = "x" }) 1 two_ready
      (record {
        front = record new_task { id = "y" } ∷ [];
        back = [];
        stands = refl;
        behind = refl;
      })
      (refl, (tt, (refl, tt))) (omega arith)

-- The fallback of the worker: the lease of `one` has run out, `two` holds the task, and `one`, whose
-- `Nack` and `Ack` are refused, puts in a copy under its id. The task then stands in the queue twice,
-- and a third worker is handed it while the lease of `two` runs.
abbrev refused_nack : List QueueCall
refused_nack =
    enqueues 1 new_task
    ∷ polls 3 "one" 10
    ∷ polls 20 "two" 10
    ∷ nacks 21 "x" "one" 21 1
    ∷ acks 21 "x" "one"
    ∷ enqueues 21 (record new_task { id = "x"; attempts = 1; not_before = 21 })
    ∷ []

refused_nack-twice :
    let q = queue_calls unary refused_nack new_queue in
    (count_task "x" q ≡ 2)
    × ((poll "three" 10 22 q).1
        ≡ some (record new_task { id = "x"; attempts = 1; not_before = 21 }))
unfolding count_ready queue_calls queue_call poll take_runnable nack ack lookup enqueue ctx_err
    background new_queue insert unary delete count_leased requeue_expired
refused_nack-twice = (refl, refl)
