-- ===== src/Witnesses/PostgresQueues.antt =====
-- The Postgres queue.
use fluxo.Common.{
  ◌+◌, ◌≡◌, ◌≢◌, refl, Bool, ltb, false, none, some, String, List, [], ◌∷◌, lookup, delete, arith,
}
use fluxo.Api.{Context, cancellation, Err, message, null, value}
use fluxo.Queue.{Task, TaskCodec, start_workflow}
use fluxo.Postgres.{Tasks, commits, unheard, oldest, take, enqueue}
use fluxo.Postgres.Delivery.{
  TaskCall, enqueues, takes, nacks, is_waiting, task_call, task_calls, accepted, handed, spoiled,
  task_calls-counted,
}
use fluxo.Postgres.Unnamed.{IsBlocking, unnamed_task_calls-IsBlocking}
use fluxo.Postgres.Polling.{Returns, dequeue-Returns}

-- Tasks kept as they are.
abbrev pub codec : TaskCodec
codec = record { blob = Task; encode = λ t. value t; decode = λ b. value b }

abbrev taken : String → Err
taken id = message "duplicate key" (id ∷ [])

abbrev pub task : Task
task = record {
  id = "";
  type = start_workflow;
  workflow_name = "flow";
  instance_id = "i";
  signal_name = "";
  payload = null;
  enqueued_at = 0;
  not_before = 0;
  attempts = 0;
}

abbrev either : String → String → Bool
either i j = false

abbrev free : String → Bool
free i = false

-- A task is put in, and another under the same id; one is handed out and given back; and none is
-- left.
abbrev calls : List TaskCall
calls =
    enqueues none 5 task
    ∷ enqueues none 6 task
    ∷ takes either free commits
    ∷ nacks "" "one" 20 1
    ∷ takes either free commits
    ∷ []

heard : (e : Err) → commits ≢ unheard e
heard e same = ground (arith, same)

task_calls-counted_example :
    handed codec taken "" calls []
      + spoiled codec taken "" calls []
      + is_waiting "" (task_calls codec taken calls [])
    ≡ accepted codec taken "" calls [] + is_waiting {blob = Task} "" []
task_calls-counted_example =
    task_calls-counted codec taken calls [] "" (tt, (tt, (heard, (tt, (heard, tt)))))

handed-once : handed codec taken "" calls [] ≡ 1
unfolding handed task_call enqueue lookup take oldest delete
handed-once = refl

unnamed_task_calls-IsBlocking_example :
    IsBlocking codec taken none 9 task (task_calls codec taken (enqueues none 5 task ∷ []) [])
unnamed_task_calls-IsBlocking_example =
    unnamed_task_calls-IsBlocking codec taken (enqueues none 5 task ∷ []) none 9 task (refl, tt)
      refl

abbrev ctx : Context
ctx = record { done_at = some 150000000; reason = cancellation; has_engine = false }

abbrev table : Tasks Task
table = ("a", record { payload = task; created_at = 7 }) ∷ []

-- The row is locked until 100 ms have gone by.
dequeue-Returns_example :
    Returns codec either (λ t i. ltb t 100000000) (λ t. commits) 3 ctx "one" 40 0 table
dequeue-Returns_example =
    dequeue-Returns codec either (λ t i. ltb t 100000000) (λ t. commits) 2 ctx "one" 40 0 table
      150000000 refl (omega arith)
