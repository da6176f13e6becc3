-- ===== src/Worker/EngineHost.antt =====
-- How bundle.go and the users of pkg/worker put a worker and the engine of engine_impl.go together:
-- with a queue that the engine enqueues on too, or with one of the worker's own.
use fluxo.Common.{refl, ℕ, String, Bool, true, false, List, Option, none, some}
use fluxo.Queue.{InMemoryQueue}
use fluxo.World.{World, EngineConfig, Env, deref}
use fluxo.Engine.{Reply}
use fluxo.Engine.Starts.{run, run_instance}
use fluxo.Engine.Resumes.{signal_workflow, signal_now, resume_workflow, resume_now}
use fluxo.Worker.Heartbeat.{IsLawful}
use fluxo.Worker.{Answer, Beat, Host}

abbrev pub State : Type 0
State = World × InMemoryQueue

-- `inst.ID`, for an instance that is not nil.
abbrev id_of : World → Option ℕ → Option String
id_of w none = none
id_of w (some r) = some (deref r w).id

abbrev pub queue_or : InMemoryQueue → Option InMemoryQueue → InMemoryQueue
queue_or q none = q
queue_or q (some q') = q'

-- A call of the engine. A shared queue is the engine's while it runs.
abbrev pub engine_call : Bool → (World → Reply) → State → Answer State
engine_call true f (w, q) =
    let (w', inst, x) = f (record w { queue = some q }) in
    ((w', queue_or q w'.queue), id_of w' inst, x)
engine_call false f (w, q) = let (w', inst, x) = f w in ((w', q), id_of w' inst, x)

abbrev pub engine_host : Env → EngineConfig → (ℕ → List Beat) → Bool → Host State
engine_host env eng others shared = record {
  queue = λ (w, q). q;
  set_queue = λ q' (w, q). (w, q');
  clock = λ (w, q). w.clock;
  set_clock = λ now (w, q). (record w { clock = now }, q);
  run = λ ctx name input. engine_call shared (run env eng ctx name input);
  signal = λ ctx id name payload. engine_call shared (signal_workflow env eng ctx id name payload);
  resume = λ ctx id. engine_call shared (resume_workflow env eng ctx id);
  direct = some (record {
    run_instance = λ ctx id. engine_call shared (run_instance env eng ctx id);
    signal_now = λ ctx id name payload. engine_call shared (signal_now env eng ctx id name payload);
    resume_now = λ ctx id. engine_call shared (resume_now env eng ctx id);
  });
  format_int = env.format_int;
  others = others;
}

pub engine_host-IsLawful :
    (env : Env) (eng : EngineConfig) (others : ℕ → List Beat) (shared : Bool)
    → IsLawful (engine_host env eng others shared)
engine_host-IsLawful env eng others shared = record {
  queue-set_queue = λ q s. refl;
  clock-set_queue = λ q s. refl;
}
