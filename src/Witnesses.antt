-- ===== src/Witnesses.antt =====
-- Concrete runs: a small engine, store and queue, on which the theorems' hypotheses hold. The
-- children apply the theorems to them.
mod Runs
mod Stores
mod Queues
mod Databases
mod PostgresQueues
mod RedisQueues
mod Builders
mod Workers
mod StepFuncs
use Prim.Native.String.{len}
use package.text.Mathlib.TextPositions.{len-append}
use fluxo.Common.{
  ℕ, zero, suc, ◌+◌, ◌≡◌, refl, sym, ap, ◌∙◌, String, str_append, Bool, true, false, Option, none,
  some, List, [], ◌∷◌, ltb, ◌==◌, ◌==ₛ◌, ◌≢◌, eq_iff, false≢true, if◌then◌else◌, arith, length,
}
use fluxo.Api.{
  Status, running, failed, waiting, Value, null, Err, message, Outcome, ok, fail, Context,
  background, RetryPolicy, StepDefinition, WorkflowDefinition, WorkflowInstance,
}
use fluxo.Api.Fingerprint.{Toolchain}
use fluxo.Store.{Store, allocate, save_instance, save_workflow, new_store}
use fluxo.World.{World, EngineConfig, Env}
use fluxo.Engine.Starts.{new_instance}

-- A number in unary, which no other number shares.
pub unary : ℕ → String
unary zero = ""
unary (suc n) = str_append "x" (unary n)

unary-len : (n : ℕ) → len (unary n) ≡ n
unfolding unary
unary-len zero = refl
unary-len (suc n) = len-append "x" (unary n) ∙ omega (arith, unary-len n)

pub unary-injective : (m n : ℕ) → unary m ≡ unary n → m ≡ n
unary-injective m n e = sym (unary-len m) ∙ ap len e ∙ unary-len n

abbrev pub boom : Err
boom = message "boom" []

-- Function 0 returns a text, and every other one fails.
abbrev pub env : Env
env = record {
  step_fn = λ fn ctx v w. (w, if fn == 0 then ok (Value.text "done") else fail boom);
  toolchain = record {
    build_info = record { revision = ""; modified = false; module_path = ""; version = "" };
    func_for_pc = unary;
    digest = λ payload. unary (length payload.steps);
  };
  format_id = unary;
  format_int = unary;
  error_text = λ e. "error";
  scale = λ d m. d + d;
  is_positive = λ m. ltb 0 m;
  two = 2;
}

abbrev pub eng : EngineConfig
eng = record { engine_id = "one"; lease_ttl = 100; has_events = true }

abbrev pub good_step : StepDefinition
good_step = record { name = "good"; fn = some 0; retry = none }

abbrev pub bad_step : StepDefinition
bad_step = record {
  name = "bad";
  fn = some 1;
  retry = some (record {
    max_attempts = 3;
    backoff = 0;
    initial_backoff = 5;
    max_backoff = 8;
    backoff_multiplier = 2;
  });
}

abbrev pub flow : WorkflowDefinition
flow = record {
  name = "flow";
  version = "v1";
  fingerprint = "f";
  steps = good_step ∷ bad_step ∷ [];
}

abbrev pub instance_in : Status → WorkflowInstance
instance_in st = new_instance "i" flow st null

abbrev pub world_of : Store → World
world_of s = record { store = s; queue = none; clock = 10; next_id = 0; observed = [] }

-- One instance `i`, in cell 0, of one workflow.
abbrev pub store_in : WorkflowInstance → Store
store_in inst = record {
  cell = λ q. inst;
  next_ref = 1;
  workflows = ("flow", ("v1", flow) ∷ []) ∷ [];
  instances = ("i", 0) ∷ [];
  events = [];
}

abbrev pub world_in : Status → World
world_in st = world_of (store_in (instance_in st))

abbrev pub other_flow : WorkflowDefinition
other_flow = record flow { fingerprint = "g" }

pub texts_differ : (a b : String) → (a ==ₛ b) ≡ false → a ≢ b
texts_differ a b h e = false≢true (sym h ∙ (eq_iff a b).1 e)
