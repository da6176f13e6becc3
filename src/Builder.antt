-- ===== src/Builder.antt =====
-- builder.go: `FlowBuilder`.
--
-- A builder is its definition; a panic is `none`. A function that may be nil is an `Option`, and is
-- a code pointer here as in the steps of a definition: the methods that make a step function of
-- their own (`Parallel`, `While`, `Loop`, `If`, `Switch`, `WaitForSignal`) hand its pointer to
-- `Step`.
pub mod Retry
pub mod Built
use fluxo.Common.{
  ℕ, String, Bool, true, false, Option, none, some, List, [], ◌∷◌, ◌++◌, is_blank, if◌then◌else◌,
}
use fluxo.Api.{RetryPolicy, StepDefinition, WorkflowDefinition, Err}
use fluxo.World.{World, Env}
use fluxo.Engine.Registry.{register_workflow}

-- `New`.
unfoldable pub new_flow : String → WorkflowDefinition
new_flow name = record { name = name; version = ""; fingerprint = ""; steps = [] }

-- `Step` and `StepWithRetry` with what the two share: the tests and the append.
unfoldable pub append_step :
    String → Option ℕ → Option RetryPolicy → WorkflowDefinition → Option WorkflowDefinition
append_step name fn retry def = if is_blank name then none else elim fn [
  | none ↦ none
  | some f ↦
      some (record def {
        steps = def.steps ++ record { name = name; fn = some f; retry = retry } ∷ [];
      })
]

unfoldable pub step : String → Option ℕ → WorkflowDefinition → Option WorkflowDefinition
unfolding append_step
step name fn def = append_step name fn none def

unfoldable pub step_with_retry :
    String → Option ℕ → RetryPolicy → WorkflowDefinition → Option WorkflowDefinition
unfolding append_step
step_with_retry name fn retry def = append_step name fn (some retry) def

-- A call of the builder.
pub data BuilderCall : Type 0 where
  plain : String → Option ℕ → BuilderCall
  retried : String → Option ℕ → RetryPolicy → BuilderCall

-- A chain of calls.
unfoldable pub build : List BuilderCall → WorkflowDefinition → Option WorkflowDefinition
build [] def = some def
build (plain name fn ∷ calls) def = elim (step name fn def) [
  | none ↦ none
  | some def' ↦ build calls def'
]
build (retried name fn retry ∷ calls) def = elim (step_with_retry name fn retry def) [
  | none ↦ none
  | some def' ↦ build calls def'
]

-- `MustRegister`: an error is a panic.
unfoldable pub must_register : Env → WorkflowDefinition → World → Option World
must_register env def w =
    let (w', e) = register_workflow env def w in elim e [ none ↦ some w' | some _ ↦ none ]
