-- ===== src/Builder/Built.antt =====
-- builder.go: what a chain of calls builds, and what the engine then knows.
use mathlib.Core.List.{append_assoc, append-nil}
use fluxo.Common.{
  ℕ, ◌≡◌, refl, sym, ◌∙◌, ap, inl, inr, String, Bool, true, false, Option, none, some, List, [],
  ◌∷◌, ◌++◌, ◌&&◌, not, arith, is_blank, is_some, length, ◌==◌, if◌then◌else◌, Bool-cases,
}
use fluxo.Api.{RetryPolicy, StepDefinition, WorkflowDefinition, value, error, workflow_not_found}
use fluxo.Store.{get_workflow}
use fluxo.World.{World, Env}
use fluxo.Engine.Registry.{register_workflow}
use fluxo.Engine.Registration.{completed_definition, register_workflow-stored}
use fluxo.Builder.{
  new_flow, append_step, step, step_with_retry, BuilderCall, plain, retried, build, must_register,
}

-- A call that does not panic.
abbrev pub is_fine : BuilderCall → Bool
is_fine (plain name fn) = not (is_blank name) && is_some fn
is_fine (retried name fn retry) = not (is_blank name) && is_some fn

abbrev pub all_fine : List BuilderCall → Bool
all_fine [] = true
all_fine (c ∷ calls) = is_fine c && all_fine calls

-- The step that a call stands for.
abbrev pub made : BuilderCall → StepDefinition
made (plain name fn) = record { name = name; fn = fn; retry = none }
made (retried name fn retry) = record { name = name; fn = fn; retry = some retry }

abbrev pub all_made : List BuilderCall → List StepDefinition
all_made [] = []
all_made (c ∷ calls) = made c ∷ all_made calls

abbrev with_steps : WorkflowDefinition → List BuilderCall → WorkflowDefinition
with_steps def calls = record def { steps = def.steps ++ all_made calls }

-- What comes of a chain of calls: a panic, or a definition that the engine can register and finds.
abbrev pub IsBuilt : Env → String → List BuilderCall → World → Option WorkflowDefinition → Type 0
IsBuilt env name calls w none = all_fine calls ≡ false
IsBuilt env name calls w (some def) =
    (all_fine calls ≡ true)
    × (def.steps ≡ all_made calls)
    × ((w' : World) × (must_register env def w ≡ some w')
        × (found : WorkflowDefinition) × (get_workflow name "v1" w'.store ≡ value found)
        × (found.steps ≡ all_made calls))

append_step-made :
    (name : String) (fn : Option ℕ) (retry : Option RetryPolicy) (def : WorkflowDefinition)
    → append_step name fn retry def ≡ (
        if not (is_blank name) && is_some fn
        then some (record def {
          steps = def.steps ++ record { name = name; fn = fn; retry = retry } ∷ [];
        })
        else none)
unfolding append_step
append_step-made name none retry def = ground arith
append_step-made name (some f) retry def = ground arith

-- One more call before others.
build-step :
    (c : BuilderCall) (calls : List BuilderCall) (def : WorkflowDefinition)
    → build (c ∷ calls) def
      ≡ (if is_fine c then build calls (record def { steps = def.steps ++ made c ∷ [] }) else none)
unfolding build step step_with_retry
build-step (plain name none) calls def = ground arith
build-step (plain name (some f)) calls def = ground arith
build-step (retried name none retry) calls def = ground arith
build-step (retried name (some f) retry) calls def = ground arith

build-made :
    (calls : List BuilderCall) (def : WorkflowDefinition)
    → build calls def ≡ (if all_fine calls then some (with_steps def calls) else none)
unfolding build
build-made [] def = ap (λ l. some (record def { steps = l })) (sym (append-nil def.steps))
build-made (c ∷ calls) def = elim (Bool-cases (is_fine c)) [
  | inr bad ↦ build-step c calls def ∙ rw bad refl
  | inl fine ↦
      let def' : WorkflowDefinition = record def { steps = def.steps ++ made c ∷ [] } in
      let joined = append_assoc def.steps (made c ∷ []) (all_made calls) in
      build-step c calls def
      ∙ rw fine (
          build-made calls def'
          ∙ ap (λ l. if all_fine calls then some (record def { steps = l }) else none) joined)
]

length-all_made : (calls : List BuilderCall) → length (all_made calls) ≡ length calls
length-all_made [] = refl
length-all_made (c ∷ calls) = omega (arith, length-all_made calls)

-- A registration without an error.
must_register-found :
    (env : Env) (def : WorkflowDefinition) (w : World)
    → (register_workflow env def w).1 ≡ none
    → must_register env def w ≡ some (register_workflow env def w).0
unfolding must_register
must_register-found env def w done = ground (arith, done)

chosen-IsBuilt :
    (env : Env) (name : String) (calls : List BuilderCall) (w : World)
    → is_blank name ≡ false
    → (length calls == 0) ≡ false
    → get_workflow name "v1" w.store ≡ error workflow_not_found
    → (b : Bool) → all_fine calls ≡ b
    → IsBuilt env name calls w (if b then some (with_steps (new_flow name) calls) else none)
unfolding new_flow
chosen-IsBuilt env name calls w named some_calls free false bad = bad
chosen-IsBuilt env name calls w named some_calls free true fine =
    let def : WorkflowDefinition = with_steps (new_flow name) calls in
    let stepped : (length def.steps == 0) ≡ false = rw (length-all_made calls) some_calls in
    let (done, found) = register_workflow-stored env def w (named, stepped) free in
    let w' : World = (register_workflow env def w).0 in
    let entry : WorkflowDefinition = completed_definition env def in
    (fine, refl, (w', must_register-found env def w done, entry, found, refl))

-- A flow built by a chain of calls and registered: the chain panics exactly if one of its calls has
-- a blank name or a nil function; and where it does not, its name is not blank and the chain not
-- empty, and the name is free for version "v1", `MustRegister` does not panic, and the engine finds
-- the flow under that name and version, with a step for each call, in order, and its retry policy.
pub must_register-IsBuilt :
    (env : Env) (name : String) (calls : List BuilderCall) (w : World)
    → is_blank name ≡ false
    → (length calls == 0) ≡ false
    → get_workflow name "v1" w.store ≡ error workflow_not_found
    → IsBuilt env name calls w (build calls (new_flow name))
must_register-IsBuilt env name calls w named some_calls free =
    rw (build-made calls (new_flow name))
      (chosen-IsBuilt env name calls w named some_calls free (all_fine calls) refl)
