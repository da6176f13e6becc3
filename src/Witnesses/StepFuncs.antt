-- ===== src/Witnesses/StepFuncs.antt =====
-- The library's own step functions.
use fluxo.Common.{
  ℕ, Option, ◌+◌, ◌-◌, ◌<◌, ◌≡◌, refl, Bool, true, none, some, List, [], ◌∷◌, ltb, arith, lookup,
}
use fluxo.Api.{
  running, completed, Value, null, user, slice, of_list, Outcome, ok, with_engine, background,
  canceled,
}
use fluxo.Store.{get_instance, get_workflow}
use fluxo.Engine.Upkeep.{inspect_instance}
use fluxo.World.{World, release_instance_lease}
use fluxo.Steps.{StepFunc}
use fluxo.Steps.Waits.{sleep_step, sleep_until_step, sleep_until_step-sleep_step}
use fluxo.Steps.Control.{Ran, while_step, while_step-returns}
use fluxo.Steps.Children.AnyFinished.{Chosen, wait_for_any_child_step-Chosen}
use fluxo.Steps.Children.{wait_for_children_step, wait_for_any_child_step}
use fluxo.Steps.Children.Finished.{Finished, wait_for_children_step-Finished}
use fluxo.Steps.Parallel.{
  Event, parent_ends, begins, returns, parallel_step, parallel_result, gathered,
}
use fluxo.Steps.Parallel.Results.{IsOutcome, parallel_step-IsOutcome}
use fluxo.Witnesses.{unary, env, eng, instance_in, world_in, world_of, store_in}

-- The number in a value of the program.
abbrev number : Value → ℕ
number (user t n) = n
number _ = 0

-- Takes the number down, and time with it.
abbrev countdown : StepFunc
countdown ctx v w = (record w { clock = w.clock + 1 }, ok (user 0 (number v - 1)))

abbrev is_positive : Value → Bool
is_positive v = ltb 0 (number v)

sleep_until_step-sleep_step_example :
    sleep_until_step 15 background null (world_in running)
    ≡ sleep_step 5 background null (world_in running)
sleep_until_step-sleep_step_example =
    sleep_until_step-sleep_step 15 background null (world_in running)

countdown-descends :
    (v next : Value) (w : World)
    → is_positive v ≡ true
    → (countdown background v w).1 ≡ ok next
    → number next < number v
countdown-descends v next w more out = ground (arith, more, out)

while_step-returns_example :
    (w' : World) × (out : Outcome) × (while_step 4
        (some is_positive)
        (some countdown)
        background
        (user 0 3)
        (world_in running)
      ≡ some (w', out))
    × Ran is_positive countdown background (user 0 3) (world_in running) w' out
while_step-returns_example =
    while_step-returns 4 is_positive countdown background (λ v w. number v) (user 0 3)
      (world_in running) countdown-descends (omega arith)

-- The child `i` has completed, with an output.
abbrev grown_up : World
grown_up = world_of (store_in (record (instance_in completed) { output = user 0 7 }))

wait_for_children_step-Finished_example :
    (vs : List Value) × (slice (of_list (user 0 7 ∷ [])) ≡ slice (of_list vs))
    × Finished grown_up ("i" ∷ []) vs
unfolding wait_for_children_step with_engine inspect_instance get_instance lookup get_workflow
    release_instance_lease
wait_for_children_step-Finished_example =
    wait_for_children_step-Finished env eng (λ v. "i" ∷ []) 0 (with_engine background) null
      (slice (of_list (user 0 7 ∷ []))) grown_up refl

wait_for_any_child_step-Chosen_example : Chosen grown_up ("i" ∷ []) "i"
unfolding wait_for_any_child_step with_engine inspect_instance get_instance lookup get_workflow
    release_instance_lease
wait_for_any_child_step-Chosen_example =
    wait_for_any_child_step-Chosen env eng (λ v. "i" ∷ []) 0 (with_engine background) null "i"
      grown_up refl

-- Two calls and a nil step, the second call returning first.
abbrev children : List (Option ℕ)
children = some 0 ∷ none ∷ some 1 ∷ []

abbrev crossed : List Event
crossed = begins 0 ∷ begins 2 ∷ returns 2 (user 0 8) ∷ returns 0 (user 0 7) ∷ []

parallel_step-IsOutcome_example : IsOutcome children null crossed none (
    gathered
      (parallel_result 0 (user 0 7) ∷ parallel_result 1 null ∷ parallel_result 2 (user 0 8) ∷ []))
unfolding parallel_step
parallel_step-IsOutcome_example =
    parallel_step-IsOutcome {S = ℕ} unary (some 0) (none ∷ some 1 ∷ []) none null crossed _ refl

-- The context ends after the call has begun, and the results come back all the same.
ended_meanwhile :
    parallel_step {S = ℕ} unary
      (some 0 ∷ [])
      none
      null
      (begins 0 ∷ parent_ends canceled ∷ returns 0 (user 0 7) ∷ [])
    ≡ some (gathered (parallel_result 0 (user 0 7) ∷ []))
unfolding parallel_step
ended_meanwhile = refl
