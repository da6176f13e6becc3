-- ===== src/Witnesses/Runs.antt =====
-- Runs of the engine.
use fluxo.Common.{refl, some, [], ◌∷◌, lookup_int, arith}
use fluxo.Api.{running, null, Value, background}
use fluxo.Store.{or_empty}
use fluxo.World.{World, deref}
use fluxo.Execute.{Exit, Retries, execute_steps, run_step, retries_of}
use fluxo.Execute.Exits.{Ended, execute_steps-Ended}
use fluxo.Execute.Cached.{Replayed, last_cached, execute_steps-AllCached}
use fluxo.Execute.Results.{Progress, execute_steps-Progress}
use fluxo.Execute.Attempts.{Spent, called, run_step-Spent}
use fluxo.Witnesses.{env, eng, flow, bad_step, instance_in, world_in, world_of, store_in}

abbrev flow_run : World × Exit
flow_run = execute_steps env eng background 0 flow 0 null (world_in running)

execute_steps-Ended_example : Ended 2 (deref 0 flow_run.0) flow_run.1
execute_steps-Ended_example =
    execute_steps-Ended env eng background 0 flow 0 null (world_in running)

-- The instance after both steps have left a result.
abbrev cached_world : World
cached_world = world_of (
    store_in (record (instance_in running) {
      step_results = some ((0, Value.text "a") ∷ (1, Value.text "b") ∷ []);
    }))

execute_steps-AllCached_example :
    Replayed env eng background 0 2
      (last_cached (or_empty (deref 0 cached_world).step_results) 0 flow.steps null)
      cached_world
      (execute_steps env eng background 0 flow 0 null cached_world)
unfolding lookup_int
execute_steps-AllCached_example =
    execute_steps-AllCached env eng background 0 flow 0 null cached_world
      ((Value.text "a", refl), ((Value.text "b", refl), tt))

execute_steps-Progress_example : Progress 0 0 2 (world_in running) flow_run.0 flow_run.1
execute_steps-Progress_example =
    execute_steps-Progress env eng background 0 (λ fn ctx v w. refl) flow 0 null (world_in running)
      (omega arith)

run_step-Spent_example :
    Spent env eng background 0 1 bad_step
      (λ fn ctx v w. refl)
      (called (world_in running))
      3
      (run_step env eng background 0 1 bad_step null (world_in running))
unfolding retries_of
run_step-Spent_example =
    run_step-Spent env eng background 0 1 bad_step (λ fn ctx v w. refl) null (world_in running)

abbrev retries : Retries
retries = retries_of env bad_step.retry
