-- ===== src/Witnesses/Builders.antt =====
-- Flows and retry policies as the fluent interface builds them.
use fluxo.Common.{◌+◌, refl, none, some, List, [], ◌∷◌, ◌==◌, if◌then◌else◌, arith, lookup}
use fluxo.Api.{failed, fail, null, background, StepDefinition}
use fluxo.Store.{get_workflow}
use fluxo.World.{Env}
use fluxo.Builder.{new_flow, BuilderCall, plain, retried, build}
use fluxo.Builder.Built.{IsBuilt, must_register-IsBuilt}
use fluxo.Builder.Retry.{retry, with_constant_backoff, immediate, Takes, run_step-retry}
use fluxo.Witnesses.{env, eng, boom, world_in}

-- A multiplier of 1 leaves a delay as it is, and every other one doubles it. Each call takes 5 and
-- fails.
abbrev failing_env : Env
failing_env = record env {
  scale = λ d m. if m == 1 then d else d + d;
  step_fn = λ fn ctx v w. (record w { clock = w.clock + 5 }, fail boom);
}

abbrev bad_step : StepDefinition
bad_step = record { name = "bad"; fn = some 0; retry = none }

run_step-retry_example :
    let constant = with_constant_backoff 1 7 (retry 4) in
    Takes failing_env eng background 0 0 boom
      (record bad_step { retry = some constant })
      null
      (world_in failed)
      41
    × Takes failing_env eng background 0 0 boom
        (record bad_step { retry = some (immediate constant) })
        null
        (world_in failed)
        20
unfolding background
run_step-retry_example =
    run_step-retry failing_env eng background 0 0 0 5 1 4 7 boom bad_step null (world_in failed)
      refl refl (λ ctx v w. (refl, refl)) refl refl refl (λ m. ground arith)

abbrev chain : List BuilderCall
chain = plain "first" (some 0) ∷ retried "second" (some 1) (retry 3) ∷ []

must_register-IsBuilt_example :
    IsBuilt env "new" chain (world_in failed) (build chain (new_flow "new"))
unfolding get_workflow lookup
must_register-IsBuilt_example =
    must_register-IsBuilt env "new" chain (world_in failed) refl refl refl
