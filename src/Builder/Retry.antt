-- ===== src/Builder/Retry.antt =====
-- retry.go: `RetryBuilder`, and what its policies mean to the engine.
use fluxo.Common.{ℕ, ◌+◌, ◌-◌, ◌*◌, ◌≡◌, ◌∙◌, false, refl, true, some, ◌==◌, arith, if◌then◌else◌}
use fluxo.Api.{RetryPolicy, Value, Err, Context, StepDefinition}
use fluxo.Api.Errors.{is_wait}
use fluxo.World.{Env, EngineConfig, World}
use fluxo.Execute.{failure, stopped, retries_of, run_step}
use fluxo.Execute.Attempts.{IsEndless}
use fluxo.Execute.Waiting.{AlwaysFails, IsSteady, run_step-waits}

-- `Retry`.
unfoldable pub retry : ℕ → RetryPolicy
retry max_attempts = record {
  max_attempts = if max_attempts == 0 then 1 else max_attempts;
  backoff = 0;
  initial_backoff = 0;
  max_backoff = 0;
  backoff_multiplier = 0;
}

module _ (env : Env) where
  unfoldable pub with_exponential_backoff : ℕ → ℕ → ℕ → RetryPolicy → RetryPolicy
  with_exponential_backoff initial multiplier top p = record p {
    initial_backoff = initial;
    max_backoff = top;
    backoff_multiplier = if env.is_positive multiplier then multiplier else env.two;
  }

-- `one` is the float64 1.0.
module _ (one : ℕ) where
  unfoldable pub with_constant_backoff : ℕ → RetryPolicy → RetryPolicy
  with_constant_backoff delay p = record p {
    initial_backoff = delay;
    max_backoff = 0;
    backoff_multiplier = one;
  }

-- The bits of the float64 0.0 are 0.
unfoldable pub immediate : RetryPolicy → RetryPolicy
immediate p = record p { initial_backoff = 0; max_backoff = 0; backoff_multiplier = 0; backoff = 0 }

-- The step fails with `e`, after that time.
abbrev pub Takes :
    Env → EngineConfig → Context → ℕ → ℕ → Err → StepDefinition → Value → World → ℕ → Type 0
Takes env eng ctx r i e step current w time =
    ((run_step env eng ctx r i step current w).1 ≡ stopped (failure e))
    × ((run_step env eng ctx r i step current w).0.clock ≡ w.clock + time)

module _ (env : Env) where
  constant-attempts :
      (one n delay : ℕ)
      → (retries_of env (some (with_constant_backoff one delay (retry n)))).max_attempts
        ≡ (if n == 0 then 1 else n)
  unfolding retries_of with_constant_backoff retry
  constant-attempts one n delay = ground arith

  immediate-attempts :
      (one n delay : ℕ)
      → (retries_of env (some (immediate (with_constant_backoff one delay (retry n))))).max_attempts
        ≡ (if n == 0 then 1 else n)
  unfolding retries_of with_constant_backoff retry immediate
  immediate-attempts one n delay = ground arith

  constant-IsSteady :
      (one n delay : ℕ)
      → env.is_positive one ≡ true
      → env.scale delay one ≡ delay
      → IsSteady env delay (retries_of env (some (with_constant_backoff one delay (retry n))))
  unfolding retries_of with_constant_backoff retry
  constant-IsSteady one n delay positive same = (ground arith, refl, ground (arith, positive, same))

  immediate-IsSteady :
      (p : RetryPolicy)
      → ((m : ℕ) → env.scale 0 m ≡ 0)
      → IsSteady env 0 (retries_of env (some (immediate p)))
  unfolding retries_of immediate
  immediate-IsSteady p zero_stays = (refl, refl, zero_stays _)

  -- Where 1.0 is positive and leaves a delay as it is, and 0 stays 0 under every multiplier, and the
  -- context has no end: a step whose function takes `cost` and fails each time, with an error that
  -- parks nothing, fails under a policy built by `Retry(n)` with a constant backoff after n calls,
  -- or one for an n of 0, and that delay between any two of them; and under the same policy made
  -- immediate, after as many calls and no delay.
  pub run_step-retry :
      (eng : EngineConfig) (ctx : Context) (r i fn cost one n delay : ℕ) (e : Err)
      (step : StepDefinition) (current : Value) (w : World)
      → IsEndless ctx
      → step.fn ≡ some fn
      → AlwaysFails env fn e cost
      → is_wait e ≡ false
      → env.is_positive one ≡ true
      → env.scale delay one ≡ delay
      → ((m : ℕ) → env.scale 0 m ≡ 0)
      → let constant = with_constant_backoff one delay (retry n) in
        let m = if n == 0 then 1 else n in
        Takes env eng ctx r i e
          (record step { retry = some constant })
          current
          w
          ((m - 1) * delay + m * cost)
        × Takes env eng ctx r i e
            (record step { retry = some (immediate constant) })
            current
            w
            (m * cost)
  run_step-retry eng ctx r i fn cost one n delay e step current w endless called fails no_wait
        positive same zero_stays =
      let constant = with_constant_backoff one delay (retry n) in
      let s1 : StepDefinition = record step { retry = some constant } in
      let s2 : StepDefinition = record step { retry = some (immediate constant) } in
      let (ends1, time1) =
        run_step-waits env eng ctx r i s1 endless fn cost e called fails no_wait delay current w
          (constant-IsSteady one n delay positive same) in
      let (ends2, time2) =
        run_step-waits env eng ctx r i s2 endless fn cost e called fails no_wait 0 current w
          (immediate-IsSteady constant zero_stays) in
      (
        (ends1, rw (constant-attempts one n delay) at time1),
        (ends2, rw (immediate-attempts one n delay) at time2 ∙ omega arith),
      )
