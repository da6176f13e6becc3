-- ===== src/Execute/Waiting.antt =====
-- engine_impl.go, `executeSteps`: how long a step takes that fails on every attempt.
use fluxo.Common.{ℕ, zero, suc, ◌+◌, ◌-◌, ◌*◌, ◌≡◌, refl, ◌∙◌, false, some, arith}
use fluxo.Api.{Value, Err, fail, Context, with_engine, StepDefinition, step_started}
use fluxo.Api.Errors.{is_wait}
use fluxo.World.{
  World, EngineConfig, Env, deref, notify, assign, update, emit_event, on_step_start,
  on_step_completed,
}
use fluxo.World.Cells.{clocks}
use fluxo.Execute.Attempts.{IsEndless, endless-live, retries-pos}
use fluxo.Execute.{
  failure, stopped, erred, elapsed, Retries, retries_of, delay_of, next_backoff, call, park_or_err,
  after_call, try_step, pause, back_off, give_up, run_attempts, run_step,
}

-- The step function fails with `e` each time, after `cost`.
abbrev pub AlwaysFails : Env → ℕ → Err → ℕ → Type 0
AlwaysFails env fn e cost =
    (ctx : Context) (v : Value) (w : World)
    → ((env.step_fn fn ctx v w).1 ≡ fail e) × ((env.step_fn fn ctx v w).0.clock ≡ w.clock + cost)

-- Settings whose delay is `d` and stays so.
abbrev pub IsSteady : Env → ℕ → Retries → Type 0
IsSteady env d b = (b.backoff ≡ d) × (b.max_backoff ≡ 0) × (env.scale d b.multiplier ≡ d)

module _ (env : Env) (eng : EngineConfig) (ctx : Context) (r i : ℕ) (step : StepDefinition)
    (endless : IsEndless ctx) where
  back_off-IsSteady :
      (b : Retries) (d : ℕ) (w : World)
      → IsSteady env d b
      → ((back_off env eng ctx r i step b w).1 ≡ elapsed)
        × ((back_off env eng ctx r i step b w).0.clock ≡ w.clock + d)
        × IsSteady env d (back_off env eng ctx r i step b w).2
  unfolding back_off pause delay_of next_backoff
  back_off-IsSteady b d w (first, uncapped, steady) =
      let live = endless-live ctx (w.clock + d) endless in
      ground (arith, first, uncapped, steady, live)

  module _ (fn cost : ℕ) (e : Err) (called : step.fn ≡ some fn) (fails : AlwaysFails env fn e cost)
      (no_wait : is_wait e ≡ false) where
    park_or_err-erred : (w : World) → park_or_err env eng ctx r i step e w ≡ (w, erred e)
    unfolding park_or_err
    park_or_err-erred w = ground (arith, no_wait)

    try_step-fails :
        (current : Value) (w : World)
        → ((try_step env eng ctx r i step current w).1 ≡ erred e)
          × ((try_step env eng ctx r i step current w).0.clock ≡ w.clock + cost)
    unfolding try_step call after_call
    try_step-fails current w =
        let w1 = notify (on_step_start (deref r w).id step.name i) w in
        let (failed, time) = fails (with_engine ctx) current w1 in
        let w2 = (env.step_fn fn (with_engine ctx) current w1).0 in
        let w3 = notify (on_step_completed (deref r w2).id step.name i (fail e)) w2 in
        rw (endless-live ctx w.clock endless, called, failed, park_or_err-erred w3, try_step)
          (refl, simp clocks (time ∙ simp clocks refl))

    give_up-clock : (w : World) → (give_up env eng ctx r i step e w).clock ≡ w.clock
    unfolding give_up
    give_up-clock w = simp clocks refl

    -- The inner loop, with `left` attempts to come after the next one.
    run_attempts-waits :
        (left : ℕ) (b : Retries) (d : ℕ) (current : Value) (w : World)
        → IsSteady env d b
        → ((run_attempts env eng ctx r i step left b current w).1 ≡ stopped (failure e))
          × ((run_attempts env eng ctx r i step left b current w).0.clock
              ≡ w.clock + (left * d + suc left * cost))
    unfolding run_attempts
    run_attempts-waits zero b d current w steady =
        let (failed, time) = try_step-fails current w in
        let w1 = (try_step env eng ctx r i step current w).0 in
        rw (failed, run_attempts) (refl, give_up-clock w1 ∙ time ∙ omega arith)
    run_attempts-waits (suc left) b d current w steady =
        let (failed, time) = try_step-fails current w in
        let w1 = (try_step env eng ctx r i step current w).0 in
        let (paused, waited, steady') = back_off-IsSteady b d w1 steady in
        let (w2, p, b') = back_off env eng ctx r i step b w1 in
        let (ends, later) = run_attempts-waits left b' d current w2 steady' in
        rw (failed, paused, run_attempts) (ends, later ∙ grind (arith, time, waited))

    announced-clock :
        (w : World)
        → (emit_event eng r step_started
            (some i)
            step.name
            (update r (assign r (λ inst. record inst { current_step = i }) w))).clock
          ≡ w.clock
    announced-clock w = simp clocks refl

    -- With a context that has no end, and settings whose delay is `d` and stays so: a step whose
    -- function takes `cost` and fails each time, with an error that parks nothing, fails after all
    -- attempts that its policy allows, and takes the time of those and `d` between any two of them.
    pub run_step-waits :
        (d : ℕ) (current : Value) (w : World)
        → IsSteady env d (retries_of env step.retry)
        → let m = (retries_of env step.retry).max_attempts in
          ((run_step env eng ctx r i step current w).1 ≡ stopped (failure e))
          × ((run_step env eng ctx r i step current w).0.clock ≡ w.clock + ((m - 1) * d + m * cost))
    unfolding run_step
    run_step-waits d current w steady =
        let b = retries_of env step.retry in
        let some_attempt : suc (b.max_attempts - 1) ≡ b.max_attempts =
          omega (arith, retries-pos env step.retry) in
        let (ends, later) = run_attempts-waits (b.max_attempts - 1) b d current _ steady in
        (ends, later ∙ rw (announced-clock w, some_attempt) refl)
