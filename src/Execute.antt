-- ===== src/Execute.antt =====
-- internal/engine/engine_impl.go: `executeSteps`, the loop that runs the steps of an instance.
--
-- `inst` is a reference `r` into the store's heap. The body of the two nested `for` loops is cut
-- at its `return`s: `try_step` is one attempt up to the test of the attempts, `run_attempts` is
-- the inner loop over the attempts that are left, `run_steps` the outer one over the steps that
-- are left. Both recur on what is left, so they need no fuel.
pub mod Exits
pub mod Rules
pub mod Cached
pub mod Results
pub mod Attempts
pub mod Waiting
use fluxo.Common.{
  ℕ, zero, suc, ◌+◌, ◌-◌, String, str_append, Bool, true, false, Option, none, some, List, [], ◌∷◌,
  ltb, leb, ◌==◌, ◌&&◌, if◌then◌else◌, lookup_int, insert_int, length, drop,
}
use fluxo.Api.{
  Status, running, completed, failed, waiting, Value, wait_meta, Err, Outcome, ok, fail, panic,
  Context, ctx_err, with_engine, reason_err, background, RetryPolicy, StepDefinition,
  WorkflowDefinition, WorkflowInstance, EventType, workflow_waiting, workflow_completed,
  workflow_failed, step_started, step_completed, step_failed,
}
use fluxo.Api.Errors.{wait_for_signal_meta, is_wait_for_children_error, is_wait_for_any_child_error}
use fluxo.Store.{or_empty}
use fluxo.World.{
  World, EngineConfig, Env, on_workflow_completed, on_workflow_failed, on_step_start,
  on_step_completed, deref, assign, update, notify, emit_event, renew_instance_lease,
  release_instance_lease,
}

-- How `executeSteps` ends: `return inst, nil`, `return inst, err`, or by a panic.
pub data Exit : Type 0 where
  success : Exit
  failure : Err → Exit
  panicked : Exit

-- How an attempt ends: with the step's value, by a `return` of `executeSteps`, or with an error
-- that a further attempt may mend.
pub data Attempt : Type 0 where
  succeeded : Value → Attempt
  stopped : Exit → Attempt
  erred : Err → Attempt

-- How the wait between two attempts ends.
pub data Pause : Type 0 where
  elapsed : Pause
  ended : Err → Pause

-- The variables that the retry policy sets.
pub record Retries : Type 0 where
  pub max_attempts : ℕ
  pub backoff : ℕ
  pub max_backoff : ℕ
  pub multiplier : ℕ

abbrev pub no_retries : Retries
no_retries = record { max_attempts = 1; backoff = 0; max_backoff = 0; multiplier = 0 }

module _ (env : Env) where
  unfoldable pub retries_of : Option RetryPolicy → Retries
  retries_of none = no_retries
  retries_of (some p) = record {
    max_attempts = if ltb 0 p.max_attempts then p.max_attempts else 1;
    backoff = if p.initial_backoff == 0 then p.backoff else p.initial_backoff;
    max_backoff = p.max_backoff;
    multiplier = if env.is_positive p.backoff_multiplier then p.backoff_multiplier else env.two;
  }

  -- The delay before the next attempt.
  unfoldable pub delay_of : Retries → ℕ
  delay_of b =
      if ltb 0 b.max_backoff && ltb b.max_backoff b.backoff then b.max_backoff else b.backoff

  -- "Increase backoff for the next retry."
  unfoldable pub next_backoff : Retries → Retries
  next_backoff b =
      if env.is_positive b.multiplier
      then (let grown = env.scale b.backoff b.multiplier in
          if ltb 0 b.max_backoff && ltb b.max_backoff grown
          then record b { backoff = b.max_backoff }
          else record b { backoff = grown })
      else b

  -- The call `step.Fn(stepCtx, current)`; a nil function panics.
  unfoldable pub call : Option ℕ → Context → Value → World → World × Outcome
  call none ctx input w = (w, panic)
  call (some fn) ctx input w = env.step_fn fn ctx input w

  -- `step.Name + ": " + err.Error()`.
  abbrev pub failure_detail : StepDefinition → Err → String
  failure_detail step e = str_append step.name (str_append ": " (env.error_text e))

  module _ (eng : EngineConfig) (ctx : Context) (r : ℕ) (i : ℕ) (step : StepDefinition) where
    -- The context ended before an attempt.
    unfoldable pub cancel_attempt : Err → World → World
    cancel_attempt e w =
        let w1 = update r (assign r (λ inst. record inst { status = failed; err = some e }) w) in
        let w2 = emit_event eng r step_failed (some i) (failure_detail step e) w1 in
        let w3 = emit_event eng r workflow_failed none (env.error_text e) w2 in
        notify (on_workflow_failed (deref r w3).id e) w3

    -- The context ended during the backoff.
    unfoldable pub cancel_backoff : Err → World → World
    cancel_backoff e w =
        let w1 = update r (assign r (λ inst. record inst { status = failed; err = some e }) w) in
        let w2 = emit_event eng r step_failed (some i) (failure_detail step e) w1 in
        emit_event eng r workflow_failed none (env.error_text e) w2

    -- The step returned a value: it is cached.
    unfoldable pub record_result : Value → World → World
    record_result next w =
        let w1 = update r (
          assign r
            (λ inst. record inst {
              step_results = some (insert_int i next (or_empty inst.step_results));
            })
            w) in
        emit_event eng r step_completed (some i) step.name w1

    park_on_signal : Bool → World → World
    park_on_signal return_payload w =
        let w1 = update r (
          assign r
            (λ inst. record inst {
              status = waiting;
              err = none;
              output = wait_meta "signal" return_payload;
            })
            w) in
        let w2 = emit_event eng r workflow_waiting (some i) step.name w1 in
        release_instance_lease eng (deref r w2).id w2

    park_on_children : World → World
    park_on_children w =
        let w1 = update r (assign r (λ inst. record inst { status = waiting; err = none }) w) in
        let w2 = emit_event eng r workflow_waiting (some i) step.name w1 in
        release_instance_lease eng (deref r w2).id w2

    -- This one writes no event.
    park_on_any_child : World → World
    park_on_any_child w =
        let w1 = update r (assign r (λ inst. record inst { status = waiting; err = none }) w) in
        release_instance_lease eng (deref r w1).id w1

    -- The three tests for an error that parks the instance.
    unfoldable pub park_or_err : Err → World → World × Attempt
    unfolding park_on_signal park_on_children park_on_any_child
    park_or_err e w = elim (wait_for_signal_meta e) [
      | some (name, return_payload) ↦ (park_on_signal return_payload w, stopped (failure e))
      | none ↦
          if is_wait_for_children_error e
          then (park_on_children w, stopped (failure e))
          else if is_wait_for_any_child_error e
          then (park_on_any_child w, stopped (failure e))
          else (w, erred e)
    ]

    -- The last allowed attempt failed.
    unfoldable pub give_up : Err → World → World
    give_up e w =
        let w1 = update r (assign r (λ inst. record inst { status = failed; err = some e }) w) in
        let w2 = emit_event eng r step_failed (some i) (failure_detail step e) w1 in
        let w3 = emit_event eng r workflow_failed none (env.error_text e) w2 in
        let w4 = notify (on_workflow_failed (deref r w3).id e) w3 in
        release_instance_lease eng (deref r w4).id w4

    -- What follows the call of the step function.
    unfoldable pub after_call : Outcome → World → World × Attempt
    unfolding record_result park_or_err
    after_call panic w = (w, stopped panicked)
    after_call (ok next) w =
        let w1 = notify (on_step_completed (deref r w).id step.name i (ok next)) w in
        (record_result next w1, succeeded next)
    after_call (fail e) w =
        park_or_err e (notify (on_step_completed (deref r w).id step.name i (fail e)) w)

    -- One attempt, up to the test `attempt == maxAttempts`.
    unfoldable pub try_step : Value → World → World × Attempt
    unfolding cancel_attempt call after_call
    try_step current w = elim (ctx_err ctx w.clock) [
      | some e ↦ (cancel_attempt e w, stopped (failure e))
      | none ↦
          let w1 = notify (on_step_start (deref r w).id step.name i) w in
          let (w2, out) = call step.fn (with_engine ctx) current w1 in after_call out w2
    ]

    -- `select` between the context's end and `time.After(delay)`. Where both are ready Go takes
    -- either; here the context's end wins.
    unfoldable pub pause : ℕ → World → World × Pause
    pause delay w = elim (ctx_err ctx (w.clock + delay)) [
      | some e ↦ (cancel_backoff e w, ended e)
      | none ↦ (record w { clock = w.clock + delay }, elapsed)
    ]

    -- The wait before the next attempt, if a backoff is set, and the settings after it.
    unfoldable pub back_off : Retries → World → World × Pause × Retries
    unfolding pause next_backoff delay_of
    back_off b w =
        let (w1, p) = pause (delay_of b) w in
        if ltb 0 b.backoff then (w1, p, next_backoff b) else (w, elapsed, b)

    -- The inner loop. The number is `maxAttempts - attempt`, the attempts left after this one.
    unfoldable pub run_attempts : ℕ → Retries → Value → World → World × Attempt
    run_attempts zero b current w =
        let (w1, a) = try_step current w in
        elim a [
          | erred e ↦ (give_up e w1, stopped (failure e))
          | succeeded v ↦ (w1, succeeded v)
          | stopped x ↦ (w1, stopped x)
        ]
    run_attempts (suc left) b current w =
        let (w1, a) = try_step current w in
        elim a [
          | erred e ↦
              let (w2, p, b') = back_off b w1 in
              elim p [
                | elapsed ↦ run_attempts left b' current w2
                | ended e' ↦ (w2, stopped (failure e'))
              ]
          | succeeded v ↦ (w1, succeeded v)
          | stopped x ↦ (w1, stopped x)
        ]

  module _ (eng : EngineConfig) (ctx : Context) (r : ℕ) where
    -- A step with a cached result is passed over.
    unfoldable pub skip_step : ℕ → World → World
    skip_step i w = update r (assign r (λ inst. record inst { current_step = i + 1 }) w)

    -- A step without one is announced and run.
    unfoldable pub run_step : ℕ → StepDefinition → Value → World → World × Attempt
    unfolding retries_of run_attempts
    run_step i step current w =
        let w1 = update r (assign r (λ inst. record inst { current_step = i }) w) in
        let w2 = emit_event eng r step_started (some i) step.name w1 in
        let b = retries_of step.retry in
        run_attempts eng ctx r i step (b.max_attempts - 1) b current w2

    -- The code after the loop; `n` is `len(def.Steps)`.
    unfoldable pub complete : ℕ → Value → World → World
    complete n current w =
        let w1 = update r (
          assign r (λ inst. record inst { status = completed; output = current; current_step = n })
            w) in
        let w2 = emit_event eng r workflow_completed none "" w1 in
        let w3 = notify (on_workflow_completed (deref r w2).id) w2 in
        release_instance_lease eng (deref r w3).id w3

    -- The outer loop over the steps from index `i` on.
    unfoldable pub run_steps : ℕ → ℕ → List StepDefinition → Value → World → World × Exit
    unfolding skip_step run_step complete
    run_steps n i [] current w = (complete n current w, success)
    run_steps n i (step ∷ rest) current w =
        let w1 = renew_instance_lease eng (deref r w).id w in
        elim (lookup_int i (or_empty (deref r w1).step_results)) [
          | some cached ↦ run_steps n (i + 1) rest cached (skip_step i w1)
          | none ↦
              let (w2, a) = run_step i step current w1 in
              elim a [
                | succeeded next ↦ run_steps n (i + 1) rest next w2
                | stopped x ↦ (w2, x)
                | erred e ↦ (w2, failure e)
              ]
        ]

    unfoldable pub execute_steps : WorkflowDefinition → ℕ → Value → World → World × Exit
    unfolding run_steps
    execute_steps def start input w =
        run_steps (length def.steps) start (drop start def.steps) input w
