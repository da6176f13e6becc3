-- ===== src/Execute/Exits.antt =====
-- engine_impl.go, `executeSteps`: the state in which it leaves the instance, at each `return`.
use fluxo.Common.{
  ◌∙◌, ℕ, ◌+◌, ◌-◌, ◌-◌, ◌≡◌, refl, Bool, true, false, ◌⊎◌, inl, inr, none, some, List, arith,
  Option-cases, length, drop,
}
use fluxo.Api.{
  completed, failed, waiting, Value, Err, Outcome, ok, fail, panic, Context, ctx_err, with_engine,
  StepDefinition, WorkflowDefinition, WorkflowInstance,
}
use fluxo.Api.Errors.{is_wait, is_wait-reason_err, wait_for_signal_meta}
use fluxo.World.{World, on_step_start, EngineConfig, Env, deref, notify}
use fluxo.World.Cells.{cells, release-SameButLease}
use fluxo.Execute.Rules.{Tried, Paused, run_attempts_rule, Stepped, run_steps_rule}
use fluxo.Execute.{
  Exit, delay_of, retries_of, success, failure, panicked, Attempt, succeeded, stopped, erred, Pause,
  Retries, cancel_attempt, cancel_backoff, give_up, park_on_signal, park_on_children,
  park_on_any_child, park_or_err, after_call, try_step, pause, back_off, run_attempts, run_step,
  complete, execute_steps, call,
}

-- How the instance stands once `executeSteps` has returned: completed, with all of the `n` steps
-- behind it; or parked without an error, by an error that asks for it; or failed with the error.
abbrev pub Ended : ℕ → WorkflowInstance → Exit → Type 0
Ended n inst success = (inst.status ≡ completed) × (inst.current_step ≡ n)
Ended n inst (failure e) =
    ((is_wait e ≡ true) × (inst.status ≡ waiting) × (inst.err ≡ none))
    ⊎ ((is_wait e ≡ false) × (inst.status ≡ failed) × (inst.err ≡ some e))
Ended n inst panicked = Unit {0}

ctx_err-is_wait : (ctx : Context) (t : ℕ) (e : Err) → ctx_err ctx t ≡ some e → is_wait e ≡ false
unfolding ctx_err
ctx_err-is_wait ctx t e h = ground (arith, is_wait-reason_err ctx.reason)

module _ (env : Env) (eng : EngineConfig) (ctx : Context) (r i : ℕ) (step : StepDefinition) where
  cancel_attempt-Ended :
      (n : ℕ) (w : World) (e : Err)
      → is_wait e ≡ false
      → Ended n (deref r (cancel_attempt env eng ctx r i step e w)) (failure e)
  unfolding cancel_attempt
  cancel_attempt-Ended n w e h = inr (simp cells (h, refl, refl))

  cancel_backoff-Ended :
      (n : ℕ) (w : World) (e : Err)
      → is_wait e ≡ false
      → Ended n (deref r (cancel_backoff env eng ctx r i step e w)) (failure e)
  unfolding cancel_backoff
  cancel_backoff-Ended n w e h = inr (simp cells (h, refl, refl))

  give_up-Ended :
      (n : ℕ) (w : World) (e : Err)
      → is_wait e ≡ false
      → Ended n (deref r (give_up env eng ctx r i step e w)) (failure e)
  unfolding give_up
  give_up-Ended n w e h =
      let same = release-SameButLease eng _ r _ in
      inr (h, same.status ∙ simp cells, same.err ∙ simp cells)

  -- A return in the midst of an attempt leaves the instance as it should be, and an error that
  -- goes to a further attempt is none that parks.
  abbrev Halted : ℕ → World × Attempt → Type 0
  Halted n (w, succeeded v) = Unit {0}
  Halted n (w, stopped x) = Ended n (deref r w) x
  Halted n (w, erred e) = is_wait e ≡ false

  abbrev Parked : World → Type 0
  Parked w = ((deref r w).status ≡ waiting) × ((deref r w).err ≡ none)

  park_on_signal-Parked : (b : Bool) (w : World) → Parked (park_on_signal env eng ctx r i step b w)
  unfolding park_on_signal
  park_on_signal-Parked b w =
      let same = release-SameButLease eng _ r _ in (same.status ∙ simp cells, same.err ∙ simp cells)

  park_on_children-Parked : (w : World) → Parked (park_on_children env eng ctx r i step w)
  unfolding park_on_children
  park_on_children-Parked w =
      let same = release-SameButLease eng _ r _ in (same.status ∙ simp cells, same.err ∙ simp cells)

  park_on_any_child-Parked : (w : World) → Parked (park_on_any_child env eng ctx r i step w)
  unfolding park_on_any_child
  park_on_any_child-Parked w =
      let same = release-SameButLease eng _ r _ in (same.status ∙ simp cells, same.err ∙ simp cells)

  park_or_err-Halted :
      (n : ℕ) (e : Err) (w : World) → Halted n (park_or_err env eng ctx r i step e w)
  unfolding park_or_err
  park_or_err-Halted n e w = elim (Option-cases (wait_for_signal_meta e)) [
    | inl no_signal ↦
        ground (arith, no_signal, park_on_children-Parked w, park_on_any_child-Parked w)
    | inr ((name, pay), signal) ↦
        rw (signal, park_or_err)
          (let (parked, no_err) = park_on_signal-Parked pay w in
            inl (ground (arith, signal), parked, no_err))
  ]

  after_call-Halted :
      (n : ℕ) (out : Outcome) (w : World) → Halted n (after_call env eng ctx r i step out w)
  unfolding after_call
  after_call-Halted n panic w = tt
  after_call-Halted n (ok v) w = tt
  after_call-Halted n (fail e) w = park_or_err-Halted n e _

  try_step-Halted :
      (n : ℕ) (current : Value) (w : World) → Halted n (try_step env eng ctx r i step current w)
  unfolding try_step
  try_step-Halted n current w = elim (Option-cases (ctx_err ctx w.clock)) [
    | inl live ↦
        let w1 = notify (on_step_start (deref r w).id step.name i) w in
        let (w2, out) = call env step.fn (with_engine ctx) current w1 in
        rw (live, try_step) (after_call-Halted n out w2)
    | inr (e, done) ↦
        rw (done, try_step) (cancel_attempt-Ended n w e (ctx_err-is_wait ctx w.clock e done))
  ]

  -- No run of attempts ends with an error that is neither retried nor reported.
  abbrev Settled : ℕ → World × Attempt → Type 0
  Settled n (w, succeeded v) = Unit {0}
  Settled n (w, stopped x) = Ended n (deref r w) x
  Settled n (w, erred e) = ⊥

  -- The wait ends the run only by the context's error.
  abbrev Waited : ℕ → ℕ → World × Pause × Retries → Type 0
  Waited n left =
      Paused env eng ctx r i step (λ _ _. Unit {0}) (λ _ e _. is_wait e ≡ false) (Settled n) left

  back_off-Waited :
      (n left : ℕ) (b : Retries) (w : World) → Waited n left (back_off env eng ctx r i step b w)
  unfolding back_off pause
  back_off-Waited n left b w = elim (Option-cases (ctx_err ctx (w.clock + delay_of env b))) [
    | inl live ↦ ground (arith, live)
    | inr (e, done) ↦ ground (
      arith,
      done,
      cancel_backoff-Ended n w e (ctx_err-is_wait ctx (w.clock + delay_of env b) e done),
    )
  ]

  try-Tried :
      (n left : ℕ) (current : Value) (w : World)
      → Tried env eng ctx r i step
          (λ _ _. Unit {0})
          (λ _ e _. is_wait e ≡ false)
          (Settled n)
          left
          (try_step env eng ctx r i step current w)
  try-Tried n left current w =
      tried (try_step env eng ctx r i step current w) (try_step-Halted n current w)
    where
      tried :
          (t : World × Attempt)
          → Halted n t
          → Tried env eng ctx r i step
              (λ _ _. Unit {0})
              (λ _ e _. is_wait e ≡ false)
              (Settled n)
              left
              t
      tried (w', succeeded v) h = tt
      tried (w', stopped x) h = h
      tried (w', erred e) h = h

  run_attempts-Settled :
      (n left : ℕ) (b : Retries) (current : Value) (w : World)
      → Settled n (run_attempts env eng ctx r i step left b current w)
  run_attempts-Settled n left b current w =
      run_attempts_rule env eng ctx r i step (λ _ _. Unit {0}) (λ _ e _. is_wait e ≡ false)
        (Settled n) (λ k v w' _. try-Tried n k v w') (λ e w' h. give_up-Ended n w' e h)
        (λ k e b' w' _. back_off-Waited n k b' w') left b current w tt

module _ (env : Env) (eng : EngineConfig) (ctx : Context) (r : ℕ) where
  complete-Ended :
      (n : ℕ) (current : Value) (w : World)
      → Ended n (deref r (complete env eng ctx r n current w)) success
  unfolding complete
  complete-Ended n current w =
      let same = release-SameButLease eng _ r _ in
      (same.status ∙ simp cells, same.current_step ∙ simp cells)

  abbrev EndedRun : ℕ → World × Exit → Type 0
  EndedRun n (w, x) = Ended n (deref r w) x

  run_step-Settled :
      (n i : ℕ) (step : StepDefinition) (current : Value) (w : World)
      → Settled env eng ctx r i step n (run_step env eng ctx r i step current w)
  unfolding run_step
  run_step-Settled n i step current w =
      let b = retries_of env step.retry in
      run_attempts-Settled env eng ctx r i step n (b.max_attempts - 1) b current _

  stepped :
      (n i : ℕ) (step : StepDefinition) (rest : List StepDefinition) (t : World × Attempt)
      → Settled env eng ctx r i step n t
      → Stepped env eng ctx r n (λ _ _ _. Unit {0}) (EndedRun n) i rest t
  stepped n i step rest (w, succeeded v) h = tt
  stepped n i step rest (w, stopped x) h = h
  stepped n i step rest (w, erred e) h = absurd h

  -- Whatever the step functions do, `execute_steps` leaves the instance completed with all of its
  -- steps behind it if it returns no error, waiting and without an error if the returned error is
  -- one that parks, and failed with the returned error in every other case; only a panic leaves it
  -- otherwise.
  pub execute_steps-Ended :
      (def : WorkflowDefinition) (start : ℕ) (input : Value) (w : World)
      → let (w', x) = execute_steps env eng ctx r def start input w in
        Ended (length def.steps) (deref r w') x
  unfolding execute_steps
  execute_steps-Ended def start input w =
      let n = length def.steps in
      run_steps_rule env eng ctx r n (λ _ _ _. Unit {0}) (EndedRun n) (λ _ _ _ _. tt)
        (λ _ _ _ _ _ _ _. tt)
        (λ i step rest current w' _ _.
          stepped n i step rest (run_step env eng ctx r i step current w')
            (run_step-Settled n i step current w'))
        (λ _ current w' _. complete-Ended n current w') start (drop start def.steps) input w tt
