-- ===== src/Execute/Attempts.antt =====
-- engine_impl.go, `executeSteps`: how often a step function is called.
use fluxo.Common.{
  ℕ, String, false≢true, sym, suc, ◌+◌, ◌-◌, ◌≤◌, ◌<◌, ◌≡◌, refl, ap, ◌∙◌, inl, inr, Bool, true,
  false, Option, none, some, List, [], ◌∷◌, ◌++◌, arith, Option-cases, Bool-cases, ltb,
}
use fluxo.Api.{
  Value, Err, Outcome, ok, fail, panic, Context, with_engine, ctx_err, RetryPolicy, StepDefinition,
  step_started,
}
use fluxo.Api.Errors.{is_wait, wait_for_signal_meta}
use fluxo.World.{
  World, Notice, on_step_start, on_step_completed, on_workflow_failed, EngineConfig, Env, deref,
  notify, assign, update, emit_event,
}
use fluxo.World.Cells.{logs}
use fluxo.Execute.Rules.{Tried, Paused, run_attempts_rule}
use fluxo.Execute.{
  success, failure, panicked, Attempt, succeeded, stopped, erred, Retries, cancel_attempt,
  cancel_backoff, give_up, park_on_signal, park_on_children, park_on_any_child, park_or_err,
  record_result, call, after_call, try_step, pause, back_off, delay_of, run_step, retries_of,
}

-- How many calls of step functions the observer has heard of.
abbrev pub calls : List Notice → ℕ
calls [] = 0
calls (on_step_start id name i ∷ ns) = suc (calls ns)
calls (_ ∷ ns) = calls ns

calls-append : (xs ys : List Notice) → calls (xs ++ ys) ≡ calls xs + calls ys
calls-append [] ys = omega arith
calls-append (on_step_start id name i ∷ xs) ys = omega (arith, calls-append xs ys)
calls-append (_ ∷ xs) ys = calls-append xs ys

-- The step functions run no workflow of their own, which the observer would hear of.
abbrev pub IsQuiet : Env → Type 0
IsQuiet env =
    (fn : ℕ) (ctx : Context) (v : Value) (w : World)
    → (env.step_fn fn ctx v w).0.observed ≡ w.observed

-- The context has no end.
abbrev pub IsEndless : Context → Type 0
IsEndless ctx = ctx.done_at ≡ none

pub endless-live : (ctx : Context) (t : ℕ) → IsEndless ctx → ctx_err ctx t ≡ none
unfolding ctx_err
endless-live ctx t e = rw e

-- A context without an end has not ended.
live_or_done : (ctx : Context) (t : ℕ) (e : Err) → IsEndless ctx → ctx_err ctx t ≡ some e → ⊥
live_or_done ctx t e endless done = cc (endless-live ctx t endless, done)

-- The calls so far.
pub called : World → ℕ
called w = calls w.observed

-- At least one attempt is allowed.
pub retries-pos : (env : Env) (p : Option RetryPolicy) → 0 < (retries_of env p).max_attempts
unfolding retries_of
retries-pos env none = omega arith
retries-pos env (some p) = ground arith

module _ (env : Env) (eng : EngineConfig) (ctx : Context) (r i : ℕ) (step : StepDefinition) where
  cancel_attempt-called :
      (e : Err) (w : World) → called (cancel_attempt env eng ctx r i step e w) ≡ called w
  unfolding called cancel_attempt
  cancel_attempt-called e w =
      simp logs (omega (arith, calls-append w.observed (on_workflow_failed _ e ∷ [])))

  cancel_backoff-called :
      (e : Err) (w : World) → called (cancel_backoff env eng ctx r i step e w) ≡ called w
  unfolding called cancel_backoff
  cancel_backoff-called e w = simp logs

  give_up-called : (e : Err) (w : World) → called (give_up env eng ctx r i step e w) ≡ called w
  unfolding called give_up
  give_up-called e w =
      simp logs (omega (arith, calls-append w.observed (on_workflow_failed _ e ∷ [])))

  park_on_signal-called :
      (b : Bool) (w : World) → called (park_on_signal env eng ctx r i step b w) ≡ called w
  unfolding called park_on_signal
  park_on_signal-called b w = simp logs

  park_on_children-called :
      (w : World) → called (park_on_children env eng ctx r i step w) ≡ called w
  unfolding called park_on_children
  park_on_children-called w = simp logs

  park_on_any_child-called :
      (w : World) → called (park_on_any_child env eng ctx r i step w) ≡ called w
  unfolding called park_on_any_child
  park_on_any_child-called w = simp logs

  record_result-called :
      (v : Value) (w : World) → called (record_result env eng ctx r i step v w) ≡ called w
  unfolding called record_result
  record_result-called v w = simp logs

  -- What follows the call: no further call, and an attempt that stops the run parks it or panics.
  abbrev Followed : ℕ → World × Attempt → Type 0
  Followed c (w, succeeded v) = called w ≡ c
  Followed c (w, stopped success) = ⊥
  Followed c (w, stopped (failure e)) = (called w ≡ c) × (is_wait e ≡ true)
  Followed c (w, stopped panicked) = called w ≡ c
  Followed c (w, erred e) = called w ≡ c

  park_or_err-Followed :
      (e : Err) (w : World) → Followed (called w) (park_or_err env eng ctx r i step e w)
  unfolding park_or_err
  park_or_err-Followed e w = elim (Option-cases (wait_for_signal_meta e)) [
    | inl no_signal ↦
        ground (arith, no_signal, park_on_children-called w, park_on_any_child-called w)
    | inr ((name, pay), signal) ↦
        rw (signal, park_or_err) (park_on_signal-called pay w, ground (arith, signal))
  ]

  notify-completed :
      (id name : String) (j : ℕ) (out : Outcome) (w : World)
      → called (notify (on_step_completed id name j out) w) ≡ called w
  unfolding called
  notify-completed id name j out w =
      simp logs (omega (arith, calls-append w.observed (on_step_completed id name j out ∷ [])))

  notify-start :
      (id name : String) (w : World) → called (notify (on_step_start id name i) w) ≡ suc (called w)
  unfolding called
  notify-start id name w =
      simp logs (omega (arith, calls-append w.observed (on_step_start id name i ∷ [])))

  after_call-Followed :
      (out : Outcome) (w : World) → Followed (called w) (after_call env eng ctx r i step out w)
  unfolding after_call
  after_call-Followed panic w = refl
  after_call-Followed (ok v) w =
      record_result-called v _ ∙ notify-completed (deref r w).id step.name i (ok v) w
  after_call-Followed (fail e) w =
      rw (notify-completed (deref r w).id step.name i (fail e) w) at
        (park_or_err-Followed e (notify (on_step_completed (deref r w).id step.name i (fail e)) w))

  module _ (quiet : IsQuiet env) where
    call-called :
        (fn : Option ℕ) (v : Value) (w : World)
        → called (call env fn (with_engine ctx) v w).0 ≡ called w
    unfolding call called
    call-called none v w = refl
    call-called (some fn) v w = ap calls (quiet fn (with_engine ctx) v w)

    -- After a step that began at `k` calls and may make `m`: it has made one at least if it
    -- succeeded, and never more than `m`; it is given up, other than by a wait, after exactly `m`.
    abbrev pub Spent : ℕ → ℕ → World × Attempt → Type 0
    Spent k m (w, succeeded v) = (k < called w) × (called w ≤ k + m)
    Spent k m (w, stopped success) = ⊥
    Spent k m (w, stopped (failure e)) =
        (called w ≤ k + m) × (IsEndless ctx → is_wait e ≡ false → called w ≡ k + m)
    Spent k m (w, stopped panicked) = called w ≤ k + m
    Spent k m (w, erred e) = ⊥

    -- Before an attempt with `left` more to come, and after one that failed.
    record Before (k m left : ℕ) (w : World) : Type 0 where
      began : k ≤ called w
      budget : called w + suc left ≡ k + m

    record Failed (k m left : ℕ) (e : Err) (w : World) : Type 0 where
      began : k < called w
      budget : called w + left ≡ k + m

    try-Tried :
        (k m left : ℕ) (current : Value) (w : World)
        → Before k m left w
        → Tried env eng ctx r i step
            (Before k m)
            (Failed k m)
            (Spent k m)
            left
            (try_step env eng ctx r i step current w)
    unfolding try_step
    try-Tried k m left current w h = elim (Option-cases (ctx_err ctx w.clock)) [
      | inl live ↦
          let w1 = notify (on_step_start (deref r w).id step.name i) w in
          let (w2, out) = call env step.fn (with_engine ctx) current w1 in
          let one : called w2 ≡ suc (called w) =
            call-called step.fn current w1 ∙ notify-start (deref r w).id step.name w in
          rw (live, try_step)
            (counted (after_call env eng ctx r i step out w2)
              (rw one at (after_call-Followed out w2)))
      | inr (e, done) ↦
          rw (done, try_step)
            (
              omega (arith, cancel_attempt-called e w, h),
              λ endless _. absurd (live_or_done ctx w.clock e endless done),
            )
    ]
      where
        counted :
            (t : World × Attempt)
            → Followed (suc (called w)) t
            → Tried env eng ctx r i step (Before k m) (Failed k m) (Spent k m) left t
        counted (w', succeeded v) f = omega (arith, h.began, h.budget)
        counted (w', stopped success) f = f
        counted (w', stopped (failure e)) f =
            (omega (arith, h.budget, f.0), λ _ no_wait. absurd (false≢true (sym no_wait ∙ f.1)))
        counted (w', stopped panicked) f = omega (arith, h.budget)
        counted (w', erred e) f = record {
          began = omega (arith, h.began);
          budget = omega (arith, h.budget);
        }

    back_off-Paused :
        (k m left : ℕ) (e : Err) (b : Retries) (w : World)
        → Failed k m (suc left) e w
        → Paused env eng ctx r i step
            (Before k m)
            (Failed k m)
            (Spent k m)
            left
            (back_off env eng ctx r i step b w)
    unfolding back_off pause called
    back_off-Paused k m left e b w h = elim (Bool-cases (ltb 0 b.backoff)) [
      | inl some_backoff ↦ elim (Option-cases (ctx_err ctx (w.clock + delay_of env b))) [
        | inl live ↦
            rw (some_backoff, live, back_off, pause)
              (record { began = omega (arith, h.began); budget = omega (arith, h.budget) })
        | inr (x, over) ↦
            rw (some_backoff, over, back_off, pause)
              (
                omega (arith, h.budget, cancel_backoff-called x w),
                λ endless _. absurd (live_or_done ctx _ x endless over),
              )
      ]
      | inr no_backoff ↦
          rw (no_backoff, back_off)
            (record { began = omega (arith, h.began); budget = omega (arith, h.budget) })
    ]

    announced :
        (w : World)
        → called (
            emit_event eng r step_started
              (some i)
              step.name
              (update r (assign r (λ inst. record inst { current_step = i }) w)))
          ≡ called w
    unfolding called
    announced w = simp logs

    -- If step functions run no workflow of their own, a step makes at most as many calls of its
    -- function as its retry policy allows, and one at least if it succeeds; if the context has no
    -- end, a step that is given up, other than by an error that parks the instance, has made
    -- exactly as many.
    pub run_step-Spent :
        (current : Value) (w : World)
        → Spent
            (called w)
            (retries_of env step.retry).max_attempts
            (run_step env eng ctx r i step current w)
    unfolding run_step
    run_step-Spent current w =
        let b = retries_of env step.retry in
        let m = b.max_attempts in
        let k = called w in
        run_attempts_rule env eng ctx r i step (Before k m) (Failed k m) (Spent k m)
          (λ left v w' h. try-Tried k m left v w' h)
          (λ e w' h. (
            omega (arith, h.budget, give_up-called e w'),
            λ _ _. omega (arith, h.budget, give_up-called e w'),
          ))
          (λ left e b' w' h. back_off-Paused k m left e b' w' h) (m - 1) b current _
          (record {
            began = omega (arith, announced w);
            budget = omega (arith, announced w, retries-pos env step.retry);
          })
