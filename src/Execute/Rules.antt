-- ===== src/Execute/Rules.antt =====
-- engine_impl.go, `executeSteps`: one rule for each of its loops, for proofs about them.
use fluxo.Common.{
  ℕ, zero, suc, ◌+◌, ◌≡◌, inl, inr, none, some, List, [], ◌∷◌, lookup_int, Option-cases,
}
use fluxo.Api.{Value, Err, Context, StepDefinition}
use fluxo.Store.{or_empty}
use fluxo.World.{World, EngineConfig, Env, deref, renew_instance_lease}
use fluxo.Execute.{
  Exit, success, failure, Attempt, succeeded, stopped, erred, Pause, elapsed, ended, Retries,
  give_up, try_step, back_off, run_attempts, run_step, skip_step, complete, run_steps,
}

module _ (env : Env) (eng : EngineConfig) (ctx : Context) (r i : ℕ) (step : StepDefinition) where
  module _ (Before : ℕ → World → Type 0) (Error : ℕ → Err → World → Type 0)
      (After : World × Attempt → Type 0) where
    -- With `left` more attempts to come, an attempt ends as the run of attempts may, or with an
    -- error to retry.
    abbrev pub Tried : ℕ → World × Attempt → Type 0
    Tried left (w, succeeded v) = After (w, succeeded v)
    Tried left (w, stopped x) = After (w, stopped x)
    Tried left (w, erred e) = Error left e w

    abbrev pub Paused : ℕ → World × Pause × Retries → Type 0
    Paused left (w, elapsed, b) = Before left w
    Paused left (w, ended e, b) = After (w, stopped (failure e))

    -- The inner loop: `Before` holds before each attempt, `After` at the end.
    module _
        (try : (left : ℕ) (current : Value) (w : World)
          → Before left w
          → Tried left (try_step env eng ctx r i step current w))
        (give : (e : Err) (w : World)
          → Error zero e w
          → After (give_up env eng ctx r i step e w, stopped (failure e)))
        (back : (left : ℕ) (e : Err) (b : Retries) (w : World)
          → Error (suc left) e w
          → Paused left (back_off env eng ctx r i step b w)) where
      last :
          (t : World × Attempt)
          → Tried zero t
          → After (elim t.1 [
            | erred e ↦ (give_up env eng ctx r i step e t.0, stopped (failure e))
            | succeeded v ↦ (t.0, succeeded v)
            | stopped x ↦ (t.0, stopped x)
          ])
      last (w, erred e) h = give e w h
      last (w, succeeded v) h = h
      last (w, stopped x) h = h

      after_pause :
          (left : ℕ) (again : Retries → World → World × Attempt)
          → ((b : Retries) (w : World) → Before left w → After (again b w))
          → (t : World × Pause × Retries) → Paused left t
          → After (elim t.1 [ elapsed ↦ again t.2 t.0 | ended e ↦ (t.0, stopped (failure e)) ])
      after_pause left again ih (w, elapsed, b) h = ih b w h
      after_pause left again ih (w, ended e, b) h = h

      more :
          (left : ℕ) (again : Retries → World → World × Attempt)
          → ((b : Retries) (w : World) → Before left w → After (again b w))
          → (b : Retries) (t : World × Attempt) → Tried (suc left) t
          → After (elim t.1 [
            | erred e ↦
                let (w2, p, b') = back_off env eng ctx r i step b t.0 in
                elim p [ elapsed ↦ again b' w2 | ended e' ↦ (w2, stopped (failure e')) ]
            | succeeded v ↦ (t.0, succeeded v)
            | stopped x ↦ (t.0, stopped x)
          ])
      more left again ih b (w, erred e) h =
          after_pause left again ih (back_off env eng ctx r i step b w) (back left e b w h)
      more left again ih b (w, succeeded v) h = h
      more left again ih b (w, stopped x) h = h

      pub run_attempts_rule :
          (left : ℕ) (b : Retries) (current : Value) (w : World)
          → Before left w
          → After (run_attempts env eng ctx r i step left b current w)
      unfolding run_attempts
      run_attempts_rule zero b current w h =
          last (try_step env eng ctx r i step current w) (try zero current w h)
      run_attempts_rule (suc left) b current w h =
          more left (λ b' w'. run_attempts env eng ctx r i step left b' current w')
            (λ b' w' h'. run_attempts_rule left b' current w' h') b
            (try_step env eng ctx r i step current w) (try (suc left) current w h)

-- The outer loop: `At i steps w` holds before the step of index `i`, with `steps` to go, and
-- `After` at the end.
module _ (env : Env) (eng : EngineConfig) (ctx : Context) (r n : ℕ) where
  module _ (At : ℕ → List StepDefinition → World → Type 0) (After : World × Exit → Type 0) where
    abbrev pub Stepped : ℕ → List StepDefinition → World × Attempt → Type 0
    Stepped i rest (w, succeeded v) = At (i + 1) rest w
    Stepped i rest (w, stopped x) = After (w, x)
    Stepped i rest (w, erred e) = After (w, failure e)

    module _
        (renewed : (i : ℕ) (steps : List StepDefinition) (w : World)
          → At i steps w
          → At i steps (renew_instance_lease eng (deref r w).id w))
        (skip : (i : ℕ) (step : StepDefinition) (rest : List StepDefinition) (v : Value) (w : World)
          → lookup_int i (or_empty (deref r w).step_results) ≡ some v
          → At i (step ∷ rest) w
          → At (i + 1) rest (skip_step env eng ctx r i w))
        (run : (i : ℕ) (step : StepDefinition) (rest : List StepDefinition) (current : Value)
            (w : World)
          → lookup_int i (or_empty (deref r w).step_results) ≡ none
          → At i (step ∷ rest) w
          → Stepped i rest (run_step env eng ctx r i step current w))
        (done : (i : ℕ) (current : Value) (w : World)
          → At i [] w
          → After (complete env eng ctx r n current w, success)) where
      next :
          (again : Value → World → World × Exit) (i : ℕ) (rest : List StepDefinition)
          → ((v : Value) (w : World) → At (i + 1) rest w → After (again v w))
          → (t : World × Attempt) → Stepped i rest t
          → After (elim t.1 [
            | succeeded v ↦ again v t.0
            | stopped x ↦ (t.0, x)
            | erred e ↦ (t.0, failure e)
          ])
      next again i rest ih (w, succeeded v) h = ih v w h
      next again i rest ih (w, stopped x) h = h
      next again i rest ih (w, erred e) h = h

      pub run_steps_rule :
          (i : ℕ) (steps : List StepDefinition) (current : Value) (w : World)
          → At i steps w
          → After (run_steps env eng ctx r n i steps current w)
      unfolding run_steps
      run_steps_rule i [] current w h = done i current w h
      run_steps_rule i (step ∷ rest) current w h =
          let w1 = renew_instance_lease eng (deref r w).id w in
          let h1 = renewed i (step ∷ rest) w h in
          elim (Option-cases (lookup_int i (or_empty (deref r w1).step_results))) [
            | inl missing ↦
                rw (missing, run_steps)
                  (next (λ v w'. run_steps env eng ctx r n (i + 1) rest v w') i rest
                    (λ v w' h'. run_steps_rule (i + 1) rest v w' h')
                    (run_step env eng ctx r i step current w1)
                    (run i step rest current w1 missing h1))
            | inr (cached, hit) ↦
                rw (hit, run_steps)
                  (run_steps_rule (i + 1) rest cached _ (skip i step rest cached w1 hit h1))
          ]
