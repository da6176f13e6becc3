-- ===== src/Execute/Results.antt =====
-- engine_impl.go, `executeSteps`: the cache of step results grows with every step that succeeds.
use fluxo.Common.{
  ℕ, ◌+◌, ◌-◌, ◌≤◌, ◌<◌, ◌≡◌, ◌≢◌, refl, ap, ◌∙◌, inl, inr, Option, none, some, List, ◌∷◌, arith,
  lookup_int, Option-cases, length, drop, lookup_int-insert_int, ℕ_discrete, insert_int,
  length-drop, Bool,
}
use fluxo.Api.{
  Value, Err, Outcome, ok, fail, panic, Context, with_engine, ctx_err, StepDefinition,
  WorkflowDefinition,
}
use fluxo.Api.Errors.{wait_for_signal_meta}
use fluxo.Store.{or_empty}
use fluxo.World.{World, EngineConfig, Env, deref, notify, on_step_start}
use fluxo.World.Cells.{cells, release-SameButLease, renew-SameButLease}
use fluxo.Execute.{
  Exit, success, Attempt, succeeded, stopped, erred, Retries, cancel_attempt, cancel_backoff,
  give_up, park_on_signal, park_on_children, park_on_any_child, park_or_err, record_result, call,
  after_call, try_step, pause, back_off, run_step, retries_of, delay_of, skip_step, complete,
  execute_steps,
}
use fluxo.Execute.Rules.{Tried, Paused, run_attempts_rule, Stepped, run_steps_rule}

-- The cached results of an instance.
abbrev pub results : ℕ → World → List (ℕ × Value)
results r w = or_empty (deref r w).step_results

-- No step function touches the cache of the instance `r` that is being run: the instance is not
-- handed to it.
abbrev pub LeavesResults : Env → ℕ → Type 0
LeavesResults env r =
    (fn : ℕ) (ctx : Context) (v : Value) (w : World)
    → results r (env.step_fn fn ctx v w).0 ≡ results r w

-- What was cached is cached still.
abbrev pub Grows : ℕ → World → World → Type 0
Grows r w w' =
    (j : ℕ) (v : Value) → lookup_int j (results r w) ≡ some v → lookup_int j (results r w') ≡ some v

module _ (env : Env) (eng : EngineConfig) (ctx : Context) (r i : ℕ) (step : StepDefinition) where
  module _ (leaves : LeavesResults env r) where
    call-results :
        (fn : Option ℕ) (v : Value) (w : World)
        → results r (call env fn (with_engine ctx) v w).0 ≡ results r w
    unfolding call
    call-results none v w = refl
    call-results (some fn) v w = leaves fn (with_engine ctx) v w

  cancel_attempt-results :
      (e : Err) (w : World) → results r (cancel_attempt env eng ctx r i step e w) ≡ results r w
  unfolding cancel_attempt
  cancel_attempt-results e w = simp cells

  cancel_backoff-results :
      (e : Err) (w : World) → results r (cancel_backoff env eng ctx r i step e w) ≡ results r w
  unfolding cancel_backoff
  cancel_backoff-results e w = simp cells

  give_up-results :
      (e : Err) (w : World) → results r (give_up env eng ctx r i step e w) ≡ results r w
  unfolding give_up
  give_up-results e w = ap or_empty (release-SameButLease eng _ r _).step_results ∙ simp cells

  park_on_signal-results :
      (b : Bool) (w : World) → results r (park_on_signal env eng ctx r i step b w) ≡ results r w
  unfolding park_on_signal
  park_on_signal-results b w =
      ap or_empty (release-SameButLease eng _ r _).step_results ∙ simp cells

  park_on_children-results :
      (w : World) → results r (park_on_children env eng ctx r i step w) ≡ results r w
  unfolding park_on_children
  park_on_children-results w =
      ap or_empty (release-SameButLease eng _ r _).step_results ∙ simp cells

  park_on_any_child-results :
      (w : World) → results r (park_on_any_child env eng ctx r i step w) ≡ results r w
  unfolding park_on_any_child
  park_on_any_child-results w =
      ap or_empty (release-SameButLease eng _ r _).step_results ∙ simp cells

  record_result-results :
      (v : Value) (w : World)
      → results r (record_result env eng ctx r i step v w) ≡ insert_int i v (results r w)
  unfolding record_result
  record_result-results v w = simp cells

  -- The cache after an attempt, from the cache `m` before it. No attempt ends the run well.
  abbrev Filled : List (ℕ × Value) → World × Attempt → Type 0
  Filled m (w, succeeded v) = results r w ≡ insert_int i v m
  Filled m (w, stopped x) = (results r w ≡ m) × (x ≢ success)
  Filled m (w, erred e) = results r w ≡ m

  park_or_err-Filled :
      (e : Err) (w : World) → Filled (results r w) (park_or_err env eng ctx r i step e w)
  unfolding park_or_err
  park_or_err-Filled e w = elim (Option-cases (wait_for_signal_meta e)) [
    | inl no_signal ↦
        ground (arith, no_signal, park_on_children-results w, park_on_any_child-results w)
    | inr ((name, pay), signal) ↦ rw (signal, park_or_err) (park_on_signal-results pay w, λ bad. cc)
  ]

  after_call-Filled :
      (out : Outcome) (w : World) → Filled (results r w) (after_call env eng ctx r i step out w)
  unfolding after_call notify
  after_call-Filled panic w = (refl, λ bad. cc)
  after_call-Filled (ok v) w = record_result-results v _
  after_call-Filled (fail e) w = park_or_err-Filled e _

  module _ (leaves : LeavesResults env r) where
    try_step-Filled :
        (m : List (ℕ × Value)) (current : Value) (w : World)
        → results r w ≡ m
        → Filled m (try_step env eng ctx r i step current w)
    unfolding try_step notify
    try_step-Filled m current w e = elim (Option-cases (ctx_err ctx w.clock)) [
      | inl live ↦
          let w1 = notify (on_step_start (deref r w).id step.name i) w in
          let (w2, out) = call env step.fn (with_engine ctx) current w1 in
          let same : results r w2 ≡ m = call-results leaves step.fn current w1 ∙ e in
          rw (live, try_step) (rw same at (after_call-Filled out w2))
      | inr (x, done) ↦ rw (done, try_step) (cancel_attempt-results x w ∙ e, λ bad. cc)
    ]

    back_off-Filled :
        (m : List (ℕ × Value)) (left : ℕ) (b : Retries) (w : World)
        → results r w ≡ m
        → Paused env eng ctx r i step
            (λ _ w'. results r w' ≡ m)
            (λ _ _ w'. results r w' ≡ m)
            (Filled m)
            left
            (back_off env eng ctx r i step b w)
    unfolding back_off pause
    back_off-Filled m left b w h = elim (Option-cases (ctx_err ctx (w.clock + delay_of env b))) [
      | inl live ↦ ground (arith, live)
      | inr (e, over) ↦ ground (arith, over, cancel_backoff-results e w)
    ]

    Filled→Tried :
        (m : List (ℕ × Value)) (left : ℕ) (t : World × Attempt)
        → Filled m t
        → Tried env eng ctx r i step
            (λ _ w'. results r w' ≡ m)
            (λ _ _ w'. results r w' ≡ m)
            (Filled m)
            left
            t
    Filled→Tried m left (w, succeeded v) h = h
    Filled→Tried m left (w, stopped x) h = h
    Filled→Tried m left (w, erred e) h = h

    run_step-Filled :
        (current : Value) (w : World)
        → Filled (results r w) (run_step env eng ctx r i step current w)
    unfolding run_step
    run_step-Filled current w =
        let m = results r w in
        let b = retries_of env step.retry in
        run_attempts_rule env eng ctx r i step (λ _ w'. results r w' ≡ m)
          (λ _ _ w'. results r w' ≡ m) (Filled m)
          (λ k v w' h.
            Filled→Tried m k (try_step env eng ctx r i step v w') (try_step-Filled m v w' h))
          (λ e w' h. (give_up-results e w' ∙ h, λ bad. cc))
          (λ k e b' w' h. back_off-Filled m k b' w' h) (b.max_attempts - 1) b current _ (simp cells)

-- What a run adds to the cache: nothing that was there is lost, and a run that ends well leaves a
-- result for each index from `start` to `stop`.
pub record Progress (r start stop : ℕ) (w w' : World) (x : Exit) : Type 0 where
  pub grows : Grows r w w'
  pub filled :
      x ≡ success
      → (j : ℕ) → start ≤ j
      → j < stop
      → (v : Value) × (lookup_int j (results r w') ≡ some v)

module _ (env : Env) (eng : EngineConfig) (ctx : Context) (r : ℕ)
    (leaves : LeavesResults env r) where
  -- The loop's invariant, with `steps` to go from index `i` on.
  record Filling (start stop : ℕ) (w0 : World) (i : ℕ) (steps : List StepDefinition) (w : World)
      : Type 0 where
    grows : Grows r w0 w
    filled : (j : ℕ) → start ≤ j → j < i → (v : Value) × (lookup_int j (results r w) ≡ some v)
    ends : i + length steps ≡ stop

  abbrev Progressed : ℕ → ℕ → World → World × Exit → Type 0
  Progressed start stop w0 (w, x) = Progress r start stop w0 w x

  -- The cache of one world serves for another with the same cache.
  moved :
      (start stop i : ℕ) (steps : List StepDefinition) (w0 w w' : World)
      → results r w' ≡ results r w
      → Filling start stop w0 i steps w
      → Filling start stop w0 i steps w'
  moved start stop i steps w0 w w' e h = record {
    grows = λ j v known. rw e (h.grows j v known);
    filled = λ j from below. (let (v, known) = h.filled j from below in (v, rw e known));
    ends = h.ends;
  }

  -- One more index is cached.
  extended :
      (start stop i : ℕ) (step : StepDefinition) (rest : List StepDefinition) (w0 w w' : World)
      → Grows r w w'
      → (v : Value) × (lookup_int i (results r w') ≡ some v)
      → Filling start stop w0 i (step ∷ rest) w
      → Filling start stop w0 (i + 1) rest w'
  extended start stop i step rest w0 w w' g new h = record {
    grows = λ j v known. g j v (h.grows j v known);
    filled = λ j from below. (elim (ℕ_discrete j i) [
      | yes here ↦ rw here new
      | no other ↦ let (v, known) = h.filled j from (omega arith) in (v, g j v known)
    ]);
    ends = omega (arith, h.ends);
  }

  -- A value is added at an index that had none.
  Grows-insert :
      (i : ℕ) (v : Value) (w w' : World)
      → lookup_int i (results r w) ≡ none
      → results r w' ≡ insert_int i v (results r w)
      → Grows r w w'
  Grows-insert i v w w' missing e j u known =
      rw (e, lookup_int-insert_int i j v (results r w)) (ground arith)

  step-Filling :
      (n start stop i : ℕ) (step : StepDefinition) (rest : List StepDefinition) (w0 w : World)
      → lookup_int i (results r w) ≡ none
      → Filling start stop w0 i (step ∷ rest) w
      → (t : World × Attempt) → Filled env eng ctx r i step (results r w) t
      → Stepped env eng ctx r n (Filling start stop w0) (Progressed start stop w0) i rest t
  step-Filling n start stop i step rest w0 w missing h (w', succeeded v) e =
      extended start stop i step rest w0 w w' (Grows-insert i v w w' missing e)
        (v, rw (e, lookup_int-insert_int i i v (results r w)) (ground arith)) h
  step-Filling n start stop i step rest w0 w missing h (w', stopped x) e = record {
    grows = λ j v known. rw e.0 (h.grows j v known);
    filled = λ well. absurd (e.1 well);
  }
  step-Filling n start stop i step rest w0 w missing h (w', erred x) e = record {
    grows = λ j v known. rw e (h.grows j v known);
    filled = λ bad. cc;
  }

  skip_step-results : (i : ℕ) (w : World) → results r (skip_step env eng ctx r i w) ≡ results r w
  unfolding skip_step
  skip_step-results i w = simp cells

  complete-results :
      (n : ℕ) (v : Value) (w : World) → results r (complete env eng ctx r n v w) ≡ results r w
  unfolding complete
  complete-results n v w = ap or_empty (release-SameButLease eng _ r _).step_results ∙ simp cells

  -- Where step functions leave the cache of the instance alone, a run keeps every cached result, and
  -- if it returns no error, each step from `start` on has one.
  pub execute_steps-Progress :
      (def : WorkflowDefinition) (start : ℕ) (input : Value) (w : World)
      → start ≤ length def.steps
      → let (w', x) = execute_steps env eng ctx r def start input w in
        Progress r start (length def.steps) w w' x
  unfolding execute_steps
  execute_steps-Progress def start input w le =
      let n = length def.steps in
      run_steps_rule env eng ctx r n (Filling start n w) (Progressed start n w)
        (λ i steps w1 h.
          moved start n i steps w w1 _
            (ap or_empty (renew-SameButLease eng (deref r w1).id r w1).step_results) h)
        (λ i step rest v w1 hit h.
          extended start n i step rest w w1 _ (λ j u known. rw (skip_step-results i w1) known)
            (v, rw (skip_step-results i w1) hit) h)
        (λ i step rest current w1 missing h.
          step-Filling n start n i step rest w w1 missing h
            (run_step env eng ctx r i step current w1)
            (run_step-Filled env eng ctx r i step leaves current w1))
        (λ i current w1 h. record {
          grows = λ j v known. rw (complete-results n current w1) (h.grows j v known);
          filled = λ _ j from below.
              (let (v, known) = h.filled j from (omega (arith, h.ends)) in
                (v, rw (complete-results n current w1) known));
        })
        start (drop start def.steps) input w
        (record {
          grows = λ j v known. known;
          filled = λ j from below. absurd (omega arith);
          ends = length-drop start def.steps le;
        })
