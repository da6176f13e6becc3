-- ===== src/Execute/Cached.antt =====
-- engine_impl.go, `executeSteps`: step results are cached, and cached steps are not run again.
use fluxo.Common.{
  ℕ, ◌+◌, ◌≡◌, refl, ap, ◌∙◌, Option, none, some, List, [], ◌∷◌, ◌++◌, lookup_int, length, drop,
}
use fluxo.Api.{completed, Value, Context, StepDefinition, WorkflowDefinition}
use fluxo.Store.{or_empty}
use fluxo.World.{World, EngineConfig, Env, on_workflow_completed, deref, renew_instance_lease}
use fluxo.World.Cells.{cells, logs, release-SameButLease, renew-SameButLease}
use fluxo.Execute.{Exit, success, skip_step, complete, run_steps, execute_steps}

-- The steps from index `i` on all have a result.
abbrev pub AllCached : List (ℕ × Value) → ℕ → List StepDefinition → Type 0
AllCached m i [] = Unit {0}
AllCached m i (s ∷ ss) = ((v : Value) × (lookup_int i m ≡ some v)) × AllCached m (i + 1) ss

abbrev or_default : Option Value → Value → Value
or_default none d = d
or_default (some v) d = v

-- The value that a run over cached steps ends with, from `current` on.
abbrev pub last_cached : List (ℕ × Value) → ℕ → List StepDefinition → Value → Value
last_cached m i [] current = current
last_cached m i (s ∷ ss) current = last_cached m (i + 1) ss (or_default (lookup_int i m) current)

module _ (env : Env) (eng : EngineConfig) (ctx : Context) (r : ℕ) where
  -- What a run over cached steps does: it ends well, with the last cached value, and the observer
  -- hears of no step.
  pub record Replayed (n : ℕ) (v : Value) (w : World) (t : World × Exit) : Type 0 where
    pub ends : t.1 ≡ success
    pub status : (deref r t.0).status ≡ completed
    pub output : (deref r t.0).output ≡ v
    pub observed : t.0.observed ≡ w.observed ++ on_workflow_completed (deref r w).id ∷ []

  complete-Replayed :
      (n : ℕ) (v : Value) (w : World) → Replayed n v w (complete env eng ctx r n v w, success)
  unfolding complete
  complete-Replayed n v w =
      let same = release-SameButLease eng _ r _ in
      record {
        ends = refl;
        status = same.status ∙ simp cells;
        output = same.output ∙ simp cells;
        observed = simp (logs, cells);
      }

  skip_results :
      (i : ℕ) (w : World)
      → let w' = skip_step env eng ctx r i (renew_instance_lease eng (deref r w).id w) in
        ((deref r w').step_results ≡ (deref r w).step_results)
        × ((deref r w').id ≡ (deref r w).id)
        × (w'.observed ≡ w.observed)
  unfolding skip_step
  skip_results i w =
      let same = renew-SameButLease eng (deref r w).id r w in
      (simp cells same.step_results, simp cells same.id, simp logs)

  run_steps-Replayed :
      (m : List (ℕ × Value)) (n i : ℕ) (ss : List StepDefinition) (current : Value) (w : World)
      → or_empty (deref r w).step_results ≡ m
      → AllCached m i ss
      → Replayed n (last_cached m i ss current) w (run_steps env eng ctx r n i ss current w)
  unfolding run_steps
  run_steps-Replayed m n i [] current w e h = complete-Replayed n current w
  run_steps-Replayed m n i (s ∷ ss) current w e h =
      let w1 = renew_instance_lease eng (deref r w).id w in
      let w2 = skip_step env eng ctx r i w1 in
      let v = h.0.0 in
      let hit : lookup_int i m ≡ some v = h.0.1 in
      let (results, same_id, log) = skip_results i w in
      let kept : or_empty (deref r w1).step_results ≡ m =
        ap or_empty (renew-SameButLease eng (deref r w).id r w).step_results ∙ e in
      let rest = run_steps-Replayed m n (i + 1) ss v w2 (ap or_empty results ∙ e) h.1 in
      rw (kept, hit, run_steps)
        (record {
          ends = rest.ends;
          status = rest.status;
          output = rest.output;
          observed = cc (rest.observed, log, same_id);
        })

  -- Where every step from `start` on has a cached result, `execute_steps` ends without an error,
  -- leaves the instance completed with the last step's cached value for its output, and calls no
  -- step function: the observer hears of the workflow's completion and of nothing else.
  pub execute_steps-AllCached :
      (def : WorkflowDefinition) (start : ℕ) (input : Value) (w : World)
      → let m = or_empty (deref r w).step_results in
        let steps = drop start def.steps in
        AllCached m start steps
        → Replayed
            (length def.steps)
            (last_cached m start steps input)
            w
            (execute_steps env eng ctx r def start input w)
  unfolding execute_steps
  execute_steps-AllCached def start input w h =
      run_steps-Replayed (or_empty (deref r w).step_results) (length def.steps) start
        (drop start def.steps) input w refl h
