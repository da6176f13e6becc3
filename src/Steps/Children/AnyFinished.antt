-- ===== src/Steps/Children/AnyFinished.antt =====
-- workflow.go: which child `WaitForAnyChildStep` goes on with.
use fluxo.Common.{
  ℕ, String, ◌≡◌, refl, sym, ap, ◌∙◌, arith, Option, none, some, List, [], ◌∷◌, ◌++◌, Bool-cases,
  inl, inr,
}
use fluxo.Api.{completed, Value, text, Outcome, ok, value, Context}
use fluxo.Store.{get_instance}
use fluxo.World.{World, EngineConfig, Env, deref}
use fluxo.Steps.Children.{look, scan_any, of_any, poll_after, wait_for_any_child_step}
use fluxo.Steps.Children.Finished.{Unmoved, look-Unmoved, look-seen, Looked-cases, Status-cases}

-- The child has completed.
abbrev pub HasCompleted : World → String → Type 0
HasCompleted w id = (r : ℕ) × (get_instance id w.store ≡ value r) × ((deref r w).status ≡ completed)

-- A completed child among some ids.
abbrev pub Chosen : World → List String → String → Type 0
Chosen w ids id =
    (before : List String) × (after : List String) × (ids ≡ before ++ id ∷ after)
    × HasCompleted w id

HasCompleted-Unmoved :
    (w' w : World) (id : String) → Unmoved w' w → HasCompleted w' id → HasCompleted w id
unfolding get_instance
HasCompleted-Unmoved w' w id same (r, there, over) =
    (r, ground (arith, there, same.instances), sym (same.cells r).status ∙ over)

module _ (env : Env) (eng : EngineConfig) where
  scan_any-Chosen :
      (ids : List String) (v : Value) (w : World)
      → (scan_any env eng ids w).1 ≡ some (ok v)
      → (id : String) × (v ≡ text id) × Chosen w ids id
  unfolding scan_any
  scan_any-Chosen [] v w ended = ground (arith, ended)
  scan_any-Chosen (id ∷ ids) v w ended =
      let w1 = (look env eng id w).0 in
      let unmoved = look-Unmoved env eng id w in
      let later : (scan_any env eng ids w1).1 ≡ some (ok v)
          → (k : String) × (v ≡ text k) × Chosen w (id ∷ ids) k =
        λ rest.
          (let (k, same, (before, after, split, done)) = scan_any-Chosen ids v w1 rest in
            (
              k,
              same,
              (
                id ∷ before,
                after,
                ap (λ l. id ∷ l) split,
                HasCompleted-Unmoved w1 w k unmoved done,
              ),
            )) in
      elim (Looked-cases (look env eng id w).1) [
        | inr (inl (e, there)) ↦ ground (arith, there, ended)
        | inr (inr there) ↦ ground (arith, there, ended)
        | inl (r, there) ↦ elim (Status-cases (deref r w1).status) [
          | inl over ↦ (
            id,
            ground (arith, there, over, ended),
            (
              [],
              ids,
              refl,
              (r, look-seen env eng id r w there, sym (unmoved.cells r).status ∙ over),
            ),
          )
          | inr (inl broke) ↦ ground (arith, there, broke, ended)
          | inr (inr (inl st)) ↦ later (rw (there, st, scan_any) at ended)
          | inr (inr (inr (inl st))) ↦ later (rw (there, st, scan_any) at ended)
          | inr (inr (inr (inr st))) ↦ later (rw (there, st, scan_any) at ended)
        ]
      ]

  of_any-ok :
      (ids : List String) (after : ℕ) (x : World × Option Outcome) (id : String)
      → (of_any env eng ids after x).1 ≡ ok (text id)
      → x.1 ≡ some (ok (text id))
  of_any-ok ids after (w, some out) id same = ground (arith, same)
  of_any-ok [] after (w, none) id same = ground (arith, same)
  of_any-ok (k ∷ ids) after (w, none) id same = ground (arith, same)

  -- If `WaitForAnyChildStep` returns a text, it is the id of one of the children, and that child
  -- has completed.
  pub wait_for_any_child_step-Chosen :
      (get_ids : Value → List String) (poll_interval : ℕ) (ctx : Context) (input : Value)
      (id : String) (w : World)
      → (wait_for_any_child_step env eng (some get_ids) poll_interval ctx input w).1 ≡ ok (text id)
      → Chosen w (get_ids input) id
  unfolding wait_for_any_child_step
  wait_for_any_child_step-Chosen get_ids poll_interval ctx input id w returned =
      elim (Bool-cases ctx.has_engine) [
        | inr no_engine ↦ ground (arith, no_engine, returned)
        | inl engine ↦
            let (k, same, chosen) = scan_any-Chosen (get_ids input) (text id) w (
              of_any-ok (get_ids input) (poll_after poll_interval)
                (scan_any env eng (get_ids input) w) id
                (rw (engine, wait_for_any_child_step) at returned)) in
            let same_id : k ≡ id = ground (arith, same) in rw same_id at chosen
      ]
