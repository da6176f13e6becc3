-- ===== src/Steps/Children/Finished.antt =====
-- workflow.go: when `WaitForChildrenStep` lets a workflow go on.
use fluxo.Common.{
  ℕ, String, ◌≡◌, refl, sym, ◌∙◌, arith, Bool, true, false, some, List, [], ◌∷◌, lookup,
  Option-cases, Bool-cases, inl, inr, ◌⊎◌, false≢true,
}
use fluxo.Api.{
  Status, null, pending, running, completed, failed, waiting, Value, slice, of_list, Err,
  Result-cases, value, ok, Context,
}
use fluxo.Api.Errors.{is_workflow_not_found}
use fluxo.Store.{get_instance, get_workflow}
use fluxo.World.{World, EngineConfig, Env, deref, release_instance_lease}
use fluxo.World.Cells.{SameButLease, release-SameButLease}
use fluxo.Engine.Upkeep.{inspect_instance}
use fluxo.Engine.{is_mismatch, version_or_v1}
use fluxo.Steps.Children.{
  Scan, refused, broken, gathered, after_child, Looked, seen, unseen, burst, look, scan_children,
  of_scan, poll_after, wait_for_children_step,
}

-- The children with these ids have completed with these outputs, in this order.
pub Finished : World → List String → List Value → Type 0
Finished w [] [] = Unit {0}
Finished w [] (v ∷ vs) = ⊥
Finished w (id ∷ ids) [] = ⊥
Finished w (id ∷ ids) (v ∷ vs) =
    ((r : ℕ) × (get_instance id w.store ≡ value r)
      × ((deref r w).status ≡ completed)
      × ((deref r w).output ≡ v))
    × Finished w ids vs

-- What a look at an instance leaves.
pub record Unmoved (w' w : World) : Type 0 where
  pub instances : w'.store.instances ≡ w.store.instances
  pub cells : (p : ℕ) → SameButLease (deref p w') (deref p w)

same-Unmoved : (w : World) → Unmoved w w
same-Unmoved w = record {
  instances = refl;
  cells = λ p. record {
    id = refl;
    status = refl;
    current_step = refl;
    err = refl;
    output = refl;
    input = refl;
    step_results = refl;
  };
}

module _ (env : Env) (eng : EngineConfig) where
  release-Unmoved : (id : String) (w : World) → Unmoved (release_instance_lease eng id w) w
  unfolding release_instance_lease
  release-Unmoved id w = record {
    instances = elim (Option-cases (lookup id w.store.instances)) [
      | inl e ↦ ground (arith, e)
      | inr (q, e) ↦ ground (arith, e)
    ];
    cells = λ p. release-SameButLease eng id p w;
  }

  pub look-Unmoved : (id : String) (w : World) → Unmoved (look env eng id w).0 w
  unfolding look inspect_instance
  look-Unmoved id w = elim (Result-cases (get_instance id w.store)) [
    | inr (e, missing) ↦ rw (missing, inspect_instance, look) (same-Unmoved w)
    | inl (r, there) ↦
        elim (Result-cases
          (get_workflow (deref r w).name (version_or_v1 (deref r w).version) w.store)) [
            | inl (def, known) ↦ elim (Bool-cases (is_mismatch (deref r w) def)) [
              | inl e ↦ rw (there, known, e, inspect_instance, look) (same-Unmoved w)
              | inr e ↦
                  rw (there, known, e, inspect_instance, look) (release-Unmoved (deref r w).id w)
            ]
            | inr (e, unknown) ↦ elim (Bool-cases (is_workflow_not_found e)) [
              | inl gone ↦
                  rw (there, unknown, gone, inspect_instance, look)
                    (release-Unmoved (deref r w).id w)
              | inr other ↦ rw (there, unknown, other, inspect_instance, look) (same-Unmoved w)
            ]
          ]
  ]

  pub look-seen :
      (id : String) (r : ℕ) (w : World)
      → (look env eng id w).1 ≡ seen r
      → get_instance id w.store ≡ value r
  unfolding look inspect_instance
  look-seen id r w found = elim (Result-cases (get_instance id w.store)) [
    | inr (e, missing) ↦ ground (arith, missing, found)
    | inl (q, there) ↦
        elim (Result-cases
          (get_workflow (deref q w).name (version_or_v1 (deref q w).version) w.store)) [
            | inl (def, known) ↦ ground (arith, found, there, known)
            | inr (e, unknown) ↦ ground (arith, found, there, unknown)
          ]
  ]

Finished-Unmoved :
    (w' w : World) (ids : List String) (vs : List Value)
    → Unmoved w' w
    → Finished w' ids vs
    → Finished w ids vs
unfolding Finished get_instance
Finished-Unmoved w' w [] [] same done = done
Finished-Unmoved w' w [] (v ∷ vs) same done = done
Finished-Unmoved w' w (id ∷ ids) [] same done = done
Finished-Unmoved w' w (id ∷ ids) (v ∷ vs) same ((r, there, over, out), rest) = (
  (
    r,
    ground (arith, there, same.instances),
    sym (same.cells r).status ∙ over,
    sym (same.cells r).output ∙ out,
  ),
  Finished-Unmoved w' w ids vs same rest,
)

-- A pass that ends well has met a child that has completed, and then a pass that ended well.
after_child-gathered :
    (finished : Bool) (output : Value) (rest : Scan) (vs : List Value)
    → after_child finished output rest ≡ gathered true vs
    → (finished ≡ true) × (us : List Value) × (rest ≡ gathered true us) × (vs ≡ output ∷ us)
after_child-gathered finished output (refused e) vs same = ground (arith, same)
after_child-gathered finished output broken vs same = ground (arith, same)
after_child-gathered true output (gathered all us) vs same =
    (refl, us, ground (arith, same), ground (arith, same))
after_child-gathered false output (gathered all us) vs same = ground (arith, same)

pub Looked-cases :
    (x : Looked) → ((r : ℕ) × (x ≡ seen r)) ⊎ (((e : Err) × (x ≡ unseen e)) ⊎ (x ≡ burst))
Looked-cases (seen r) = inl (r, refl)
Looked-cases (unseen e) = inr (inl (e, refl))
Looked-cases burst = inr (inr refl)

pub Status-cases :
    (st : Status)
    → (st ≡ completed) ⊎ ((st ≡ failed) ⊎ ((st ≡ pending) ⊎ ((st ≡ running) ⊎ (st ≡ waiting))))
Status-cases completed = inl refl
Status-cases failed = inr (inl refl)
Status-cases pending = inr (inr (inl refl))
Status-cases running = inr (inr (inr (inl refl)))
Status-cases waiting = inr (inr (inr (inr refl)))

module _ (env : Env) (eng : EngineConfig) (id : String) (ids : List String) (w : World) (r : ℕ)
    (there : (look env eng id w).1 ≡ seen r) where
  -- The pass after a child that it has seen.
  abbrev next : World
  next = (look env eng id w).0

  scan_children-completed :
      (deref r next).status ≡ completed
      → (scan_children env eng (id ∷ ids) w).1
        ≡ after_child true (deref r next).output (scan_children env eng ids next).1
  unfolding scan_children
  scan_children-completed over = rw (there, over, scan_children) refl

  -- A child in another status keeps the pass from ending well.
  scan_children-pending :
      (vs : List Value)
      → (scan_children env eng (id ∷ ids) w).1 ≡ gathered true vs
      → (deref r next).status ≡ completed
  unfolding scan_children
  scan_children-pending vs ended = elim (Status-cases (deref r next).status) [
    | inl over ↦ over
    | inr (inl broke) ↦ ground (arith, there, broke, ended)
    | inr (inr (inl st)) ↦ absurd (stuck (rw (there, st, scan_children) at ended))
    | inr (inr (inr (inl st))) ↦ absurd (stuck (rw (there, st, scan_children) at ended))
    | inr (inr (inr (inr st))) ↦ absurd (stuck (rw (there, st, scan_children) at ended))
  ]
    where
      stuck : after_child false null (scan_children env eng ids next).1 ≡ gathered true vs → ⊥
      stuck same = false≢true (after_child-gathered false null _ vs same).0

module _ (env : Env) (eng : EngineConfig) where
  scan_children-Finished :
      (ids : List String) (vs : List Value) (w : World)
      → (scan_children env eng ids w).1 ≡ gathered true vs
      → Finished w ids vs
  unfolding scan_children Finished
  scan_children-Finished [] [] w ended = _
  scan_children-Finished [] (v ∷ vs) w ended = ground (arith, ended)
  scan_children-Finished (id ∷ ids) vs w ended = elim (Looked-cases (look env eng id w).1) [
    | inr (inl (e, there)) ↦ ground (arith, there, ended)
    | inr (inr there) ↦ ground (arith, there, ended)
    | inl (r, there) ↦
        let over = scan_children-pending env eng id ids w r there vs ended in
        let (_, us, rest, same) =
          after_child-gathered true _ _ vs
            (sym (scan_children-completed env eng id ids w r there over) ∙ ended) in
        let w1 = (look env eng id w).0 in
        let unmoved = look-Unmoved env eng id w in
        rw same (
          (
            r,
            look-seen env eng id r w there,
            sym (unmoved.cells r).status ∙ over,
            sym (unmoved.cells r).output,
          ),
          Finished-Unmoved w1 w ids us unmoved (scan_children-Finished ids us w1 rest),
        )
  ]

  of_scan-ok :
      (ids : List String) (after : ℕ) (x : World × Scan) (v : Value)
      → (of_scan env eng ids after x).1 ≡ ok v
      → (vs : List Value) × (x.1 ≡ gathered true vs) × (v ≡ slice (of_list vs))
  of_scan-ok ids after (w, refused e) v same = ground (arith, same)
  of_scan-ok ids after (w, broken) v same = ground (arith, same)
  of_scan-ok ids after (w, gathered true vs) v same = (vs, refl, ground (arith, same))
  of_scan-ok ids after (w, gathered false vs) v same = ground (arith, same)

  -- `WaitForChildrenStep` returns a value only if every child has completed; the value is the slice
  -- of the children's outputs, in the order of the ids.
  pub wait_for_children_step-Finished :
      (get_ids : Value → List String) (poll_interval : ℕ) (ctx : Context) (input v : Value)
      (w : World)
      → (wait_for_children_step env eng (some get_ids) poll_interval ctx input w).1 ≡ ok v
      → (vs : List Value) × (v ≡ slice (of_list vs)) × Finished w (get_ids input) vs
  unfolding wait_for_children_step
  wait_for_children_step-Finished get_ids poll_interval ctx input v w returned =
      elim (Bool-cases ctx.has_engine) [
        | inr no_engine ↦ ground (arith, no_engine, returned)
        | inl engine ↦
            let (vs, ended, same) =
              of_scan-ok (get_ids input) (poll_after poll_interval)
                (scan_children env eng (get_ids input) w) v
                (rw (engine, wait_for_children_step) at returned) in
            (vs, same, scan_children-Finished (get_ids input) vs w ended)
      ]
