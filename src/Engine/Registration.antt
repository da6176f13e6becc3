-- ===== src/Engine/Registration.antt =====
-- engine_impl.go: `RegisterWorkflow`.
use fluxo.Common.{
  String, ◌≡◌, refl, ◌∙◌, inl, inr, Bool, true, false, none, some, arith, List, [], ◌∷◌, ◌==◌,
  ◌==ₛ◌, is_blank, str_self, Bool-cases, if◌then◌else◌, length,
}
use fluxo.Api.{Err, definition_mismatch, wrap, workflow_not_found, value, error, WorkflowDefinition}
use fluxo.Store.{get_workflow}
use fluxo.Store.Workflows.{save_workflow-free, get_workflow-save_workflow, save_workflow-keeps}
use fluxo.World.{World, Env}
use fluxo.Engine.Registry.{with_version, with_fingerprint, save, register_workflow}
use fluxo.Engine.{version_or_v1}

-- The definition as it stands in the registry.
abbrev pub completed_definition : Env → WorkflowDefinition → WorkflowDefinition
completed_definition env def = with_fingerprint env (with_version env def)

-- A definition passes `RegisterWorkflow`'s two checks.
abbrev pub IsRegistrable : WorkflowDefinition → Type 0
IsRegistrable def = (is_blank def.name ≡ false) × ((length def.steps == 0) ≡ false)

-- The refusal of a definition whose name and version stand for another one.
abbrev pub conflict : WorkflowDefinition → WorkflowDefinition → Err
conflict existing d =
    wrap "%w: workflow %s@%s fingerprint differs (existing=%s new=%s)"
      (d.name ∷ d.version ∷ existing.fingerprint ∷ d.fingerprint ∷ []) definition_mismatch

if_pair :
    {A B : Type 0} (b : Bool) (a : A) (x y : B)
    → ◌≡◌ {A = A × B} (if b then (a, x) else (a, y)) (a, if b then x else y)
if_pair true a x y = refl
if_pair false a x y = refl

save-found :
    (env : Env) (d : WorkflowDefinition) (n v : String) (w : World)
    → d.name ≡ n
    → d.version ≡ v
    → get_workflow n v w.store ≡ error workflow_not_found
    → ((save env d w).1 ≡ none) × (get_workflow n v (save env d w).0.store ≡ value d)
save-found env d n v w en ev free =
    let saved = save_workflow-free d w.store (rw (en, ev) free) in
    (
      saved,
      get_workflow-save_workflow d w.store n v saved ∙ rw (en, ev, str_self n, str_self v) refl,
    )

module _ (env : Env) (def : WorkflowDefinition) (w : World) where
  -- With the two checks passed and its key free, the definition is saved as completed.
  register_workflow-saves :
      IsRegistrable def
      → get_workflow def.name (version_or_v1 def.version) w.store ≡ error workflow_not_found
      → register_workflow env def w ≡ save env (completed_definition env def) w
  unfolding register_workflow
  register_workflow-saves (named, stepped) free = elim (Bool-cases (is_blank def.fingerprint)) [
    | inl blank ↦ rw (named, stepped, blank, free, register_workflow) (rw blank refl)
    | inr printed ↦ rw (named, stepped, printed, free, register_workflow) (rw printed refl)
  ]

  -- With its key taken, only the fingerprints decide.
  register_workflow-compares :
      (existing : WorkflowDefinition)
      → IsRegistrable def
      → get_workflow def.name (version_or_v1 def.version) w.store ≡ value existing
      → is_blank existing.name ≡ false
      → let d = completed_definition env def in
        register_workflow env def w
        ≡ (w, if existing.fingerprint ==ₛ d.fingerprint then none else some (conflict existing d))
  unfolding register_workflow
  register_workflow-compares existing (named, stepped) taken there =
      elim (Bool-cases (is_blank def.fingerprint)) [
        | inl blank ↦
            rw (named, stepped, blank, taken, there, register_workflow) (rw blank (if_pair _ w _ _))
        | inr printed ↦
            rw (named, stepped, printed, taken, there, register_workflow)
              (rw printed (if_pair _ w _ _))
      ]

  completed_key :
      ((completed_definition env def).name ≡ def.name)
      × ((completed_definition env def).version ≡ version_or_v1 def.version)
  completed_key = elim (Bool-cases (is_blank def.fingerprint)) [
    | inl blank ↦ rw blank (refl, refl)
    | inr printed ↦ rw printed (refl, refl)
  ]

  pub register_workflow-stored :
      IsRegistrable def
      → get_workflow def.name (version_or_v1 def.version) w.store ≡ error workflow_not_found
      → let w' = (register_workflow env def w).0 in
        ((register_workflow env def w).1 ≡ none)
        × (get_workflow def.name (version_or_v1 def.version) w'.store
            ≡ value (completed_definition env def))
  register_workflow-stored valid free = rw (register_workflow-saves valid free) (
      save-found env (completed_definition env def) def.name (version_or_v1 def.version) w
        completed_key.0 completed_key.1 free)

-- Registrations one after the other, whatever each answers.
unfoldable pub register_all : Env → List WorkflowDefinition → World → World
register_all env [] w = w
register_all env (def ∷ defs) w = register_all env defs (register_workflow env def w).0

-- What is registered stays so under any registration.
register_workflow-keeps :
    (env : Env) (def d : WorkflowDefinition) (w : World) (name version : String)
    → get_workflow name version w.store ≡ value d
    → get_workflow name version (register_workflow env def w).0.store ≡ value d
unfolding register_workflow
register_workflow-keeps env def d w name version there =
    let kept = save_workflow-keeps (completed_definition env def) d w.store name version there in
    ground (arith, there, kept)

register_all-keeps :
    (env : Env) (defs : List WorkflowDefinition) (d : WorkflowDefinition) (w : World)
    (name version : String)
    → get_workflow name version w.store ≡ value d
    → get_workflow name version (register_all env defs w).store ≡ value d
unfolding register_all
register_all-keeps env [] d w name version there = there
register_all-keeps env (def ∷ defs) d w name version there =
    register_all-keeps env defs d (register_workflow env def w).0 name version
      (register_workflow-keeps env def d w name version there)

-- A definition with a name and a step, whose name and version ("v1" for none) are free, is
-- registered without an error, and is found under them, completed with its fingerprint, after any
-- further registrations.
pub register_workflow-found :
    (env : Env) (def : WorkflowDefinition) (w : World) (later : List WorkflowDefinition)
    → IsRegistrable def
    → get_workflow def.name (version_or_v1 def.version) w.store ≡ error workflow_not_found
    → let w' = register_all env later (register_workflow env def w).0 in
      ((register_workflow env def w).1 ≡ none)
      × (get_workflow def.name (version_or_v1 def.version) w'.store
          ≡ value (completed_definition env def))
register_workflow-found env def w later valid free =
    let (accepted, there) = register_workflow-stored env def w valid free in
    (
      accepted,
      register_all-keeps env later (completed_definition env def) (register_workflow env def w).0
          def.name (version_or_v1 def.version) there,
    )

-- Registering under a name and version that an earlier registration took changes nothing. It
-- succeeds exactly if the fingerprints of the two completed definitions agree, and is refused as a
-- definition mismatch that names both fingerprints otherwise.
pub register_workflow-again :
    (env : Env) (def other : WorkflowDefinition) (w : World)
    → IsRegistrable def
    → IsRegistrable other
    → get_workflow def.name (version_or_v1 def.version) w.store ≡ error workflow_not_found
    → other.name ≡ def.name
    → version_or_v1 other.version ≡ version_or_v1 def.version
    → let w' = (register_workflow env def w).0 in
      let d = completed_definition env def in
      let d' = completed_definition env other in
      register_workflow env other w'
      ≡ (w', if d.fingerprint ==ₛ d'.fingerprint then none else some (conflict d d'))
register_workflow-again env def other w valid valid' free en ev =
    let w' = (register_workflow env def w).0 in
    register_workflow-compares env other w' (completed_definition env def) valid'
      (rw (en, ev) (register_workflow-stored env def w valid free).1)
      (rw (completed_key env def w).0 valid.0)
