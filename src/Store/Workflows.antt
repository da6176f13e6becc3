-- ===== src/Store/Workflows.antt =====
-- memory_store.go: the registry of workflow definitions.
use fluxo.Common.{
  ℕ, zero, suc, ◌<◌, String, ◌≡◌, ◌≢◌, ◌↔◌, refl, ◌∙◌, ap, sym, inl, inr, ◌&&◌, Option, none, some,
  List, [], ◌∷◌, ◌++◌, arith, lookup, lookup-nil, insert-ne-nil, insert, lookup-insert, length,
  length-append, replicate, get_elem?, Option-cases, Bool-cases, ◌==ₛ◌, eq_iff, if◌then◌else◌, ltb,
}
use fluxo.Api.{workflow_not_found, Result, value, error, WorkflowDefinition}
use fluxo.Store.{
  Store, or_empty, save_workflow, get_workflow, get_latest_workflow, list_workflow_versions,
  first_value,
}

abbrev Registry : Type 0
Registry = List (String × List (String × WorkflowDefinition))

-- The definition of a name and version, if there is one.
abbrev pub find : String → String → Registry → Option WorkflowDefinition
find name version ws = lookup version (or_empty (lookup name ws))

abbrev found : Option WorkflowDefinition → Result WorkflowDefinition
found none = error workflow_not_found
found (some d) = value d

get_workflow-find :
    (name version : String) (s : Store)
    → get_workflow name version s ≡ found (find name version s.workflows)
unfolding get_workflow
get_workflow-find name version s = elim (Option-cases (lookup name s.workflows)) [
  | inl e ↦ rw (e, get_workflow, lookup-nil version) refl
  | inr (m, e) ↦ rw (e, get_workflow) (ground arith)
]

find-insert :
    (name n v : String) (m : List (String × WorkflowDefinition)) (ws : Registry)
    → find n v (insert name m ws) ≡ (if name ==ₛ n then lookup v m else find n v ws)
find-insert name n v m ws = elim (Bool-cases (name ==ₛ n)) [
  | inl e ↦ rw (lookup-insert name n m ws, e) refl
  | inr e ↦ rw (lookup-insert name n m ws, e) refl
]

-- Where the name has a map of its own already, to store that map again changes no answer.
find-insert_same :
    (name n v : String) (ws : Registry)
    → find n v (insert name (or_empty (lookup name ws)) ws) ≡ find n v ws
find-insert_same name n v ws =
    ground (arith, find-insert name n v (or_empty (lookup name ws)) ws, eq_iff name n)

find-save :
    (def : WorkflowDefinition) (n v : String) (ws : Registry)
    → let versions = or_empty (lookup def.name ws) in
      find n v (insert def.name (insert def.version def versions) (insert def.name versions ws))
      ≡ (if def.name ==ₛ n && def.version ==ₛ v then some def else find n v ws)
find-save def n v ws =
    let versions = or_empty (lookup def.name ws) in
    ground (
      arith,
      find-insert def.name n v (insert def.version def versions) (insert def.name versions ws),
      find-insert_same def.name n v ws,
      lookup-insert def.version v def versions,
      eq_iff def.name n,
    )

-- A definition that is saved is found under its name and version, and nothing else changes.
pub get_workflow-save_workflow :
    (def : WorkflowDefinition) (s : Store) (name version : String)
    → (save_workflow def s).1 ≡ none
    → get_workflow name version (save_workflow def s).0 ≡ (
        if def.name ==ₛ name && def.version ==ₛ version
        then value def
        else get_workflow name version s)
unfolding save_workflow
get_workflow-save_workflow def s name version h =
    elim (Option-cases (find def.name def.version s.workflows)) [
      | inl free ↦
          rw (free, save_workflow, get_workflow-find name version)
            (ground
              (arith, find-save def name version s.workflows, get_workflow-find name version s))
      | inr (d, taken) ↦ ground (arith, taken)
    ]

-- A definition whose name and version are free is saved.
pub save_workflow-free :
    (def : WorkflowDefinition) (s : Store)
    → get_workflow def.name def.version s ≡ error workflow_not_found
    → (save_workflow def s).1 ≡ none
unfolding save_workflow
save_workflow-free def s free = elim (Option-cases (find def.name def.version s.workflows)) [
  | inl e ↦ rw (e, save_workflow) refl
  | inr (d, e) ↦ ground (arith, get_workflow-find def.name def.version s, e)
]

-- A definition whose name and version are taken is refused, and the registry answers as before.
pub save_workflow-taken :
    (def d : WorkflowDefinition) (s : Store) (name version : String)
    → get_workflow def.name def.version s ≡ value d
    → ((save_workflow def s).1 ≢ none)
      × (get_workflow name version (save_workflow def s).0 ≡ get_workflow name version s)
unfolding save_workflow
save_workflow-taken def d s name version h =
    elim (Option-cases (find def.name def.version s.workflows)) [
      | inl free ↦ ground (arith, free, get_workflow-find def.name def.version s)
      | inr (d', taken) ↦
          rw (taken, save_workflow, get_workflow-find name version)
            (
              λ e. cc,
              rw (find-insert_same def.name name version s.workflows)
                  (sym (get_workflow-find name version s)),
            )
    ]

-- Whatever is saved, what was found is found as before.
pub save_workflow-keeps :
    (def d : WorkflowDefinition) (s : Store) (name version : String)
    → get_workflow name version s ≡ value d
    → get_workflow name version (save_workflow def s).0 ≡ value d
save_workflow-keeps def d s name version there =
    elim (Option-cases (find def.name def.version s.workflows)) [
      | inr (d', taken) ↦
          (save_workflow-taken def d' s name version
            (get_workflow-find def.name def.version s ∙ ap found taken)).1
          ∙ there
      | inl free ↦
          let absent : get_workflow def.name def.version s ≡ error workflow_not_found =
            get_workflow-find def.name def.version s ∙ ap found free in
          get_workflow-save_workflow def s name version (save_workflow-free def s absent)
          ∙ ground (arith, absent, there, eq_iff def.name name, eq_iff def.version version)
    ]

length-replicate : (n : ℕ) (x : String) → length (replicate n x) ≡ n
length-replicate zero x = refl
length-replicate (suc n) x = ap suc (length-replicate n x)

replicate-blank :
    (n : ℕ) (rest : List String) (j : ℕ) → j < n → get_elem? (replicate n "" ++ rest) j ≡ some ""
replicate-blank zero rest j h = elim h [ ]
replicate-blank (suc n) rest zero h = refl
replicate-blank (suc n) rest (suc j) h = replicate-blank n rest j (omega arith)

-- `list_workflow_versions` of a name with a version: one text more than there are versions, and all
-- but the last are blank.
pub list_workflow_versions-padded :
    (name : String) (versions : List (String × WorkflowDefinition)) (s : Store)
    → lookup name s.workflows ≡ some versions
    → versions ≢ []
    → (l : List String) × (list_workflow_versions name s ≡ value l)
      × (length l ≡ suc (length versions))
      × ((j : ℕ) → j < length versions → get_elem? l j ≡ some "")
unfolding list_workflow_versions
list_workflow_versions-padded name [] s found some_version = absurd (some_version refl)
list_workflow_versions-padded name ((k, d) ∷ m) s found some_version = (
  replicate (suc (length m)) "" ++ k ∷ [],
  rw (found, list_workflow_versions),
  omega (
    arith,
    length-append (replicate (suc (length m)) "") (k ∷ []),
    length-replicate (suc (length m)) "",
  ),
  replicate-blank (suc (length m)) (k ∷ []),
)

-- Every name in the registry has a version.
abbrev pub HasVersions : Store → Type 0
HasVersions s = (name : String) → lookup name s.workflows ≢ some []

-- `save_workflow` gives no name a map without a version.
pub save_workflow-HasVersions :
    (def : WorkflowDefinition) (s : Store) → HasVersions s → HasVersions (save_workflow def s).0
unfolding save_workflow
save_workflow-HasVersions def s h name =
    let versions = or_empty (lookup def.name s.workflows) in
    elim (Option-cases (find def.name def.version s.workflows)) [
      | inl free ↦
          rw (free, save_workflow, lookup-insert def.name name (insert def.version def versions))
            (ground (
              arith,
              lookup-insert def.name name versions s.workflows,
              insert-ne-nil def.version def versions,
              h name,
            ))
      | inr (d, taken) ↦
          rw (taken, save_workflow, lookup-insert def.name name versions)
            (ground (arith, h name, lookup-nil {V = WorkflowDefinition} def.version, taken))
    ]

-- Where every name in the registry has a version, `get_latest_workflow` answers for a name exactly
-- if it has one version, with that version.
pub get_latest_workflow_unique :
    (name : String) (def : WorkflowDefinition) (s : Store)
    → HasVersions s
    → (get_latest_workflow name s ≡ value def)
      ↔ ((k : String) × (lookup name s.workflows ≡ some ((k, def) ∷ [])))
unfolding get_latest_workflow
get_latest_workflow_unique name def s h = (only (lookup name s.workflows) (h name), unique)
  where
    only :
        (o : Option (List (String × WorkflowDefinition)))
        → o ≢ some []
        → elim o [
          | none ↦ error workflow_not_found
          | some versions ↦
              if ltb 1 (length versions)
              then error workflow_not_found
              else value (first_value versions)
        ]
          ≡ value def
        → (k : String) × (o ≡ some ((k, def) ∷ []))
    only none h e = cc
    only (some []) h e = absurd (h refl)
    only (some ((k, d) ∷ [])) h e = (k, ground arith)
    only (some (x ∷ y ∷ m)) h e = ground arith

    unique :
        ((k : String) × (lookup name s.workflows ≡ some ((k, def) ∷ [])))
        → get_latest_workflow name s ≡ value def
    unique (k, e) = rw (e, get_latest_workflow) refl
