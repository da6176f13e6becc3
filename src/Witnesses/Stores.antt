-- ===== src/Witnesses/Stores.antt =====
-- The registry, the leases and the engine's calls on them.
use fluxo.Common.{
  ℕ, ◌<◌, ◌≡◌, ◌≢◌, refl, String, true, false, none, some, List, [], ◌∷◌, length, lookup, get_elem?,
  arith,
}
use fluxo.Api.{
  running, failed, waiting, status_eq, null, background, value, instance_locked, WorkflowDefinition,
}
use fluxo.Store.{Store, get_workflow, list_workflow_versions, get_instance, try_acquire_lease}
use fluxo.LeaseBook.{LeaseCall, acquires, releases}
use fluxo.Store.Leases.{lease_calls, lease_exclusion}
use fluxo.Store.Workflows.{list_workflow_versions-padded}
use fluxo.World.{EngineConfig, deref}
use fluxo.Execute.{failure}
use fluxo.Engine.Registry.{register_workflow}
use fluxo.Engine.Upkeep.{recover_stuck_instances, inspect_instance}
use fluxo.Engine.Resumes.{resume_inline, signal_inline}
use fluxo.Engine.Registration.{
  completed_definition, conflict, register_all, register_workflow-found, register_workflow-again,
}
use fluxo.Engine.Guards.{resume_inline-locked, signal_inline-locked}
use fluxo.Engine.Inspection.{inspect_instance-releases}
use fluxo.Engine.Recovery.{recovered, recover_stuck_instances-recovered}
use fluxo.Witnesses.{env, eng, flow, instance_in, world_in, world_of, store_in, texts_differ}

abbrev idle : Store
idle = store_in (instance_in failed)

-- The store after engine `one` has acquired the instance.
abbrev leased : Store
leased = store_in (record (instance_in failed) { lease_owner = "one"; lease_expires_at = 50 })

abbrev calls : List LeaseCall
calls = acquires "i" "two" 5 20 ∷ releases "i" "two" 30 ∷ []

two_one : ◌≢◌ {A = String} "two" "one"
two_one = texts_differ "two" "one" refl

lease_exclusion_example :
    let s = lease_calls calls (try_acquire_lease "i" "one" 40 10 idle).0 in
    try_acquire_lease "i" "two" 7 45 s ≡ (s, value false)
unfolding try_acquire_lease lookup
lease_exclusion_example =
    lease_exclusion idle "i" "one" "two" 40 10 calls 7 45 refl (texts_differ "one" "" refl)
      ((two_one, omega arith), ((two_one, omega arith), tt)) two_one (omega arith)

list_workflow_versions-padded_example :
    (l : List String) × (list_workflow_versions "flow" idle ≡ value l)
    × (length l ≡ 2)
    × ((j : ℕ) → j < 1 → get_elem? l j ≡ some "")
unfolding lookup
list_workflow_versions-padded_example =
    list_workflow_versions-padded "flow" (("v1", flow) ∷ []) idle refl (λ e. ground (arith, e))

abbrev fresh : WorkflowDefinition
fresh = record flow { name = "new"; version = "" }

abbrev later : List WorkflowDefinition
later = record fresh { fingerprint = "g" } ∷ record fresh { version = "v2" } ∷ []

register_workflow-found_example :
    let w' = register_all env later (register_workflow env fresh (world_in failed)).0 in
    ((register_workflow env fresh (world_in failed)).1 ≡ none)
    × (get_workflow "new" "v1" w'.store ≡ value (completed_definition env fresh))
unfolding get_workflow lookup
register_workflow-found_example =
    register_workflow-found env fresh (world_in failed) later (refl, refl) refl

register_workflow-again_example :
    let w' = (register_workflow env fresh (world_in failed)).0 in
    register_workflow env (record fresh { fingerprint = "g"; version = "v1" }) w' ≡ (
      w',
      some (
          conflict
            (record fresh { version = "v1" })
            (record fresh { fingerprint = "g"; version = "v1" })),
    )
unfolding get_workflow lookup
register_workflow-again_example =
    register_workflow-again env fresh (record fresh { fingerprint = "g"; version = "v1" })
      (world_in failed) (refl, refl) (refl, refl) refl refl refl

abbrev second : EngineConfig
second = record eng { engine_id = "two" }

abbrev leased_waiting : Store
leased_waiting =
    store_in (record (instance_in waiting) { lease_owner = "one"; lease_expires_at = 50 })

resume_inline-locked_example :
    resume_inline env second background "i" (world_of leased)
    ≡ (world_of leased, none, failure instance_locked)
unfolding get_instance lookup
resume_inline-locked_example =
    resume_inline-locked env second background (world_of leased) "i" 0 refl "one" 50
      (0, refl, refl, refl) (texts_differ "one" "" refl) two_one (omega arith) refl

signal_inline-locked_example :
    signal_inline env second background "i" "go" null (world_of leased_waiting)
    ≡ (world_of leased_waiting, none, failure instance_locked)
unfolding get_instance lookup
signal_inline-locked_example =
    signal_inline-locked env second background (world_of leased_waiting) "i" 0 refl "one" 50
      (0, refl, refl, refl) (texts_differ "one" "" refl) two_one (omega arith) "go" null refl

inspect_instance-releases_example :
    (try_acquire_lease "i" "two" 5 20 (inspect_instance env eng "i" (world_of leased)).0.store).1
    ≡ value true
unfolding lookup get_instance inspect_instance get_workflow
inspect_instance-releases_example =
    inspect_instance-releases env eng "i" "two" 0 50 5 20 (world_of leased) (0, refl, refl, refl)
      refl refl refl

recover_stuck_instances-recovered_example :
    let out = recover_stuck_instances (world_in running) in
    (out.2 ≡ none)
    × (deref 0 out.0 ≡ recovered (deref 0 (world_in running)))
    × (status_eq (deref 0 out.0).status running ≡ false)
unfolding lookup
recover_stuck_instances-recovered_example =
    recover_stuck_instances-recovered (world_in running) "i" 0 ((refl, refl), tt) refl
