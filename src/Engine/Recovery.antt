-- ===== src/Engine/Recovery.antt =====
-- engine_impl.go: `RecoverStuckInstances`, called at startup after a crash.
use fluxo.Common.{
  ℕ, ◌+◌, String, ◌≡◌, refl, ap, ◌∙◌, inl, inr, Bool, true, false, ◌||◌, none, some, List, [], ◌∷◌,
  arith, All, All-mono, lookup, lookup-insert, ◌==◌, ==-self, eq_iff, Option-cases, Bool-cases,
  if◌then◌else◌,
}
use fluxo.Api.{running, failed, status_eq, WorkflowInstance}
use fluxo.Store.{Store, InstanceFilter, passes, list_from, list_instances, update_instance}
use fluxo.World.{World, deref, assign}
use fluxo.Engine.Upkeep.{recover_loop, recover_stuck_instances, stuck_err}

-- An entry of the store's map is the one found under its key, which is its instance's id.
abbrev pub IsIndexed : Store → Type 0
IsIndexed s = All (λ x. ((s.cell x.1).id ≡ x.0) × (lookup x.0 s.instances ≡ some x.1)) s.instances

-- What the recovery makes of an instance.
abbrev pub recovered : WorkflowInstance → WorkflowInstance
recovered inst =
    if status_eq inst.status running
    then record inst { status = failed; err = some stuck_err }
    else inst

-- An instance that the map holds under its id.
abbrev Listed : World → ℕ → Type 0
Listed w r = lookup (deref r w).id w.store.instances ≡ some r

-- The world after the loop has failed the instance of `r`.
abbrev fail_stuck : ℕ → World → World
fail_stuck r w =
    let w1 = assign r (λ inst. record inst { status = failed; err = some stuck_err }) w in
    record w1 { store = (update_instance r w1.store).0 }

abbrev contains : ℕ → List ℕ → Bool
contains p [] = false
contains p (r ∷ rs) = (r == p) || contains p rs

fail_stuck-updates :
    (r : ℕ) (w : World)
    → Listed w r
    → (update_instance r
        (assign r (λ inst. record inst { status = failed; err = some stuck_err }) w).store).1
      ≡ none
unfolding update_instance assign
fail_stuck-updates r w listed = rw (==-self r, listed, update_instance) refl

fail_stuck-cell :
    (r p : ℕ) (w : World)
    → deref p (fail_stuck r w)
      ≡ (if r == p then record (deref p w) { status = failed; err = some stuck_err } else deref p w)
unfolding update_instance assign
fail_stuck-cell r p w = elim (Option-cases (lookup (deref r w).id w.store.instances)) [
  | inl e ↦ ground arith
  | inr (q, e) ↦ ground arith
]

fail_stuck-lookup :
    (r : ℕ) (w : World) (id : String)
    → Listed w r
    → lookup id (fail_stuck r w).store.instances ≡ lookup id w.store.instances
unfolding update_instance assign
fail_stuck-lookup r w id listed =
    rw (==-self r, listed, update_instance)
      (ground (
        arith,
        listed,
        eq_iff (deref r w).id id,
        lookup-insert (deref r w).id id r w.store.instances,
      ))

fail_stuck-id : (r p : ℕ) (w : World) → (deref p (fail_stuck r w)).id ≡ (deref p w).id
fail_stuck-id r p w = ground (arith, fail_stuck-cell r p w)

fail_stuck-Listed : (r q : ℕ) (w : World) → Listed w r → Listed w q → Listed (fail_stuck r w) q
fail_stuck-Listed r q w listed there =
    rw (fail_stuck-id r q w) (fail_stuck-lookup r w (deref q w).id listed ∙ there)

fail_stuck-All :
    (r : ℕ) (w : World) (rs : List ℕ)
    → Listed w r
    → All (Listed w) rs
    → All (Listed (fail_stuck r w)) rs
fail_stuck-All r w [] listed all = all
fail_stuck-All r w (q ∷ rs) listed (there, all) =
    (fail_stuck-Listed r q w listed there, fail_stuck-All r w rs listed all)

recover_loop-stuck :
    (r : ℕ) (rs : List ℕ) (count : ℕ) (w : World)
    → Listed w r
    → status_eq (deref r w).status running ≡ true
    → recover_loop (r ∷ rs) count w ≡ recover_loop rs (count + 1) (fail_stuck r w)
unfolding recover_loop
recover_loop-stuck r rs count w listed stuck =
    rw (stuck, fail_stuck-updates r w listed, recover_loop) refl

recover_loop-skip :
    (r : ℕ) (rs : List ℕ) (count : ℕ) (w : World)
    → status_eq (deref r w).status running ≡ false
    → recover_loop (r ∷ rs) count w ≡ recover_loop rs count w
unfolding recover_loop
recover_loop-skip r rs count w other = rw (other, recover_loop) refl

-- What a list's recovery makes of a cell.
abbrev recovered_in : List ℕ → ℕ → World → WorkflowInstance
recovered_in rs p w = if contains p rs then recovered (deref p w) else deref p w

recovered_in-stuck :
    (r : ℕ) (rs : List ℕ) (p : ℕ) (w : World)
    → status_eq (deref r w).status running ≡ true
    → recovered_in rs p (fail_stuck r w) ≡ recovered_in (r ∷ rs) p w
recovered_in-stuck r rs p w stuck = elim (Bool-cases (contains p rs)) [
  | inl e ↦ rw (e, fail_stuck-cell r p w) (ground (arith, stuck))
  | inr e ↦ rw (e, fail_stuck-cell r p w) (ground (arith, stuck))
]

recovered_in-skip :
    (r : ℕ) (rs : List ℕ) (p : ℕ) (w : World)
    → status_eq (deref r w).status running ≡ false
    → recovered_in rs p w ≡ recovered_in (r ∷ rs) p w
recovered_in-skip r rs p w other = ground (arith, other)

-- The loop ends without an error, and recovers the instances of its list and no other.
recover_loop-lem :
    (rs : List ℕ) (count : ℕ) (w : World)
    → All (Listed w) rs
    → ((recover_loop rs count w).2 ≡ none)
      × ((p : ℕ) → deref p (recover_loop rs count w).0 ≡ recovered_in rs p w)
unfolding recover_loop
recover_loop-lem [] count w all = (refl, λ p. refl)
recover_loop-lem (r ∷ rs) count w (listed, all) =
    elim (Bool-cases (status_eq (deref r w).status running)) [
      | inl stuck ↦
          let (ok, cells) =
            recover_loop-lem rs (count + 1) (fail_stuck r w) (fail_stuck-All r w rs listed all) in
          let step = recover_loop-stuck r rs count w listed stuck in
          (
            ap (λ x. x.2) step ∙ ok,
            λ p. ap (λ x. deref p x.0) step ∙ cells p ∙ recovered_in-stuck r rs p w stuck,
          )
      | inr other ↦
          let (ok, cells) = recover_loop-lem rs count w all in
          let step = recover_loop-skip r rs count w other in
          (
            ap (λ x. x.2) step ∙ ok,
            λ p. ap (λ x. deref p x.0) step ∙ cells p ∙ recovered_in-skip r rs p w other,
          )
    ]

-- The list of the running instances.
list_from-All :
    (P : ℕ → Type 0) (filter : InstanceFilter) (cell : ℕ → WorkflowInstance) (m : List (String × ℕ))
    → All (λ x. P x.1) m
    → All P (list_from filter cell m)
unfolding list_from
list_from-All P filter cell [] all = all
list_from-All P filter cell ((id, r) ∷ m) (p, all) = elim (Bool-cases (passes filter (cell r))) [
  | inl e ↦ rw e (p, list_from-All P filter cell m all)
  | inr e ↦ rw e (list_from-All P filter cell m all)
]

contains-list_from :
    (filter : InstanceFilter) (cell : ℕ → WorkflowInstance) (m : List (String × ℕ)) (id : String)
    (r : ℕ)
    → lookup id m ≡ some r
    → passes filter (cell r) ≡ true
    → contains r (list_from filter cell m) ≡ true
unfolding list_from lookup
contains-list_from filter cell [] id r there pass = ground (arith, there)
contains-list_from filter cell ((id', q) ∷ m) id r there pass =
    ground (arith, pass, there, contains-list_from filter cell m id r)

recovered-stopped : (inst : WorkflowInstance) → status_eq (recovered inst).status running ≡ false
recovered-stopped inst = elim (Bool-cases (status_eq inst.status running)) [
  | inl e ↦ rw e refl
  | inr e ↦ simp e
]

recovered_in-running :
    (r : ℕ) (w : World) (id : String)
    → lookup id w.store.instances ≡ some r
    → let filter : InstanceFilter = record { workflow_name = ""; status = some running } in
      recovered_in (list_from filter w.store.cell w.store.instances) r w ≡ recovered (deref r w)
recovered_in-running r w id there =
    let filter : InstanceFilter = record { workflow_name = ""; status = some running } in
    elim (Bool-cases (status_eq (deref r w).status running)) [
      | inl e ↦
          rw
            (contains-list_from filter w.store.cell w.store.instances id r there
              (ground (arith, e)))
            refl
      | inr e ↦ ground (arith, e)
    ]

-- After a crash, with a store whose every entry is indexed by its instance's id, the recovery ends
-- without an error; no instance that the store lists is running any more; those that were are
-- failed with the error that names the crash, and every other one is as it was.
pub recover_stuck_instances-recovered :
    (w : World) (id : String) (r : ℕ)
    → IsIndexed w.store
    → lookup id w.store.instances ≡ some r
    → let out = recover_stuck_instances w in
      (out.2 ≡ none)
      × (deref r out.0 ≡ recovered (deref r w))
      × (status_eq (deref r out.0).status running ≡ false)
unfolding recover_stuck_instances list_instances
recover_stuck_instances-recovered w id r indexed there =
    let filter : InstanceFilter = record { workflow_name = ""; status = some running } in
    let rs = list_from filter w.store.cell w.store.instances in
    let entries : All (λ x. Listed w x.1) w.store.instances =
      All-mono _ (λ x. Listed w x.1) w.store.instances (λ x h. rw h.0 h.1) indexed in
    let (ok, cells) =
      recover_loop-lem rs 0 w
        (list_from-All (Listed w) filter w.store.cell w.store.instances entries) in
    let cell = cells r ∙ recovered_in-running r w id there in
    (ok, cell, ap (λ inst. status_eq inst.status running) cell ∙ recovered-stopped (deref r w))
