-- ===== src/World/Cells.antt =====
-- What the helpers of the engine leave of the instances, the observer's log and the registry.
use fluxo.Common.{
  ℕ, String, ◌≡◌, refl, Option, [], ◌∷◌, ◌++◌, inl, inr, arith, lookup, Option-cases,
}
use fluxo.Api.{EventType, WorkflowInstance}
use fluxo.World.{
  World, Notice, EngineConfig, deref, assign, update, notify, emit_event, release_instance_lease,
  renew_instance_lease,
}

module _ (eng : EngineConfig) where
  pub emit-cell :
      (q : ℕ) (t : EventType) (i : Option ℕ) (d : String) (w : World) (p : ℕ)
      → (emit_event eng q t i d w).store.cell p ≡ w.store.cell p
  unfolding emit_event
  emit-cell q t i d w p = ground arith

  pub emit-observed :
      (q : ℕ) (t : EventType) (i : Option ℕ) (d : String) (w : World)
      → (emit_event eng q t i d w).observed ≡ w.observed
  unfolding emit_event
  emit-observed q t i d w = ground arith

  pub renew-observed :
      (id : String) (w : World) → (renew_instance_lease eng id w).observed ≡ w.observed
  unfolding renew_instance_lease
  renew-observed id w = refl

  pub release-observed :
      (id : String) (w : World) → (release_instance_lease eng id w).observed ≡ w.observed
  unfolding release_instance_lease
  release-observed id w = refl

pub update-cell : (q : ℕ) (w : World) (p : ℕ) → (update q w).store.cell p ≡ w.store.cell p
unfolding update
update-cell q w p = ground arith

pub update-observed : (q : ℕ) (w : World) → (update q w).observed ≡ w.observed
unfolding update
update-observed q w = refl

pub assign-observed :
    (q : ℕ) (f : WorkflowInstance → WorkflowInstance) (w : World)
    → (assign q f w).observed ≡ w.observed
unfolding assign
assign-observed q f w = refl

pub assign_self :
    (r : ℕ) (f : WorkflowInstance → WorkflowInstance) (w : World)
    → (assign r f w).store.cell r ≡ f (w.store.cell r)
unfolding assign
assign_self r f w = ground arith

pub notify-cell : (x : Notice) (w : World) (p : ℕ) → (notify x w).store.cell p ≡ w.store.cell p
unfolding notify
notify-cell x w p = refl

pub notify-observed : (x : Notice) (w : World) → (notify x w).observed ≡ w.observed ++ x ∷ []
unfolding notify
notify-observed x w = refl

pub ruleset cells = (emit-cell, update-cell, notify-cell, assign_self)

pub ruleset logs = (
  emit-observed, renew-observed, release-observed, update-observed, assign-observed,
  notify-observed,
)

-- None of the helpers takes time.
module _ (eng : EngineConfig) where
  pub emit-clock :
      (q : ℕ) (t : EventType) (i : Option ℕ) (d : String) (w : World)
      → (emit_event eng q t i d w).clock ≡ w.clock
  unfolding emit_event
  emit-clock q t i d w = ground arith

  pub release-clock : (id : String) (w : World) → (release_instance_lease eng id w).clock ≡ w.clock
  unfolding release_instance_lease
  release-clock id w = refl

pub update-clock : (q : ℕ) (w : World) → (update q w).clock ≡ w.clock
unfolding update
update-clock q w = refl

pub assign-clock :
    (q : ℕ) (f : WorkflowInstance → WorkflowInstance) (w : World) → (assign q f w).clock ≡ w.clock
unfolding assign
assign-clock q f w = refl

pub notify-clock : (x : Notice) (w : World) → (notify x w).clock ≡ w.clock
unfolding notify
notify-clock x w = refl

pub ruleset clocks = (emit-clock, release-clock, update-clock, assign-clock, notify-clock)

-- The part of an instance that leases do not touch.
pub record SameButLease (a b : WorkflowInstance) : Type 0 where
  pub id : a.id ≡ b.id
  pub status : a.status ≡ b.status
  pub current_step : a.current_step ≡ b.current_step
  pub err : a.err ≡ b.err
  pub output : a.output ≡ b.output
  pub input : a.input ≡ b.input
  pub step_results : a.step_results ≡ b.step_results

module _ (eng : EngineConfig) where
  pub release-SameButLease :
      (id : String) (r : ℕ) (w : World)
      → SameButLease (deref r (release_instance_lease eng id w)) (deref r w)
  unfolding release_instance_lease
  release-SameButLease id r w = elim (Option-cases (lookup id w.store.instances)) [
    | inl e ↦ ground arith
    | inr (q, e) ↦ ground arith
  ]

  pub renew-SameButLease :
      (id : String) (r : ℕ) (w : World)
      → SameButLease (deref r (renew_instance_lease eng id w)) (deref r w)
  unfolding renew_instance_lease
  renew-SameButLease id r w = elim (Option-cases (lookup id w.store.instances)) [
    | inl e ↦ ground arith
    | inr (q, e) ↦ ground arith
  ]
