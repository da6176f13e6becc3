-- ===== src/Engine/Guards.antt =====
-- engine_impl.go: the calls that the engine refuses, and what they leave behind.
use fluxo.Common.{
  ℕ, ◌<◌, String, ◌≡◌, ◌≢◌, ap, inl, inr, false, none, some, Option-cases, if◌then◌else◌,
}
use fluxo.Api.{status_eq, failed, waiting, Value, instance_locked, value, error, Context}
use fluxo.Store.{get_instance}
use fluxo.Store.Leases.{Holds, try_acquire_lease-refused}
use fluxo.World.{World, EngineConfig, Env, deref, acquire_instance_lease}
use fluxo.Execute.{failure}
use fluxo.Engine.Resumes.{
  resume_inline, resume_workflow, signal_inline, signal_workflow, cannot_resume, cannot_signal,
}

acquire-refused :
    (eng : EngineConfig) (id owner : String) (until : ℕ) (w : World)
    → Holds w.store id owner until
    → owner ≢ ""
    → eng.engine_id ≢ owner
    → w.clock < until
    → ((acquire_instance_lease eng id w).0 ≡ w)
      × ((acquire_instance_lease eng id w).1 ≡ some instance_locked)
unfolding acquire_instance_lease
acquire-refused eng id owner until w held named differ before =
    let refused =
      try_acquire_lease-refused w.store id owner eng.engine_id until eng.lease_ttl w.clock held
        named differ before in
    (
      ap (λ x. record w { store = x.0 }) refused,
      ap
          (λ x. elim x.1 [
            | error e ↦ some e
            | value got ↦ if got then none else some instance_locked
          ])
          refused,
    )

module _ (env : Env) (eng : EngineConfig) (ctx : Context) (w : World) (id : String) (r : ℕ)
    (found : get_instance id w.store ≡ value r) where
  -- An instance that has not failed cannot be resumed: with a queue or without one, the call
  -- returns an error that names the status, and changes nothing.
  pub resume_workflow-refused :
      status_eq (deref r w).status failed ≡ false
      → resume_workflow env eng ctx id w ≡ (w, none, failure (cannot_resume id (deref r w).status))
  unfolding resume_workflow resume_inline
  resume_workflow-refused other = elim (Option-cases w.queue) [
    | inl none_set ↦ simp (none_set, found, other, resume_inline, resume_workflow)
    | inr (q, set) ↦ simp (set, found, other, resume_workflow)
  ]

  -- An instance that does not wait takes no signal: with a queue or without one, the call returns
  -- an error that names the status, and changes nothing.
  pub signal_workflow-refused :
      (name : String) (payload : Value)
      → status_eq (deref r w).status waiting ≡ false
      → signal_workflow env eng ctx id name payload w
        ≡ (w, none, failure (cannot_signal id (deref r w).status))
  unfolding signal_workflow signal_inline
  signal_workflow-refused name payload other = elim (Option-cases w.queue) [
    | inl none_set ↦ simp (none_set, found, other, signal_inline, signal_workflow)
    | inr (q, set) ↦ simp (set, found, other, signal_workflow)
  ]

  module _ (owner : String) (until : ℕ) (held : Holds w.store id owner until) (named : owner ≢ "")
      (differ : eng.engine_id ≢ owner) (before : w.clock < until) where
    -- While another engine holds the lease of a failed instance, this one cannot resume it at once:
    -- the call returns the locked error, and changes nothing.
    pub resume_inline-locked :
        (deref r w).status ≡ failed
        → resume_inline env eng ctx id w ≡ (w, none, failure instance_locked)
    unfolding resume_inline
    resume_inline-locked stopped =
        let refused = acquire-refused eng id owner until w held named differ before in
        simp (found, stopped, resume_inline, refused.0, refused.1)

    -- While another engine holds the lease of a waiting instance, this one cannot signal it at
    -- once: the call returns the locked error, and changes nothing.
    pub signal_inline-locked :
        (name : String) (payload : Value)
        → (deref r w).status ≡ waiting
        → signal_inline env eng ctx id name payload w ≡ (w, none, failure instance_locked)
    unfolding signal_inline
    signal_inline-locked name payload parked =
        let refused = acquire-refused eng id owner until w held named differ before in
        simp (found, parked, signal_inline, refused.0, refused.1)
