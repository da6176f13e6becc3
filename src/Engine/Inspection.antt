-- ===== src/Engine/Inspection.antt =====
-- engine_impl.go: `GetInstance`, and the lease of the instance that it looks at.
use fluxo.Common.{ℕ, String, ◌≡◌, refl, arith, true, str_self, ◌==ₛ◌, Bool-cases, inl, inr}
use fluxo.Api.{Result-cases, value}
use fluxo.Api.Errors.{is_workflow_not_found}
use fluxo.Store.{get_instance, get_workflow, modify, try_acquire_lease, release_lease}
use fluxo.Store.Leases.{Holds}
use fluxo.World.{World, EngineConfig, Env, deref, release_instance_lease}
use fluxo.Execute.{success}
use fluxo.Engine.Upkeep.{inspect_instance}
use fluxo.Engine.{is_mismatch, version_or_v1}

module _ (env : Env) (eng : EngineConfig) where
  -- A lease that its holder has released is free for everyone.
  release-frees :
      (id other : String) (until ttl now : ℕ) (w : World)
      → Holds w.store id eng.engine_id until
      → (try_acquire_lease id other ttl now (release_instance_lease eng id w).store).1 ≡ value true
  unfolding release_instance_lease release_lease try_acquire_lease modify
  release-frees id other until ttl now w (r, found, own, exp) =
      let same : ((w.store.cell r).lease_owner ==ₛ eng.engine_id) ≡ true =
        rw own (str_self eng.engine_id) in
      let freed : (release_instance_lease eng id w).store
          ≡ modify r (λ inst. record inst { lease_owner = ""; lease_expires_at = 0 }) w.store =
        ground (arith, found, same) in
      rw freed (ground (arith, found))

  -- A call of `GetInstance` that finds the instance is, to the store, the release of its lease.
  inspect_instance-release :
      (id : String) (r : ℕ) (w : World)
      → get_instance id w.store ≡ value r
      → (deref r w).id ≡ id
      → (inspect_instance env eng id w).2 ≡ success
      → (inspect_instance env eng id w).0 ≡ release_instance_lease eng id w
  unfolding inspect_instance
  inspect_instance-release id r w there named ended =
      elim (Result-cases
        (get_workflow (deref r w).name (version_or_v1 (deref r w).version) w.store)) [
          | inl (def, known) ↦ elim (Bool-cases (is_mismatch (deref r w) def)) [
            | inl e ↦ ground (arith, there, known, e, ended)
            | inr e ↦ rw (there, known, e, named, inspect_instance) refl
          ]
          | inr (e, unknown) ↦ elim (Bool-cases (is_workflow_not_found e)) [
            | inl gone ↦ rw (there, unknown, gone, named, inspect_instance) refl
            | inr other ↦ ground (arith, there, unknown, other, ended)
          ]
        ]

  -- `GetInstance`, called on an engine while that engine holds the instance's lease, gives the
  -- lease up: where the call finds the instance, every other engine is granted the lease at once,
  -- at any time.
  pub inspect_instance-releases :
      (id other : String) (r until ttl now : ℕ) (w : World)
      → Holds w.store id eng.engine_id until
      → get_instance id w.store ≡ value r
      → (deref r w).id ≡ id
      → (inspect_instance env eng id w).2 ≡ success
      → (try_acquire_lease id other ttl now (inspect_instance env eng id w).0.store).1 ≡ value true
  inspect_instance-releases id other r until ttl now w held there named ended =
      rw (inspect_instance-release id r w there named ended)
        (release-frees id other until ttl now w held)
