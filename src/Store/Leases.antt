-- ===== src/Store/Leases.antt =====
-- memory_store.go: the leases that keep two engines from running one instance.
use fluxo.Common.{
  ℕ, ◌+◌, ◌≤◌, ◌<◌, String, ◌≡◌, ◌≢◌, refl, sym, ◌∙◌, false≢true, inl, inr, true, false, ◌||◌, some,
  List, [], ◌∷◌, arith, All, lookup, ◌==ₛ◌, is_blank, eq_iff, Option-cases, Bool-cases,
}
use fluxo.Api.{value, WorkflowInstance}
use fluxo.LeaseBook.{LeaseCall, acquires, renews, releases}
use fluxo.Store.{Store, modify, try_acquire_lease, renew_lease, release_lease, is_free_for}

-- `owner` holds the lease of the instance `id` up to the time `until`.
abbrev pub Holds : Store → String → String → ℕ → Type 0
Holds s id owner until =
    (r : ℕ) × (lookup id s.instances ≡ some r)
    × ((s.cell r).lease_owner ≡ owner)
    × ((s.cell r).lease_expires_at ≡ until)

abbrev pub caller : LeaseCall → String
caller (acquires id owner ttl now) = owner
caller (renews id owner ttl now) = owner
caller (releases id owner now) = owner

abbrev pub call_time : LeaseCall → ℕ
call_time (acquires id owner ttl now) = now
call_time (renews id owner ttl now) = now
call_time (releases id owner now) = now

pub lease_call : LeaseCall → Store → Store
lease_call (acquires id owner ttl now) s = (try_acquire_lease id owner ttl now s).0
lease_call (renews id owner ttl now) s = (renew_lease id owner ttl now s).0
lease_call (releases id owner now) s = (release_lease id owner s).0

pub lease_calls : List LeaseCall → Store → Store
lease_calls [] s = s
lease_calls (c ∷ cs) s = lease_calls cs (lease_call c s)

-- Another owner's call, before the lease runs out.
abbrev pub ByOther : String → ℕ → LeaseCall → Type 0
ByOther owner until c = (caller c ≢ owner) × (call_time c < until)

not_free :
    (inst : WorkflowInstance) (owner other : String) (until now : ℕ)
    → inst.lease_owner ≡ owner
    → inst.lease_expires_at ≡ until
    → owner ≢ ""
    → other ≢ owner
    → now < until
    → is_free_for inst other now ≡ false
not_free inst owner other until now own exp named differ before =
    ground (arith, eq_iff inst.lease_owner "", eq_iff inst.lease_owner other)

-- While the lease runs, another owner is refused it, and the store stays as it is.
pub try_acquire_lease-refused :
    (s : Store) (id owner other : String) (until ttl now : ℕ)
    → Holds s id owner until
    → owner ≢ ""
    → other ≢ owner
    → now < until
    → try_acquire_lease id other ttl now s ≡ (s, value false)
unfolding try_acquire_lease
try_acquire_lease-refused s id owner other until ttl now (r, found, own, exp) named differ before =
    rw (found, try_acquire_lease)
      (rw (not_free (s.cell r) owner other until now own exp named differ before) refl)

-- A write to another instance's cell leaves the lease alone.
modify-Holds :
    (q : ℕ) (f : WorkflowInstance → WorkflowInstance) (s : Store) (id owner : String) (until : ℕ)
    → (h : Holds s id owner until) → q ≢ h.0
    → Holds (modify q f s) id owner until
unfolding modify
modify-Holds q f s id owner until (r, found, own, exp) other =
    (r, found, ground arith, ground arith)

-- What another owner may write to is not the leased cell.
module _ (s : Store) (id owner other : String) (until now : ℕ) (h : Holds s id owner until)
    (named : owner ≢ "") (differ : other ≢ owner) (before : now < until) where
  free_ne : (q : ℕ) → is_free_for (s.cell q) other now ≡ true → q ≢ h.0
  free_ne q free e =
      false≢true (
        sym (not_free (s.cell h.0) owner other until now h.2 h.3 named differ before)
        ∙ rw e at free)

  owned_ne :
      (q : ℕ)
      → (is_blank (s.cell q).lease_owner || (s.cell q).lease_owner ==ₛ other) ≡ true
      → q ≢ h.0
  owned_ne q owned e =
      let owned' = rw (e, h.2) at owned in
      ground (arith, eq_iff owner "", eq_iff owner other, owned')

-- A call of another owner, for this instance or another one, leaves a running lease alone.
lease_call-Holds :
    (c : LeaseCall) (s : Store) (id owner : String) (until : ℕ)
    → owner ≢ ""
    → ByOther owner until c
    → Holds s id owner until
    → Holds (lease_call c s) id owner until
unfolding lease_call try_acquire_lease renew_lease release_lease
lease_call-Holds (acquires id' other ttl now) s id owner until named (differ, before) h =
    elim (Option-cases (lookup id' s.instances)) [
      | inl missing ↦ rw (missing, try_acquire_lease, lease_call) h
      | inr (q, there) ↦ elim (Bool-cases (is_free_for (s.cell q) other now)) [
        | inl free ↦
            rw (there, free, try_acquire_lease, lease_call)
              (modify-Holds q
                (λ inst. record inst { lease_owner = other; lease_expires_at = now + ttl }) s id
                owner until h (free_ne s id owner other until now h named differ before q free))
        | inr taken ↦ rw (there, taken, try_acquire_lease, lease_call) h
      ]
    ]
lease_call-Holds (renews id' other ttl now) s id owner until named (differ, before) h =
    elim (Option-cases (lookup id' s.instances)) [
      | inl missing ↦ rw (missing, renew_lease, lease_call) h
      | inr (q, there) ↦ elim (Bool-cases ((s.cell q).lease_owner ==ₛ other)) [
        | inl own ↦
            rw (there, own, renew_lease, lease_call)
              (modify-Holds q (λ inst. record inst { lease_expires_at = now + ttl }) s id owner
                until h
                (owned_ne s id owner other until now h named differ before q (ground (arith, own))))
        | inr foreign ↦ rw (there, foreign, renew_lease, lease_call) h
      ]
    ]
lease_call-Holds (releases id' other now) s id owner until named (differ, before) h =
    elim (Option-cases (lookup id' s.instances)) [
      | inl missing ↦ rw (missing, release_lease, lease_call) h
      | inr (q, there) ↦
          elim (Bool-cases (is_blank (s.cell q).lease_owner || (s.cell q).lease_owner ==ₛ other)) [
            | inl own ↦
                rw (there, own, release_lease, lease_call)
                  (modify-Holds q (λ inst. record inst { lease_owner = ""; lease_expires_at = 0 }) s
                    id owner until h
                    (owned_ne s id owner other until now h named differ before q own))
            | inr foreign ↦ rw (there, foreign, release_lease, lease_call) h
          ]
    ]

lease_calls-Holds :
    (cs : List LeaseCall) (s : Store) (id owner : String) (until : ℕ)
    → owner ≢ ""
    → All (ByOther owner until) cs
    → Holds s id owner until
    → Holds (lease_calls cs s) id owner until
unfolding lease_calls
lease_calls-Holds [] s id owner until named others h = h
lease_calls-Holds (c ∷ cs) s id owner until named others h =
    lease_calls-Holds cs (lease_call c s) id owner until named others.1
      (lease_call-Holds c s id owner until named others.0 h)

-- A lease that is granted is held.
try_acquire_lease-Holds :
    (s : Store) (id owner : String) (ttl now : ℕ)
    → (try_acquire_lease id owner ttl now s).1 ≡ value true
    → Holds (try_acquire_lease id owner ttl now s).0 id owner (now + ttl)
unfolding try_acquire_lease modify
try_acquire_lease-Holds s id owner ttl now granted = elim (Option-cases (lookup id s.instances)) [
  | inl missing ↦ ground (arith, missing)
  | inr (r, there) ↦ elim (Bool-cases (is_free_for (s.cell r) owner now)) [
    | inl free ↦ rw (there, free, try_acquire_lease) (r, there, ground arith, ground arith)
    | inr taken ↦ ground (arith, there, taken)
  ]
]

-- Mutual exclusion: once an owner whose id is not blank is granted the lease of an instance at
-- `now`, another owner is refused it at every moment before `now + ttl`, whatever acquiring,
-- renewing and releasing other owners have done before then, to this instance or to any other.
pub lease_exclusion :
    (s : Store) (id owner other : String) (ttl now : ℕ) (cs : List LeaseCall) (ttl' later : ℕ)
    → (try_acquire_lease id owner ttl now s).1 ≡ value true
    → owner ≢ ""
    → All (ByOther owner (now + ttl)) cs
    → other ≢ owner
    → later < now + ttl
    → let s' = lease_calls cs (try_acquire_lease id owner ttl now s).0 in
      try_acquire_lease id other ttl' later s' ≡ (s', value false)
lease_exclusion s id owner other ttl now cs ttl' later granted named others differ before =
    try_acquire_lease-refused _ id owner other (now + ttl) ttl' later
      (lease_calls-Holds cs _ id owner (now + ttl) named others
        (try_acquire_lease-Holds s id owner ttl now granted))
      named differ before

-- A lease that has run out is granted to whoever asks for it first.
pub lease_expiry :
    (s : Store) (id owner other : String) (until ttl now : ℕ)
    → Holds s id owner until
    → until ≤ now
    → ((try_acquire_lease id other ttl now s).1 ≡ value true)
      × Holds (try_acquire_lease id other ttl now s).0 id other (now + ttl)
unfolding try_acquire_lease
lease_expiry s id owner other until ttl now (r, found, own, exp) over =
    let granted : (try_acquire_lease id other ttl now s).1 ≡ value true =
      rw (found, try_acquire_lease) (ground (arith, exp)) in
    (granted, try_acquire_lease-Holds s id other ttl now granted)
