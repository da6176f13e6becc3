-- ===== src/Store.antt =====
-- internal/persistence/memory_store.go: `InMemoryStore`, with the interfaces of store.go and
-- event_store.go that it fills.
--
-- The store keeps pointers to instances, and the engine changes an instance through the pointer
-- that the store holds too. So instances live in a heap of cells, and the map holds references.
-- A method returns the new store and its result; the mutex makes each one a step of its own.
-- `time.Now()` is an argument.
pub mod Workflows
pub mod Leases
pub mod Refinement
use fluxo.Common.{
  ℕ, ◌+◌, ◌<◌, String, Bool, true, false, Option, none, some, List, [], ◌∷◌, ◌++◌, ltb, leb, ◌==◌,
  ◌==ₛ◌, is_blank, ◌||◌, ◌&&◌, if◌then◌else◌, lookup, insert, length, replicate,
}
use fluxo.Api.{
  Status, status_eq, Err, workflow_not_found, instance_not_found, instance_locked, message, Result,
  value, error, WorkflowDefinition, WorkflowInstance, WorkflowEvent,
}

pub record Store : Type 0 where
  pub cell : ℕ → WorkflowInstance
  pub next_ref : ℕ
  pub workflows : List (String × List (String × WorkflowDefinition))
  pub instances : List (String × ℕ)
  pub events : List (String × List WorkflowEvent)

-- Assignments to fields of `*inst`.
unfoldable pub modify : ℕ → (WorkflowInstance → WorkflowInstance) → Store → Store
modify r f s = record s { cell = λ q. if r == q then f (s.cell q) else s.cell q }

-- `&api.WorkflowInstance{...}`.
unfoldable pub allocate : WorkflowInstance → Store → Store × ℕ
unfolding modify
allocate inst s =
    (record (modify s.next_ref (λ _. inst) s) { next_ref = s.next_ref + 1 }, s.next_ref)

-- The map that a missing key reads as: nil, which has no entry.
abbrev pub or_empty {ℓ} : {A : Type ℓ} → Option (List A) → List A
or_empty none = []
or_empty (some m) = m

unfoldable pub save_workflow : WorkflowDefinition → Store → Store × Option Err
save_workflow def s =
    let versions = or_empty (lookup def.name s.workflows) in
    let made = insert def.name versions s.workflows in
    elim (lookup def.version versions) [
      | some _ ↦ (
        record s { workflows = made },
        some (message "workflow %q version %q already exists" (def.name ∷ def.version ∷ [])),
      )
      | none ↦
          (record s { workflows = insert def.name (insert def.version def versions) made }, none)
    ]

unfoldable pub get_workflow : String → String → Store → Result WorkflowDefinition
get_workflow name version s = elim (lookup name s.workflows) [
  | none ↦ error workflow_not_found
  | some versions ↦ elim (lookup version versions) [
    | none ↦ error workflow_not_found
    | some def ↦ value def
  ]
]

-- `api.WorkflowDefinition{}`.
abbrev pub no_workflow : WorkflowDefinition
no_workflow = record { name = ""; version = ""; fingerprint = ""; steps = [] }

-- The first value that a `range` over the map meets.
abbrev pub first_value : List (String × WorkflowDefinition) → WorkflowDefinition
first_value [] = no_workflow
first_value ((k, v) ∷ m) = v

unfoldable pub get_latest_workflow : String → Store → Result WorkflowDefinition
get_latest_workflow name s = elim (lookup name s.workflows) [
  | none ↦ error workflow_not_found
  | some versions ↦
      if ltb 1 (length versions) then error workflow_not_found else value (first_value versions)
]

-- The loop leaves after its first round.
abbrev pub first_key : List (String × WorkflowDefinition) → List String
first_key [] = []
first_key ((k, v) ∷ m) = k ∷ []

-- `make([]string, n)` has `n` empty texts, and the key is appended behind them.
unfoldable pub list_workflow_versions : String → Store → Result (List String)
list_workflow_versions name s = elim (lookup name s.workflows) [
  | none ↦ error (message "no versions for workflow %q" (name ∷ []))
  | some versions ↦ value (replicate (length versions) "" ++ first_key versions)
]

unfoldable pub save_instance : ℕ → Store → Store × Option Err
save_instance r s = (record s { instances = insert (s.cell r).id r s.instances }, none)

unfoldable pub update_instance : ℕ → Store → Store × Option Err
update_instance r s = elim (lookup (s.cell r).id s.instances) [
  | none ↦ (s, some instance_not_found)
  | some _ ↦ (record s { instances = insert (s.cell r).id r s.instances }, none)
]

unfoldable pub get_instance : String → Store → Result ℕ
get_instance id s = elim (lookup id s.instances) [
  | none ↦ error instance_not_found
  | some r ↦ value r
]

-- A filter's blank name or status (`none`) lets everything pass.
pub record InstanceFilter : Type 0 where
  pub workflow_name : String
  pub status : Option Status

abbrev pub passes : InstanceFilter → WorkflowInstance → Bool
passes filter inst =
    (is_blank filter.workflow_name || inst.name ==ₛ filter.workflow_name)
    && elim filter.status [ none ↦ true | some st ↦ status_eq inst.status st ]

unfoldable pub list_from : InstanceFilter → (ℕ → WorkflowInstance) → List (String × ℕ) → List ℕ
list_from filter cell [] = []
list_from filter cell ((id, r) ∷ m) =
    if passes filter (cell r) then r ∷ list_from filter cell m else list_from filter cell m

unfoldable pub list_instances : InstanceFilter → Store → List ℕ
unfolding list_from
list_instances filter s = list_from filter s.cell s.instances

-- A lease that nobody holds at `now`, or that `owner` holds.
abbrev pub is_free_for : WorkflowInstance → String → ℕ → Bool
is_free_for inst owner now =
    is_blank inst.lease_owner
    || inst.lease_expires_at == 0
    || leb inst.lease_expires_at now
    || inst.lease_owner ==ₛ owner

unfoldable pub try_acquire_lease : String → String → ℕ → ℕ → Store → Store × Result Bool
unfolding modify
try_acquire_lease id owner ttl now s = elim (lookup id s.instances) [
  | none ↦ (s, error instance_not_found)
  | some r ↦
      if is_free_for (s.cell r) owner now
      then (
        modify r (λ inst. record inst { lease_owner = owner; lease_expires_at = now + ttl }) s,
        value true,
      )
      else (s, value false)
]

unfoldable pub renew_lease : String → String → ℕ → ℕ → Store → Store × Option Err
unfolding modify
renew_lease id owner ttl now s = elim (lookup id s.instances) [
  | none ↦ (s, some instance_not_found)
  | some r ↦
      if (s.cell r).lease_owner ==ₛ owner
      then (modify r (λ inst. record inst { lease_expires_at = now + ttl }) s, none)
      else (s, some instance_locked)
]

unfoldable pub release_lease : String → String → Store → Store × Option Err
unfolding modify
release_lease id owner s = elim (lookup id s.instances) [
  | none ↦ (s, some instance_not_found)
  | some r ↦
      if is_blank (s.cell r).lease_owner || (s.cell r).lease_owner ==ₛ owner
      then (modify r (λ inst. record inst { lease_owner = ""; lease_expires_at = 0 }) s, none)
      else (s, some instance_locked)
]

unfoldable pub append_event : WorkflowEvent → Store → Store
append_event ev s = record s {
  events = insert ev.instance_id (or_empty (lookup ev.instance_id s.events) ++ ev ∷ []) s.events;
}

unfoldable pub list_events : String → Store → List WorkflowEvent
list_events id s = or_empty (lookup id s.events)

-- `NewInMemoryStore`. The cells past `next_ref` are not allocated; they hold a dummy.
unfoldable pub new_store : WorkflowInstance → Store
new_store dummy = record {
  cell = λ _. dummy;
  next_ref = 0;
  workflows = [];
  instances = [];
  events = [];
}
