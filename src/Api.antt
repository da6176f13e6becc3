-- ===== src/Api.antt =====
-- pkg/api: the types that the engine, the stores, the queue and the worker share (workflow.go,
-- events.go, engine.go, async_payloads.go).
--
-- An `any` is a `Value`. Times and durations are counts of nanoseconds; the zero `time.Time` is 0.
-- The code tests a duration or a count only by `<= 0` and `> 0`, so what is below 0 acts as 0.
-- A float64 is its bit pattern, since the code only hands it to multiplication and `<= 0`.
-- A step function is a code pointer, a number; `nil` is `none`.
pub mod Errors
pub mod Fingerprint
use fluxo.Common.{
  ℕ, ◌+◌, ◌≤◌, String, ◌≡◌, ◌⊎◌, inl, inr, refl, Bool, true, false, Option, none, some, List, [],
  ◌∷◌, ltb, leb, ◌==◌, if◌then◌else◌,
}

pub data Status : Type 0 where
  pending running completed failed waiting : Status

-- Equality of two statuses, the Go strings being distinct.
abbrev pub status_eq : Status → Status → Bool
status_eq pending pending = true
status_eq running running = true
status_eq completed completed = true
status_eq failed failed = true
status_eq waiting waiting = true
status_eq _ _ = false

-- `null` is the nil interface. `user t n` is a value of the program that embeds the engine, of
-- dynamic type `t`. The others are the types that the code itself puts in an `any`.
mutual
  pub data Value : Type 0 where
    null : Value
    user : ℕ → ℕ → Value
    text : String → Value
    signal_payload : String → Value → Value
    timeout_payload : String → Value
    start_workflow_payload : Value → Value
    wait_meta : String → Bool → Value
    strings : List String → Value
    slice : Values → Value

  pub data Values : Type 0 where
    end : Values
    item : Value → Values → Values

-- A Go slice of `any` as a list.
abbrev pub to_list : Values → List Value
to_list end = []
to_list (item v vs) = v ∷ to_list vs

abbrev pub of_list : List Value → Values
of_list [] = end
of_list (v ∷ vs) = item v (of_list vs)

-- `message f args` is `errors.New` or `fmt.Errorf` with no `%w`; `wrap f args e` is `fmt.Errorf`
-- with `%w` at `e`. The format is kept apart from its arguments.
pub data Err : Type 0 where
  workflow_not_found instance_not_found definition_mismatch instance_locked : Err
  canceled deadline_exceeded : Err
  wait_for_signal : String → Bool → Err
  wait_for_children wait_for_any_child : List String → ℕ → Err
  message : String → List String → Err
  wrap : String → List String → Err → Err

-- What a step function does: it returns a value, or an error, or it panics.
pub data Outcome : Type 0 where
  ok : Value → Outcome
  fail : Err → Outcome
  panic : Outcome

-- A Go pair `(T, error)` of which one half is meant.
pub data Result {ℓ} (A : Type ℓ) : Type ℓ where
  value : A → Result A
  error : Err → Result A

pub record RetryPolicy : Type 0 where
  pub max_attempts : ℕ
  pub backoff : ℕ
  pub initial_backoff : ℕ
  pub max_backoff : ℕ
  pub backoff_multiplier : ℕ

pub record StepDefinition : Type 0 where
  pub name : String
  pub fn : Option ℕ
  pub retry : Option RetryPolicy

pub record WorkflowDefinition : Type 0 where
  pub name : String
  pub version : String
  pub fingerprint : String
  pub steps : List StepDefinition

pub record WorkflowInstance : Type 0 where
  pub id : String
  pub name : String
  pub version : String
  pub fingerprint : String
  pub lease_owner : String
  pub lease_expires_at : ℕ
  pub status : Status
  pub output : Value
  pub err : Option Err
  pub input : Value
  pub current_step : ℕ
  pub step_results : Option (List (ℕ × Value))

pub data EventType : Type 0 where
  workflow_enqueued workflow_started workflow_resumed workflow_waiting : EventType
  workflow_completed workflow_failed signal_received : EventType
  step_started step_completed step_failed : EventType

-- `step` is `none` for the step -1 of an event that belongs to no step.
pub record WorkflowEvent : Type 0 where
  pub instance_id : String
  pub time : ℕ
  pub type : EventType
  pub workflow_name : String
  pub workflow_version : String
  pub step : Option ℕ
  pub detail : String

-- Why a context ends.
pub data Reason : Type 0 where
  cancellation deadline : Reason

abbrev pub reason_err : Reason → Err
reason_err cancellation = canceled
reason_err deadline = deadline_exceeded

-- A Go context: when it ends and why, and whether `WithEngine` attached the engine.
pub record Context : Type 0 where
  pub done_at : Option ℕ
  pub reason : Reason
  pub has_engine : Bool

-- `ctx.Done()` is ready, and `ctx.Err()` with it.
unfoldable pub ctx_err : Context → ℕ → Option Err
ctx_err ctx now = elim ctx.done_at [
  | none ↦ none
  | some t ↦ if leb t now then some (reason_err ctx.reason) else none
]

-- `WithEngine`, for an engine that is not nil.
unfoldable pub with_engine : Context → Context
with_engine ctx = record ctx { has_engine = true }

unfoldable pub background : Context
background = record { done_at = none; reason = cancellation; has_engine = false }

pub Result-cases {ℓ} :
    {A : Type ℓ} (x : Result A) → ((a : A) × (x ≡ value a)) ⊎ ((e : Err) × (x ≡ error e))
Result-cases (value a) = inl (a, refl)
Result-cases (error e) = inr (e, refl)
