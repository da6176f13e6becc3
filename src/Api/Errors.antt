-- ===== src/Api/Errors.antt =====
-- pkg/api/workflow.go: how the engine and the worker recognise the errors that park a workflow.
-- `errors.As` and `errors.Is` look through `%w`.
use fluxo.Common.{String, ◌≡◌, refl, Bool, true, false, ◌||◌, Option, none, some, is_some}
use fluxo.Api.{
  Err, wait_for_signal, wait_for_children, wait_for_any_child, wrap, workflow_not_found,
  instance_not_found, reason_err, Reason, cancellation, deadline,
}

-- `errors.As(err, &w)` for a `*waitForSignalError`: its name and `ReturnPayload`.
abbrev pub wait_for_signal_meta : Err → Option (String × Bool)
wait_for_signal_meta (wait_for_signal name return_payload) = some (name, return_payload)
wait_for_signal_meta (wrap f args e) = wait_for_signal_meta e
wait_for_signal_meta _ = none

abbrev pub signal_name_of : Option (String × Bool) → Option String
signal_name_of none = none
signal_name_of (some (name, return_payload)) = some name

abbrev pub is_wait_for_signal_error : Err → Option String
is_wait_for_signal_error e = signal_name_of (wait_for_signal_meta e)

-- `errors.As(err, &waitChildren)`.
abbrev pub is_wait_for_children_error : Err → Bool
is_wait_for_children_error (wait_for_children ids poll_after) = true
is_wait_for_children_error (wrap f args e) = is_wait_for_children_error e
is_wait_for_children_error _ = false

abbrev pub is_wait_for_any_child_error : Err → Bool
is_wait_for_any_child_error (wait_for_any_child ids poll_after) = true
is_wait_for_any_child_error (wrap f args e) = is_wait_for_any_child_error e
is_wait_for_any_child_error _ = false

-- `errors.Is(err, persistence.ErrWorkflowNotFound)`.
abbrev pub is_workflow_not_found : Err → Bool
is_workflow_not_found workflow_not_found = true
is_workflow_not_found (wrap f args e) = is_workflow_not_found e
is_workflow_not_found _ = false

abbrev pub is_instance_not_found : Err → Bool
is_instance_not_found instance_not_found = true
is_instance_not_found (wrap f args e) = is_instance_not_found e
is_instance_not_found _ = false

-- The three tests of `executeSteps` in a row.
abbrev pub is_wait : Err → Bool
is_wait e =
    is_some (wait_for_signal_meta e)
    || is_wait_for_children_error e
    || is_wait_for_any_child_error e

pub is_wait-reason_err : (r : Reason) → is_wait (reason_err r) ≡ false
is_wait-reason_err cancellation = refl
is_wait-reason_err deadline = refl
