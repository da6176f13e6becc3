-- ===== src/Steps/Children.antt =====
-- workflow.go: the steps that start child workflows and wait for them, through the engine that
-- runs the step (`EngineFromContext`).
pub mod Finished
pub mod AnyFinished
use fluxo.Common.{
  ℕ, zero, suc, String, ◌≡◌, refl, sym, ap, ◌∙◌, arith, Bool, true, false, not, Option, none, some,
  List, [], ◌∷◌, is_blank, ◌==◌, if◌then◌else◌, Option-cases, Bool-cases, inl, inr, ◌⊎◌, All,
}
use fluxo.Api.{
  Status, completed, failed, Value, null, text, strings, slice, of_list, Err, message, wrap,
  wait_for_children, wait_for_any_child, Result, value, error, Outcome, ok, fail, panic, Context,
  WorkflowInstance,
}
use fluxo.World.{World, EngineConfig, Env, deref}
use fluxo.Execute.{Exit, success, failure, panicked}
use fluxo.Engine.{Reply}
use fluxo.Engine.Starts.{run}
use fluxo.Engine.Upkeep.{inspect_instance}
use fluxo.Steps.{StepFunc}

pub record ChildWorkflowSpec : Type 0 where
  pub name : String
  pub input : Value

-- `500 * time.Millisecond` for an interval that is not positive.
abbrev pub poll_after : ℕ → ℕ
poll_after poll_interval = if poll_interval == 0 then 500000000 else poll_interval

-- What a pass over the children finds: an error or a panic that ends the step, or their outputs in
-- order, `null` for a child that has not completed, and whether all have.
pub data Scan : Type 0 where
  refused : Err → Scan
  broken : Scan
  gathered : Bool → List Value → Scan

abbrev pub after_child : Bool → Value → Scan → Scan
after_child finished output (refused e) = refused e
after_child finished output broken = broken
after_child true output (gathered all_done outputs) = gathered all_done (output ∷ outputs)
after_child false output (gathered all_done outputs) = gathered false (output ∷ outputs)

abbrev child_failed : String → String → Option Err → Err
child_failed who id none = message "%s: child %s failed" (who ∷ id ∷ [])
child_failed who id (some e) = wrap "%s: child %s failed: %w" (who ∷ id ∷ []) e

abbrev get_failed : String → String → Err → Err
get_failed who id e = wrap "%s: GetInstance(%q) failed: %w" (who ∷ id ∷ []) e

abbrev start_failed : String → Err → Err
start_failed name e = wrap "StartChildrenStep: starting child %q failed: %w" (name ∷ []) e

-- What `GetInstance` gives: an instance, an error, or a panic.
pub data Looked : Type 0 where
  seen : ℕ → Looked
  unseen : Err → Looked
  burst : Looked

-- A nil instance without an error is dereferenced.
abbrev looked : Option ℕ → Exit → Looked
looked inst (failure e) = unseen e
looked inst panicked = burst
looked none success = burst
looked (some r) success = seen r

module _ (env : Env) (eng : EngineConfig) where
  unfoldable pub look : String → World → World × Looked
  look id w = let (w1, inst, x) = inspect_instance env eng id w in (w1, looked inst x)

  -- The loop of `StartChildrenStep`: the ids of the children, in order.
  unfoldable pub start_children :
      Context → List ChildWorkflowSpec → World → World × Result (Option (List String))
  start_children ctx [] w = (w, value (some []))
  start_children ctx (s ∷ specs) w =
      let (w1, inst, x) = run env eng ctx s.name s.input w in
      let (w2, rest) = start_children ctx specs w1 in
      if is_blank s.name
      then (w, error (message "StartChildrenStep: child workflow name is empty" []))
      else elim x [
        | failure e ↦ (w1, error (start_failed s.name e))
        | panicked ↦ (w1, value none)
        | success ↦ elim inst [
          | none ↦ (w1, value none)
          | some r ↦ (
            w2,
            elim rest [
              | error e ↦ error e
              | value none ↦ value none
              | value (some ids) ↦ value (some ((deref r w1).id ∷ ids))
            ],
          )
        ]
      ]

  abbrev of_started : World × Result (Option (List String)) → World × Outcome
  of_started (w, error e) = (w, fail e)
  of_started (w, value none) = (w, panic)
  of_started (w, value (some ids)) = (w, ok (strings ids))

  unfoldable pub start_children_step : Option (Value → Result (List ChildWorkflowSpec)) → StepFunc
  unfolding start_children
  start_children_step none ctx input w =
      (w, fail (message "StartChildrenStep: specsFn must not be nil" []))
  start_children_step (some specs_fn) ctx input w =
      if not ctx.has_engine
      then (w, fail (message "StartChildrenStep: engine not available in context" []))
      else elim (specs_fn input) [
        | error e ↦ (w, fail e)
        | value specs ↦ of_started (start_children ctx specs w)
      ]

  -- The pass over the children.
  unfoldable pub scan_children : List String → World → World × Scan
  unfolding look
  scan_children [] w = (w, gathered true [])
  scan_children (id ∷ ids) w =
      let (w1, found) = look id w in
      let (w2, rest) = scan_children ids w1 in
      elim found [
        | unseen e ↦ (w1, refused (get_failed "WaitForChildrenStep" id e))
        | burst ↦ (w1, broken)
        | seen r ↦ elim (deref r w1).status [
          | completed ↦ (w2, after_child true (deref r w1).output rest)
          | failed ↦ (w1, refused (child_failed "WaitForChildrenStep" id (deref r w1).err))
          | _ ↦ (w2, after_child false null rest)
        ]
      ]

  abbrev pub of_scan : List String → ℕ → World × Scan → World × Outcome
  of_scan ids after (w, refused e) = (w, fail e)
  of_scan ids after (w, broken) = (w, panic)
  of_scan ids after (w, gathered true outputs) = (w, ok (slice (of_list outputs)))
  of_scan ids after (w, gathered false outputs) = (w, fail (wait_for_children ids after))

  unfoldable pub wait_for_children_step : Option (Value → List String) → ℕ → StepFunc
  unfolding scan_children
  wait_for_children_step none poll_interval ctx input w =
      (w, fail (message "WaitForChildrenStep: getIDs must not be nil" []))
  wait_for_children_step (some get_ids) poll_interval ctx input w =
      if not ctx.has_engine
      then (w, fail (message "WaitForChildrenStep: engine not available in context" []))
      else of_scan (get_ids input) (poll_after poll_interval) (scan_children (get_ids input) w)

  -- The pass of `WaitForAnyChildStep`: what ends it, if a child does.
  unfoldable pub scan_any : List String → World → World × Option Outcome
  unfolding look
  scan_any [] w = (w, none)
  scan_any (id ∷ ids) w =
      let (w1, found) = look id w in
      let rest = scan_any ids w1 in
      elim found [
        | unseen e ↦ (w1, some (fail (get_failed "WaitForAnyChildStep" id e)))
        | burst ↦ (w1, some panic)
        | seen r ↦ elim (deref r w1).status [
          | completed ↦ (w1, some (ok (text id)))
          | failed ↦ (w1, some (fail (child_failed "WaitForAnyChildStep" id (deref r w1).err)))
          | _ ↦ rest
        ]
      ]

  abbrev pub of_any : List String → ℕ → World × Option Outcome → World × Outcome
  of_any ids after (w, some out) = (w, out)
  of_any [] after (w, none) = (w, ok null)
  of_any (id ∷ ids) after (w, none) = (w, fail (wait_for_any_child (id ∷ ids) after))

  unfoldable pub wait_for_any_child_step : Option (Value → List String) → ℕ → StepFunc
  unfolding scan_any
  wait_for_any_child_step none poll_interval ctx input w =
      (w, fail (message "WaitForAnyChildStep: getIDs must not be nil" []))
  wait_for_any_child_step (some get_ids) poll_interval ctx input w =
      if not ctx.has_engine
      then (w, fail (message "WaitForAnyChildStep: engine not available in context" []))
      else of_any (get_ids input) (poll_after poll_interval) (scan_any (get_ids input) w)
