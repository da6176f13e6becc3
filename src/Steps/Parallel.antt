-- ===== src/Steps/Parallel.antt =====
-- workflow.go: `ParallelStep` and `ParallelMapStep`, whose children run in goroutines.
--
-- An event is what one goroutine does between two points where others may act: its test of the
-- context, the end of its child's call with the `errOnce.Do`, the `cancel()` after it. A sequence
-- of events is one interleaving; what a child returns is part of it. The slots of the results
-- are a function of the index, each goroutine writing its own.
pub mod Interleavings
pub mod Results
use fluxo.Common.{
  ℕ, zero, suc, ◌+◌, String, Bool, true, false, Option, none, some, List, [], ◌∷◌, ◌&&◌, ◌==◌,
  if◌then◌else◌, length, get_elem?,
}
use fluxo.Api.{Value, null, slice, of_list, Err, message, canceled, Outcome, ok, fail}

pub data Phase : Type 0 where
  waiting running cancelling ended : Phase

-- `parent_ends e`: the step's own context ends, with `e` as its `Err()`.
pub data Event : Type 0 where
  parent_ends : Err → Event
  aborts begins cancels : ℕ → Event
  returns : ℕ → Value → Event
  fails : ℕ → Err → Event
  panics : ℕ → String → Event

-- `ctx_err` is the error of the cancelable context, whose first end counts.
pub record Group {ℓ} (A : Type ℓ) : Type ℓ where
  pub phase : ℕ → Phase
  pub slots : ℕ → A
  pub first_err : Option Err
  pub ctx_err : Option Err

-- `errOnce.Do`, and the first end of a context.
abbrev pub once : Option Err → Err → Option Err
once none e = some e
once (some e') e = some e'

abbrev pub at_index {ℓ} : {A : Type ℓ} → ℕ → A → (ℕ → A) → ℕ → A
at_index i a f j = if i == j then a else f j

-- `panic in ParallelStep[%d]: %v`.
abbrev pub panic_err : String → String → String → Err
panic_err who index r = message "panic in %s[%d]: %v" (who ∷ index ∷ r ∷ [])

-- `put` makes an entry of the results; `who` names the step in the error of a panic.
module _ {ℓ} {A : Type ℓ} (put : ℕ → Value → A) (who : String) (format_int : ℕ → String) where
  -- A failure: `errOnce.Do`, before `cancel()`.
  abbrev pub failed_with : ℕ → Err → Group A → Group A
  failed_with i e g = record g {
    phase = at_index i cancelling g.phase;
    first_err = once g.first_err e;
  }

  -- One event, where the group is ready for it.
  unfoldable pub occur : Event → Group A → Option (Group A)
  occur (parent_ends e) g = some (record g { ctx_err = once g.ctx_err e })
  occur (aborts i) g = elim (g.phase i) [
    | waiting ↦ elim g.ctx_err [
      | none ↦ none
      | some e ↦
          some (record g { phase = at_index i ended g.phase; first_err = once g.first_err e })
    ]
    | _ ↦ none
  ]
  occur (begins i) g = elim (g.phase i) [
    | waiting ↦ elim g.ctx_err [
      | none ↦ some (record g { phase = at_index i running g.phase })
      | some e ↦ none
    ]
    | _ ↦ none
  ]
  occur (cancels i) g = elim (g.phase i) [
    | cancelling ↦
        some (record g { phase = at_index i ended g.phase; ctx_err = once g.ctx_err canceled })
    | _ ↦ none
  ]
  occur (returns i v) g = elim (g.phase i) [
    | running ↦
        some (record g { phase = at_index i ended g.phase; slots = at_index i (put i v) g.slots })
    | _ ↦ none
  ]
  occur (fails i e) g = elim (g.phase i) [ running ↦ some (failed_with i e g) | _ ↦ none ]
  occur (panics i r) g = elim (g.phase i) [
    | running ↦ some (failed_with i (panic_err who (format_int i) r) g)
    | _ ↦ none
  ]

  unfoldable pub interleave : List Event → Group A → Option (Group A)
  unfolding occur
  interleave [] g = some g
  interleave (e ∷ es) g = elim (occur e g) [ none ↦ none | some g' ↦ interleave es g' ]

-- `wg.Wait()` for the goroutines below `n`.
abbrev pub all_ended {ℓ} : {A : Type ℓ} → ℕ → Group A → Bool
all_ended zero g = true
all_ended (suc n) g = elim (g.phase n) [ ended ↦ all_ended n g | _ ↦ false ]

-- The slice of `n` results.
abbrev pub tabulate {ℓ} : {A : Type ℓ} → ℕ → (ℕ → A) → List A
tabulate zero f = []
tabulate (suc n) f = f 0 ∷ tabulate n (λ i. f (i + 1))

pub record ParallelResult : Type 0 where
  pub index : ℕ
  pub result : Value
  pub err : Option Err

abbrev pub parallel_result : ℕ → Value → ParallelResult
parallel_result i v = record { index = i; result = v; err = none }

-- What the step gives: its input, the results, or an error.
pub data ParallelOutcome : Type 0 where
  passed : Value → ParallelOutcome
  gathered : List ParallelResult → ParallelOutcome
  refused : Err → ParallelOutcome

-- After the loop that starts the goroutines: none for a step that is nil.
abbrev pub started {ℓ} : {S : Type ℓ} → List (Option S) → Value → Option Err → Group ParallelResult
started steps input ctx_err = record {
  phase = λ i. elim (get_elem? steps i) [ some (some _) ↦ waiting | _ ↦ ended ];
  slots = λ i. elim (get_elem? steps i) [
    | some none ↦ parallel_result i input
    | _ ↦ record { index = 0; result = null; err = none }
  ];
  first_err = none;
  ctx_err = ctx_err;
}

abbrev pub settled : ℕ → Group ParallelResult → ParallelOutcome
settled n g = elim g.first_err [ some e ↦ refused e | none ↦ gathered (tabulate n g.slots) ]

-- `none` means that the events are no interleaving of the goroutines, or do not end them all.
unfoldable pub parallel_step {ℓ} :
    {S : Type ℓ}
    → (ℕ → String)
    → List (Option S)
    → Option Err
    → Value
    → List Event
    → Option ParallelOutcome
unfolding interleave
parallel_step format_int [] ctx_err input events = some (passed input)
parallel_step format_int (step ∷ steps) ctx_err input events =
    let n = length (step ∷ steps) in
    elim (interleave parallel_result "ParallelStep" format_int events
      (started (step ∷ steps) input ctx_err)) [
        | none ↦ none
        | some g ↦ if all_ended n g then some (settled n g) else none
      ]

-- `reflect` of Go's library gives the items of a slice or an array, and none for another value.
module _ (format_int : ℕ → String) (items_of : Value → Option (List Value))
    (type_name : Value → String) where
  abbrev pub mapping : List Value → Option Err → Group Value
  mapping items ctx_err = record {
    phase = λ i. elim (get_elem? items i) [ some _ ↦ waiting | none ↦ ended ];
    slots = λ i. null;
    first_err = none;
    ctx_err = ctx_err;
  }

  abbrev pub mapped : ℕ → Group Value → Outcome
  mapped n g = elim g.first_err [
    | some e ↦ fail e
    | none ↦ ok (slice (of_list (tabulate n g.slots)))
  ]

  unfoldable pub parallel_map_step {ℓ} :
      {S : Type ℓ} → Option S → Option Err → Value → List Event → Option Outcome
  unfolding interleave
  parallel_map_step none ctx_err input events = some (ok input)
  parallel_map_step (some fn) ctx_err input events = elim (items_of input) [
    | none ↦ some (
        fail
          (message "ParallelMapStep expects slice or array input, got %T" (type_name input ∷ [])))
    | some [] ↦ some (ok (slice (of_list [])))
    | some (item ∷ items) ↦
        let n = length (item ∷ items) in
        elim (interleave (λ i v. v) "ParallelMapStep" format_int events
          (mapping (item ∷ items) ctx_err)) [
            | none ↦ none
            | some g ↦ if all_ended n g then some (mapped n g) else none
          ]
  ]
