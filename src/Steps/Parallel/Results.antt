-- ===== src/Steps/Parallel/Results.antt =====
-- workflow.go: what `ParallelStep` gives, whatever the interleaving of its goroutines.
use fluxo.Common.{
  ℕ, zero, suc, ◌+◌, ◌<◌, ◌≡◌, ◌≢◌, refl, sym, ◌∙◌, inl, inr, true, none, some, Option, String,
  List, [], ◌∷◌, arith, Option-cases, Bool-cases, length, get_elem?,
}
use fluxo.Api.{Value, Err}
use fluxo.Steps.Parallel.{
  cancelling, ended, Event, Group, interleave, all_ended, tabulate, ParallelResult, parallel_result,
  ParallelOutcome, gathered, refused, started, settled, parallel_step,
}
use fluxo.Steps.Parallel.Interleavings.{
  value_of, first_failure, interleave-first_err, interleave-value, interleave-ended,
}

module _ {ℓ} {A : Type ℓ} where
  get_elem?-below : (xs : List A) (i : ℕ) → i < length xs → get_elem? xs i ≢ none
  get_elem?-below [] i below e = omega arith
  get_elem?-below (x ∷ xs) zero below e = ground arith
  get_elem?-below (x ∷ xs) (suc i) below e = get_elem?-below xs i (omega arith) e

  -- A list of which no element is missing.
  abbrev pub present : List A → List (Option A)
  present [] = []
  present (x ∷ xs) = some x ∷ present xs

  all_ended-below : (n : ℕ) (g : Group A) (i : ℕ) → all_ended n g ≡ true → i < n → g.phase i ≡ ended
  all_ended-below zero g i h below = ground arith
  all_ended-below (suc n) g i h below = ground (arith, all_ended-below n g i)

  present-tabulate :
      (n : ℕ) (f : ℕ → A) (g : ℕ → Option A)
      → ((i : ℕ) → i < n → some (f i) ≡ g i)
      → present (tabulate n f) ≡ tabulate n g
  present-tabulate zero f g h = refl
  present-tabulate (suc n) f g h =
      let ih =
        present-tabulate n (λ i. f (i + 1)) (λ i. g (i + 1)) (λ i below. h (i + 1) (omega arith)) in
      ground (arith, h 0, ih)

module _ {ℓ} {S : Type ℓ} where
  -- The entry of the results for a step: what its call returns, or the input for a nil step.
  abbrev pub entry_of : List (Option S) → Value → List Event → ℕ → Option ParallelResult
  entry_of steps input events i = elim (get_elem? steps i) [
    | none ↦ none
    | some none ↦ some (parallel_result i input)
    | some (some _) ↦ elim (value_of i events) [ none ↦ none | some v ↦ some (parallel_result i v) ]
  ]

  -- The first failure, or the entries in order, one for each step, none of them missing.
  abbrev pub IsOutcome :
      List (Option S) → Value → List Event → Option Err → ParallelOutcome → Type 0
  IsOutcome steps input events (some e) r = r ≡ refused e
  IsOutcome steps input events none r =
      (results : List ParallelResult) × (r ≡ gathered results)
      × (present results ≡ tabulate (length steps) (entry_of steps input events))

  started-calm :
      (steps : List (Option S)) (input : Value) (ctx_err : Option Err) (i : ℕ)
      → (started steps input ctx_err).phase i ≢ cancelling
  started-calm steps input ctx_err i = elim (Option-cases (get_elem? steps i)) [
    | inl out ↦ ground (arith, out)
    | inr (none, nil) ↦ ground (arith, nil)
    | inr (some s, child) ↦ ground (arith, child)
  ]

  -- The slot of a step once its goroutine has ended and nothing has failed.
  slot-entry :
      (format_int : ℕ → String) (steps : List (Option S)) (ctx_err : Option Err) (input : Value)
      (events : List Event) (g : Group ParallelResult) (i : ℕ)
      → interleave parallel_result "ParallelStep" format_int events (started steps input ctx_err)
        ≡ some g
      → g.first_err ≡ none
      → g.phase i ≡ ended
      → i < length steps
      → some (g.slots i) ≡ entry_of steps input events i
  slot-entry format_int steps ctx_err input events g i run still done below =
      let put = parallel_result in
      let g0 = started steps input ctx_err in
      elim (Option-cases (get_elem? steps i)) [
        | inl out ↦ absurd (get_elem?-below steps i below out)
        | inr (none, nil) ↦
            let kept =
              interleave-ended put "ParallelStep" format_int events g0 g i run
                (ground (arith, nil)) in
            ground (arith, nil, kept)
        | inr (some s, child) ↦
            let (v, returns_v, slot) =
              interleave-value put "ParallelStep" format_int events g0 g i run
                (refl, started-calm steps input ctx_err) still (ground (arith, child)) done in
            ground (arith, child, returns_v, slot)
      ]

  settled-IsOutcome :
      (format_int : ℕ → String) (steps : List (Option S)) (ctx_err : Option Err) (input : Value)
      (events : List Event) (g : Group ParallelResult) (r : ParallelOutcome)
      → interleave parallel_result "ParallelStep" format_int events (started steps input ctx_err)
        ≡ some g
      → all_ended (length steps) g ≡ true
      → settled (length steps) g ≡ r
      → IsOutcome steps input events
          (first_failure parallel_result "ParallelStep" format_int events ctx_err)
          r
  settled-IsOutcome format_int steps ctx_err input events g r run over same =
      let first =
        interleave-first_err parallel_result "ParallelStep" format_int events
          (started steps input ctx_err) g run (refl, started-calm steps input ctx_err) in
      elim (Option-cases g.first_err) [
        | inl still ↦ rw (sym first ∙ still) (
          tabulate (length steps) g.slots,
          ground (arith, still, same),
          present-tabulate (length steps) g.slots (entry_of steps input events) (λ i below.
              slot-entry format_int steps ctx_err input events g i run still
                (all_ended-below (length steps) g i over below) below),
        )
        | inr (e, failure) ↦ rw (sym first ∙ failure) (ground (arith, failure, same))
      ]

  -- Whatever the interleaving of the goroutines, a `ParallelStep` of at least one step that
  -- returns gives the first failure that occurs: the failure or panic of a child, or the end of the
  -- step's own context where a goroutine finds it before it calls its child; and never the
  -- cancellation that the failure of one child brings on the others. Where none of these occurs it
  -- gives the results in the order of the steps, each what its child returned, the input for a nil
  -- step, even if the step's context has ended while the children ran.
  pub parallel_step-IsOutcome :
      (format_int : ℕ → String) (step : Option S) (steps : List (Option S)) (ctx_err : Option Err)
      (input : Value) (events : List Event) (r : ParallelOutcome)
      → parallel_step format_int (step ∷ steps) ctx_err input events ≡ some r
      → IsOutcome
          (step ∷ steps)
          input
          events
          (first_failure parallel_result "ParallelStep" format_int events ctx_err)
          r
  unfolding parallel_step
  parallel_step-IsOutcome format_int step steps ctx_err input events r h =
      let all = step ∷ steps in
      elim (Option-cases
        (interleave parallel_result "ParallelStep" format_int events (started all input ctx_err))) [
          | inl stuck ↦ ground (arith, stuck, h)
          | inr (g, run) ↦ elim (Bool-cases (all_ended (length all) g)) [
            | inr blocked ↦ ground (arith, run, blocked, h)
            | inl over ↦
                let same : settled (length all) g ≡ r = ground (arith, run, over, h) in
                settled-IsOutcome format_int all ctx_err input events g r run over same
          ]
        ]
