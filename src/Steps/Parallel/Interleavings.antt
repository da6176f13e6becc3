-- ===== src/Steps/Parallel/Interleavings.antt =====
-- workflow.go: what any interleaving of the goroutines of `ParallelStep` and `ParallelMapStep`
-- leaves behind.
use fluxo.Common.{
  ℕ, ◌≡◌, ◌≢◌, refl, sym, ◌∙◌, inl, inr, ◌⊎◌, none, some, Option, String, List, [], ◌∷◌, arith,
  ◌==◌, Option-cases, Bool-cases, if◌then◌else◌,
}
use fluxo.Api.{Value, Err}
use fluxo.Steps.Parallel.{
  cancelling, ended, Event, parent_ends, aborts, begins, cancels, returns, fails, panics, Group,
  once, panic_err, occur, interleave,
}

-- The value that the call of the child `i` returns.
abbrev pub returned : ℕ → Event → Option Value
returned i (returns j v) = if j == i then some v else none
returned i _ = none

abbrev pub value_of : ℕ → List Event → Option Value
value_of i [] = none
value_of i (e ∷ es) = elim (returned i e) [ some v ↦ some v | none ↦ value_of i es ]

module _ {ℓ} {A : Type ℓ} (put : ℕ → Value → A) (who : String) (format_int : ℕ → String) where
  -- The first failure: of a child, or of the step's own context where a goroutine sees its end
  -- before that. `p` is the end of that context so far.
  abbrev pub first_failure : List Event → Option Err → Option Err
  first_failure [] p = none
  first_failure (parent_ends e ∷ es) p = first_failure es (once p e)
  first_failure (aborts i ∷ es) p = p
  first_failure (begins i ∷ es) p = first_failure es p
  first_failure (cancels i ∷ es) p = first_failure es p
  first_failure (returns i v ∷ es) p = first_failure es p
  first_failure (fails i e ∷ es) p = some e
  first_failure (panics i r ∷ es) p = some (panic_err who (format_int i) r)

  -- A group in which nothing has failed yet.
  abbrev IsCalm : Group A → Type 0
  IsCalm g = (g.first_err ≡ none) × ((i : ℕ) → g.phase i ≢ cancelling)

  -- An error once recorded stays.
  occur-kept :
      (e : Event) (g g' : Group A) (x : Err)
      → occur put who format_int e g ≡ some g'
      → g.first_err ≡ some x
      → g'.first_err ≡ some x
  unfolding occur
  occur-kept (parent_ends e) g g' x h first = ground arith
  occur-kept (aborts i) g g' x h first = ground arith
  occur-kept (begins i) g g' x h first = ground arith
  occur-kept (cancels i) g g' x h first = ground arith
  occur-kept (returns i v) g g' x h first = ground arith
  occur-kept (fails i e) g g' x h first = ground arith
  occur-kept (panics i r) g g' x h first = ground arith

  -- A goroutine that has ended takes no part, and its slot stays.
  occur-ended :
      (e : Event) (g g' : Group A) (i : ℕ)
      → occur put who format_int e g ≡ some g'
      → g.phase i ≡ ended
      → (g'.phase i ≡ ended) × (g'.slots i ≡ g.slots i)
  unfolding occur
  occur-ended (parent_ends e) g g' i h done = ground arith
  occur-ended (aborts j) g g' i h done = ground arith
  occur-ended (begins j) g g' i h done = ground arith
  occur-ended (cancels j) g g' i h done = ground arith
  occur-ended (returns j v) g g' i h done = ground arith
  occur-ended (fails j e) g g' i h done = ground arith
  occur-ended (panics j r) g g' i h done = ground arith

  -- An event in a calm group: nothing has failed after it either, and then only the step's own
  -- context may have ended; or it is the first failure.
  occur-IsCalm :
      (e : Event) (es : List Event) (g g' : Group A)
      → occur put who format_int e g ≡ some g'
      → IsCalm g
      → (IsCalm g' × (first_failure (e ∷ es) g.ctx_err ≡ first_failure es g'.ctx_err))
        ⊎ ((x : Err) × (g'.first_err ≡ some x) × (first_failure (e ∷ es) g.ctx_err ≡ some x))
  unfolding occur
  occur-IsCalm (parent_ends e) es g g' h (none_yet, calm) =
      inl ((ground arith, λ i. ground (arith, calm i)), ground arith)
  occur-IsCalm (aborts j) es g g' h (none_yet, calm) = elim (Option-cases g.ctx_err) [
    | inl e ↦ ground arith
    | inr (x, e) ↦ inr (x, ground arith, ground arith)
  ]
  occur-IsCalm (begins j) es g g' h (none_yet, calm) =
      inl ((ground arith, λ i. ground (arith, calm i)), ground arith)
  occur-IsCalm (cancels j) es g g' h (none_yet, calm) = ground (arith, calm j)
  occur-IsCalm (returns j v) es g g' h (none_yet, calm) =
      inl ((ground arith, λ i. ground (arith, calm i)), ground arith)
  occur-IsCalm (fails j e) es g g' h (none_yet, calm) = inr (e, ground arith, ground arith)
  occur-IsCalm (panics j r) es g g' h (none_yet, calm) =
      inr (panic_err who (format_int j) r, ground arith, ground arith)

  interleave-kept :
      (es : List Event) (g g' : Group A) (x : Err)
      → interleave put who format_int es g ≡ some g'
      → g.first_err ≡ some x
      → g'.first_err ≡ some x
  unfolding interleave
  interleave-kept [] g g' x h first = ground arith
  interleave-kept (e ∷ es) g g' x h first = elim (Option-cases (occur put who format_int e g)) [
    | inl stuck ↦ ground (arith, stuck, h)
    | inr (g1, e1) ↦
        interleave-kept es g1 g' x (rw (e1, interleave) at h) (occur-kept e g g1 x e1 first)
  ]

  pub interleave-first_err :
      (es : List Event) (g g' : Group A)
      → interleave put who format_int es g ≡ some g'
      → IsCalm g
      → g'.first_err ≡ first_failure es g.ctx_err
  unfolding interleave
  interleave-first_err [] g g' h calm = ground arith
  interleave-first_err (e ∷ es) g g' h calm = elim (Option-cases (occur put who format_int e g)) [
    | inl stuck ↦ ground (arith, stuck, h)
    | inr (g1, e1) ↦
        let rest : interleave put who format_int es g1 ≡ some g' = rw (e1, interleave) at h in
        elim (occur-IsCalm e es g g1 e1 calm) [
          | inl (calm', same) ↦ interleave-first_err es g1 g' rest calm' ∙ sym same
          | inr (x, first, same) ↦ interleave-kept es g1 g' x rest first ∙ sym same
        ]
  ]

  -- A goroutine that has not ended, where nothing fails: its child returns, which fills its slot,
  -- or it still has not ended.
  occur-live :
      (e : Event) (g g' : Group A) (i : ℕ)
      → occur put who format_int e g ≡ some g'
      → IsCalm g
      → g'.first_err ≡ none
      → g.phase i ≢ ended
      → ((v : Value) × (returned i e ≡ some v) × (g'.phase i ≡ ended) × (g'.slots i ≡ put i v))
        ⊎ ((returned i e ≡ none) × (g'.phase i ≢ ended))
  unfolding occur
  occur-live (parent_ends e) g g' i h calm still live = inr (refl, ground arith)
  occur-live (aborts j) g g' i h calm still live = inr (refl, ground arith)
  occur-live (begins j) g g' i h calm still live = inr (refl, ground arith)
  occur-live (cancels j) g g' i h calm still live = inr (refl, ground (arith, calm.1 j))
  occur-live (returns j v) g g' i h calm still live = elim (Bool-cases (j == i)) [
    | inl own ↦ inl (v, ground (arith, own), ground (arith, own), ground (arith, own))
    | inr other ↦ inr (ground (arith, other), ground (arith, other))
  ]
  occur-live (fails j e) g g' i h calm still live = inr (refl, ground arith)
  occur-live (panics j r) g g' i h calm still live = inr (refl, ground arith)

  pub interleave-ended :
      (es : List Event) (g g' : Group A) (i : ℕ)
      → interleave put who format_int es g ≡ some g'
      → g.phase i ≡ ended
      → g'.slots i ≡ g.slots i
  unfolding interleave
  interleave-ended [] g g' i h done = ground arith
  interleave-ended (e ∷ es) g g' i h done = elim (Option-cases (occur put who format_int e g)) [
    | inl stuck ↦ ground (arith, stuck, h)
    | inr (g1, e1) ↦
        let (done', same) = occur-ended e g g1 i e1 done in
        interleave-ended es g1 g' i (rw (e1, interleave) at h) done' ∙ same
  ]

  -- Where nothing fails, a goroutine that ends has put what its child returned into its slot.
  pub interleave-value :
      (es : List Event) (g g' : Group A) (i : ℕ)
      → interleave put who format_int es g ≡ some g'
      → IsCalm g
      → g'.first_err ≡ none
      → g.phase i ≢ ended
      → g'.phase i ≡ ended
      → (v : Value) × (value_of i es ≡ some v) × (g'.slots i ≡ put i v)
  unfolding interleave
  interleave-value [] g g' i h calm still live done = ground arith
  interleave-value (e ∷ es) g g' i h calm still live done =
      elim (Option-cases (occur put who format_int e g)) [
        | inl stuck ↦ ground (arith, stuck, h)
        | inr (g1, e1) ↦
            let rest : interleave put who format_int es g1 ≡ some g' = rw (e1, interleave) at h in
            elim (occur-IsCalm e es g g1 e1 calm) [
              | inr (x, first, same) ↦ ground (arith, still, interleave-kept es g1 g' x rest first)
              | inl (calm', same) ↦ elim (occur-live e g g1 i e1 calm calm'.0 live) [
                | inl (v, now, done', slot) ↦
                    (v, ground (arith, now), interleave-ended es g1 g' i rest done' ∙ slot)
                | inr (later, live') ↦
                    let (v, returns_v, slot) =
                      interleave-value es g1 g' i rest calm' still live' done in
                    (v, ground (arith, later, returns_v), slot)
              ]
            ]
      ]
