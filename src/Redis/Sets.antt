-- ===== src/Redis/Sets.antt =====
-- redis_queue.go: the sorted sets of leases, and what `ZRANGEBYSCORE` gives of them.
use fluxo.Common.{
  ℕ, zero, suc, ◌≤◌, ◌<◌, ◌≡◌, ◌≢◌, refl, inl, inr, Bool, none, some, String, List, [], ◌∷◌, arith,
  lookup, lookup-insert, lookup-delete, insert, delete, eq_iff, Option-cases, Bool-cases, str_self,
  All,
}
use fluxo.Redis.{Scores, comes_before, first_due, due}

-- No member stands twice in a sorted set.
abbrev pub IsDistinct : Scores → Type 0
IsDistinct [] = Unit {0}
IsDistinct ((id, score) ∷ scores) = (lookup id scores ≡ none) × IsDistinct scores

pub insert-IsDistinct :
    (id : String) (score : ℕ) (scores : Scores)
    → IsDistinct scores
    → IsDistinct (insert id score scores)
unfolding insert lookup
insert-IsDistinct id score [] set = (refl, tt)
insert-IsDistinct id score ((j, m) ∷ scores) (new, set) = ground (
  arith,
  insert-IsDistinct id score scores set,
  lookup-insert id j score scores,
  new,
  set,
  eq_iff j id,
  eq_iff id j,
)

pub delete-IsDistinct :
    (id : String) (scores : Scores) → IsDistinct scores → IsDistinct (delete id scores)
unfolding delete
delete-IsDistinct id [] set = tt
delete-IsDistinct id ((j, m) ∷ scores) (new, set) =
    ground (arith, delete-IsDistinct id scores set, lookup-delete id j scores, new, set)

-- None of them is `k`.
abbrev pub AllOther : String → List String → Type 0
AllOther k ids = All (λ id. id ≢ k) ids

module _ (round : ℕ → ℕ) (precedes : String → String → Bool) where
  -- What is due stands in the set under its score, which is not later than now.
  first_due-score :
      (now : ℕ) (scores : Scores) (id : String) (score : ℕ)
      → IsDistinct scores
      → first_due round precedes now scores ≡ some (id, score)
      → (lookup id scores ≡ some score) × (score ≤ now)
  unfolding first_due lookup
  first_due-score now [] id score set e = absurd (ground (arith, e))
  first_due-score now ((j, m) ∷ scores) id score (new, set) e =
      let ih = first_due-score now scores id score set in
      elim (Option-cases (first_due round precedes now scores)) [
        | inl nothing ↦ ground (arith, e, nothing, str_self id)
        | inr ((i, n), found) ↦ elim (Bool-cases (comes_before round precedes (i, n) (j, m))) [
          | inl first ↦ ground (arith, e, found, first, ih, new, eq_iff j id)
          | inr later ↦ ground (arith, e, found, later, ih, new, str_self j, eq_iff j id)
        ]
      ]

  -- What is leased past now is not due.
  first_due-other :
      (now : ℕ) (scores : Scores) (k id : String) (until score : ℕ)
      → IsDistinct scores
      → lookup k scores ≡ some until
      → now < until
      → first_due round precedes now scores ≡ some (id, score)
      → id ≢ k
  first_due-other now scores k id until score set there before e same =
      let (found, past) = first_due-score now scores id score set e in
      let found' : lookup k scores ≡ some score = rw same at found in
      ground (arith, there, found', past, before)

  pub due-AllOther :
      (n now : ℕ) (scores : Scores) (k : String) (until : ℕ)
      → IsDistinct scores
      → lookup k scores ≡ some until
      → now < until
      → AllOther k (due round precedes n now scores)
  unfolding due
  due-AllOther zero now scores k until set there before = tt
  due-AllOther (suc n) now scores k until set there before =
      elim (Option-cases (first_due round precedes now scores)) [
        | inl e ↦ rw (e, due) tt
        | inr ((id, score), e) ↦
            let other = first_due-other now scores k id until score set there before e in
            rw (e, due)
              (
                other,
                due-AllOther n now (delete id scores) k until (delete-IsDistinct id scores set)
                    (ground (arith, there, other, eq_iff id k, lookup-delete id k scores)) before,
              )
      ]
