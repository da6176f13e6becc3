-- ===== src/Sqlite/Tasks/Claims.antt =====
-- sqlite_queue.go: which row the `UPDATE` of `Dequeue` claims.
use fluxo.Common.{
  ℕ, ◌+◌, ◌≡◌, refl, inl, inr, Bool, true, false, none, some, Option, String, List, [], ◌∷◌, ◌&&◌,
  arith, All, All-mono, lookup_int, lookup_int-insert_int, Distinct, ◌==◌, Option-cases, Bool-cases,
  if◌then◌else◌,
}
use fluxo.Sqlite.Tasks.{
  Tasks, TaskRow, is_claimable, comes_before, earlier_of, first_claimable, leased, claim,
}

module _ {blob : Type 0} where
  -- No row that is claimable at `now` comes before `best`.
  abbrev pub NoneBefore : ℕ → ℕ × TaskRow blob → List (ℕ × TaskRow blob) → Type 0
  NoneBefore now best rows = All (λ e. (is_claimable now e.1 && comes_before e best) ≡ false) rows

  -- What is found at `now`: nothing, and no row is claimable; or a row that stands in the table, is
  -- claimable, and comes first.
  abbrev pub IsFirst : ℕ → List (ℕ × TaskRow blob) → Option (ℕ × TaskRow blob) → Type 0
  IsFirst now rows none = All (λ e. is_claimable now e.1 ≡ false) rows
  IsFirst now rows (some best) =
      (lookup_int best.0 rows ≡ some best.1)
      × (is_claimable now best.1 ≡ true)
      × NoneBefore now best rows

  NoneBefore-trans :
      (now : ℕ) (best later : ℕ × TaskRow blob) (rows : List (ℕ × TaskRow blob))
      → comes_before later best ≡ false
      → NoneBefore now later rows
      → NoneBefore now best rows
  NoneBefore-trans now best later rows before h =
      All-mono (λ e. (is_claimable now e.1 && comes_before e later) ≡ false)
        (λ e. (is_claimable now e.1 && comes_before e best) ≡ false) rows
        (λ e none_before. ground (arith, before, none_before)) h

  -- A key that stands in the rest is not the new one.
  lookup_int-later :
      (j k : ℕ) (s r : TaskRow blob) (rows : List (ℕ × TaskRow blob))
      → lookup_int j rows ≡ none
      → lookup_int k rows ≡ some r
      → lookup_int k ((j, s) ∷ rows) ≡ some r
  unfolding lookup_int
  lookup_int-later j k s r rows new there = ground (arith, new, there)

  -- The earlier of a new row and the first one so far.
  chosen-IsFirst :
      (now j k : ℕ) (s r : TaskRow blob) (rows : List (ℕ × TaskRow blob))
      → lookup_int j rows ≡ none
      → is_claimable now s ≡ true
      → IsFirst now rows (some (k, r))
      → (b : Bool) → comes_before (k, r) (j, s) ≡ b
      → IsFirst now ((j, s) ∷ rows) (some (if b then (k, r) else (j, s)))
  chosen-IsFirst now j k s r rows new may (there, may', least) true before =
      (lookup_int-later j k s r rows new there, may', (ground (arith, before), least))
  chosen-IsFirst now j k s r rows new may (there, may', least) false after = (
    unfold lookup_int in ground arith,
    may,
    (ground arith, NoneBefore-trans now (j, s) (k, r) rows after least),
  )

  -- One more row before the others.
  earlier_of-IsFirst :
      (now j : ℕ) (s : TaskRow blob) (rows : List (ℕ × TaskRow blob))
      (rest : Option (ℕ × TaskRow blob))
      → lookup_int j rows ≡ none
      → is_claimable now s ≡ true
      → IsFirst now rows rest
      → IsFirst now ((j, s) ∷ rows) (some (earlier_of (j, s) rest))
  unfolding lookup_int
  earlier_of-IsFirst now j s rows none new may h = (
    ground arith,
    may,
    (
      ground arith,
      All-mono (λ e. is_claimable now e.1 ≡ false)
          (λ e. (is_claimable now e.1 && comes_before e (j, s)) ≡ false) rows
          (λ e idle. ground (arith, idle)) h,
    ),
  )
  earlier_of-IsFirst now j s rows (some (k, r)) new may h =
      chosen-IsFirst now j k s r rows new may h (comes_before (k, r) (j, s)) refl

  skipped-IsFirst :
      (now j : ℕ) (s : TaskRow blob) (rows : List (ℕ × TaskRow blob))
      (rest : Option (ℕ × TaskRow blob))
      → lookup_int j rows ≡ none
      → is_claimable now s ≡ false
      → IsFirst now rows rest
      → IsFirst now ((j, s) ∷ rows) rest
  skipped-IsFirst now j s rows none new idle h = (idle, h)
  skipped-IsFirst now j s rows (some (k, r)) new idle (there, may', least) =
      (lookup_int-later j k s r rows new there, may', (ground (arith, idle), least))

  pub first_claimable-IsFirst :
      (now : ℕ) (rows : List (ℕ × TaskRow blob))
      → Distinct rows
      → IsFirst now rows (first_claimable now rows)
  unfolding first_claimable
  first_claimable-IsFirst now [] distinct = tt
  first_claimable-IsFirst now ((j, s) ∷ rows) (new, distinct) =
      let ih = first_claimable-IsFirst now rows distinct in
      elim (Bool-cases (is_claimable now s)) [
        | inl may ↦ rw may (earlier_of-IsFirst now j s rows (first_claimable now rows) new may ih)
        | inr idle ↦ rw idle (skipped-IsFirst now j s rows (first_claimable now rows) new idle ih)
      ]

  -- What the statement does at `now`: it claims no row, and the table stays; or it claims the first
  -- of the claimable rows, which then is `owner`'s until `until`, and every other row stays.
  abbrev pub Claimed : String → ℕ → ℕ → Tasks blob → Tasks blob × Option (ℕ × TaskRow blob) → Type 0
  Claimed owner until now q (q', none) = (q' ≡ q) × IsFirst now q.rows none
  Claimed owner until now q (q', some (id, row)) =
      IsFirst now q.rows (some (id, row))
      × (q'.sequence ≡ q.sequence)
      × ((k : ℕ)
          → lookup_int k q'.rows
            ≡ (if id == k then some (leased owner until row) else lookup_int k q.rows))

  -- In a table where no id stands twice, the statement with which `Dequeue` polls claims no row,
  -- only if none is claimable, and leaves the table as it is; or it claims a row that stands in the
  -- table, may run, is leased by nobody or past its lease's end, and comes first of all such rows
  -- by `not_before` and then by id: that row is leased to the caller until `now + lease_ttl`, and
  -- every other row stays as it is.
  pub claim-Claimed :
      (owner : String) (lease_ttl now : ℕ) (q : Tasks blob)
      → Distinct q.rows
      → Claimed owner (now + lease_ttl) now q (claim owner lease_ttl now q)
  unfolding claim
  claim-Claimed owner lease_ttl now q distinct =
      let first = first_claimable-IsFirst now q.rows distinct in
      elim (Option-cases (first_claimable now q.rows)) [
        | inl e ↦ rw (e, claim) (refl, rw e at first)
        | inr ((id, row), e) ↦
            let entry : TaskRow blob = leased owner (now + lease_ttl) row in
            rw (e, claim) (rw e at first, refl, λ k. lookup_int-insert_int id k entry q.rows)
      ]
