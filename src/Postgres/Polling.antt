-- ===== src/Postgres/Polling.antt =====
-- postgres_queue.go: which row `Dequeue` takes, and when it returns.
use fluxo.Common.{
  ℕ, zero, suc, ◌+◌, ◌*◌, ◌≤◌, ◌≡◌, ◌⊎◌, ◌∙◌, ap, refl, inl, inr, Bool, true, false, none, some,
  Option, String, [], ◌∷◌, arith, All, All-mono, delete, Option-cases, Bool-cases, if◌then◌else◌,
}
use fluxo.Api.{Err, Context, ctx_err, Result, value, error, Result-cases}
use fluxo.Queue.{Task, TaskCodec}
use fluxo.Queue.Blocking.{ctx_err-done}
use fluxo.Postgres.{
  TaskRow, Tasks, Commit, commits, rolls_back, unheard, comes_before, older_of, oldest, take,
  of_row, dequeue, poll_interval,
}

module _ {blob : Type 0} where
  -- `e` stands in the table.
  abbrev pub Stands : String × TaskRow blob → Tasks blob → Type 0
  Stands e [] = ⊥
  Stands e (f ∷ q) = (f ≡ e) ⊎ Stands e q

  -- What is found: nothing, and every row is locked; or a row of the table that is not locked, and
  -- no row that is not locked was created before it.
  abbrev pub IsOldest : (String → Bool) → Tasks blob → Option (String × TaskRow blob) → Type 0
  IsOldest locked q none = All (λ e. locked e.0 ≡ true) q
  IsOldest locked q (some best) =
      Stands best q
      × (locked best.0 ≡ false)
      × All (λ e. (locked e.0 ≡ true) ⊎ (best.1.created_at ≤ e.1.created_at)) q

  -- The older of a new row, which is not locked, and the first one so far.
  chosen-IsOldest :
      (prefers : String → String → Bool) (locked : String → Bool) (e f : String × TaskRow blob)
      (q : Tasks blob)
      → locked e.0 ≡ false
      → IsOldest locked q (some f)
      → (b : Bool) → comes_before prefers f e ≡ b
      → IsOldest locked (e ∷ q) (some (if b then f else e))
  chosen-IsOldest prefers locked (i, r) (j, s) q free (there, free', least) true before =
      (inr there, free', (inr (ground (arith, before)), least))
  chosen-IsOldest prefers locked (i, r) (j, s) q free (there, free', least) false after = (
    inl refl,
    free,
    (
      inr (omega arith),
      All-mono (λ f. (locked f.0 ≡ true) ⊎ (s.created_at ≤ f.1.created_at))
          (λ f. (locked f.0 ≡ true) ⊎ (r.created_at ≤ f.1.created_at)) q
          (λ f h. elim h [ inl lock ↦ inl lock | inr more ↦ inr (ground (arith, more, after)) ])
          least,
    ),
  )

  -- One more row before the others, which is not locked.
  older_of-IsOldest :
      (prefers : String → String → Bool) (locked : String → Bool) (e : String × TaskRow blob)
      (q : Tasks blob) (rest : Option (String × TaskRow blob))
      → locked e.0 ≡ false
      → IsOldest locked q rest
      → IsOldest locked (e ∷ q) (some (older_of prefers e rest))
  older_of-IsOldest prefers locked e q none free h = (
    inl refl,
    free,
    (
      inr (omega arith),
      All-mono (λ f. locked f.0 ≡ true)
          (λ f. (locked f.0 ≡ true) ⊎ (e.1.created_at ≤ f.1.created_at)) q (λ f lock. inl lock) h,
    ),
  )
  older_of-IsOldest prefers locked (i, r) q (some (j, s)) free h =
      chosen-IsOldest prefers locked (i, r) (j, s) q free h (comes_before prefers (j, s) (i, r))
        refl

  oldest-IsOldest :
      (prefers : String → String → Bool) (locked : String → Bool) (q : Tasks blob)
      → IsOldest locked q (oldest prefers locked q)
  unfolding oldest
  oldest-IsOldest prefers locked [] = tt
  oldest-IsOldest prefers locked ((i, r) ∷ q) =
      let ih = oldest-IsOldest prefers locked q in
      elim (Bool-cases (locked i)) [
        | inr free ↦
            rw free (older_of-IsOldest prefers locked (i, r) q (oldest prefers locked q) free ih)
        | inl lock ↦ rw lock (skipped (oldest prefers locked q) lock ih)
      ]
    where
      skipped :
          (rest : Option (String × TaskRow blob))
          → locked i ≡ true
          → IsOldest locked q rest
          → IsOldest locked ((i, r) ∷ q) rest
      skipped none lock h = (lock, h)
      skipped (some best) lock (there, free, least) = (inr there, free, (inl lock, least))

module _ (c : TaskCodec) (prefers : String → String → Bool) (locked : ℕ → String → Bool)
    (ending : ℕ → Commit) where
  -- What a `Dequeue` has done that returns at `t` on the table `q`. It hands out a task: that of the
  -- oldest row, which it has deleted. Or it returns an error: nothing has changed, or the oldest row
  -- is deleted, and either the answer to the commit is lost or the row's payload does not decode.
  abbrev pub Polled : Tasks c.blob → Tasks c.blob × Result Task × ℕ → Type 0
  Polled q (q', value task, t) =
      (e : String × TaskRow c.blob) × IsOldest (locked t) q (some e)
      × (c.decode e.1.payload ≡ value task)
      × (q' ≡ delete e.0 q)
  Polled q (q', error err, t) =
      (q' ≡ q)
      ⊎ ((e : String × TaskRow c.blob) × IsOldest (locked t) q (some e)
          × (q' ≡ delete e.0 q)
          × ((ending t ≡ unheard err) ⊎ ((bad : Err) × (c.decode e.1.payload ≡ error bad))))

  -- One round takes no row, and the table stays; or what it returns is as it should be.
  abbrev pub Took :
      ℕ → Tasks c.blob → Tasks c.blob × Result (Option (String × TaskRow c.blob)) → Type 0
  Took t q (q', error err) = Polled q (q', error err, t)
  Took t q (q', value none) = q' ≡ q
  Took t q (q', value (some (id, row))) = Polled q (q', of_row c id row, t)

  of_row-Polled :
      (t : ℕ) (q : Tasks c.blob) (id : String) (row : TaskRow c.blob)
      → IsOldest (locked t) q (some (id, row))
      → Polled q (delete id q, of_row c id row, t)
  of_row-Polled t q id row first = elim (Result-cases (c.decode row.payload)) [
    | inl (task, good) ↦ rw (good, Polled) ((id, row), first, good, refl)
    | inr (bad, e) ↦ rw (e, Polled) (inr ((id, row), first, refl, inr (bad, e)))
  ]

  take-Took :
      (t : ℕ) (q : Tasks c.blob) (how : Commit)
      → ending t ≡ how
      → Took t q (take prefers (locked t) how q)
  unfolding take
  take-Took t q (rolls_back err) e = inl refl
  take-Took t q (unheard err) e =
      let first = oldest-IsOldest prefers (locked t) q in
      elim (Option-cases (oldest prefers (locked t) q)) [
        | inl nothing ↦ rw (nothing, take) refl
        | inr ((id, row), found) ↦
            rw (found, take) (inr ((id, row), rw found at first, refl, inl e))
      ]
  take-Took t q commits e =
      let first = oldest-IsOldest prefers (locked t) q in
      elim (Option-cases (oldest prefers (locked t) q)) [
        | inl nothing ↦ rw (nothing, take) refl
        | inr ((id, row), found) ↦ rw (found, take) (of_row-Polled t q id row (rw found at first))
      ]

  -- With that fuel `dequeue` returns, and what it returns is as it should be.
  abbrev pub Returns : ℕ → Context → String → ℕ → ℕ → Tasks c.blob → Type 0
  Returns fuel ctx owner ttl now q =
      (res : Tasks c.blob × Result Task × ℕ) × (dequeue c fuel prefers locked ending ctx owner ttl
          now q
        ≡ some res)
      × (now ≤ res.2)
      × Polled q res

  -- One round, and the rest of the rounds where it takes no row.
  round-Returns :
      (fuel : ℕ) (ctx : Context) (owner : String) (ttl now : ℕ) (q : Tasks c.blob)
      (out : Tasks c.blob × Result (Option (String × TaskRow c.blob)))
      → take prefers (locked now) (ending now) q ≡ out
      → Took now q out
      → ctx_err ctx now ≡ none
      → Returns fuel ctx owner ttl (now + poll_interval) q
      → Returns (suc fuel) ctx owner ttl now q
  unfolding dequeue
  round-Returns fuel ctx owner ttl now q (q', error err) e took live rest =
      let said : (take prefers (locked now) (ending now) q).1 ≡ error err = ap (λ o. o.1) e in
      let left : (take prefers (locked now) (ending now) q).0 ≡ q' = ap (λ o. o.0) e in
      ((q', error err, now), rw (live, said, left, dequeue) refl, omega arith, took)
  round-Returns fuel ctx owner ttl now q (q', value (some (id, row))) e took live rest =
      let said : (take prefers (locked now) (ending now) q).1 ≡ value (some (id, row)) =
        ap (λ o. o.1) e in
      let left : (take prefers (locked now) (ending now) q).0 ≡ q' = ap (λ o. o.0) e in
      ((q', of_row c id row, now), rw (live, said, left, dequeue) refl, omega arith, took)
  round-Returns fuel ctx owner ttl now q (q', value none) e same live (res, found, later, polled) =
      let said : (take prefers (locked now) (ending now) q).1 ≡ value none = ap (λ o. o.1) e in
      let left : (take prefers (locked now) (ending now) q).0 ≡ q = ap (λ o. o.0) e ∙ same in
      (res, rw (live, said, left, dequeue) found, omega (arith, later), polled)

  -- `dequeue` with a context that ends returns, whatever stands in the table: one round more than
  -- there are poll intervals up to the end of the context is enough fuel. It hands out the task of
  -- a row that is not locked at that time and is as old as any such row, and deletes the row; or it
  -- returns an error, and the table stays as it is unless the answer to a commit was lost or the
  -- payload of the oldest row does not decode: then that row is deleted.
  pub dequeue-Returns :
      (fuel : ℕ) (ctx : Context) (owner : String) (ttl now : ℕ) (q : Tasks c.blob) (d : ℕ)
      → ctx.done_at ≡ some d
      → d ≤ now + fuel * poll_interval
      → Returns (suc fuel) ctx owner ttl now q
  unfolding dequeue
  dequeue-Returns zero ctx owner ttl now q d ends enough =
      let (e, done) = ctx_err-done ctx d now ends (omega arith) in
      ((q, error e, now), rw (done, dequeue) refl, omega arith, inl refl)
  dequeue-Returns (suc fuel) ctx owner ttl now q d ends enough =
      let rest = dequeue-Returns fuel ctx owner ttl (now + poll_interval) q d ends (omega arith) in
      elim (Option-cases (ctx_err ctx now)) [
        | inr (e, done) ↦ ((q, error e, now), rw (done, dequeue) refl, omega arith, inl refl)
        | inl live ↦
            round-Returns (suc fuel) ctx owner ttl now q (take prefers (locked now) (ending now) q)
              refl (take-Took now q (ending now) refl) live rest
      ]
