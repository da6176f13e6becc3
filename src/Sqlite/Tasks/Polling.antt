-- ===== src/Sqlite/Tasks/Polling.antt =====
-- sqlite_queue.go: when `Dequeue` returns, and with what.
use fluxo.Common.{
  ℕ, zero, suc, ◌+◌, ◌*◌, ◌≤◌, ◌≡◌, ◌⊎◌, ◌∙◌, ap, refl, inl, inr, none, some, Option, String, arith,
  Distinct, ◌==◌, Option-cases, Bool-cases,
}
use fluxo.Api.{Err, Context, ctx_err, Result, value, error}
use fluxo.Queue.{Task, bad_ttl}
use fluxo.Queue.Blocking.{ctx_err-done}
use fluxo.Sqlite.{Codec}
use fluxo.Sqlite.Tasks.{Tasks, TaskRow, claim, of_row, dequeue_loop, dequeue, poll_interval}
use fluxo.Sqlite.Tasks.Claims.{Claimed, claim-Claimed}

module _ (c : Codec) (format_int : ℕ → String) (faults : ℕ → Option Err) where
  -- What a `Dequeue` has done that returns at `t` on the table `q`: it hands out the task of the
  -- first claimable row, which it has leased; or it returns an error, and nothing has changed, or
  -- the first claimable row is leased and its payload does not decode.
  abbrev pub Polled : String → ℕ → Tasks c.blob → Tasks c.blob × Result Task × ℕ → Type 0
  Polled owner ttl q (q', value task, t) =
      (e : ℕ × TaskRow c.blob) × Claimed owner (t + ttl) t q (q', some e)
      × (of_row c format_int e.0 e.1 ≡ value task)
  Polled owner ttl q (q', error err, t) =
      (q' ≡ q)
      ⊎ ((e : ℕ × TaskRow c.blob) × Claimed owner (t + ttl) t q (q', some e)
          × (of_row c format_int e.0 e.1 ≡ error err))

  -- With that fuel `dequeue_loop` returns, and what it returns is as it should be.
  abbrev Returns : ℕ → Context → String → ℕ → ℕ → Tasks c.blob → Type 0
  Returns fuel ctx owner ttl now q =
      (res : Tasks c.blob × Result Task × ℕ) × (dequeue_loop c format_int fuel faults ctx owner ttl
          now q
        ≡ some res)
      × (now ≤ res.2)
      × Polled owner ttl q res

  of_row-Polled :
      (owner : String) (ttl t : ℕ) (q q' : Tasks c.blob) (id : ℕ) (row : TaskRow c.blob)
      → Claimed owner (t + ttl) t q (q', some (id, row))
      → (out : Result Task) → of_row c format_int id row ≡ out
      → Polled owner ttl q (q', out, t)
  of_row-Polled owner ttl t q q' id row claimed (value task) e = ((id, row), claimed, e)
  of_row-Polled owner ttl t q q' id row claimed (error err) e = inr ((id, row), claimed, e)

  -- One round of a context that is live and of a database that works, and the rest of the rounds
  -- where it claims nothing.
  round-Returns :
      (fuel : ℕ) (ctx : Context) (owner : String) (ttl now : ℕ) (q : Tasks c.blob)
      (out : Tasks c.blob × Option (ℕ × TaskRow c.blob))
      → claim owner ttl now q ≡ out
      → Claimed owner (now + ttl) now q out
      → ctx_err ctx now ≡ none
      → faults now ≡ none
      → Returns fuel ctx owner ttl (now + poll_interval) q
      → Returns (suc fuel) ctx owner ttl now q
  unfolding dequeue_loop
  round-Returns fuel ctx owner ttl now q (q', some (id, row)) e claimed live works rest =
      let said : (claim owner ttl now q).1 ≡ some (id, row) = ap (λ o. o.1) e in
      let left : (claim owner ttl now q).0 ≡ q' = ap (λ o. o.0) e in
      (
        (q', of_row c format_int id row, now),
        rw (live, works, said, left, dequeue_loop) refl,
        omega arith,
        of_row-Polled owner ttl now q q' id row claimed (of_row c format_int id row) refl,
      )
  round-Returns fuel ctx owner ttl now q (q', none) e (same, idle) live works
        (res, found, later, polled) =
      let said : (claim owner ttl now q).1 ≡ none = ap (λ o. o.1) e in
      let left : (claim owner ttl now q).0 ≡ q = ap (λ o. o.0) e ∙ same in
      (res, rw (live, works, said, left, dequeue_loop) found, omega (arith, later), polled)

  dequeue_loop-Returns :
      (fuel : ℕ) (ctx : Context) (owner : String) (ttl now : ℕ) (q : Tasks c.blob) (d : ℕ)
      → Distinct q.rows
      → ctx.done_at ≡ some d
      → d ≤ now + fuel * poll_interval
      → Returns (suc fuel) ctx owner ttl now q
  unfolding dequeue_loop
  dequeue_loop-Returns zero ctx owner ttl now q d distinct ends enough =
      let (e, done) = ctx_err-done ctx d now ends (omega arith) in
      ((q, error e, now), rw (done, dequeue_loop) refl, omega arith, inl refl)
  dequeue_loop-Returns (suc fuel) ctx owner ttl now q d distinct ends enough =
      let rest =
        dequeue_loop-Returns fuel ctx owner ttl (now + poll_interval) q d distinct ends
          (omega arith) in
      elim (Option-cases (ctx_err ctx now)) [
        | inr (e, done) ↦ ((q, error e, now), rw (done, dequeue_loop) refl, omega arith, inl refl)
        | inl live ↦ elim (Option-cases (faults now)) [
          | inr (e, broken) ↦
              ((q, error e, now), rw (live, broken, dequeue_loop) refl, omega arith, inl refl)
          | inl works ↦
              round-Returns (suc fuel) ctx owner ttl now q (claim owner ttl now q) refl
                (claim-Claimed owner ttl now q distinct) live works rest
        ]
      ]

  -- In a table where no id stands twice, `dequeue` with a context that ends returns: one round more
  -- than there are poll intervals up to the end of the context is enough fuel. It hands out the task
  -- of the row that is first of the claimable ones at that time, which is leased to the caller from
  -- then on while every other row stays; or it returns an error, and the table stays as it is unless
  -- the payload of that row does not decode: then the row is leased all the same.
  pub dequeue-Polled :
      (fuel : ℕ) (ctx : Context) (owner : String) (ttl now : ℕ) (q : Tasks c.blob) (d : ℕ)
      → Distinct q.rows
      → ctx.done_at ≡ some d
      → d ≤ now + fuel * poll_interval
      → (res : Tasks c.blob × Result Task × ℕ) × (dequeue c format_int
            (suc fuel)
            faults
            ctx
            owner
            ttl
            now
            q
          ≡ some res)
        × (now ≤ res.2)
        × Polled owner ttl q res
  unfolding dequeue
  dequeue-Polled fuel ctx owner ttl now q d distinct ends enough = elim (Bool-cases (ttl == 0)) [
    | inl no_ttl ↦ ((q, error bad_ttl, now), ground (arith, no_ttl), omega arith, inl refl)
    | inr some_ttl ↦
        let (res, found, later, polled) =
          dequeue_loop-Returns fuel ctx owner ttl now q d distinct ends enough in
        (res, ground (arith, some_ttl, found), later, polled)
  ]
