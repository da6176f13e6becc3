-- ===== src/Postgres/Delivery.antt =====
-- postgres_queue.go: sequences of calls, by any number of producers and workers, on one table.
use fluxo.Common.{
  ℕ, ◌+◌, ◌≡◌, ◌≢◌, refl, inl, inr, Bool, none, some, Option, String, List, [], ◌∷◌, ◌++◌, arith,
  All, lookup, lookup-delete, eq_iff, Option-cases, Bool-cases, str_self,
}
use fluxo.Api.{Err, Result, value, error, Result-cases}
use fluxo.Queue.{Task, TaskCodec}
use fluxo.Queue.Counts.{one_if}
use fluxo.Postgres.{
  TaskRow, Tasks, Commit, commits, rolls_back, unheard, comes_before, oldest, take, of_row, enqueue,
  renew_lease, ack, nack,
}

-- One call. A `Dequeue` that polls is one call for each of its transactions.
pub data TaskCall : Type 0 where
  enqueues : Option Err → ℕ → Task → TaskCall
  takes : (String → String → Bool) → (String → Bool) → Commit → TaskCall
  renews : String → String → ℕ → TaskCall
  acks : String → String → TaskCall
  nacks : String → String → ℕ → ℕ → TaskCall

-- 1 where something stands under the key.
abbrev pub one_if_some {ℓ} : {A : Type ℓ} → Option A → ℕ
one_if_some none = 0
one_if_some (some x) = 1

module _ {blob : Type 0} where
  abbrev pub is_waiting : String → Tasks blob → ℕ
  is_waiting k q = one_if_some (lookup k q)

  -- 1 where the row `k` was taken.
  abbrev pub taken_row : String → Result (Option (String × TaskRow blob)) → ℕ
  taken_row k (error e) = 0
  taken_row k (value none) = 0
  taken_row k (value (some (id, row))) = one_if id k

  -- What is taken stands in the table.
  oldest-there :
      (prefers : String → String → Bool) (locked : String → Bool) (q : Tasks blob) (id : String)
      (row : TaskRow blob)
      → oldest prefers locked q ≡ some (id, row)
      → is_waiting id q ≡ 1
  unfolding oldest lookup
  oldest-there prefers locked [] id row e = absurd (ground (arith, e))
  oldest-there prefers locked ((j, s) ∷ q) id row e =
      let ih = oldest-there prefers locked q id row in
      elim (Option-cases (oldest prefers locked q)) [
        | inl nothing ↦ ground (arith, e, nothing, str_self id)
        | inr ((i, r), found) ↦ elim (Bool-cases (comes_before prefers (i, r) (j, s))) [
          | inl first ↦ ground (arith, e, found, first, ih)
          | inr later ↦ ground (arith, e, found, later, ih, str_self j)
        ]
      ]

  take-counted :
      (prefers : String → String → Bool) (locked : String → Bool) (q : Tasks blob) (k : String)
      → taken_row k (take prefers locked commits q).1
          + is_waiting k (take prefers locked commits q).0
        ≡ is_waiting k q
  unfolding take
  take-counted prefers locked q k = elim (Option-cases (oldest prefers locked q)) [
    | inl e ↦ ground (arith, e)
    | inr ((id, row), e) ↦
        let there = oldest-there prefers locked q id row e in
        ground (arith, e, there, eq_iff id k, lookup-delete id k q)
  ]

  lookup-last :
      (k j : String) (row : TaskRow blob) (q : Tasks blob)
      → lookup j q ≡ none
      → is_waiting k (q ++ (j, row) ∷ []) ≡ is_waiting k q + one_if j k
  unfolding lookup
  lookup-last k j row [] new = ground arith
  lookup-last k j row ((i, s) ∷ q) new =
      ground (arith, new, eq_iff i j, eq_iff i k, eq_iff j k, lookup-last k j row q)

-- No answer to a commit is lost.
abbrev pub IsHeard : TaskCall → Type 0
IsHeard (enqueues fault now t) = Unit {0}
IsHeard (takes prefers locked ending) = (e : Err) → ending ≢ unheard e
IsHeard (renews id owner ttl) = Unit {0}
IsHeard (acks id owner) = Unit {0}
IsHeard (nacks id owner not_before attempts) = Unit {0}

module _ (c : TaskCodec) (taken : String → Err) where
  unfoldable pub task_call : TaskCall → Tasks c.blob → Tasks c.blob
  task_call (enqueues fault now t) q = (enqueue c taken fault now t q).0
  task_call (takes prefers locked ending) q = (take prefers locked ending q).0
  task_call (renews id owner ttl) q = (renew_lease id owner ttl q).0
  task_call (acks id owner) q = (ack id owner q).0
  task_call (nacks id owner not_before attempts) q = (nack id owner not_before attempts q).0

  unfoldable pub task_calls : List TaskCall → Tasks c.blob → Tasks c.blob
  task_calls [] q = q
  task_calls (call ∷ calls) q = task_calls calls (task_call call q)

  -- The row `k` was taken and the task is handed out; or it was taken and does not decode, which
  -- is what `Dequeue` then returns.
  abbrev pub handed_row : String → Result (Option (String × TaskRow c.blob)) → ℕ
  handed_row k (error e) = 0
  handed_row k (value none) = 0
  handed_row k (value (some (id, row))) = elim (of_row c id row) [
    | value t ↦ one_if id k
    | error e ↦ 0
  ]

  abbrev pub spoiled_row : String → Result (Option (String × TaskRow c.blob)) → ℕ
  spoiled_row k (error e) = 0
  spoiled_row k (value none) = 0
  spoiled_row k (value (some (id, row))) = elim (of_row c id row) [
    | value t ↦ 0
    | error e ↦ one_if id k
  ]

  taken-split :
      (k : String) (res : Result (Option (String × TaskRow c.blob)))
      → handed_row k res + spoiled_row k res ≡ taken_row k res
  taken-split k (error e) = omega arith
  taken-split k (value none) = omega arith
  taken-split k (value (some (id, row))) = elim (Result-cases (c.decode row.payload)) [
    | inl (t, good) ↦ ground (arith, good)
    | inr (e, bad) ↦ ground (arith, bad)
  ]

  -- How often a call accepts, hands out, and loses for its payload, a task of the id `k`.
  abbrev pub call_accepts : String → TaskCall → Tasks c.blob → ℕ
  call_accepts k (enqueues fault now t) q = elim ((enqueue c taken fault now t q).1) [
    | none ↦ one_if t.id k
    | some e ↦ 0
  ]
  call_accepts k _ q = 0

  abbrev pub call_hands : String → TaskCall → Tasks c.blob → ℕ
  call_hands k (takes prefers locked ending) q = handed_row k (take prefers locked ending q).1
  call_hands k _ q = 0

  abbrev pub call_spoils : String → TaskCall → Tasks c.blob → ℕ
  call_spoils k (takes prefers locked ending) q = spoiled_row k (take prefers locked ending q).1
  call_spoils k _ q = 0

  -- The same for a sequence of calls.
  unfoldable pub accepted : String → List TaskCall → Tasks c.blob → ℕ
  accepted k [] q = 0
  accepted k (call ∷ calls) q = call_accepts k call q + accepted k calls (task_call call q)

  unfoldable pub handed : String → List TaskCall → Tasks c.blob → ℕ
  handed k [] q = 0
  handed k (call ∷ calls) q = call_hands k call q + handed k calls (task_call call q)

  unfoldable pub spoiled : String → List TaskCall → Tasks c.blob → ℕ
  spoiled k [] q = 0
  spoiled k (call ∷ calls) q = call_spoils k call q + spoiled k calls (task_call call q)

  enqueue-counted :
      (fault : Option Err) (now : ℕ) (t : Task) (q : Tasks c.blob) (k : String)
      → is_waiting k (enqueue c taken fault now t q).0
        ≡ call_accepts k (enqueues fault now t) q + is_waiting k q
  unfolding enqueue
  enqueue-counted (some e) now t q k = elim (Result-cases (c.encode t)) [
    | inl (b, good) ↦ ground (arith, good)
    | inr (e', bad) ↦ ground (arith, bad)
  ]
  enqueue-counted none now t q k = elim (Result-cases (c.encode t)) [
    | inr (e, bad) ↦ ground (arith, bad)
    | inl (b, good) ↦ elim (Option-cases (lookup t.id q)) [
      | inr (row, e) ↦ ground (arith, good, e)
      | inl e ↦
          let row : TaskRow c.blob = record { payload = b; created_at = now } in
          ground (arith, good, e, lookup-last k t.id row q e)
    ]
  ]

  task_call-counted :
      (call : TaskCall) (q : Tasks c.blob) (k : String)
      → IsHeard call
      → call_hands k call q + call_spoils k call q + is_waiting k (task_call call q)
        ≡ call_accepts k call q + is_waiting k q
  unfolding task_call take
  task_call-counted (enqueues fault now t) q k heard =
      omega (arith, enqueue-counted fault now t q k)
  task_call-counted (takes prefers locked commits) q k heard =
      omega
        (arith, take-counted prefers locked q k, taken-split k (take prefers locked commits q).1)
  task_call-counted (takes prefers locked (rolls_back e)) q k heard = omega arith
  task_call-counted (takes prefers locked (unheard e)) q k heard = absurd (heard e refl)
  task_call-counted (renews id owner ttl) q k heard = omega arith
  task_call-counted (acks id owner) q k heard = omega arith
  task_call-counted (nacks id owner not_before attempts) q k heard = omega arith

  -- Whatever is called in whatever order, as long as no answer to a commit is lost: of the times
  -- that a task id was waiting at first or was accepted later, each is one at which it was handed
  -- out, one at which its payload was taken out and did not decode, or the one that still waits. So
  -- what is given back is not handed out again.
  pub task_calls-counted :
      (calls : List TaskCall) (q : Tasks c.blob) (k : String)
      → All IsHeard calls
      → handed k calls q + spoiled k calls q + is_waiting k (task_calls calls q)
        ≡ accepted k calls q + is_waiting k q
  unfolding task_calls handed spoiled accepted
  task_calls-counted [] q k heard = omega arith
  task_calls-counted (call ∷ calls) q k (heard, rest) =
      omega (
        arith,
        task_call-counted call q k heard,
        task_calls-counted calls (task_call call q) k rest,
      )
