-- ===== src/Postgres/Unnamed.antt =====
-- postgres_queue.go: tasks whose id is blank, on one table. Those of the worker are, and the
-- engine's are.
use fluxo.Common.{
  ℕ, ◌≤◌, ◌≡◌, ◌⊎◌, ◌≢◌, refl, inl, inr, Bool, none, Option, String, List, [], ◌∷◌, arith, All,
  lookup, delete, eq_iff,
}
use fluxo.Api.{Err}
use fluxo.Queue.{Task, TaskCodec}
use fluxo.Postgres.{Tasks, Commit, commits, rolls_back, unheard, oldest, take, enqueue, len}
use fluxo.Postgres.Delivery.{TaskCall, enqueues, takes, renews, acks, nacks, task_call, task_calls}

-- The tasks that are put in have blank ids, as those of the worker and of the engine have.
abbrev pub IsUnnamed : TaskCall → Type 0
IsUnnamed (enqueues fault now t) = t.id ≡ ""
IsUnnamed (takes prefers locked ending) = Unit {0}
IsUnnamed (renews id owner ttl) = Unit {0}
IsUnnamed (acks id owner) = Unit {0}
IsUnnamed (nacks id owner not_before attempts) = Unit {0}

module _ {blob : Type 0} where
  -- At most one row, and that under the blank id.
  abbrev HasOneSlot : Tasks blob → Type 0
  HasOneSlot [] = Unit {0}
  HasOneSlot (e ∷ []) = e.0 ≡ ""
  HasOneSlot (e ∷ f ∷ q) = ⊥

  take-HasOneSlot :
      (prefers : String → String → Bool) (locked : String → Bool) (ending : Commit) (q : Tasks blob)
      → HasOneSlot q
      → HasOneSlot (take prefers locked ending q).0
  unfolding take oldest delete
  take-HasOneSlot prefers locked (rolls_back e) q slot = slot
  take-HasOneSlot prefers locked (unheard e) [] slot = tt
  take-HasOneSlot prefers locked commits [] slot = tt
  take-HasOneSlot prefers locked (unheard e) ((j, row) ∷ []) slot = ground (arith, slot)
  take-HasOneSlot prefers locked commits ((j, row) ∷ []) slot = ground (arith, slot)
  take-HasOneSlot prefers locked (unheard e) (x ∷ y ∷ q) slot = absurd (ground (arith, slot))
  take-HasOneSlot prefers locked commits (x ∷ y ∷ q) slot = absurd (ground (arith, slot))

module _ (c : TaskCodec) (taken : String → Err) where
  enqueue-HasOneSlot :
      (fault : Option Err) (now : ℕ) (t : Task) (q : Tasks c.blob)
      → t.id ≡ ""
      → HasOneSlot q
      → HasOneSlot (enqueue c taken fault now t q).0
  unfolding enqueue lookup
  enqueue-HasOneSlot fault now t [] unnamed slot = ground (arith, unnamed)
  enqueue-HasOneSlot fault now t ((j, row) ∷ []) unnamed slot =
      ground (arith, unnamed, slot, eq_iff j t.id)
  enqueue-HasOneSlot fault now t (x ∷ y ∷ q) unnamed slot = absurd slot

  task_calls-HasOneSlot :
      (calls : List TaskCall) (q : Tasks c.blob)
      → All IsUnnamed calls
      → HasOneSlot q
      → HasOneSlot (task_calls c taken calls q)
  unfolding task_calls task_call
  task_calls-HasOneSlot [] q unnamed slot = slot
  task_calls-HasOneSlot (enqueues fault now t ∷ calls) q (unnamed, rest) slot =
      task_calls-HasOneSlot calls _ rest (enqueue-HasOneSlot fault now t q unnamed slot)
  task_calls-HasOneSlot (takes prefers locked ending ∷ calls) q (tt, rest) slot =
      task_calls-HasOneSlot calls _ rest (take-HasOneSlot prefers locked ending q slot)
  task_calls-HasOneSlot (renews id owner ttl ∷ calls) q (tt, rest) slot =
      task_calls-HasOneSlot calls q rest slot
  task_calls-HasOneSlot (acks id owner ∷ calls) q (tt, rest) slot =
      task_calls-HasOneSlot calls q rest slot
  task_calls-HasOneSlot (nacks id owner not_before attempts ∷ calls) q (tt, rest) slot =
      task_calls-HasOneSlot calls q rest slot

  -- At most one task waits; and none does, or `enqueue` of a task refuses it and changes nothing.
  abbrev pub IsBlocking : Option Err → ℕ → Task → Tasks c.blob → Type 0
  IsBlocking fault now t q =
      (len none q ≤ 1)
      × ((q ≡ [])
          ⊎ (((enqueue c taken fault now t q).0 ≡ q) × ((enqueue c taken fault now t q).1 ≢ none)))

  one_slot-IsBlocking :
      (fault : Option Err) (now : ℕ) (t : Task) (q : Tasks c.blob)
      → t.id ≡ ""
      → HasOneSlot q
      → IsBlocking fault now t q
  unfolding len enqueue lookup
  one_slot-IsBlocking fault now t [] blank slot = (omega arith, inl refl)
  one_slot-IsBlocking fault now t ((j, row) ∷ []) blank slot = (
    omega arith,
    inr (
      ground (arith, slot, blank, eq_iff j t.id),
      λ accepted. ground (arith, slot, blank, eq_iff j t.id, accepted),
    ),
  )
  one_slot-IsBlocking fault now t (x ∷ y ∷ q) blank slot = absurd slot

  -- On a table that is empty at first, whatever is called in whatever order, if every task that is
  -- put in has a blank id, then at most one task waits; and while one waits, a further task with a
  -- blank id is refused, and the table stays as it is.
  pub unnamed_task_calls-IsBlocking :
      (calls : List TaskCall) (fault : Option Err) (now : ℕ) (t : Task)
      → All IsUnnamed calls
      → t.id ≡ ""
      → IsBlocking fault now t (task_calls c taken calls [])
  unnamed_task_calls-IsBlocking calls fault now t unnamed blank =
      one_slot-IsBlocking fault now t (task_calls c taken calls []) blank
        (task_calls-HasOneSlot calls [] unnamed tt)
