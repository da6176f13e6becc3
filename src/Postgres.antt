-- ===== src/Postgres.antt =====
-- postgres/internal/taskqueue/postgres_queue.go: `PostgresQueue`, on the table `queue_tasks`.
--
-- A transaction of `Dequeue` is a step of its own; the rows that other transactions have locked
-- meanwhile (`SKIP LOCKED`) are an argument. The `now()` of the database is an argument too.
pub mod Delivery
pub mod Unnamed
pub mod Polling
use fluxo.Common.{
  ℕ, zero, suc, ◌+◌, String, Bool, Option, none, some, List, [], ◌∷◌, ◌++◌, ltb, ◌==◌, ◌&&◌, ◌||◌,
  if◌then◌else◌, lookup, delete, length,
}
use fluxo.Api.{Err, wrap, Result, value, error, Context, ctx_err}
use fluxo.Queue.{Task, TaskCodec}

-- The columns beside `id`.
pub record TaskRow (blob : Type 0) : Type 0 where
  pub payload : blob
  pub created_at : ℕ

-- The table in the order in which the rows were inserted.
abbrev pub Tasks : Type 0 → Type 0
Tasks blob = List (String × TaskRow blob)

-- How a transaction ends: it commits; a call in it fails, and it is rolled back; or it has
-- committed and the answer is lost.
pub data Commit : Type 0 where
  commits : Commit
  rolls_back unheard : Err → Commit

-- `100 * time.Millisecond`.
abbrev pub poll_interval : ℕ
poll_interval = 100000000

module _ {blob : Type 0} where
  -- `ORDER BY created_at`. Of rows created at one time the database takes the one that it likes:
  -- `prefers i j` says that it takes `i` rather than `j`.
  abbrev pub comes_before :
      (String → String → Bool) → String × TaskRow blob → String × TaskRow blob → Bool
  comes_before prefers (i, r) (j, s) =
      ltb r.created_at s.created_at || (r.created_at == s.created_at && prefers i j)

  abbrev pub older_of :
      (String → String → Bool)
      → String × TaskRow blob
      → Option (String × TaskRow blob)
      → String × TaskRow blob
  older_of prefers e none = e
  older_of prefers e (some e') = if comes_before prefers e' e then e' else e

  -- The first row in that order that is not locked: `FOR UPDATE SKIP LOCKED LIMIT 1`.
  unfoldable pub oldest :
      (String → String → Bool) → (String → Bool) → Tasks blob → Option (String × TaskRow blob)
  oldest prefers locked [] = none
  oldest prefers locked ((id, row) ∷ rows) =
      let rest = oldest prefers locked rows in
      if locked id then rest else some (older_of prefers (id, row) rest)

  -- The transaction of `Dequeue`, and the row that it took.
  unfoldable pub take :
      (String → String → Bool)
      → (String → Bool)
      → Commit
      → Tasks blob
      → Tasks blob × Result (Option (String × TaskRow blob))
  unfolding oldest
  take prefers locked (rolls_back e) q = (q, error e)
  take prefers locked (unheard e) q = elim (oldest prefers locked q) [
    | none ↦ (q, value none)
    | some (id, row) ↦ (delete id q, error e)
  ]
  take prefers locked commits q = elim (oldest prefers locked q) [
    | none ↦ (q, value none)
    | some (id, row) ↦ (delete id q, value (some (id, row)))
  ]

  -- The calls of the lease do nothing: `Dequeue` has already deleted the row.
  abbrev pub renew_lease : String → String → ℕ → Tasks blob → Tasks blob × Option Err
  renew_lease task_id owner lease_ttl q = (q, none)

  abbrev pub ack : String → String → Tasks blob → Tasks blob × Option Err
  ack task_id owner q = (q, none)

  abbrev pub nack : String → String → ℕ → ℕ → Tasks blob → Tasks blob × Option Err
  nack task_id owner not_before attempts q = (q, none)

  unfoldable pub len : Option Err → Tasks blob → ℕ
  len (some e) q = 0
  len none q = length q

module _ (c : TaskCodec) where
  -- The driver's error for a key that is already in the table is `taken`.
  unfoldable pub enqueue :
      (String → Err) → Option Err → ℕ → Task → Tasks c.blob → Tasks c.blob × Option Err
  enqueue taken fault now t q = elim (c.encode t) [
    | error e ↦ (q, some e)
    | value bytes ↦ elim fault [
      | some e ↦ (q, some e)
      | none ↦ elim (lookup t.id q) [
        | some row ↦ (q, some (taken t.id))
        | none ↦ (q ++ (t.id, record { payload = bytes; created_at = now }) ∷ [], none)
      ]
    ]
  ]

  -- The row is gone before its payload is decoded.
  abbrev pub of_row : String → TaskRow c.blob → Result Task
  of_row id row = elim (c.decode row.payload) [
    | value t ↦ value t
    | error e ↦ error (wrap "decode task %q failed: %w" (id ∷ []) e)
  ]

  -- The loop of `Dequeue` on fuel, with the time at which it returns. `none` means that the fuel
  -- ran out: the call still blocks. A context that ends during a wait is seen at the wait's end.
  -- The owner and the length of the lease are not read.
  unfoldable pub dequeue :
      ℕ
      → (String → String → Bool)
      → (ℕ → String → Bool)
      → (ℕ → Commit)
      → Context
      → String
      → ℕ
      → ℕ
      → Tasks c.blob
      → Option (Tasks c.blob × Result Task × ℕ)
  unfolding take
  dequeue zero prefers locked commit ctx owner lease_ttl now q = none
  dequeue (suc fuel) prefers locked commit ctx owner lease_ttl now q = elim (ctx_err ctx now) [
    | some e ↦ some (q, error e, now)
    | none ↦
        let (q', taken) = take prefers (locked now) (commit now) q in
        elim taken [
          | error e ↦ some (q', error e, now)
          | value (some (id, row)) ↦ some (q', of_row id row, now)
          | value none ↦
              dequeue fuel prefers locked commit ctx owner lease_ttl (now + poll_interval) q'
        ]
  ]
