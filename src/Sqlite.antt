-- ===== src/Sqlite.antt =====
-- internal/persistence/sqlite_store.go and sqlite_events.go, internal/taskqueue/sqlite_queue.go:
-- what the code keeps in an SQL database.
--
-- A statement's text is translated to what it does to a table. A table is an association list from
-- the primary key to the other columns, in the order in which the rows were inserted. The database
-- makes each statement a step of its own.
pub mod Instances
pub mod Tasks
pub mod Events
pub mod Encoding
use fluxo.Common.{ℕ, ◌≡◌, List, Option, some}
use fluxo.Api.{Value, Err, Result, value}

-- How the database takes a statement: it works; it fails, and changes nothing; or it takes effect
-- and the count of its rows fails.
pub data Fault : Type 0 where
  works : Fault
  fails uncounted : Err → Fault

-- How values and the results of the steps are turned into bytes and back. For the store over
-- instances this is codec.go, for the queue over tasks its own `encodePayload` and `decodePayload`;
-- Encoding models both.
pub record Codec : Type 1 where
  pub blob : Type 0
  pub encode : Value → Result blob
  pub encode_results : Option (List (ℕ × Value)) → Result blob
  pub decode : blob → Result Value
  pub decode_results : blob → Result (Option (List (ℕ × Value)))

-- A value that was encoded is decoded as it was.
pub record IsFaithful (c : Codec) : Type 0 where
  pub reads_back : (v : Value) (b : c.blob) → c.encode v ≡ value b → c.decode b ≡ value v
  pub results_read_back :
      (m : List (ℕ × Value)) (b : c.blob)
      → c.encode_results (some m) ≡ value b
      → c.decode_results b ≡ value (some m)
