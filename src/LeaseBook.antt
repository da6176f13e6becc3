-- ===== src/LeaseBook.antt =====
-- internal/persistence/store.go: what the lease methods of `InstanceStore` promise, whatever keeps
-- the instances: a book that gives, for each known instance, the owner and the end of its lease.
use fluxo.Common.{
  ℕ, ◌+◌, String, Bool, Option, none, some, List, [], ◌∷◌, leb, ◌==ₛ◌, is_blank, ◌||◌,
  if◌then◌else◌,
}

pub record Lease : Type 0 where
  pub owner : String
  pub until : ℕ

abbrev pub Book : Type 0
Book = String → Option Lease

-- A call on a lease: of an instance, by an owner, for a time, at a time.
pub data LeaseCall : Type 0 where
  acquires renews : String → String → ℕ → ℕ → LeaseCall
  releases : String → String → ℕ → LeaseCall

-- What a call answers.
pub data Answer : Type 0 where
  granted refused done locked unknown : Answer

abbrev pub written : String → Lease → Book → Book
written id lease book k = if id ==ₛ k then some lease else book k

-- Nobody holds the lease at `now`, or `owner` does.
abbrev pub is_open : Lease → String → ℕ → Bool
is_open lease owner now = is_blank lease.owner || leb lease.until now || lease.owner ==ₛ owner

unfoldable pub book_call : LeaseCall → Book → Book × Answer
book_call (acquires id owner ttl now) book = elim (book id) [
  | none ↦ (book, unknown)
  | some lease ↦
      if is_open lease owner now
      then (written id (record { owner = owner; until = now + ttl }) book, granted)
      else (book, refused)
]
book_call (renews id owner ttl now) book = elim (book id) [
  | none ↦ (book, unknown)
  | some lease ↦
      if lease.owner ==ₛ owner
      then (written id (record lease { until = now + ttl }) book, done)
      else (book, locked)
]
book_call (releases id owner now) book = elim (book id) [
  | none ↦ (book, unknown)
  | some lease ↦
      if is_blank lease.owner || lease.owner ==ₛ owner
      then (written id (record { owner = ""; until = 0 }) book, done)
      else (book, locked)
]

-- The answers of a sequence of calls, in order, and the book after it.
unfoldable pub book_calls : List LeaseCall → Book → Book × List Answer
book_calls [] book = (book, [])
book_calls (c ∷ cs) book =
    let (book', a) = book_call c book in
    let (book'', answers) = book_calls cs book' in (book'', a ∷ answers)
