-- ===== src/Sqlite/Instances/Leases.antt =====
-- sqlite_store.go: the lease statements keep the book of leases.
use fluxo.Common.{
  ◌≡◌, refl, inl, inr, true, false, none, some, ◌+◌, String, List, [], ◌∷◌, arith, lookup,
  lookup-insert, Option-cases,
}
use fluxo.Api.{value, error}
use fluxo.LeaseBook.{
  Lease, Book, LeaseCall, acquires, renews, releases, Answer, granted, refused, done, locked,
  unknown, book_call, book_calls,
}
use fluxo.Sqlite.{works}
use fluxo.Sqlite.Instances.{
  Instances, InstanceRow, update_where, exec_update, try_acquire_lease, renew_lease, release_lease,
}

module _ {blob : Type 0} where
  -- A row's lease.
  abbrev pub lease_of : InstanceRow blob → Lease
  lease_of row = record { owner = row.lease_owner; until = row.lease_expires_at }

  -- The book that the table keeps.
  abbrev pub book_of : Instances blob → Book
  book_of table id = elim (lookup id table) [ none ↦ none | some row ↦ some (lease_of row) ]

  -- A call as the statement that makes it, with its answer: a store that a caller asks for an
  -- instance that it does not have refuses, and for a lease that another holds takes the release
  -- as done.
  unfoldable pub lease_call : LeaseCall → Instances blob → Instances blob × Answer
  lease_call (acquires id owner ttl now) table =
      let (table', r) = try_acquire_lease works id owner ttl now table in
      (table', elim r [ error e ↦ unknown | value true ↦ granted | value false ↦ refused ])
  lease_call (renews id owner ttl now) table =
      let (table', e) = renew_lease works id owner ttl now table in
      (table', elim e [ none ↦ done | some _ ↦ locked ])
  lease_call (releases id owner now) table =
      let (table', e) = release_lease works id owner table in
      (table', elim e [ none ↦ done | some _ ↦ locked ])

  unfoldable pub lease_calls : List LeaseCall → Instances blob → Instances blob × List Answer
  lease_calls [] table = (table, [])
  lease_calls (c ∷ cs) table =
      let (table', a) = lease_call c table in
      let (table'', answers) = lease_calls cs table' in (table'', a ∷ answers)

-- What SQLite makes of an answer: it does not tell an unknown instance from a lease that another
-- holds, and it answers the release of an unknown instance, and that of a lease which another holds,
-- as done.
abbrev pub told : LeaseCall → Answer → Answer
told (acquires id owner ttl now) unknown = refused
told (renews id owner ttl now) unknown = locked
told (releases id owner now) unknown = done
told (releases id owner now) locked = done
told c a = a

-- The book's answers, as SQLite tells them.
abbrev pub all_told : List LeaseCall → List Answer → List Answer
all_told (c ∷ cs) (a ∷ answers) = told c a ∷ all_told cs answers
all_told cs answers = []

module _ {blob : Type 0} where
  -- The table keeps this book.
  abbrev pub Keeps : Instances blob → Book → Type 0
  Keeps table book = (id : String) → book_of table id ≡ book id

  lease_call-Keeps :
      (c : LeaseCall) (table : Instances blob) (book : Book)
      → Keeps table book
      → Keeps (lease_call c table).0 (book_call c book).0
        × ((lease_call c table).1 ≡ told c (book_call c book).1)
  unfolding lease_call try_acquire_lease renew_lease release_lease exec_update update_where
      book_call
  lease_call-Keeps (acquires id owner ttl now) table book keeps =
      elim (Option-cases (lookup id table)) [
        | inl missing ↦
            (λ k. ground (arith, keeps id, keeps k, missing), ground (arith, keeps id, missing))
        | inr (row, there) ↦ (
          λ k. ground (
            arith,
            keeps id,
            keeps k,
            there,
            lookup-insert id k (record row { lease_owner = owner; lease_expires_at = now + ttl })
                table,
          ),
          ground (arith, keeps id, there),
        )
      ]
  lease_call-Keeps (renews id owner ttl now) table book keeps =
      elim (Option-cases (lookup id table)) [
        | inl missing ↦
            (λ k. ground (arith, keeps id, keeps k, missing), ground (arith, keeps id, missing))
        | inr (row, there) ↦ (
          λ k. ground (
            arith,
            keeps id,
            keeps k,
            there,
            lookup-insert id k (record row { lease_expires_at = now + ttl }) table,
          ),
          ground (arith, keeps id, there),
        )
      ]
  lease_call-Keeps (releases id owner now) table book keeps =
      elim (Option-cases (lookup id table)) [
        | inl missing ↦
            (λ k. ground (arith, keeps id, keeps k, missing), ground (arith, keeps id, missing))
        | inr (row, there) ↦ (
          λ k. ground (
            arith,
            keeps id,
            keeps k,
            there,
            lookup-insert id k (record row { lease_owner = ""; lease_expires_at = 0 }) table,
          ),
          ground (arith, keeps id, there),
        )
      ]

  -- Refinement: from a table that keeps a book, any sequence of acquiring, renewing and releasing
  -- leaves a table that keeps the book after the same calls, and the answers are the book's in
  -- order, except that an unknown instance is refused as a taken one is, and that the release of an
  -- unknown instance, or of a lease that another holds, is answered as done.
  pub lease_calls-Keeps :
      (cs : List LeaseCall) (table : Instances blob) (book : Book)
      → Keeps table book
      → Keeps (lease_calls cs table).0 (book_calls cs book).0
        × ((lease_calls cs table).1 ≡ all_told cs (book_calls cs book).1)
  unfolding lease_calls book_calls
  lease_calls-Keeps [] table book keeps = (keeps, refl)
  lease_calls-Keeps (c ∷ cs) table book keeps =
      let (now, answer) = lease_call-Keeps c table book keeps in
      let (later, answers) = lease_calls-Keeps cs (lease_call c table).0 (book_call c book).0 now in
      (later, ground (arith, answer, answers))
