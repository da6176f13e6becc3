-- ===== src/Store/Refinement.antt =====
-- memory_store.go: the lease methods keep the book of leases.
use fluxo.Common.{
  ℕ, ◌≡◌, refl, inl, inr, true, false, none, some, Option, String, List, [], ◌∷◌, arith, lookup,
  if◌then◌else◌, eq_iff, Option-cases,
}
use fluxo.Api.{Err, value, error}
use fluxo.Api.Errors.{is_instance_not_found}
use fluxo.LeaseBook.{
  Book, LeaseCall, acquires, renews, releases, Answer, granted, refused, done, locked, unknown,
  book_call, book_calls,
}
use fluxo.Store.{Store, modify, try_acquire_lease, renew_lease, release_lease}

-- The book that the store keeps.
abbrev pub book_of : Store → Book
book_of s id = elim (lookup id s.instances) [
  | none ↦ none
  | some r ↦ some (record { owner = (s.cell r).lease_owner; until = (s.cell r).lease_expires_at })
]

abbrev pub answer_of : Option Err → Answer
answer_of none = done
answer_of (some e) = if is_instance_not_found e then unknown else locked

unfoldable pub answering_call : LeaseCall → Store → Store × Answer
answering_call (acquires id owner ttl now) s =
    let (s', r) = try_acquire_lease id owner ttl now s in
    (s', elim r [ error e ↦ unknown | value true ↦ granted | value false ↦ refused ])
answering_call (renews id owner ttl now) s =
    let (s', e) = renew_lease id owner ttl now s in (s', answer_of e)
answering_call (releases id owner now) s =
    let (s', e) = release_lease id owner s in (s', answer_of e)

-- The answers of a sequence of calls, in order, and the store after it.
unfoldable pub answering_calls : List LeaseCall → Store → Store × List Answer
answering_calls [] s = (s, [])
answering_calls (c ∷ cs) s =
    let (s', a) = answering_call c s in
    let (s'', answers) = answering_calls cs s' in (s'', a ∷ answers)

-- Two ids never share a cell.
abbrev pub IsApart : Store → Type 0
IsApart s =
    (a b : String) (r : ℕ) → lookup a s.instances ≡ some r → lookup b s.instances ≡ some r → a ≡ b

abbrev pub Keeps : Store → Book → Type 0
Keeps s book = (id : String) → book_of s id ≡ book id

answering_call-instances :
    (c : LeaseCall) (s : Store) → (answering_call c s).0.instances ≡ s.instances
unfolding answering_call try_acquire_lease renew_lease release_lease modify
answering_call-instances (acquires id owner ttl now) s = ground arith
answering_call-instances (renews id owner ttl now) s = ground arith
answering_call-instances (releases id owner now) s = ground arith

answering_call-Keeps :
    (c : LeaseCall) (s : Store) (book : Book)
    → IsApart s
    → Keeps s book
    → Keeps (answering_call c s).0 (book_call c book).0
      × ((answering_call c s).1 ≡ (book_call c book).1)
unfolding answering_call try_acquire_lease renew_lease release_lease modify book_call
answering_call-Keeps (acquires id owner ttl now) s book apart keeps =
    elim (Option-cases (lookup id s.instances)) [
      | inl missing ↦
          (λ k. ground (arith, keeps id, keeps k, missing), ground (arith, keeps id, missing))
      | inr (r, there) ↦ (
        λ k. ground (arith, keeps id, keeps k, there, eq_iff id k, apart id k r there),
        ground (arith, keeps id, there),
      )
    ]
answering_call-Keeps (renews id owner ttl now) s book apart keeps =
    elim (Option-cases (lookup id s.instances)) [
      | inl missing ↦
          (λ k. ground (arith, keeps id, keeps k, missing), ground (arith, keeps id, missing))
      | inr (r, there) ↦ (
        λ k. ground (arith, keeps id, keeps k, there, eq_iff id k, apart id k r there),
        ground (arith, keeps id, there),
      )
    ]
answering_call-Keeps (releases id owner now) s book apart keeps =
    elim (Option-cases (lookup id s.instances)) [
      | inl missing ↦
          (λ k. ground (arith, keeps id, keeps k, missing), ground (arith, keeps id, missing))
      | inr (r, there) ↦ (
        λ k. ground (arith, keeps id, keeps k, there, eq_iff id k, apart id k r there),
        ground (arith, keeps id, there),
      )
    ]

-- Refinement: from a store in which no two ids share an instance and which keeps a book, any
-- sequence of acquiring, renewing and releasing leaves a store that keeps the book after the same
-- calls, and the answers are the book's, in order.
pub answering_calls-Keeps :
    (cs : List LeaseCall) (s : Store) (book : Book)
    → IsApart s
    → Keeps s book
    → Keeps (answering_calls cs s).0 (book_calls cs book).0
      × ((answering_calls cs s).1 ≡ (book_calls cs book).1)
unfolding answering_calls book_calls
answering_calls-Keeps [] s book apart keeps = (keeps, refl)
answering_calls-Keeps (c ∷ cs) s book apart keeps =
    let (now, answer) = answering_call-Keeps c s book apart keeps in
    let s' : Store = (answering_call c s).0 in
    let (later, answers) =
      answering_calls-Keeps cs s' (book_call c book).0 (rw (answering_call-instances c s) apart)
        now in
    (later, ground (arith, answer, answers))
