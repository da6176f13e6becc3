-- ===== src/Witnesses/RedisQueues.antt =====
-- The Redis queue.
use fluxo.Common.{
  ℕ, ◌≡◌, refl, Bool, false, none, some, String, List, [], ◌∷◌, lookup, insert, arith,
}
use fluxo.Queue.{Task, other_owner}
use fluxo.Redis.{Keys, dequeue_script, nack}
use fluxo.Redis.Moves.{IsValid}
use fluxo.Redis.Validity.{
  KeyCall, puts, takes, acks, rewrites, nacks, key_call, key_calls, key_calls-IsValid,
}
use fluxo.Redis.Holding.{is_claimed}
use fluxo.Redis.Exclusion.{dequeue_exclusion}
use fluxo.Witnesses.{texts_differ}
use fluxo.Witnesses.PostgresQueues.{codec, task}

abbrev round : ℕ → ℕ
round n = n

abbrev precedes : String → String → Bool
precedes i j = false

abbrev new_keys : Keys Task
new_keys = record { ready = []; inflight = []; payload = []; not_before = []; owner = [] }

new_keys-IsValid : IsValid new_keys
unfolding lookup
new_keys-IsValid k = record { apart = refl; owned = refl; filled = omega arith }

-- A task is put in, taken, given back with one attempt counted, taken by another and acknowledged.
abbrev calls : List (KeyCall Task)
calls =
    puts "a" task 5
    ∷ takes 10 1 "one"
    ∷ rewrites "a" task
    ∷ nacks "a" "one" 20
    ∷ takes 30 1 "two"
    ∷ acks "a" "two"
    ∷ []

key_calls-IsValid_example : IsValid (key_calls round precedes calls new_keys)
unfolding lookup
key_calls-IsValid_example =
    key_calls-IsValid round precedes calls new_keys new_keys-IsValid
      (refl, (tt, (tt, (tt, (tt, (tt, tt))))))

abbrev leased : Keys Task
leased =
    (dequeue_script round precedes 10 1 "one"
      (key_call round precedes (puts "a" task 5) new_keys)).0

-- An owner that does not hold the task is refused, but has rewritten its payload.
refused-rewrites :
    let (q, answer) = nack round precedes codec none none none "a" "two" 50 7 leased in
    (answer ≡ some other_owner)
    × (lookup "a" q.payload ≡ some (record task { id = "a"; attempts = 7; not_before = 50 }))
unfolding nack key_call lookup dequeue_script insert
refused-rewrites = (refl, refl)

abbrev waiting : Keys Task
waiting = key_call round precedes (puts "a" task 5) new_keys

waiting-IsValid : IsValid waiting
unfolding key_call key_calls lookup
waiting-IsValid =
    key_calls-IsValid round precedes (puts "a" task 5 ∷ []) new_keys new_keys-IsValid (refl, tt)

abbrev strangers : List (KeyCall Task)
strangers = takes 500000 1 "two" ∷ acks "a" "two" ∷ nacks "a" "two" 7 ∷ []

dequeue_exclusion_example :
    let q' =
      key_calls round precedes strangers (dequeue_script round precedes 10 1 "one" waiting).0 in
    (lookup "a" q'.inflight ≡ some 1000010)
    × (lookup "a" q'.owner ≡ some "one")
    × (is_claimed "a" (dequeue_script round precedes 1000000 1 "two" q').1 ≡ false)
unfolding key_call lookup dequeue_script insert
dequeue_exclusion_example =
    dequeue_exclusion round precedes 10 1 1000000 1 "one" "two" "a" (some task) waiting strangers
      waiting-IsValid tt refl
      (omega arith, (texts_differ "two" "one" refl, (texts_differ "two" "one" refl, tt)))
      (tt, (tt, (tt, tt))) (omega arith)
