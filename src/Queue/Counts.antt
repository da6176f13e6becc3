-- ===== src/Queue/Counts.antt =====
-- inmemory_queue.go: how often a task id stands in a queue, and what each part of a call does to
-- that number.
use fluxo.Common.{
  ℕ, ◌+◌, ◌≤◌, ◌<◌, String, ◌≡◌, refl, inl, inr, true, false, none, some, List, [], ◌∷◌, ◌++◌,
  arith, All, lookup, insert, delete, leb, ◌==ₛ◌, eq_iff, Option-cases, Bool-cases, if◌then◌else◌,
  str_self,
}
use fluxo.Queue.{Task, LeasedTask, InMemoryQueue, is_runnable, requeue_expired, take_runnable}

abbrev pub Leases : Type 0
Leases = List (String × LeasedTask)

-- 1 for a text that is `k`, 0 for another.
abbrev pub one_if : String → String → ℕ
one_if j k = if j ==ₛ k then 1 else 0

unfoldable pub count_ready : String → List Task → ℕ
count_ready k [] = 0
count_ready k (t ∷ ts) = one_if t.id k + count_ready k ts

unfoldable pub count_leased : String → Leases → ℕ
count_leased k [] = 0
count_leased k ((j, lt) ∷ m) = one_if j k + count_leased k m

-- How often the id `k` stands in the queue, ready or leased.
abbrev pub count_task : String → InMemoryQueue → ℕ
count_task k q = count_ready k q.ready + count_leased k q.inflight

-- A lease is kept under its task's id.
abbrev pub Keyed : Leases → Type 0
Keyed [] = Unit {0}
Keyed ((j, lt) ∷ m) = (lt.task.id ≡ j) × Keyed m

pub count_ready-append :
    (k : String) (xs ys : List Task)
    → count_ready k (xs ++ ys) ≡ count_ready k xs + count_ready k ys
unfolding count_ready
count_ready-append k [] ys = omega arith
count_ready-append k (t ∷ xs) ys = omega (arith, count_ready-append k xs ys)

pub count_ready-last :
    (k : String) (xs : List Task) (t : Task)
    → count_ready k (xs ++ t ∷ []) ≡ count_ready k xs + one_if t.id k
unfolding count_ready
count_ready-last k xs t = omega (arith, count_ready-append k xs (t ∷ []))

pub count_leased-delete :
    (j k : String) (m : Leases)
    → count_leased k (delete j m) ≡ (if j ==ₛ k then 0 else count_leased k m)
unfolding count_leased delete
count_leased-delete j k [] = ground arith
count_leased-delete j k ((i, lt) ∷ m) =
    ground (arith, eq_iff i j, eq_iff i k, eq_iff j k, count_leased-delete j k m)

pub count_leased-insert :
    (j k : String) (lt : LeasedTask) (m : Leases)
    → count_leased j m ≡ 0
    → count_leased k (insert j lt m) ≡ one_if j k + count_leased k m
unfolding count_leased insert
count_leased-insert j k lt [] h = refl
count_leased-insert j k lt ((i, x) ∷ m) h =
    ground (arith, eq_iff i j, eq_iff i k, eq_iff j k, str_self j, count_leased-insert j k lt m)

-- A new value under a key that is there changes no count.
pub count_leased-insert_known :
    (j k : String) (lt lt' : LeasedTask) (m : Leases)
    → lookup j m ≡ some lt
    → count_leased k (insert j lt' m) ≡ count_leased k m
unfolding count_leased insert lookup
count_leased-insert_known j k lt lt' [] h = cc
count_leased-insert_known j k lt lt' ((i, x) ∷ m) h =
    ground (arith, eq_iff i j, eq_iff i k, eq_iff j k, count_leased-insert_known j k lt lt' m)

pub count_leased-lookup :
    (k : String) (lt : LeasedTask) (m : Leases) → lookup k m ≡ some lt → 0 < count_leased k m
unfolding count_leased lookup
count_leased-lookup k lt [] h = cc
count_leased-lookup k lt ((i, x) ∷ m) h = ground (arith, count_leased-lookup k lt m)

pub Keyed-lookup :
    (k : String) (lt : LeasedTask) (m : Leases) → Keyed m → lookup k m ≡ some lt → lt.task.id ≡ k
unfolding lookup
Keyed-lookup k lt [] h e = cc
Keyed-lookup k lt ((i, x) ∷ m) h e = ground (arith, eq_iff i k, Keyed-lookup k lt m h.1)

pub Keyed-delete : (k : String) (m : Leases) → Keyed m → Keyed (delete k m)
unfolding delete
Keyed-delete k [] h = tt
Keyed-delete k ((i, x) ∷ m) h = ground (arith, Keyed-delete k m h.1)

pub Keyed-insert :
    (lt : LeasedTask) (k : String) (m : Leases) → lt.task.id ≡ k → Keyed m → Keyed (insert k lt m)
unfolding insert
Keyed-insert lt k [] e h = (e, tt)
Keyed-insert lt k ((i, x) ∷ m) e h = ground (arith, Keyed-insert lt k m e h.1)

-- A lease that ran out: its task goes behind the ready ones.
unfoldable pub requeue_one : String → LeasedTask → InMemoryQueue → InMemoryQueue
requeue_one id lt q = record q { inflight = delete id q.inflight; ready = q.ready ++ lt.task ∷ [] }

requeue_one-count :
    (id : String) (lt : LeasedTask) (q : InMemoryQueue)
    → lt.task.id ≡ id
    → count_leased id q.inflight ≡ 1
    → (k : String) → count_task k (requeue_one id lt q) ≡ count_task k q
unfolding requeue_one
requeue_one-count id lt q own once k = ground (
  arith,
  count_ready-last k q.ready lt.task,
  count_leased-delete id k q.inflight,
  eq_iff id k,
  eq_iff lt.task.id k,
)

-- The entries of `rest` stand in the map `m`, and none of its keys stands there twice.
abbrev Within : Leases → Leases → Type 0
Within rest m = (k : String) → (count_leased k rest ≤ count_leased k m) × (count_leased k m ≤ 1)

Within-tail :
    (id : String) (lt : LeasedTask) (rest m : Leases) → Within ((id, lt) ∷ rest) m → Within rest m
unfolding count_leased
Within-tail id lt rest m h k = omega (arith, h k)

Within-once :
    (id : String) (lt : LeasedTask) (rest m : Leases)
    → Within ((id, lt) ∷ rest) m
    → (count_leased id m ≡ 1) × (count_leased id rest ≡ 0)
unfolding count_leased
Within-once id lt rest m h = ground (arith, h id, str_self id)

Within-delete :
    (id : String) (lt : LeasedTask) (rest m : Leases)
    → Within ((id, lt) ∷ rest) m
    → Within rest (delete id m)
unfolding count_leased
Within-delete id lt rest m h k =
    ground (arith, h k, Within-once id lt rest m h, count_leased-delete id k m, eq_iff id k)

-- `requeue_expired` moves tasks from leased to ready, and loses none: where the list that it goes
-- through stands in the map, and no key twice.
pub requeue_expired-count :
    (now : ℕ) (rest : Leases) (q : InMemoryQueue)
    → Keyed rest
    → Within rest q.inflight
    → (k : String) → count_task k (requeue_expired now rest q) ≡ count_task k q
unfolding requeue_expired requeue_one
requeue_expired-count now [] q keyed within k = refl
requeue_expired-count now ((id, lt) ∷ rest) q keyed within k =
    elim (Bool-cases (leb lt.expiry now)) [
      | inl over ↦
          let moved = requeue_one id lt q in
          let same =
            requeue_one-count id lt q keyed.0 (Within-once id lt rest q.inflight within).0 in
          let rest_count =
            requeue_expired-count now rest moved keyed.1
              (Within-delete id lt rest q.inflight within) k in
          ground (arith, over, same k, rest_count)
      | inr live ↦
          let rest_count =
            requeue_expired-count now rest q keyed.1 (Within-tail id lt rest q.inflight within) k in
          ground (arith, live, rest_count)
    ]

pub requeue_expired-Keyed :
    (now : ℕ) (rest : Leases) (q : InMemoryQueue)
    → Keyed q.inflight
    → Keyed (requeue_expired now rest q).inflight
unfolding requeue_expired requeue_one
requeue_expired-Keyed now [] q keyed = keyed
requeue_expired-Keyed now ((id, lt) ∷ rest) q keyed = elim (Bool-cases (leb lt.expiry now)) [
  | inl over ↦
      let ih =
        requeue_expired-Keyed now rest (requeue_one id lt q) (Keyed-delete id q.inflight keyed) in
      ground (arith, over, ih)
  | inr live ↦ let ih = requeue_expired-Keyed now rest q keyed in ground (arith, live, ih)
]

-- The task that `take_runnable` takes out may run, and the others stay.
pub take_runnable-some :
    (now : ℕ) (ts : List Task) (t : Task) (us : List Task)
    → take_runnable now ts ≡ some (t, us)
    → (is_runnable now t ≡ true)
      × ((k : String) → count_ready k ts ≡ one_if t.id k + count_ready k us)
unfolding take_runnable count_ready
take_runnable-some now [] t us h = cc
take_runnable-some now (x ∷ ts) t us h = elim (Option-cases (take_runnable now ts)) [
  | inl e ↦ (ground (arith, e), λ k. ground (arith, e))
  | inr ((u, vs), e) ↦
      let (may, counts) = take_runnable-some now ts u vs e in
      (ground (arith, e, may), λ k. ground (arith, e, counts k))
]

-- It takes none only if none may run.
pub take_runnable-none :
    (now : ℕ) (ts : List Task)
    → take_runnable now ts ≡ none
    → All (λ t. is_runnable now t ≡ false) ts
unfolding take_runnable
take_runnable-none now [] h = tt
take_runnable-none now (x ∷ ts) h = ground (arith, take_runnable-none now ts)
