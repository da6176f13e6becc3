-- ===== src/Queue.antt =====
-- internal/taskqueue: the tasks of taskqueue.go and `InMemoryQueue` of inmemory_queue.go.
--
-- A method returns the new queue and its result; the mutex makes each one a step of its own.
-- `time.Now()` is an argument. The map of leased tasks is an association list, whose order is the
-- order in which the `range` of `Dequeue` visits it.
pub mod Counts
pub mod Conservation
pub mod Exclusion
pub mod Calls
pub mod Blocking
pub mod Handover
pub mod Fairness
use fluxo.Common.{
  ℕ, zero, suc, ◌+◌, String, Bool, true, false, Option, none, some, List, [], ◌∷◌, ◌++◌, leb, ltb,
  ◌==◌, ◌==ₛ◌, is_blank, ◌||◌, if◌then◌else◌, lookup, insert, delete, length,
}
use fluxo.Api.{Value, Err, message, Result, value, error, Context, ctx_err}

-- A task type is a text in Go; `other` is one that the worker does not know.
pub data TaskType : Type 0 where
  start_workflow signal resume : TaskType
  other : String → TaskType

pub record Task : Type 0 where
  pub id : String
  pub type : TaskType
  pub workflow_name : String
  pub instance_id : String
  pub signal_name : String
  pub payload : Value
  pub enqueued_at : ℕ
  pub not_before : ℕ
  pub attempts : ℕ

-- encoding/gob, as `EncodeTask` and `DecodeTask` of codec.go use it.
pub record TaskCodec : Type 1 where
  pub blob : Type 0
  pub encode : Task → Result blob
  pub decode : blob → Result Task

pub record LeasedTask : Type 0 where
  pub task : Task
  pub owner : String
  pub expiry : ℕ

pub record InMemoryQueue : Type 0 where
  pub next_id : ℕ
  pub ready : List Task
  pub inflight : List (String × LeasedTask)

unfoldable pub new_queue : InMemoryQueue
new_queue = record { next_id = 0; ready = []; inflight = [] }

-- `NotBefore.IsZero() || !NotBefore.After(now)`.
abbrev pub is_runnable : ℕ → Task → Bool
is_runnable now t = t.not_before == 0 || leb t.not_before now

-- The loop that puts tasks whose lease ran out back behind the ready ones. Its list is the map
-- as it was when the loop began.
unfoldable pub requeue_expired : ℕ → List (String × LeasedTask) → InMemoryQueue → InMemoryQueue
requeue_expired now [] q = q
requeue_expired now ((id, lt) ∷ rest) q = requeue_expired now rest (
    if leb lt.expiry now
    then record q { inflight = delete id q.inflight; ready = q.ready ++ lt.task ∷ [] }
    else q)

-- The first runnable task and the slice without it.
unfoldable pub take_runnable : ℕ → List Task → Option (Task × List Task)
take_runnable now [] = none
take_runnable now (t ∷ ts) =
    if is_runnable now t
    then some (t, ts)
    else elim (take_runnable now ts) [ none ↦ none | some (u, us) ↦ some (u, t ∷ us) ]

-- One round of the loop of `Dequeue` under the mutex.
unfoldable pub poll : String → ℕ → ℕ → InMemoryQueue → InMemoryQueue × Option Task
unfolding requeue_expired
poll owner lease_ttl now q =
    let q' = requeue_expired now q.inflight q in
    elim (take_runnable now q'.ready) [
      | none ↦ (q', none)
      | some (t, rest) ↦ (
        record q' {
          ready = rest;
          inflight =
              insert t.id (record { task = t; owner = owner; expiry = now + lease_ttl })
                q'.inflight;
        },
        some t,
      )
    ]

-- `time.After(10 * time.Millisecond)`.
abbrev pub poll_interval : ℕ
poll_interval = 10000000

-- The loop of `Dequeue` on fuel, with the time at which it returns. `none` means that the fuel
-- ran out: the call still blocks. A context that ends during a wait is seen at the wait's end.
unfoldable pub dequeue_loop :
    ℕ → Context → String → ℕ → ℕ → InMemoryQueue → Option (InMemoryQueue × Result Task × ℕ)
dequeue_loop zero ctx owner lease_ttl now q = none
dequeue_loop (suc fuel) ctx owner lease_ttl now q = elim (ctx_err ctx now) [
  | some e ↦ some (q, error e, now)
  | none ↦
      let (q', found) = poll owner lease_ttl now q in
      elim found [
        | some t ↦ some (q', value t, now)
        | none ↦ dequeue_loop fuel ctx owner lease_ttl (now + poll_interval) q'
      ]
]

abbrev pub bad_ttl : Err
bad_ttl = message "leaseTTL must be > 0" []

abbrev pub not_inflight : Err
not_inflight = message "task not inflight" []

abbrev pub other_owner : Err
other_owner = message "task leased by another owner" []

unfoldable pub dequeue :
    ℕ → Context → String → ℕ → ℕ → InMemoryQueue → Option (InMemoryQueue × Result Task × ℕ)
dequeue fuel ctx owner lease_ttl now q =
    let polled = dequeue_loop fuel ctx owner lease_ttl now q in
    if lease_ttl == 0 then some (q, error bad_ttl, now) else polled

unfoldable pub renew_lease : String → String → ℕ → ℕ → InMemoryQueue → InMemoryQueue × Option Err
renew_lease id owner lease_ttl now q =
    if lease_ttl == 0 then (q, some bad_ttl) else elim (lookup id q.inflight) [
      | none ↦ (q, some not_inflight)
      | some lt ↦
          if lt.owner ==ₛ owner
          then (
            record q { inflight = insert id (record lt { expiry = now + lease_ttl }) q.inflight },
            none,
          )
          else (q, some other_owner)
    ]

unfoldable pub ack : String → String → InMemoryQueue → InMemoryQueue × Option Err
ack id owner q = elim (lookup id q.inflight) [
  | none ↦ (q, none)
  | some lt ↦
      if lt.owner ==ₛ owner
      then (record q { inflight = delete id q.inflight }, none)
      else (q, some other_owner)
]

unfoldable pub nack : String → String → ℕ → ℕ → InMemoryQueue → InMemoryQueue × Option Err
nack id owner not_before attempts q = elim (lookup id q.inflight) [
  | none ↦ (q, none)
  | some lt ↦
      if lt.owner ==ₛ owner
      then (
        record q {
          inflight = delete id q.inflight;
          ready =
              q.ready
              ++ (let t = lt.task in record t { not_before = not_before; attempts = attempts })
                ∷ [];
        },
        none,
      )
      else (q, some other_owner)
]

unfoldable pub len : InMemoryQueue → ℕ
len q = length q.ready + length q.inflight

-- `strconv.FormatInt(n, 10)` is Go's library.
module _ (format_int : ℕ → String) where
  unfoldable pub enqueue : Context → ℕ → Task → InMemoryQueue → InMemoryQueue × Option Err
  enqueue ctx now t q = elim (ctx_err ctx now) [
    | some e ↦ (q, some e)
    | none ↦
        if is_blank t.id
        then (
          record q {
            next_id = q.next_id + 1;
            ready = q.ready ++ record t { id = format_int (q.next_id + 1) } ∷ [];
          },
          none,
        )
        else (record q { ready = q.ready ++ t ∷ [] }, none)
  ]
