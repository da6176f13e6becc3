-- ===== src/Redis.antt =====
-- redis/internal/taskqueue/redis_queue.go: `RedisQueue`, on two sorted sets and three hashes.
--
-- Redis makes each script, and each command outside of one, a step of its own. A sorted set is an
-- association list from the member to its score, a hash one from the field to its value.
-- `time.Now()` is an argument. Gob writes no empty text, and neither does the drawing of an id.
pub mod Moves
pub mod Validity
pub mod Sets
pub mod Holding
pub mod Exclusion
use fluxo.Common.{
  ℕ, zero, suc, ◌+◌, ◌*◌, ◌/◌, String, Bool, Option, none, some, List, [], ◌∷◌, leb, ltb, ◌==◌,
  ◌==ₛ◌, is_blank, ◌&&◌, ◌||◌, if◌then◌else◌, lookup, insert, delete, length,
}
use fluxo.Api.{Err, Result, value, error, Context, ctx_err}
use fluxo.Queue.{Task, TaskCodec, bad_ttl, other_owner}

abbrev pub Scores : Type 0
Scores = List (String × ℕ)

-- The keys `tasks:ready`, `tasks:inflight`, `tasks:payload`, `tasks:notbefore` and `tasks:owner`.
pub record Keys (blob : Type 0) : Type 0 where
  pub ready : Scores
  pub inflight : Scores
  pub payload : List (String × blob)
  pub not_before : Scores
  pub owner : List (String × String)

-- What redisAckLua and redisNackLua answer: 1, or 0 where another owner holds the task.
pub data Answer : Type 0 where
  granted denied : Answer

-- `50 * time.Millisecond`.
abbrev pub poll_interval : ℕ
poll_interval = 50000000

abbrev pub answer_err : Answer → Option Err
answer_err granted = none
answer_err denied = some other_owner

-- Errors of `ZCard` are dropped, with the count.
abbrev pub count_of : Option Err → Scores → ℕ
count_of (some e) scores = 0
count_of none scores = length scores

-- A score is a float64, and so is a number of Lua: `round n` is the one for the number `n`.
-- Members of one score come in the order of their bytes, `precedes`.
module _ (round : ℕ → ℕ) (precedes : String → String → Bool) where
  abbrev pub comes_before : String × ℕ → String × ℕ → Bool
  comes_before (i, n) (j, m) = ltb n m || (n == m && precedes i j)

  abbrev pub least_of : String × ℕ → Option (String × ℕ) → String × ℕ
  least_of e none = e
  least_of e (some e') = if comes_before e' e then e' else e

  -- `ZRANGEBYSCORE key -inf now LIMIT 0 1`.
  unfoldable pub first_due : ℕ → Scores → Option (String × ℕ)
  first_due now [] = none
  first_due now ((id, score) ∷ rest) =
      let later = first_due now rest in
      if leb score now then some (least_of (id, score) later) else later

  -- `ZRANGEBYSCORE key -inf now LIMIT 0 n`: the first one, and the first ones of the rest.
  unfoldable pub due : ℕ → ℕ → Scores → List String
  unfolding first_due
  due zero now scores = []
  due (suc n) now scores =
      let more : String → List String = λ id. due n now (delete id scores) in
      elim (first_due now scores) [ none ↦ [] | some (id, score) ↦ id ∷ more id ]

  module _ {blob : Type 0} where
    -- The loop of redisDequeueLua over the expired ids.
    unfoldable pub requeue : ℕ → List String → Keys blob → Keys blob
    requeue now [] q = q
    requeue now (id ∷ ids) q =
        let score : ℕ = elim (lookup id q.not_before) [
          | none ↦ now
          | some not_before ↦ round not_before
        ] in
        requeue now ids (record q {
          ready = insert id score q.ready;
          inflight = delete id q.inflight;
          owner = delete id q.owner;
        })

    -- redisDequeueLua: the id that it claims, and its payload.
    unfoldable pub dequeue_script :
        ℕ → ℕ → String → Keys blob → Keys blob × Option (String × Option blob)
    unfolding due requeue
    dequeue_script now lease_ms owner q =
        let q' = requeue (round now) (due 100 (round now) q.inflight) q in
        elim (first_due (round now) q'.ready) [
          | none ↦ (q', none)
          | some (id, score) ↦ (
            record q' {
              ready = delete id q'.ready;
              inflight = insert id (round (round now + lease_ms * 1000000)) q'.inflight;
              owner = insert id owner q'.owner;
            },
            some (id, lookup id q'.payload),
          )
        ]

    unfoldable pub ack_script : String → String → Keys blob → Keys blob × Answer
    ack_script id owner q = elim (lookup id q.owner) [
      | none ↦ (q, granted)
      | some cur ↦
          if cur ==ₛ owner
          then (
            record q {
              inflight = delete id q.inflight;
              payload = delete id q.payload;
              not_before = delete id q.not_before;
              owner = delete id q.owner;
            },
            granted,
          )
          else (q, denied)
    ]

    unfoldable pub nack_script : String → String → ℕ → Keys blob → Keys blob × Answer
    nack_script id owner not_before q = elim (lookup id q.owner) [
      | none ↦ (q, granted)
      | some cur ↦
          if cur ==ₛ owner
          then (
            record q {
              ready = insert id (round not_before) q.ready;
              inflight = delete id q.inflight;
              not_before = insert id (round not_before) q.not_before;
              owner = delete id q.owner;
            },
            granted,
          )
          else (q, denied)
    ]

    unfoldable pub renew_script : String → String → ℕ → Keys blob → Keys blob × Answer
    renew_script id owner expiry q = elim (lookup id q.owner) [
      | none ↦ (q, denied)
      | some cur ↦
          if cur ==ₛ owner
          then (record q { inflight = insert id (round expiry) q.inflight }, granted)
          else (q, denied)
    ]

    -- `HSet(payloadKey, id, data)`.
    abbrev pub write_payload : String → blob → Keys blob → Keys blob
    write_payload id bytes q = record q { payload = insert id bytes q.payload }

    -- The transaction of `Enqueue`.
    abbrev pub put : String → blob → ℕ → Keys blob → Keys blob
    put id bytes not_before q = record q {
      ready = insert id (round not_before) q.ready;
      payload = insert id bytes q.payload;
      not_before = insert id not_before q.not_before;
    }

    -- A command or a script fails with an error of the client and has not run.
    unfoldable pub renew_lease :
        Option Err → String → String → ℕ → ℕ → Keys blob → Keys blob × Option Err
    unfolding renew_script
    renew_lease (some e) id owner lease_ttl now q = (q, some e)
    renew_lease none id owner lease_ttl now q =
        let (q', answer) = renew_script id owner (now + lease_ttl) q in (q', answer_err answer)

    unfoldable pub ack : Option Err → String → String → Keys blob → Keys blob × Option Err
    unfolding ack_script
    ack (some e) id owner q = (q, some e)
    ack none id owner q = let (q', answer) = ack_script id owner q in (q', answer_err answer)

    unfoldable pub len : Option Err → Option Err → Keys blob → ℕ
    len fault fault' q = count_of fault q.ready + count_of fault' q.inflight

  module _ (c : TaskCodec) where
    -- `drawn` is what `rand.Read` and `hex.EncodeToString` give.
    abbrev pub id_of : Result String → Task → Result String
    id_of drawn t = if is_blank t.id then drawn else value t.id

    abbrev pub not_before_of : ℕ → Task → ℕ
    not_before_of now t = if t.not_before == 0 then now else t.not_before

    unfoldable pub enqueue :
        Option Err → Result String → ℕ → Task → Keys c.blob → Keys c.blob × Option Err
    enqueue fault drawn now t q = elim (id_of drawn t) [
      | error e ↦ (q, some e)
      | value id ↦ elim (c.encode (record t { id = id })) [
        | error e ↦ (q, some e)
        | value bytes ↦ elim fault [
          | some e ↦ (q, some e)
          | none ↦ (put id bytes (not_before_of now t) q, none)
        ]
      ]
    ]

    -- The payload that `Nack` reads and writes again, before the script looks at the owner: none
    -- where it is gone.
    unfoldable pub rewritten : String → ℕ → ℕ → Keys c.blob → Result (Option c.blob)
    rewritten id not_before attempts q = elim (lookup id q.payload) [
      | none ↦ value none
      | some bytes ↦ elim (c.decode bytes) [
        | error e ↦ error e
        | value t ↦
            elim (c.encode (record t { id = id; attempts = attempts; not_before = not_before })) [
              | error e ↦ error e
              | value bytes' ↦ value (some bytes')
            ]
      ]
    ]

    -- `Nack` where no other client comes between its commands. `read`, `write` and `script` are the
    -- errors of the three.
    unfoldable pub nack :
        Option Err
        → Option Err
        → Option Err
        → String
        → String
        → ℕ
        → ℕ
        → Keys c.blob
        → Keys c.blob × Option Err
    unfolding rewritten nack_script
    nack (some e) write script id owner not_before attempts q = (q, some e)
    nack none write script id owner not_before attempts q =
        elim (rewritten id not_before attempts q) [
          | error e ↦ (q, some e)
          | value none ↦ (q, none)
          | value (some bytes) ↦ elim write [
            | some e ↦ (q, some e)
            | none ↦
                let q1 = write_payload id bytes q in
                elim script [
                  | some e ↦ (q1, some e)
                  | none ↦
                      let (q2, answer) = nack_script id owner not_before q1 in
                      (q2, answer_err answer)
                ]
          ]
        ]

    -- The task that `Dequeue` returns for what the script answers: none where it polls again.
    abbrev pub received : Option (String × Option c.blob) → Option (Result Task)
    received none = none
    received (some (id, none)) = none
    received (some (id, some bytes)) =
        if is_blank id
        then none
        else some
            (elim (c.decode bytes) [ error e ↦ error e | value t ↦ value (record t { id = id }) ])

    -- The loop of `Dequeue` on fuel, with the time at which it returns. `none` means that the fuel
    -- ran out: the call still blocks. A context that ends during a wait is seen at the wait's end.
    unfoldable pub dequeue_loop :
        ℕ
        → (ℕ → Option Err)
        → Context
        → String
        → ℕ
        → ℕ
        → Keys c.blob
        → Option (Keys c.blob × Result Task × ℕ)
    unfolding dequeue_script
    dequeue_loop zero faults ctx owner lease_ttl now q = none
    dequeue_loop (suc fuel) faults ctx owner lease_ttl now q = elim (ctx_err ctx now) [
      | some e ↦ some (q, error e, now)
      | none ↦ elim (faults now) [
        | some e ↦ some (q, error e, now)
        | none ↦
            let (q', claimed) = dequeue_script now (lease_ttl / 1000000) owner q in
            elim (received claimed) [
              | some res ↦ some (q', res, now)
              | none ↦ dequeue_loop fuel faults ctx owner lease_ttl (now + poll_interval) q'
            ]
      ]
    ]

    unfoldable pub dequeue :
        ℕ
        → (ℕ → Option Err)
        → Context
        → String
        → ℕ
        → ℕ
        → Keys c.blob
        → Option (Keys c.blob × Result Task × ℕ)
    unfolding dequeue_loop
    dequeue fuel faults ctx owner lease_ttl now q =
        let polled = dequeue_loop fuel faults ctx owner lease_ttl now q in
        if lease_ttl == 0 then some (q, error bad_ttl, now) else polled
