-- ===== src/Worker/Heartbeat.antt =====
-- worker.go: `startHeartbeat` keeps the task's lease alive while the engine works.
use fluxo.Common.{
  ℕ, suc, ◌+◌, ◌*◌, ◌≤◌, ◌<◌, ◌⊎◌, All, All-mono, List, [], ◌∷◌, length, inl, inr, String, Bool,
  Option, none, Option-cases, eq_iff, ◌==ₛ◌, ◌≡◌, ◌≢◌, refl, arith, false, some, lookup,
  lookup-insert_self, str_self, ◌==◌,
}
use fluxo.Queue.{InMemoryQueue, Task, LeasedTask, renew_lease, poll}
use fluxo.Queue.Conservation.{IsValid}
use fluxo.Queue.Exclusion.{poll-leased}
use fluxo.Queue.Calls.{
  QueueCall, enqueues, polls, renews, acks, nacks, queue_call, queue_calls, IsOrderly, AllFresh,
  queue_call-IsOrderly,
}
use fluxo.Queue.Handover.{Spares, queue_calls-leased}
use fluxo.Worker.{Host, Config, with_defaults, heartbeat_interval, Beat, beats}

-- With a lease of two nanoseconds at least, or the default one, the ticker of a worker has an
-- interval that is not zero, and two ticks fit into a lease.
pub heartbeat_interval-bounds :
    (fresh : String) (cfg : Config)
    → cfg.lease_ttl ≢ 1
    → let c = with_defaults fresh cfg in
      (0 < heartbeat_interval c) × (heartbeat_interval c * 2 ≤ c.lease_ttl)
unfolding with_defaults heartbeat_interval
heartbeat_interval-bounds fresh cfg long = (ground arith, ground arith)

-- The host's queue is a field: what is stored is read back, and the clock is another field.
pub record IsLawful {S : Type 0} (host : Host S) : Type 0 where
  pub queue-set_queue : (q : InMemoryQueue) (s : S) → host.queue (host.set_queue q s) ≡ q
  pub clock-set_queue : (q : InMemoryQueue) (s : S) → host.clock (host.set_queue q s) ≡ host.clock s

-- `owner` holds the lease of `task` up to `until`.
abbrev pub IsLeased : InMemoryQueue → Task → String → ℕ → Type 0
IsLeased q task owner until =
    lookup task.id q.inflight ≡ some (record { task = task; owner = owner; expiry = until })

renew_lease-IsLeased :
    (q : InMemoryQueue) (task : Task) (owner : String) (until ttl now : ℕ)
    → 0 < ttl
    → IsLeased q task owner until
    → IsLeased (renew_lease task.id owner ttl now q).0 task owner (now + ttl)
unfolding renew_lease
renew_lease-IsLeased q task owner until ttl now positive leased =
    let long : (ttl == 0) ≡ false = ground arith in
    rw (long, leased, str_self owner, renew_lease)
      (lookup-insert_self {V = LeasedTask} task.id _ q.inflight)

-- A call that another client makes before the time `before`: no call of `owner` on the task `id`.
abbrev pub IsForeign : String → String → ℕ → QueueCall → Type 0
IsForeign id owner before (enqueues now t) = Unit {0}
IsForeign id owner before (polls now other ttl) = now < before
IsForeign id owner before (renews now j other ttl) = (j ≢ id) ⊎ (owner ≢ other)
IsForeign id owner before (acks now j other) = (j ≢ id) ⊎ (owner ≢ other)
IsForeign id owner before (nacks now j other not_before attempts) = (j ≢ id) ⊎ (owner ≢ other)

mul_suc : (k i : ℕ) → suc k * i ≡ k * i + i
mul_suc k i = grind arith

-- Such a call spares a lease of `owner` that runs up to `before` at least.
IsForeign-Spares :
    (lt : LeasedTask) (id : String) (before : ℕ) (c : QueueCall)
    → before ≤ lt.expiry
    → IsForeign id lt.owner before c
    → Spares id lt c
IsForeign-Spares lt id before (enqueues now t) runs h = tt
IsForeign-Spares lt id before (polls now other ttl) runs h = omega (arith, h)
IsForeign-Spares lt id before (renews now j other ttl) runs h = h
IsForeign-Spares lt id before (acks now j other) runs h = h
IsForeign-Spares lt id before (nacks now j other not_before attempts) runs h = h

module _ (format_int : ℕ → String) (cfg : Config) (task : Task) where
  -- The others poll before the next tick, which is at most an interval late, and put in no id that
  -- stands in the queue or that it is yet to give out.
  abbrev pub IsTimely : ℕ → ℕ → List Beat → InMemoryQueue → Type 0
  IsTimely k start [] q = Unit {0}
  IsTimely k start (b ∷ bs) q =
      let tick = start + suc k * heartbeat_interval cfg + b.late in
      (b.late ≤ heartbeat_interval cfg)
      × AllFresh format_int b.calls q
      × All (IsForeign task.id cfg.worker_id tick) b.calls
      × IsTimely (suc k) start bs
          (renew_lease task.id cfg.worker_id cfg.lease_ttl tick
            (queue_calls format_int b.calls q)).0

  module _ (injective : (m n : ℕ) → format_int m ≡ format_int n → m ≡ n)
      (positive : 0 < cfg.lease_ttl) (fits : heartbeat_interval cfg * 2 ≤ cfg.lease_ttl) where
    ticks-IsLeased :
        (bs : List Beat) (k start until : ℕ) (q : InMemoryQueue)
        → IsOrderly format_int q
        → IsTimely k start bs q
        → start + k * heartbeat_interval cfg + cfg.lease_ttl ≤ until
        → IsLeased q task cfg.worker_id until
        → let q' = beats format_int cfg task k start bs q in
          IsOrderly format_int q'
          × (until' : ℕ) × IsLeased q' task cfg.worker_id until'
          × (start + (k + length bs) * heartbeat_interval cfg + cfg.lease_ttl ≤ until')
    unfolding beats queue_call
    ticks-IsLeased [] k start until q o timely long leased =
        let all : k + 0 ≡ k = omega arith in (o, until, leased, rw all long)
    ticks-IsLeased (b ∷ bs) k start until q o (late, fresh, foreign, timely) long leased =
        let i : ℕ = heartbeat_interval cfg in
        let tick : ℕ = start + suc k * i + b.late in
        let lt : LeasedTask = record { task = task; owner = cfg.worker_id; expiry = until } in
        let (o', leased') =
          queue_calls-leased format_int task.id lt injective b.calls q o fresh
            (All-mono (IsForeign task.id cfg.worker_id tick) (Spares task.id lt) b.calls
              (λ c h.
                IsForeign-Spares lt task.id tick c
                  (ground (arith, fits, late, long, mul_suc k (heartbeat_interval cfg))) h)
              foreign)
            leased in
        let q1 = queue_calls format_int b.calls q in
        let renewed =
          renew_lease-IsLeased q1 task cfg.worker_id until cfg.lease_ttl tick positive leased' in
        let o'' =
          queue_call-IsOrderly format_int injective
            (renews tick task.id cfg.worker_id cfg.lease_ttl) q1 tt o' in
        let (o3, until', held, later) =
          ticks-IsLeased bs (suc k) start (tick + cfg.lease_ttl) _ o'' timely (omega arith)
            renewed in
        let one_more : k + suc (length bs) ≡ suc k + length bs = omega arith in
        (o3, until', held, rw one_more later)

-- The task that a poll got is `id`.
abbrev pub is_got : String → Option Task → Bool
is_got id none = false
is_got id (some t) = t.id ==ₛ id

poll-foreign :
    (owner : String) (ttl now : ℕ) (q : InMemoryQueue) (v : IsValid q) (id : String)
    (lt : LeasedTask)
    → lookup id q.inflight ≡ some lt
    → now < lt.expiry
    → is_got id (poll owner ttl now q).1 ≡ false
poll-foreign owner ttl now q v id lt leased live = elim (Option-cases (poll owner ttl now q).1) [
  | inl e ↦ rw e refl
  | inr (t, e) ↦
      let other = (poll-leased owner ttl now q v id lt leased live).1 t e in
      ground (arith, e, other, eq_iff t.id id)
]

-- Where numbers are written down one-to-one, for a worker with any settings but a lease of one
-- nanosecond, on an orderly queue in which its task is freshly leased to it when the engine's call
-- begins: whatever others do on the queue between the ticks of the heartbeat - poll, put in tasks
-- whose ids do not stand in it and are not among those that it is yet to give out, renew, acknowledge
-- and give back other tasks or for other owners - and even if each tick comes up to a whole interval late, the worker holds the lease after any
-- number of ticks for two further intervals at least, and no poll in that time gets the task. The
-- interval is not zero.
pub beats-IsLeased :
    (format_int : ℕ → String) (fresh : String) (settings : Config) (task : Task) (bs : List Beat)
    (start : ℕ) (q : InMemoryQueue) (other : String) (ttl now : ℕ)
    → ((m n : ℕ) → format_int m ≡ format_int n → m ≡ n)
    → settings.lease_ttl ≢ 1
    → IsOrderly format_int q
    → IsTimely format_int (with_defaults fresh settings) task 0 start bs q
    → let cfg = with_defaults fresh settings in
      let i = heartbeat_interval cfg in
      let q' = beats format_int cfg task 0 start bs q in
      IsLeased q task cfg.worker_id (start + cfg.lease_ttl)
      → now < start + length bs * i + i + i
      → (0 < i)
        × ((until : ℕ) × IsLeased q' task cfg.worker_id until
            × (start + length bs * i + i + i ≤ until))
        × (is_got task.id (poll other ttl now q').1 ≡ false)
beats-IsLeased format_int fresh settings task bs start q other ttl now injective long o timely
      leased before =
    let cfg : Config = with_defaults fresh settings in
    let i : ℕ = heartbeat_interval cfg in
    let (some_time, fits) = heartbeat_interval-bounds fresh settings long in
    let begun : start + 0 * i + cfg.lease_ttl ≡ start + cfg.lease_ttl = omega arith in
    let first : start + 0 * i + cfg.lease_ttl ≤ start + cfg.lease_ttl = rw begun (omega arith) in
    let none_yet : 0 + length bs ≡ length bs = omega arith in
    let (o', until, held, runs) =
      ticks-IsLeased format_int cfg task injective (omega (arith, some_time, fits)) fits bs 0 start
        (start + cfg.lease_ttl) q o timely first leased in
    let lasts : start + length bs * i + i + i ≤ until = omega (arith, rw none_yet at runs, fits) in
    (
      some_time,
      (until, held, lasts),
      poll-foreign other ttl now _ o'.valid task.id
          (record { task = task; owner = cfg.worker_id; expiry = until }) held
          (omega (arith, before, lasts)),
    )
