-- ===== src/Worker/Budget.antt =====
-- worker.go: how often a task that keeps failing is handled.
use fluxo.Common.{
  ℕ, ◌+◌, ◌-◌, ◌≤◌, ◌<◌, String, ◌≡◌, refl, arith, true, Option, none, some, List, [], ◌∷◌, ◌++◌,
  lookup, delete, str_self, ltb, Bool-cases, inl, inr,
}
use fluxo.Api.{Context, Err}
use fluxo.Queue.{InMemoryQueue, Task, LeasedTask, ack, nack}
use fluxo.Worker.{Host, Config, handle_err, ack_task}
use fluxo.Worker.Heartbeat.{IsLawful, IsLeased}

-- The attempts that a task has left.
abbrev pub attempts_left : Config → Task → ℕ
attempts_left cfg t = cfg.max_attempts - t.attempts

pub ready_budget : Config → List Task → ℕ
ready_budget cfg [] = 0
ready_budget cfg (t ∷ ts) = attempts_left cfg t + ready_budget cfg ts

pub leased_budget : Config → List (String × LeasedTask) → ℕ
leased_budget cfg [] = 0
leased_budget cfg ((id, lt) ∷ m) = attempts_left cfg lt.task + leased_budget cfg m

-- The attempts that the tasks of a queue have left, ready and leased ones together.
abbrev pub budget : Config → InMemoryQueue → ℕ
budget cfg q = ready_budget cfg q.ready + leased_budget cfg q.inflight

ready_budget-append :
    (cfg : Config) (t : Task) (ts : List Task)
    → ready_budget cfg (ts ++ t ∷ []) ≡ ready_budget cfg ts + attempts_left cfg t
unfolding ready_budget
ready_budget-append cfg t [] = omega arith
ready_budget-append cfg t (u ∷ ts) = omega (arith, ready_budget-append cfg t ts)

leased_budget-delete_le :
    (cfg : Config) (k : String) (m : List (String × LeasedTask))
    → leased_budget cfg (delete k m) ≤ leased_budget cfg m
unfolding leased_budget delete
leased_budget-delete_le cfg k [] = omega arith
leased_budget-delete_le cfg k ((j, x) ∷ m) = ground (arith, leased_budget-delete_le cfg k m)

leased_budget-delete :
    (cfg : Config) (k : String) (lt : LeasedTask) (m : List (String × LeasedTask))
    → lookup k m ≡ some lt
    → attempts_left cfg lt.task + leased_budget cfg (delete k m) ≤ leased_budget cfg m
unfolding leased_budget delete lookup
leased_budget-delete cfg k lt [] found = ground (arith, found)
leased_budget-delete cfg k lt ((j, x) ∷ m) found =
    ground (arith, found, leased_budget-delete_le cfg k m, leased_budget-delete cfg k lt m)

module _ {S : Type 0} (host : Host S) (lawful : IsLawful host) (cfg : Config) (ctx : Context)
    (task : Task) where
  -- What `handleErr` leaves of the queue.
  ack_task-budget :
      (until : ℕ) (s : S)
      → IsLeased (host.queue s) task cfg.worker_id until
      → attempts_left cfg task + budget cfg (host.queue (ack_task host cfg ctx task s).0)
        ≤ budget cfg (host.queue s)
  unfolding ack_task ack
  ack_task-budget until s leased =
      rw (leased, str_self cfg.worker_id, ack, ack_task, lawful.queue-set_queue)
        (omega (arith, leased_budget-delete cfg task.id _ (host.queue s).inflight leased))

  -- The task goes back to the ready ones with one attempt less.
  nack-budget :
      (nb until : ℕ) (q : InMemoryQueue)
      → IsLeased q task cfg.worker_id until
      → ltb (task.attempts + 1) cfg.max_attempts ≡ true
      → ((nack task.id cfg.worker_id nb (task.attempts + 1) q).1 ≡ none)
        × (budget cfg (nack task.id cfg.worker_id nb (task.attempts + 1) q).0 < budget cfg q)
  unfolding nack
  nack-budget nb until q leased more =
      let t : Task = record task { not_before = nb; attempts = task.attempts + 1 } in
      rw (leased, str_self cfg.worker_id, nack)
        (
          refl,
          rw (ready_budget-append cfg t q.ready)
              (ground (arith, more, leased_budget-delete cfg task.id _ q.inflight leased)),
        )

  -- On a host whose queue and clock are fields of their own, the worker settles a task that it
  -- holds the lease of, and that has an attempt left. However
  -- the handler ended, the attempts that the queue's tasks have left in all go down by one at
  -- least.
  pub handle_err-spends :
      (e : Option Err) (until : ℕ) (s : S)
      → IsLeased (host.queue s) task cfg.worker_id until
      → task.attempts < cfg.max_attempts
      → budget cfg (host.queue (handle_err host cfg ctx task e s).0) < budget cfg (host.queue s)
  unfolding handle_err
  handle_err-spends none until s leased left = omega (arith, ack_task-budget until s leased)
  handle_err-spends (some e) until s leased left =
      elim (Bool-cases (ltb (task.attempts + 1) cfg.max_attempts)) [
        | inl more ↦
            let (released, fewer) =
              nack-budget (host.clock s + cfg.backoff) until (host.queue s) leased more in
            rw (more, released, handle_err, lawful.queue-set_queue) fewer
        | inr no_more ↦ rw (no_more, handle_err) (omega (arith, ack_task-budget until s leased))
      ]
