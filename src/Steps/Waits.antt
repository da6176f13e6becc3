-- ===== src/Steps/Waits.antt =====
-- workflow.go: the steps that wait for a time or for a signal.
use fluxo.Common.{
  ℕ, ◌+◌, ◌-◌, String, ◌≡◌, refl, arith, Bool, true, false, ◌||◌, Option, none, some, List, [], ◌∷◌,
  leb, ltb, ◌==◌, ◌==ₛ◌, if◌then◌else◌, Option-cases, Bool-cases, inl, inr,
}
use fluxo.Api.{Value, signal_payload, Err, wait_for_signal, ok, fail, Context, ctx_err}
use fluxo.World.{World}
use fluxo.Steps.{StepFunc}

-- When a wait that begins at `now` ends because of the context.
abbrev cut_short : Context → ℕ → ℕ
cut_short ctx now = elim ctx.done_at [ none ↦ now | some t ↦ if ltb now t then t else now ]

-- `select` between the context's end and `time.After(d)`. Where both are ready Go takes either;
-- here the context's end wins.
abbrev wait : ℕ → StepFunc
wait d ctx input w = elim (ctx_err ctx (w.clock + d)) [
  | some e ↦ (record w { clock = cut_short ctx w.clock }, fail e)
  | none ↦ (record w { clock = w.clock + d }, ok input)
]

unfoldable pub sleep_step : ℕ → StepFunc
sleep_step d ctx input w = if d == 0 then (w, ok input) else wait d ctx input w

-- `deadline.After(now)`; no time passes between the two readings of the clock.
unfoldable pub sleep_until_step : ℕ → StepFunc
sleep_until_step deadline ctx input w =
    if leb deadline w.clock then (w, ok input) else wait (deadline - w.clock) ctx input w

-- `NewWaitForSignalError` and `NewWaitForAnySignalError`.
abbrev pub new_wait_for_signal_error : String → Err
new_wait_for_signal_error name = wait_for_signal name false

abbrev pub new_wait_for_any_signal_error : String → Err
new_wait_for_any_signal_error name = wait_for_signal name true

-- `input.(SignalPayload)`.
abbrev pub as_signal : Value → Option (String × Value)
as_signal (signal_payload name payload) = some (name, payload)
as_signal _ = none

unfoldable pub wait_for_signal_step : String → StepFunc
wait_for_signal_step name ctx input w = elim (as_signal input) [
  | some (n, payload) ↦
      if n ==ₛ name then (w, ok payload) else (w, fail (new_wait_for_signal_error name))
  | none ↦ (w, fail (new_wait_for_signal_error name))
]

-- The set `allowed`.
abbrev pub is_allowed : List String → String → Bool
is_allowed [] n = false
is_allowed (a ∷ rest) n = (a ==ₛ n) || is_allowed rest n

unfoldable pub wait_for_any_signal_step : List String → StepFunc
wait_for_any_signal_step [] ctx input w = (w, fail (new_wait_for_signal_error "unknown"))
wait_for_any_signal_step (primary ∷ names) ctx input w = elim (as_signal input) [
  | some (n, payload) ↦
      if is_allowed (primary ∷ names) n
      then (w, ok (signal_payload n payload))
      else (w, fail (new_wait_for_any_signal_error primary))
  | none ↦ (w, fail (new_wait_for_any_signal_error primary))
]

-- To sleep until a deadline is to sleep for the time that is left to it.
pub sleep_until_step-sleep_step :
    (deadline : ℕ) (ctx : Context) (input : Value) (w : World)
    → sleep_until_step deadline ctx input w ≡ sleep_step (deadline - w.clock) ctx input w
unfolding sleep_until_step sleep_step
sleep_until_step-sleep_step deadline ctx input w = elim (Bool-cases (leb deadline w.clock)) [
  | inl over ↦
      let none_left : deadline - w.clock ≡ 0 = ground (arith, over) in rw (over, none_left) refl
  | inr later ↦
      let some_left : ((deadline - w.clock) == 0) ≡ false = ground (arith, later) in
      rw (later, some_left) refl
]

-- A sleep that begins before its context ends and returns a value returns its input, at the very
-- end of its time, and the context has not ended by then.
pub sleep_step-elapsed :
    (d : ℕ) (ctx : Context) (input v : Value) (w : World)
    → ctx_err ctx w.clock ≡ none
    → (sleep_step d ctx input w).1 ≡ ok v
    → (v ≡ input)
      × ((sleep_step d ctx input w).0.clock ≡ w.clock + d)
      × (ctx_err ctx (w.clock + d) ≡ none)
unfolding sleep_step
sleep_step-elapsed d ctx input v w live slept = elim (Bool-cases (d == 0)) [
  | inl at_once ↦ ground (arith, at_once)
  | inr later ↦ elim (Option-cases (ctx_err ctx (w.clock + d))) [
    | inl on_time ↦ ground (arith, later, on_time)
    | inr (e, ended) ↦ ground (arith, later, ended)
  ]
]
