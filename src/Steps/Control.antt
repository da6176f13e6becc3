-- ===== src/Steps/Control.antt =====
-- workflow.go: branches, loops and typed steps.
--
-- A `for` without a bound runs on fuel; `none` means that the fuel ran out.
use fluxo.Common.{
  ℕ, zero, suc, ◌+◌, ◌<◌, String, ◌≡◌, refl, sym, ap, ◌∙◌, arith, Bool, true, false, not, Option,
  none, some, List, [], ◌∷◌, is_blank, if◌then◌else◌, lookup, Bool-cases, inl, inr, ◌⊎◌,
}
use fluxo.Api.{Value, null, Err, message, Outcome, ok, fail, panic, Context}
use fluxo.World.{World}
use fluxo.Steps.{StepFunc}

-- A step that may be nil; a nil one passes its input through.
abbrev pub step_or_pass : Option StepFunc → StepFunc
step_or_pass none ctx input w = (w, ok input)
step_or_pass (some step) ctx input w = step ctx input w

unfoldable pub if_step : Option (Value → Bool) → Option StepFunc → Option StepFunc → StepFunc
if_step none then_step else_step ctx input w = (w, ok input)
if_step (some cond) then_step else_step ctx input w =
    if cond input then step_or_pass then_step ctx input w else step_or_pass else_step ctx input w

-- The branch of a key: a key that is blank, missing or nil has none.
abbrev branch_of : String → List (String × Option StepFunc) → Option StepFunc
branch_of key branches =
    if is_blank key then none else elim (lookup key branches) [ none ↦ none | some step ↦ step ]

unfoldable pub switch_step :
    Option (Value → String) → List (String × Option StepFunc) → Option StepFunc → StepFunc
switch_step none branches default_step ctx input w = step_or_pass default_step ctx input w
switch_step (some selector) branches default_step ctx input w =
    elim (branch_of (selector input) branches) [
      | some step ↦ step ctx input w
      | none ↦ step_or_pass default_step ctx input w
    ]

-- The `for` loop of `WhileStep`.
unfoldable pub while_loop :
    ℕ → (Value → Bool) → StepFunc → Context → Value → World → Option (World × Outcome)
while_loop zero cond body ctx current w = none
while_loop (suc fuel) cond body ctx current w =
    if not (cond current)
    then some (w, ok current)
    else (let (w1, out) = body ctx current w in
        elim out [
          | ok next ↦ while_loop fuel cond body ctx next w1
          | fail e ↦ some (w1, fail e)
          | panic ↦ some (w1, panic)
        ])

unfoldable pub while_step :
    ℕ → Option (Value → Bool) → Option StepFunc → Context → Value → World → Option (World × Outcome)
unfolding while_loop
while_step fuel none body ctx input w = some (w, ok input)
while_step fuel (some cond) none ctx input w = some (w, ok input)
while_step fuel (some cond) (some body) ctx input w = while_loop fuel cond body ctx input w

-- The `for` loop of `LoopStep`, on the rounds that are left.
unfoldable pub rounds : ℕ → StepFunc → StepFunc
rounds zero body ctx current w = (w, ok current)
rounds (suc left) body ctx current w =
    let (w1, out) = body ctx current w in
    elim out [
      | ok next ↦ rounds left body ctx next w1
      | fail e ↦ (w1, fail e)
      | panic ↦ (w1, panic)
    ]

unfoldable pub loop_step : ℕ → Option StepFunc → StepFunc
unfolding rounds
loop_step times none ctx input w = (w, ok input)
loop_step times (some body) ctx input w = rounds times body ctx input w

-- What a typed function returns: its value, an error, or a panic.
pub data Typed (O : Type 0) : Type 0 where
  typed_ok : O → Typed O
  typed_fail : Err → Typed O
  typed_panic : Typed O

-- `input.(T)` and `any(t)` for a type of the program, and its zero value.
pub record GoType (T : Type 0) : Type 0 where
  pub assert : Value → Option T
  pub box : T → Value
  pub zero_value : T

abbrev TypedFunc : Type 0 → Type 0 → Type 0
TypedFunc I O = Context → I → World → World × Typed O

-- The input as an `I`: nil is the zero value, and another type is an error of the step `who`.
abbrev unbox : {I : Type 0} → GoType I → Value → Option I
unbox t null = some t.zero_value
unbox t input = t.assert input

abbrev wrong_type : String → Err
wrong_type format = message format []

abbrev boxed : {O : Type 0} → GoType O → World × Typed O → World × Outcome
boxed t (w, typed_ok out) = (w, ok (t.box out))
boxed t (w, typed_fail e) = (w, fail e)
boxed t (w, typed_panic) = (w, panic)

-- The function on `any` that the three wrappers make of a typed one.
typed_body : {I O : Type 0} → String → GoType I → GoType O → TypedFunc I O → StepFunc
typed_body format ti to fn ctx input w = elim (unbox ti input) [
  | none ↦ (w, fail (wrong_type format))
  | some typed ↦ boxed to (fn ctx typed w)
]

unfoldable pub typed_step : {I O : Type 0} → GoType I → GoType O → TypedFunc I O → StepFunc
unfolding typed_body
typed_step ti to fn = typed_body "TypedStep: expected input of type %T, got %T" ti to fn

-- An input of another type ends the loop before its first round.
abbrev typed_cond : {I : Type 0} → GoType I → (I → Bool) → Value → Bool
typed_cond t cond input = elim (unbox t input) [ none ↦ false | some v ↦ cond v ]

unfoldable pub typed_while :
    {I : Type 0}
    → ℕ
    → GoType I
    → (I → Bool)
    → TypedFunc I I
    → Context
    → Value
    → World
    → Option (World × Outcome)
unfolding while_step typed_body
typed_while fuel t cond body =
    while_step fuel (some (typed_cond t cond))
      (some (typed_body "TypedWhile: expected input of type %T, got %T" t t body))

unfoldable pub typed_loop : {I : Type 0} → ℕ → GoType I → TypedFunc I I → StepFunc
unfolding loop_step typed_body
typed_loop times t body =
    loop_step times (some (typed_body "TypedLoop: expected input of type %T, got %T" t t body))

-- A step that follows another one, as `executeSteps` and the loops chain them.
abbrev pub and_then : StepFunc → World × Outcome → Context → World × Outcome
and_then step (w, ok v) ctx = step ctx v w
and_then step (w, fail e) ctx = (w, fail e)
and_then step (w, panic) ctx = (w, panic)

and_then_assoc :
    (first second : StepFunc) (x : World × Outcome) (ctx : Context)
    → and_then second (and_then first x ctx) ctx
      ≡ and_then (λ c v u. and_then second (first c v u) c) x ctx
and_then_assoc first second (w, ok v) ctx = refl
and_then_assoc first second (w, fail e) ctx = refl
and_then_assoc first second (w, panic) ctx = refl

and_then-ext :
    (f g : StepFunc) (x : World × Outcome) (ctx : Context)
    → ((v : Value) (u : World) → f ctx v u ≡ g ctx v u)
    → and_then f x ctx ≡ and_then g x ctx
and_then-ext f g (w, ok v) ctx same = same v w
and_then-ext f g (w, fail e) ctx same = refl
and_then-ext f g (w, panic) ctx same = refl

rounds-suc :
    (left : ℕ) (body : StepFunc) (ctx : Context) (x : World × Outcome)
    → and_then (rounds left body) x ctx ≡ elim x.1 [
      | ok next ↦ rounds left body ctx next x.0
      | fail e ↦ (x.0, fail e)
      | panic ↦ (x.0, panic)
    ]
rounds-suc left body ctx (w, ok v) = refl
rounds-suc left body ctx (w, fail e) = refl
rounds-suc left body ctx (w, panic) = refl

rounds-add :
    (m n : ℕ) (body : StepFunc) (ctx : Context) (v : Value) (w : World)
    → rounds (m + n) body ctx v w ≡ and_then (rounds n body) (rounds m body ctx v w) ctx
unfolding rounds
rounds-add zero n body ctx v w = let same : 0 + n ≡ n = omega arith in rw same refl
rounds-add (suc m) n body ctx v w =
    let one_more : suc m + n ≡ suc (m + n) = omega arith in
    rw one_more (
      sym (rounds-suc (m + n) body ctx (body ctx v w))
      ∙ and_then-ext (rounds (m + n) body)
          (λ c u x. and_then (rounds n body) (rounds m body c u x) c) (body ctx v w) ctx
          (rounds-add m n body ctx)
      ∙ sym (and_then_assoc (rounds m body) (rounds n body) (body ctx v w) ctx)
      ∙ ap (λ x. and_then (rounds n body) x ctx) (rounds-suc m body ctx (body ctx v w)))

-- A loop of `m + n` rounds is one of `m` rounds and, if no round failed, one of `n` rounds after it.
pub loop_step-add :
    (m n : ℕ) (body : Option StepFunc) (ctx : Context) (input : Value) (w : World)
    → loop_step (m + n) body ctx input w
      ≡ and_then (loop_step n body) (loop_step m body ctx input w) ctx
unfolding loop_step
loop_step-add m n none ctx input w = refl
loop_step-add m n (some body) ctx input w = rounds-add m n body ctx input w

-- An `IfStep` with a condition and two branches is a `SwitchStep` between two keys, one of them
-- with a branch and the other left to the default.
pub if_step-switch_step :
    (cond : Value → Bool) (then_step else_step : StepFunc) (ctx : Context) (input : Value)
    (w : World)
    → if_step (some cond) (some then_step) (some else_step) ctx input w
      ≡ switch_step
          (some (λ v. if cond v then "yes" else "no"))
          (("yes", some then_step) ∷ [])
          (some else_step)
          ctx
          input
          w
unfolding if_step switch_step lookup
if_step-switch_step cond then_step else_step ctx input w = elim (Bool-cases (cond input)) [
  | inl e ↦ rw (e, switch_step) refl
  | inr e ↦ rw (e, switch_step) refl
]

Outcome-cases :
    (out : Outcome) → ((v : Value) × (out ≡ ok v)) ⊎ (((e : Err) × (out ≡ fail e)) ⊎ (out ≡ panic))
Outcome-cases (ok v) = inl (v, refl)
Outcome-cases (fail e) = inr (inl (e, refl))
Outcome-cases panic = inr (inr refl)

-- A measure that every round which goes on takes down.
abbrev pub Descends : (Value → Bool) → StepFunc → Context → (Value → World → ℕ) → Type 0
Descends cond body ctx measure =
    (v next : Value) (w : World)
    → cond v ≡ true
    → (body ctx v w).1 ≡ ok next
    → measure next (body ctx v w).0 < measure v w

-- A loop that starts with a value in a world, round by round: it ends with the first value that the
-- condition does not hold for, in the world that the rounds have left; or with the failure or the
-- panic of the first round that does not go on.
pub data Ran (cond : Value → Bool) (body : StepFunc) (ctx : Context)
    : Value → World → World → Outcome → Type 0 where
  over : (v : Value) (w : World) → cond v ≡ false → Ran cond body ctx v w w (ok v)
  round :
      (v next : Value) (w w' : World) (out : Outcome)
      → cond v ≡ true
      → (body ctx v w).1 ≡ ok next
      → Ran cond body ctx next (body ctx v w).0 w' out
      → Ran cond body ctx v w w' out
  fails :
      (v : Value) (w : World) (e : Err)
      → cond v ≡ true
      → (body ctx v w).1 ≡ fail e
      → Ran cond body ctx v w (body ctx v w).0 (fail e)
  panics :
      (v : Value) (w : World)
      → cond v ≡ true
      → (body ctx v w).1 ≡ panic
      → Ran cond body ctx v w (body ctx v w).0 panic

-- What a loop returns, it has run to.
abbrev Settled :
    Option (World × Outcome) → (Value → Bool) → StepFunc → Context → Value → World → Type 0
Settled result cond body ctx v w =
    (w' : World) × (out : Outcome) × (result ≡ some (w', out)) × Ran cond body ctx v w w' out

while_loop-returns :
    (fuel : ℕ) (cond : Value → Bool) (body : StepFunc) (ctx : Context) (measure : Value → World → ℕ)
    (v : Value) (w : World)
    → Descends cond body ctx measure
    → measure v w < fuel
    → Settled (while_loop fuel cond body ctx v w) cond body ctx v w
unfolding while_loop
while_loop-returns zero cond body ctx measure v w descends enough = ground (arith, enough)
while_loop-returns (suc fuel) cond body ctx measure v w descends enough =
    elim (Bool-cases (cond v)) [
      | inr ends ↦ rw (ends, while_loop) (w, ok v, refl, over v w ends)
      | inl again ↦ elim (Outcome-cases (body ctx v w).1) [
        | inl (next, e) ↦
            let (w', out, same, rest) =
              while_loop-returns fuel cond body ctx measure next (body ctx v w).0 descends
                (ground (arith, descends v next w again e)) in
            (w', out, rw (again, e, while_loop) same, round v next w w' out again e rest)
        | inr (inl (err, e)) ↦
            ((body ctx v w).0, fail err, rw (again, e, while_loop) refl, fails v w err again e)
        | inr (inr e) ↦
            ((body ctx v w).0, panic, rw (again, e, while_loop) refl, panics v w again e)
      ]
    ]

-- A loop whose rounds take a measure down returns, on fuel that is above the measure; and what it
-- returns is where its rounds lead: the first value that the condition does not hold for, each
-- round having got the value and the world of the round before, or the failure or the panic of the
-- first round that has one.
pub while_step-returns :
    (fuel : ℕ) (cond : Value → Bool) (body : StepFunc) (ctx : Context) (measure : Value → World → ℕ)
    (input : Value) (w : World)
    → Descends cond body ctx measure
    → measure input w < fuel
    → (w' : World) × (out : Outcome) × (while_step fuel (some cond) (some body) ctx input w
        ≡ some (w', out))
      × Ran cond body ctx input w w' out
unfolding while_step
while_step-returns fuel cond body ctx measure input w descends enough =
    while_loop-returns fuel cond body ctx measure input w descends enough
