-- ===== src/Steps.antt =====
-- pkg/api/workflow.go: the step functions that the library itself provides.
--
-- A `StepFunc` may read and change the world: it starts and inspects child workflows through the
-- engine, and it takes time. A function that may be nil is an `Option`. A condition or a selector
-- is a pure function, as its comment in the source demands.
pub mod Waits
pub mod Control
pub mod Children
pub mod Parallel
use fluxo.Common.{ℕ}
use fluxo.Api.{Value, Outcome, Context}
use fluxo.World.{World}

abbrev pub StepFunc : Type 0
StepFunc = Context → Value → World → World × Outcome
