-- ===== src/Service/Effects.antt =====
-- The effects that sandbox/core/src/service.rs has: calls that change a component's world and may
-- fail, and the reports of the operation in progress.
use digdir_agents.Base.{Result, err, ok, map_err, String, Bool, true, false, List, ◌∷◌}
use digdir_agents.Progress.{SandboxPhase, Outcome}
use digdir_agents.Service.Errors.{Error, component}

-- A call: it changes the world, whether it fails or not.
abbrev pub Effect : Type 0 → Type 0 → Type 0
Effect W A = W → Result Error A × W

abbrev pub and_then : {W A B : Type 0} → Result Error A × W → (A → Effect W B) → Result Error B × W
and_then (err e, w) next = (err e, w)
and_then (ok a, w) next = next a w

infixl 5 ◌>>=◌ ◌>>◌
abbrev pub ◌>>=◌ : {W A B : Type 0} → Effect W A → (A → Effect W B) → Effect W B
call >>= next = λ w. and_then (call w) next

abbrev pub ◌>>◌ : {W B : Type 0} → Effect W (Unit {0}) → Effect W B → Effect W B
call >> next = call >>= λ _. next

-- A result that the world has no part in.
abbrev pub lift : {W A : Type 0} → Result Error A → Effect W A
lift r w = (r, w)

abbrev pub when_true : {W : Type 0} → Bool → Effect W (Unit {0}) → Effect W (Unit {0})
when_true true call = call
when_true false call = lift (ok tt)

-- The result of a call as a value, for a `match` on it.
abbrev pub attempt : {W A : Type 0} → Effect W A → Effect W (Result Error A)
attempt call w = let (r, w') = call w in (ok r, w')

-- `map_err` with `Error::component`.
abbrev pub in_component : {W A : Type 0} → String → Effect W A → Effect W A
in_component operation call w = let (r, w') = call w in (map_err (component operation) r, w')

-- What the service reports of its own phases and steps, without their times.
pub data Report : Type 0 where
  phase_began : (phase : SandboxPhase) → Report
  phase_over : (phase : SandboxPhase) (outcome : Outcome) → Report
  step_began step_completed : (name : String) → Report

-- The components' world, and the reports so far, the latest first.
pub record World (W : Type 0) : Type 0 where
  pub components : W
  pub reports : List Report

abbrev pub ask : {W A : Type 0} → Effect W A → Effect (World W) A
ask call w = let (r, c) = call w.components in (r, record w { components = c })

abbrev pub tell : {W : Type 0} → Report → Effect (World W) (Unit {0})
tell report w = (ok tt, record w { reports = report ∷ w.reports })
