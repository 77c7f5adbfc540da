-- ===== src/Progress/State.antt =====
-- The state that an operation's events fold into, and its times: sandbox/core/src/progress/fold.rs.
use digdir_agents.Base.{leb, if◌then◌else◌, last?, ℕ, ◌-◌, ◌/◌, String, Option, none, List, []}
use digdir_agents.Progress.{Phase, StepId, Outcome, ProgressUnit}
use digdir_agents.Progress.Output.{OutputLog, empty_log}
use mathlib.Core.Option

-- `FINISHED_STEPS`.
abbrev pub finished_steps_limit : ℕ
finished_steps_limit = 64

pub record Measurement : Type 0 where
  pub unit : ProgressUnit
  pub completed : ℕ
  pub total : Option ℕ

pub data OperationStatus : Type 0 where
  running succeeded : OperationStatus
  failed_with : (detail : String) → OperationStatus

pub record FinishedStep : Type 0 where
  pub name : String
  pub outcome : Outcome
  pub elapsed_ms : ℕ
  pub measurement : Option Measurement
  pub output_sequence : ℕ

pub record FinishedPhase : Type 0 where
  pub phase : Phase
  pub outcome : Outcome
  pub elapsed_ms : ℕ
  pub steps : List FinishedStep
  pub omitted_steps : ℕ
  pub output_sequence : ℕ

pub record ActiveStep : Type 0 where
  pub id : StepId
  pub name : String
  pub started_at : ℕ
  pub measurement : Option Measurement
  pub unit : Option ProgressUnit

pub record ActivePhase : Type 0 where
  pub phase : Phase
  pub started_at : ℕ
  pub steps : List ActiveStep
  pub finished_steps : List FinishedStep
  pub omitted_steps : ℕ

pub record Progress : Type 0 where
  pub finished : List FinishedPhase
  pub current : Option ActivePhase
  pub output : OutputLog
  pub status : OperationStatus

-- `Progress::new`.
abbrev pub new : Progress
new = record { finished = []; current = none; output = empty_log; status = running }

abbrev pub u64_max : ℕ
u64_max = 18446744073709551615

-- `milliseconds`: a duration that is too long for a `u64` counts as the longest one.
unfoldable pub milliseconds : ℕ → ℕ
milliseconds elapsed = let ms = elapsed / 1000000 in if leb ms u64_max then ms else u64_max

-- `since`: a negative or too long difference counts as none.
unfoldable pub since : ℕ → ℕ → ℕ
since started_at now = let ms = (now - started_at) / 1000000 in if leb ms u64_max then ms else 0

-- `Progress::current_step`.
unfoldable pub current_step : Progress → Option ActiveStep
current_step p = Option.bind p.current (λ c. last? c.steps)
