-- ===== src/Progress.antt =====
-- The events of an operation's progress, sandbox/core/src/progress/mod.rs. Texts that no code here
-- looks into are `String`s. A step's id is the number that its UUID is, and an instant or a duration
-- is a number of nanoseconds.
pub mod Output
pub mod State
pub mod Steps
pub mod Fold
pub mod Cursor
pub mod Run
mod Tests
use digdir_agents.Base.{str_eq, ℕ, String, Bool, true, false, ◌&&◌, Option, List}

pub record Phase : Type 0 where
  pub id : String
  pub label : String

-- The derived `PartialEq` of `Phase`.
unfoldable pub phase_eq : Phase → Phase → Bool
phase_eq a b = str_eq a.id b.id && str_eq a.label b.label

pub data SandboxPhase : Type 0 where
  validate lookup feature_discovery image_resolve image_prepare : SandboxPhase
  sandbox_create sandbox_update network_start sandbox_start inspect : SandboxPhase

-- `SandboxPhase::phase`.
unfoldable pub phase_of : SandboxPhase → Phase
phase_of validate = record { id = "validate"; label = "Validate sandbox request" }
phase_of lookup = record { id = "lookup"; label = "Look up sandbox" }
phase_of feature_discovery = record {
  id = "featureDiscovery";
  label = "Discover sandbox capabilities";
}
phase_of image_resolve = record { id = "imageResolve"; label = "Resolve sandbox image" }
phase_of image_prepare = record { id = "imagePrepare"; label = "Prepare sandbox image" }
phase_of sandbox_create = record { id = "sandboxCreate"; label = "Create sandbox" }
phase_of sandbox_update = record { id = "sandboxUpdate"; label = "Update sandbox" }
phase_of network_start = record { id = "networkStart"; label = "Start sandbox network" }
phase_of sandbox_start = record { id = "sandboxStart"; label = "Start sandbox" }
phase_of inspect = record { id = "inspect"; label = "Inspect sandbox" }

abbrev pub StepId : Type 0
StepId = ℕ

pub data Outcome : Type 0 where
  completed reused failed : Outcome

pub data ProgressUnit : Type 0 where
  bytes items : ProgressUnit

pub data OutputStream : Type 0 where
  stdout stderr : OutputStream

abbrev pub stream_eq : OutputStream → OutputStream → Bool
stream_eq stdout stdout = true
stream_eq stderr stderr = true
stream_eq _ _ = false

pub data ProgressEvent : Type 0 where
  phase_started : (phase : Phase) → ProgressEvent
  phase_ended : (phase : Phase) (outcome : Outcome) (elapsed : ℕ) → ProgressEvent
  step_started :
      (id : StepId) (name : String) (unit : Option ProgressUnit) (total : Option ℕ) → ProgressEvent
  step_progress : (id : StepId) (completed : ℕ) (total : Option ℕ) → ProgressEvent
  step_output : (id : StepId) (stream : OutputStream) (bytes : List ℕ) → ProgressEvent
  step_ended : (id : StepId) (outcome : Outcome) (elapsed : ℕ) → ProgressEvent
