-- ===== src/Agents/Model.antt =====
-- Agents: agentctl/src/manifest.rs, agentctl/src/sandbox/mod.rs and agentctl/src/control_plane/resource.rs.
-- Of a manifest's fields those are here that sessions and the stores read; an id is the number that its
-- UUID is, and a time the number of its Unix seconds.
use digdir_agents.Base.{
  str_eq, codes, if◌then◌else◌, Str, Result, err, ok, ℕ, String, Bool, true, false, ◌&&◌, Option,
  none, some, List, [], ◌∷◌, map,
}
use digdir_agents.Agents.Harness.{Harness, same_harness, HarnessAuthMode, ModelSelection}
use digdir_agents.Agents.Errors.{Error, agent_stopped}
use digdir_agents.Agents.Logins.{LoginSet}
use digdir_agents.Agents.Manifest.{
  SandboxManifestSpec, HomeSpec, InstructionsSpec, SkillSpec, EnvironmentSpec, SecretSpec,
  AccessSpec, NetworkSpec,
}

pub data RunState : Type 0 where
  running stopped : RunState

pub record HarnessSpec : Type 0 where
  pub kind : Harness
  pub version : Option Str
  pub login : LoginSet
  pub auth : HarnessAuthMode
  pub optional : Bool
  pub default : Bool
  pub defaults : ModelSelection

pub record Spec : Type 0 where
  pub run_state : Option RunState
  pub sandbox : SandboxManifestSpec
  pub home : HomeSpec
  pub instructions : List InstructionsSpec
  pub skills : List SkillSpec
  pub harnesses : List HarnessSpec
  pub environment : List EnvironmentSpec
  pub secrets : List SecretSpec
  pub access : List AccessSpec
  pub network : NetworkSpec

abbrev pub is_stop : Option RunState → Bool
is_stop (some RunState.stopped) = true
is_stop (some RunState.running) = false
is_stop none = false

-- `Spec::is_stopped`, with `run_state`, whose default is Running.
unfoldable pub spec_is_stopped : Spec → Bool
spec_is_stopped spec = is_stop spec.run_state

abbrev pub find_first {ℓ} : {A : Type ℓ} → (A → Bool) → List A → Option A
find_first p [] = none
find_first p (x ∷ xs) = let rest = find_first p xs in if p x then some x else rest

-- `Spec::harness`.
unfoldable pub spec_harness : Harness → Spec → Option HarnessSpec
spec_harness kind spec = find_first (λ h. same_harness h.kind kind) spec.harnesses

abbrev pub the_default : List HarnessSpec → Option HarnessSpec
the_default (only ∷ []) = some only
the_default [] = none
the_default (a ∷ b ∷ rest) = find_first (λ h. h.default) (a ∷ b ∷ rest)

-- `Spec::default_harness`.
unfoldable pub default_harness : Spec → Option HarnessSpec
default_harness spec = the_default spec.harnesses

pub data Assignment : Type 0 where
  selected : (provider : ℕ) → Assignment
  materialized : (provider id : ℕ) (harnesses : List Harness) → Assignment

-- `Assignment::installed_harnesses`.
unfoldable pub installed_harnesses : Assignment → Option (List Harness)
installed_harnesses (selected provider) = none
installed_harnesses (materialized provider id harnesses) = some harnesses

pub data ConditionStatus : Type 0 where
  holds fails is_unknown : ConditionStatus

pub record Condition : Type 0 where
  pub kind : String
  pub status : ConditionStatus
  pub reason : String
  pub message : String
  pub last_transition_time : Option ℕ

abbrev pub same_status : ConditionStatus → ConditionStatus → Bool
same_status holds holds = true
same_status fails fails = true
same_status is_unknown is_unknown = true
same_status _ _ = false

pub data FailureKind : Type 0 where
  invalid_failure transient_failure : FailureKind

-- `Status`, without the progress and the provenance that stores scrub.
pub record AgentStatus : Type 0 where
  pub observed_generation : ℕ
  pub observed_restart_timestamp : Option ℕ
  pub sandbox : Option Assignment
  pub conditions : List Condition
  pub failure : Option FailureKind

abbrev pub no_status : AgentStatus
no_status = record {
  observed_generation = 0;
  observed_restart_timestamp = none;
  sandbox = none;
  conditions = [];
  failure = none;
}

-- `Condition::find_ready`, and `Status::ready_condition`.
unfoldable pub find_ready : List Condition → Option Condition
find_ready = find_first (λ c. str_eq c.kind "Ready")

abbrev is_true : Option Condition → Bool
is_true none = false
is_true (some c) = same_status c.status holds

-- `Status::is_ready`, with `Condition::any_ready`.
unfoldable pub is_ready : AgentStatus → Bool
is_ready status = is_true (find_ready status.conditions)

abbrev is_stopped_reason : Option Condition → Bool
is_stopped_reason none = false
is_stopped_reason (some c) = str_eq c.reason "Stopped"

-- `Status::is_stopped`.
unfoldable pub status_is_stopped : AgentStatus → Bool
status_is_stopped status = is_stopped_reason (find_ready status.conditions)

abbrev same_state : Condition → Condition → Bool
same_state earlier c = same_status earlier.status c.status && str_eq earlier.reason c.reason

abbrev pub transition_time : Option Condition → Condition → ℕ → Option ℕ
transition_time none c now = some now
transition_time (some earlier) c now =
    if same_state earlier c then earlier.last_transition_time else some now

-- `Status::stamp_transitions`.
unfoldable pub stamp_condition : List Condition → ℕ → Condition → Condition
stamp_condition previous now c = record c {
  last_transition_time =
      transition_time (find_first (λ earlier. str_eq earlier.kind c.kind) previous) c now;
}

unfoldable pub stamp_transitions : AgentStatus → ℕ → AgentStatus → AgentStatus
stamp_transitions previous now status = record status {
  conditions = map (λ c. stamp_condition previous.conditions now c) status.conditions;
}

pub record Metadata : Type 0 where
  pub name : Str
  pub generation : ℕ
  pub deletion_timestamp : Option ℕ
  pub restart_timestamp : Option ℕ

pub record Agent : Type 0 where
  pub api_version : Str
  pub kind : Str
  pub metadata : Metadata
  pub spec : Spec
  pub status : AgentStatus

pub record AgentRecord : Type 0 where
  pub id : ℕ
  pub source_directory : Str
  pub agent : Agent

abbrev pub is_some {ℓ} : {A : Type ℓ} → Option A → Bool
is_some (some _) = true
is_some none = false

-- `Condition::detail`.
abbrev pub condition_detail : Condition → Str
condition_detail c = codes (if str_eq c.message "" then c.reason else c.message)

-- `AgentRecord::reject_stopped`.
unfoldable pub reject_stopped : AgentRecord → Result Error (Unit {0})
reject_stopped r =
    if spec_is_stopped r.agent.spec then err (agent_stopped r.agent.metadata.name) else ok tt
