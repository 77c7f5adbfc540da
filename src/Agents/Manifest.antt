-- ===== src/Agents/Manifest.antt =====
-- What a manifest declares: agentctl/src/manifest.rs, with the validity of its texts and what the harnesses
-- reserve: agentctl/src/harness/mod.rs, agentctl/src/harness/skills.rs and the adapters in
-- agentctl/src/harness/claude_code/mod.rs and agentctl/src/harness/codex/mod.rs. A text is the list of its
-- bytes, and a path its text, which is read as on Unix.
use digdir_agents.Base.{
  ◌==◌, codes, if◌then◌else◌, filter_by, last?, every, any, Str, same_text, list_is_empty, Result,
  ◌>>◌, ℕ, Bool, true, false, not, ◌&&◌, ◌||◌, Option, none, some, List, [], ◌∷◌, ◌++◌, map,
}
use digdir_agents.Text.Splits.{split_on}
use digdir_agents.Authorization.{strip_wildcard}
use digdir_agents.Service.Errors.{Platform, Error}
use digdir_agents.Service.Images.{ImageSource, validate_source}
use digdir_agents.Service.Request.{value_or, valid_name_from}
use digdir_agents.Service.Platform.{require, has_text, empty_when_present}
use digdir_agents.Agents.Harness.{Harness, claude_code, codex, pi}
use digdir_agents.Agents.Logins.{is_ascii_alphanumeric, filter_option}

pub record PlatformManifestSpec : Type 0 where
  pub os : Str
  pub architecture : Option Str
  pub variant : Option Str
  pub os_version : Option Str
  pub os_features : List Str

-- `PlatformManifestSpec::resolve`.
unfoldable pub resolve_platform : Str → PlatformManifestSpec → Platform
resolve_platform default_architecture p = record {
  os = p.os;
  architecture = value_or default_architecture p.architecture;
  variant = p.variant;
  os_version = p.os_version;
  os_features = p.os_features;
}

-- `PlatformManifestSpec::validate`.
unfoldable pub validate_platform_spec : PlatformManifestSpec → Result Error (Unit {0})
validate_platform_spec p = do
  require (not (list_is_empty p.os)) "platform.os" "must not be empty"
  require (not (empty_when_present p.architecture)) "platform.architecture"
      "must not be empty when present"
  require (not (empty_when_present p.variant)) "platform.variant" "must not be empty when present"
  require (not (empty_when_present p.os_version)) "platform.osVersion"
      "must not be empty when present"
  require (not (has_text [] p.os_features)) "platform.osFeatures" "must not contain an empty value"

pub data MountSpec : Type 0 where
  bind : (source target : Str) (read_only optional : Bool) → MountSpec
  tmpfs : (target : Str) (capacity : ℕ) → MountSpec

-- `MountSpec::target`.
unfoldable pub mount_target : MountSpec → Str
mount_target (bind source target read_only optional) = target
mount_target (tmpfs target capacity) = target

-- `SandboxManifestSpec`, without the resources, the init system and the retention policy.
pub record SandboxManifestSpec : Type 0 where
  pub image : ImageSource
  pub platform : PlatformManifestSpec
  pub mounts : List MountSpec

-- `SandboxManifestSpec::validate`.
unfoldable pub validate_sandbox_spec : SandboxManifestSpec → Result Error (Unit {0})
validate_sandbox_spec spec = do validate_source spec.image; validate_platform_spec spec.platform

pub record HomeSpec : Type 0 where
  pub source : Str

pub record InstructionsSpec : Type 0 where
  pub source : Str
  pub optional : Bool

pub record SkillSpec : Type 0 where
  pub source : Str
  pub name : Option Str
  pub optional : Bool

pub record EnvironmentSpec : Type 0 where
  pub name : Str
  pub source : Option Str

-- `EnvironmentSpec::source`.
unfoldable pub environment_source : EnvironmentSpec → Str
environment_source variable = value_or variable.name variable.source

pub record SecretSpec : Type 0 where
  pub environment : Str
  pub optional : Bool
  pub placeholder : Option Str
  pub allowed_hosts : List Str
  pub source : Option Str

-- `SecretSpec::source` and `SecretSpec::inert_value`.
unfoldable pub secret_source : SecretSpec → Str
secret_source secret = value_or secret.environment secret.source

unfoldable pub inert_value : SecretSpec → Str
inert_value secret = value_or (codes "$AGENT_SECRET_" ++ secret.environment) secret.placeholder

pub data AccessSpec : Type 0 where
  ssh vnc : AccessSpec

-- The derived `PartialEq`.
abbrev pub same_access : AccessSpec → AccessSpec → Bool
same_access ssh ssh = true
same_access vnc vnc = true
same_access _ _ = false

-- `NetworkSpec`, whose mode and baseline have one value each.
pub record NetworkSpec : Type 0 where
  pub deny : List Str

-- `Path::file_name`, as on Unix: the components are the parts that are neither empty nor a single dot, and
-- the last one is the name, unless it is two dots.
abbrev pub is_component : Str → Bool
is_component part = not (list_is_empty part) && not (same_text part (codes "."))

abbrev pub unless_parent : Option Str → Option Str
unless_parent none = none
unless_parent (some part) = if same_text part (codes "..") then none else some part

unfoldable pub file_name : Str → Option Str
file_name path = unless_parent (last? (filter_by is_component (split_on b'/' path)))

abbrev pub or_file_name : Option Str → Option Str → Option Str
or_file_name (some name) _ = some name
or_file_name none file = filter_option is_component file

-- `SkillSpec::name`.
unfoldable pub skill_name : SkillSpec → Option Str
skill_name skill = or_file_name skill.name (file_name skill.source)

abbrev pub starts_with_dot : Str → Bool
starts_with_dot [] = false
starts_with_dot (b ∷ _) = b == b'.'

-- `valid_name` of a skill.
unfoldable pub valid_skill_name : Str → Bool
valid_skill_name name =
    not (list_is_empty name)
    && not (starts_with_dot name)
    && not (any (λ b. b == b'/') name)
    && not (any (λ b. b == 92) name)

-- `valid_environment_variable`.
unfoldable pub valid_environment_variable : Str → Bool
valid_environment_variable value = not (list_is_empty value) && valid_name_from 0 value

-- A component of a sandbox path.
abbrev pub is_path_part : Str → Bool
is_path_part part =
    not (list_is_empty part)
    && not (same_text part (codes "."))
    && not (same_text part (codes ".."))

-- `valid_sandbox_path`.
unfoldable pub valid_sandbox_path : Str → Bool
valid_sandbox_path [] = false
valid_sandbox_path (b ∷ path) =
    (b == b'/') && not (list_is_empty path) && every is_path_part (split_on b'/' path)

abbrev pub is_host_label : Str → Bool
is_host_label label =
    not (list_is_empty label) && every (λ b. is_ascii_alphanumeric b || (b == b'-')) label

-- `valid_host_pattern`.
unfoldable pub valid_host_pattern : Str → Bool
valid_host_pattern pattern' =
    not (list_is_empty pattern')
    && not (any (λ b. (b == b'/') || (b == b':') || (b == 92)) pattern')
    && every is_host_label (split_on b'.' (value_or pattern' (strip_wildcard pattern')))

-- `claude_code::manages_environment` and `codex::manages_environment`, behind `manages_environment`.
unfoldable pub manages_environment : Harness → Str → Bool
manages_environment claude_code name = any (same_text name) (
    map codes (
      "CLAUDE_CODE_OAUTH_TOKEN" ∷ "AGENT_CLAUDE_ACCESS_TOKEN" ∷ "CLAUDE_CONFIG_DIR"
      ∷ "CLAUDE_CODE_DISABLE_ALTERNATE_SCREEN" ∷ "DISABLE_AUTOUPDATER" ∷ []))
manages_environment codex name = any (same_text name) (
    map codes (
      "AGENT_CODEX_ACCESS_TOKEN" ∷ "AGENT_CODEX_ACCOUNT_ID" ∷ "CODEX_HOME" ∷ "CODEX_CA_CERTIFICATE"
      ∷ []))
manages_environment pi name = false

abbrev pub is_one_of : Option Str → List Str → Bool
is_one_of none expected = false
is_one_of (some text) expected = any (same_text text) expected

-- The placeholders that stand for the credentials of the two harnesses.
abbrev pub claude_placeholders : List Str
claude_placeholders =
    codes "sk-ant-REDACTED"
    ∷ codes "sk-ant-REDACTED"
    ∷ []

abbrev pub codex_placeholders : List Str
codex_placeholders =
    (codes "eyJhbGciOiJub25lIiwidHlwIjoiSldUIn0."
      ++ codes "eyJleHAiOjQxMDI0NDQ4MDAsImh0dHBzOi8vYXBpLm9wZW5haS5jb20vYXV0aCI6"
      ++ codes "eyJjaGF0Z3B0X2FjY291bnRfaWQiOiJhZ2VudC1tZWRpYXRlZC1jb2RleC1hY2NvdW50"
      ++ codes "LXBsYWNlaG9sZGVyIn19."
      ++ codes "agent")
    ∷ codes "agent-mediated-codex-account-placeholder"
    ∷ []

-- `conflicts_with_managed_secret`, of the three harnesses.
unfoldable pub conflicts_with_managed_secret : Harness → Str → Option Str → Bool
conflicts_with_managed_secret claude_code name placeholder =
    is_one_of (some name) (codes "CLAUDE_CODE_OAUTH_TOKEN" ∷ codes "AGENT_CLAUDE_ACCESS_TOKEN" ∷ [])
    || is_one_of placeholder claude_placeholders
conflicts_with_managed_secret codex name placeholder =
    is_one_of (some name) (codes "AGENT_CODEX_ACCESS_TOKEN" ∷ codes "AGENT_CODEX_ACCOUNT_ID" ∷ [])
    || is_one_of placeholder codex_placeholders
conflicts_with_managed_secret pi name placeholder = false
