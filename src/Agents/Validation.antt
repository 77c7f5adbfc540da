-- ===== src/Agents/Validation.antt =====
-- The validation of a manifest: agentctl/src/manifest.rs. A set that a loop fills is the list of what was
-- put in.
pub mod Spelled
pub mod Hosts
pub mod Distinct
pub mod Mounts
pub mod Installed
pub mod Harnesses
pub mod Defaults
pub mod Variables
pub mod Bindings
pub mod WellFormed
pub mod Manifests
use digdir_agents.Base.{
  ltb, ◌==◌, codes, if◌then◌else◌, length, every, any, Str, same_text, list_is_empty, Result, err,
  ok, map_err, ensure, ◌>>=◌, ◌>>◌, ℕ, suc, ◌+◌, String, Bool, true, false, not, ◌&&◌, ◌||◌, Option,
  none, some, List, [], ◌∷◌, map,
}
use digdir_agents.Name.{validate_name}
use digdir_agents.Service.Platform.{has_text, empty_when_present}
use digdir_agents.Agents.Harness.{Harness, same_harness, unmediated, same_auth, auth_mode}
use digdir_agents.Agents.Logins.{set_is_default}
use digdir_agents.Agents.Errors.{
  Argument, text, number, auth_mode_text, said, format, format_detail, sandbox_text, name_text,
  Error, invalid, sandbox,
}
use digdir_agents.Agents.Manifest.{
  MountSpec, bind, tmpfs, mount_target, validate_sandbox_spec, InstructionsSpec, SkillSpec,
  EnvironmentSpec, environment_source, SecretSpec, secret_source, inert_value, AccessSpec,
  same_access, skill_name, valid_skill_name, valid_environment_variable, valid_sandbox_path,
  valid_host_pattern, manages_environment, conflicts_with_managed_secret,
}
use digdir_agents.Agents.Model.{HarnessSpec, Spec, Agent}

abbrev pub invalid_text : String → Error
invalid_text reason = invalid (said (codes reason))

abbrev pub invalid_at : String → ℕ → Error
invalid_at template index = invalid (format template (number index ∷ []))

abbrev pub lacks_source : MountSpec → Bool
lacks_source (bind source target read_only optional) = list_is_empty source
lacks_source (tmpfs target capacity) = false

-- The loop over the mounts.
unfoldable pub validate_mounts : ℕ → List Str → List MountSpec → Result Error (Unit {0})
validate_mounts index targets [] = ok tt
validate_mounts index targets (mount ∷ mounts) = do
  ensure (not (lacks_source mount))
      (invalid_at "spec.sandbox.mounts[{}].source must not be empty" index)
  ensure (valid_sandbox_path (mount_target mount) && not (has_text (mount_target mount) targets)) (
      invalid_at "spec.sandbox.mounts[{}].target must be a unique absolute normalized sandbox path"
        index)
  validate_mounts (suc index) (mount_target mount ∷ targets) mounts

unfoldable pub validate_instructions : ℕ → List InstructionsSpec → Result Error (Unit {0})
validate_instructions index [] = ok tt
validate_instructions index (instructions ∷ rest) = do
  ensure (not (list_is_empty instructions.source))
      (invalid_at "spec.instructions[{}].source must not be empty" index)
  validate_instructions (suc index) rest

abbrev pub name_or_fail : ℕ → Option Str → Result Error Str
name_or_fail index none = err (
    invalid_at
      "spec.skills[{}] must declare a name or use a source ending in the skill's directory name"
      index)
name_or_fail index (some name) = ok name

-- `Spec::validate_skills`.
unfoldable pub validate_skills : ℕ → List Str → List SkillSpec → Result Error (Unit {0})
validate_skills index names [] = ok tt
validate_skills index names (skill ∷ skills) = do
  name ← name_or_fail index (skill_name skill)
  ensure (valid_skill_name name) (invalid_at "spec.skills[{}].name is invalid" index)
  ensure (not (has_text name names))
      (invalid (format "spec.skills[{}] duplicates skill {}" (number index ∷ text name ∷ [])))
  validate_skills (suc index) (name ∷ names) skills

abbrev pub has_kind : Harness → List Harness → Bool
has_kind kind kinds = any (same_harness kind) kinds

-- What the loop over the harnesses counts: the kinds, the last one that is there twice, and the defaults.
pub record Installations : Type 0 where
  pub kinds : List Harness
  pub duplicate : Option Harness
  pub default_count : ℕ

-- The checks of one harness.
unfoldable pub validate_installation : ℕ → HarnessSpec → Result Error (Unit {0})
validate_installation index h = do
  ensure (not (empty_when_present h.version))
      (invalid_at "spec.harnesses[{}].version must not be empty" index)
  ensure (same_auth h.auth (auth_mode h.kind)) (
      invalid (
        format "spec.harnesses[{}].auth must be {} for harness {}"
          (number index ∷ auth_mode_text (auth_mode h.kind) ∷ Argument.harness h.kind ∷ [])))
  ensure (not (h.optional && same_auth h.auth unmediated)) (
      invalid_at
        "spec.harnesses[{}].optional needs a harness with a platform login to wait for; declare the credentials as optional spec.secrets instead"
        index)
  ensure (not (not (set_is_default h.login) && same_auth h.auth unmediated)) (
      invalid (
        format "spec.harnesses[{}].login needs a harness with a platform login; {} has none"
          (number index ∷ Argument.harness h.kind ∷ [])))

unfoldable pub count_installation : HarnessSpec → Installations → Installations
count_installation h seen = record {
  kinds = h.kind ∷ seen.kinds;
  duplicate = if has_kind h.kind seen.kinds then some h.kind else seen.duplicate;
  default_count = seen.default_count + (if h.default then 1 else 0);
}

unfoldable pub validate_installations :
    ℕ → Installations → List HarnessSpec → Result Error Installations
validate_installations index seen [] = ok seen
validate_installations index seen (h ∷ hs) = do
  validate_installation index h
  validate_installations (suc index) (count_installation h seen) hs

abbrev pub no_installations : Installations
no_installations = record { kinds = []; duplicate = none; default_count = 0 }

abbrev pub reject_duplicate : Option Harness → Result Error (Unit {0})
reject_duplicate none = ok tt
reject_duplicate (some kind) = err (
    invalid
      (format "spec.harnesses contains duplicate harness kind {}" (Argument.harness kind ∷ [])))

-- What is asked of all harnesses together.
unfoldable pub check_installed : ℕ → Installations → Result Error (Unit {0})
check_installed installed seen = do
  ensure (not (ltb 1 seen.default_count || (ltb 1 installed && not (seen.default_count == 1)))) (
      invalid_text
        "spec.harnesses must declare exactly one default when multiple harnesses are installed")
  reject_duplicate seen.duplicate

unfoldable pub validate_harnesses : List HarnessSpec → Result Error (Unit {0})
validate_harnesses hs = do
  ensure (not (list_is_empty hs)) (invalid_text "spec.harnesses must not be empty")
  seen ← validate_installations 0 no_installations hs
  check_installed (length hs) seen

abbrev pub valid_when_present : Option Str → Bool
valid_when_present none = true
valid_when_present (some source) = valid_environment_variable source

-- The loop of `Spec::validate_environment`.
unfoldable pub validate_variables :
    List HarnessSpec → ℕ → List Str → List EnvironmentSpec → Result Error (List Str)
validate_variables hs index names [] = ok names
validate_variables hs index names (v ∷ vs) = do
  ensure
      (valid_environment_variable v.name
        && valid_when_present v.source
        && not (any (λ h. manages_environment h.kind v.name) hs)
        && not (has_text v.name names))
      (invalid_at "spec.environment[{}] is invalid, duplicated, or managed by a declared harness"
        index)
  validate_variables hs (suc index) (v.name ∷ names) vs

abbrev pub same_bool : Bool → Bool → Bool
same_bool true b = b
same_bool false b = not b

-- `Spec::validate_environment`.
unfoldable pub validate_agent_environment :
    List HarnessSpec → List EnvironmentSpec → Result Error (Unit {0})
validate_agent_environment hs environment = do
  names ← validate_variables hs 0 [] environment
  ensure
      (same_bool (has_text (codes "GIT_USER_NAME") names) (has_text (codes "GIT_USER_EMAIL") names))
      (invalid_text "spec.environment must declare GIT_USER_NAME and GIT_USER_EMAIL together")

-- The loop of `Spec::validate_secrets`, with the sources of the environment.
unfoldable pub validate_bindings :
    List HarnessSpec
    → List Str
    → ℕ
    → List Str
    → List Str
    → List SecretSpec
    → Result Error (Unit {0})
validate_bindings hs sources index environments placeholders [] = ok tt
validate_bindings hs sources index environments placeholders (s ∷ ss) = do
  ensure (not (has_text s.environment environments || has_text (secret_source s) sources))
      (invalid_at "spec.environment collides with spec.secrets[{}]" index)
  ensure
      (valid_environment_variable s.environment
        && valid_when_present s.source
        && not (empty_when_present s.placeholder)
        && not (any (λ h. conflicts_with_managed_secret h.kind s.environment s.placeholder) hs)
        && not (list_is_empty s.allowed_hosts)
        && not (has_text s.environment environments)
        && not (has_text (inert_value s) placeholders)
        && every valid_host_pattern s.allowed_hosts)
      (invalid_at "spec.secrets[{}] is invalid or duplicated" index)
  validate_bindings hs sources (suc index) (s.environment ∷ environments)
      (inert_value s ∷ placeholders) ss

-- `Spec::validate_secrets`.
unfoldable pub validate_secrets :
    List HarnessSpec → List EnvironmentSpec → List SecretSpec → Result Error (Unit {0})
validate_secrets hs environment secrets =
    validate_bindings hs (map environment_source environment) 0 (map (λ v. v.name) environment) []
      secrets

unfoldable pub validate_access : ℕ → List AccessSpec → List AccessSpec → Result Error (Unit {0})
validate_access index seen [] = ok tt
validate_access index seen (a ∷ access) = do
  ensure (not (any (same_access a) seen))
      (invalid_at "spec.access[{}] duplicates an access capability" index)
  validate_access (suc index) (a ∷ seen) access

-- `Spec::validate`.
unfoldable pub validate_agent_spec : Spec → Result Error (Unit {0})
validate_agent_spec spec = do
  validate_mounts 0 [] spec.sandbox.mounts
  ensure (not (list_is_empty spec.home.source)) (invalid_text "spec.home.source must not be empty")
  validate_instructions 0 spec.instructions
  validate_skills 0 [] spec.skills
  validate_harnesses spec.harnesses
  validate_agent_environment spec.harnesses spec.environment
  validate_secrets spec.harnesses spec.environment spec.secrets
  validate_access 0 [] spec.access
  ensure (every valid_host_pattern spec.network.deny)
      (invalid_text "spec.network.deny contains an invalid host pattern")

abbrev pub api_version_text : Str
api_version_text = codes "agents.platform/v1alpha1"

abbrev pub kind_text : Str
kind_text = codes "Agent"

-- `Agent::validate`.
unfoldable pub validate_agent : Agent → Result Error (Unit {0})
validate_agent agent = do
  ensure (same_text agent.api_version api_version_text)
      (invalid (format "apiVersion must be {}" (text api_version_text ∷ [])))
  ensure (same_text agent.kind kind_text) (invalid (format "kind must be {}" (text kind_text ∷ [])))
  map_err (λ error. invalid (format_detail "metadata.name: {}" [] (name_text error)))
      (validate_name agent.metadata.name)
  map_err (λ error. invalid (format_detail "spec.sandbox: {}" [] (sandbox_text error)))
      (validate_sandbox_spec agent.spec.sandbox)
  validate_agent_spec agent.spec
