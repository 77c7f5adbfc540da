-- ===== src/Agents/Tests.antt =====
-- Agents on concrete inputs: agentctl/src/manifest.rs and agentctl/src/harness/login.rs.
use digdir_agents.Base.{
  codes, All, Str, same_text, get, ok, ℕ, ◌≡◌, refl, ◌↔◌, none, some, List, [], ◌∷◌,
}
use digdir_agents.Agents.Harness.{auth_mode}
use digdir_agents.Agents.Logins.{
  same_ignoring_case, is_ascii_alphanumeric, well_spelled, new_login, login_is_default, LoginSet,
  named, one_login, unique, among, set_is_default, insert_by, sort_by, uses, candidates, choose,
  texts, serialize_logins, new_logins, deserialize_logins,
}
use digdir_agents.Agents.Logins.Chosen.{IsChoice, choose_lem}
use digdir_agents.Agents.Logins.Written.{deserialize_logins-serialize_logins}
use digdir_agents.Agents.Manifest.{
  validate_platform_spec, mount_target, validate_sandbox_spec, environment_source, secret_source,
  inert_value, file_name, skill_name, valid_skill_name, valid_environment_variable,
  valid_sandbox_path, valid_host_pattern, manages_environment, conflicts_with_managed_secret,
}
use digdir_agents.Agents.Model.{HarnessSpec, spec_harness, default_harness, no_status, Agent}
use digdir_agents.Agents.Examples.{worker_spec}
use digdir_agents.Agents.Validation.{
  validate_mounts, validate_instructions, validate_skills, validate_installation,
  count_installation, validate_installations, check_installed, validate_harnesses,
  validate_variables, validate_agent_environment, validate_bindings, validate_secrets,
  validate_access, validate_agent_spec, validate_agent,
}
use digdir_agents.Agents.Validation.Defaults.{validate_agent-default_harness}
use digdir_agents.Agents.Validation.Manifests.{IsManifest, validate_agent-IsManifest}
use digdir_agents.Name.{
  is_ascii_lowercase, is_ascii_digit, is_alphanumeric, all_bytes, last_of, validate_name,
}
use digdir_agents.Text.{is_whitespace, trim_start}
use digdir_agents.Text.Splits.{split_on}
use digdir_agents.Authorization.{to_lower, strip_wildcard}
use digdir_agents.Service.Images.{is_blank, validate_source}
use digdir_agents.Service.Platform.{has_text}
use digdir_agents.Service.Request.{is_ascii_alphabetic, is_decimal, valid_name_from}

abbrev worker_agent : Agent
worker_agent = record {
  api_version = codes "agents.platform/v1alpha1";
  kind = codes "Agent";
  metadata = record {
    name = codes "worker";
    generation = 0;
    deletion_timestamp = none;
    restart_timestamp = none;
  };
  spec = worker_spec;
  status = no_status;
}

worker_accepted : validate_agent worker_agent ≡ ok tt
unfolding validate_agent same_text validate_name is_alphanumeric is_ascii_lowercase last_of
    all_bytes validate_sandbox_spec validate_source is_blank trim_start is_whitespace
    validate_platform_spec has_text validate_agent_spec validate_mounts valid_sandbox_path
    mount_target auth_mode is_ascii_alphanumeric login_is_default set_is_default one_login
    conflicts_with_managed_secret environment_source file_name inert_value manages_environment
    secret_source skill_name valid_environment_variable valid_host_pattern valid_skill_name
    check_installed count_installation validate_access validate_agent_environment validate_bindings
    validate_harnesses validate_installation validate_installations validate_instructions
    validate_secrets validate_skills validate_variables strip_wildcard is_ascii_digit
    is_ascii_alphabetic is_decimal valid_name_from split_on
worker_accepted = refl

-- The theorems on concrete inputs.
read_worker : IsManifest worker_agent
read_worker = (validate_agent-IsManifest worker_agent).0 worker_accepted

validate_agent-IsManifest_example : (validate_agent worker_agent ≡ ok tt) ↔ IsManifest worker_agent
validate_agent-IsManifest_example = validate_agent-IsManifest worker_agent

validate_agent-default_harness_example :
    ((h : HarnessSpec) × (default_harness worker_spec ≡ some h))
    × All (λ h. spec_harness h.kind worker_spec ≡ some h) worker_spec.harnesses
validate_agent-default_harness_example = validate_agent-default_harness worker_agent worker_accepted

abbrev work : Str
work = codes "work"

abbrev home_login : Str
home_login = codes "home"

-- Two logins, of which the first is used twice.
abbrev both : LoginSet
both = named (work ∷ home_login ∷ [])

abbrev used : List (Str × ℕ)
used = (work, 2) ∷ (home_login, 1) ∷ []

chosen_home : choose both (home_login ∷ work ∷ []) none used ≡ some home_login
unfolding choose sort_by candidates has_text same_text insert_by uses get
chosen_home = refl

choose_lem_example :
    IsChoice both
      (home_login ∷ work ∷ [])
      none
      used
      (choose both (home_login ∷ work ∷ []) none used)
choose_lem_example = choose_lem both (home_login ∷ work ∷ []) none used

both_read : deserialize_logins (texts (work ∷ home_login ∷ [])) ≡ ok both
unfolding deserialize_logins new_logins new_login same_ignoring_case same_text to_lower well_spelled
    is_ascii_alphanumeric is_ascii_alphabetic among unique has_text
both_read = refl

deserialize_logins-serialize_logins_example : deserialize_logins (serialize_logins both) ≡ ok both
deserialize_logins-serialize_logins_example =
    deserialize_logins-serialize_logins (texts (work ∷ home_login ∷ [])) both both_read
