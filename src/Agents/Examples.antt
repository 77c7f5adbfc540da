-- ===== src/Agents/Examples.antt =====
-- A manifest that the tests of several components share: agentctl/src/manifest.rs.
use digdir_agents.Base.{codes, true, false, none, [], ◌∷◌}
use digdir_agents.Service.Images.{reference}
use digdir_agents.Agents.Harness.{claude_code, pi, mediated, unmediated, ModelSelection}
use digdir_agents.Agents.Logins.{default_login, one_login}
use digdir_agents.Agents.Manifest.{PlatformManifestSpec, bind, tmpfs, ssh}
use digdir_agents.Agents.Model.{HarnessSpec, Spec}

abbrev pub no_selection : ModelSelection
no_selection = record { model = none; effort = none }

abbrev claude : HarnessSpec
claude = record {
  kind = claude_code;
  version = none;
  login = one_login default_login;
  auth = mediated;
  optional = false;
  default = true;
  defaults = no_selection;
}

abbrev pi_harness : HarnessSpec
pi_harness = record claude { kind = pi; auth = unmediated; default = false }

abbrev linux : PlatformManifestSpec
linux = record {
  os = codes "linux";
  architecture = none;
  variant = none;
  os_version = none;
  os_features = [];
}

abbrev pub worker_spec : Spec
worker_spec = record {
  run_state = none;
  sandbox = record {
    image = reference (codes "ghcr.io/worker");
    platform = linux;
    mounts = bind (codes "work") (codes "/home/work") false false ∷ tmpfs (codes "/tmp") 1024 ∷ [];
  };
  home = record { source = codes "home" };
  instructions = record { source = codes "AGENTS.md"; optional = true } ∷ [];
  skills = record { source = codes "skills/review/"; name = none; optional = false } ∷ [];
  harnesses = claude ∷ pi_harness ∷ [];
  environment = record { name = codes "LANG"; source = none } ∷ [];
  secrets =
      record {
        environment = codes "API_TOKEN";
        optional = false;
        placeholder = none;
        allowed_hosts = codes "*.example.org" ∷ [];
        source = none;
      }
      ∷ [];
  access = ssh ∷ [];
  network = record { deny = codes "ads.example.org" ∷ [] };
}
