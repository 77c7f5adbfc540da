-- ===== src/Service/Tests.antt =====
-- Concrete requests and sandboxes for the theorems on the sandbox service: sandbox/core/src/service.rs
-- and sandbox/core/src/memory.rs.
use digdir_agents.Base.{
  codes, length, All, Str, same_text, get, insert, ok, ℕ, ◌+◌, ◌≡◌, refl, sym, ap, ◌∙◌, ◌↔◌, true,
  false, none, some, [], ◌∷◌,
}
use digdir_agents.Service.{
  execution_feature, layered, backend_init, running, retain, feature_rank, same_feature, same_mode,
  same_init,
}
use digdir_agents.Progress.{
  validate, lookup, feature_discovery, sandbox_update, sandbox_start, inspect, completed, reused,
}
use digdir_agents.Service.Errors.{Platform}
use digdir_agents.Service.Platform.{
  has_text, is_superset, satisfies, validate_platform, same_platform,
}
use digdir_agents.Service.Images.{
  ImageSource, reference, is_blank, validate_source, same_source, ResolveRequest,
}
use digdir_agents.Service.Model.{
  SandboxId, SandboxResources, Sandbox, CreateSandboxRequest, EnsureSandboxRequest,
}
use digdir_agents.Service.Request.{
  validate_spec, with_volumes, effective_required_features, is_ascii_alphabetic, is_decimal,
  valid_name_from, valid_variable, validate_environment,
}
use digdir_agents.Service.Effects.{phase_began, phase_over, World}
use digdir_agents.Service.Interfaces.{SandboxService}
use digdir_agents.Service.Checks.{
  require_features, require_mounts, require_capabilities, require_unchanged,
}
use digdir_agents.Service.Ensure.{creation, ensure_sandbox}
use digdir_agents.Service.Release.{delete_named, stop_named}
use digdir_agents.Service.Portable.{IsPortable, validate_environment-IsPortable}
use digdir_agents.Service.Memory.{
  BackendState, sandbox_at, inspect_memory, find_memory, created_sandbox, create_memory,
  change_sandbox, with_state, set_state,
}
use digdir_agents.Service.Memory.Provider.{memory_image, memory_service}
use digdir_agents.Service.Memory.Consistent.{IsConsistent, ok-injective}
use digdir_agents.Service.Memory.Steps.{
  no_sandboxes, create, Reachable, initial, after, Reachable-IsConsistent,
}
use digdir_agents.Service.Memory.Lifecycle.{IsNamed}
use digdir_agents.Service.Memory.Deleted.{IsDeleted, delete_named-IsDeleted}
use digdir_agents.Service.Memory.Owned.{Ends}
use digdir_agents.Service.Memory.Accepted.{IsCapable}
use digdir_agents.Service.Memory.Converged.{IsConverged, IsAdoptable, ensure_sandbox-Ends}
use digdir_agents.Text.{is_whitespace, trim_start}
use digdir_agents.Service.Memory.Stopped.{Retains, stop_named-IsStopped}
use digdir_agents.Service.Memory.Settled.{ensure_sandbox-IsConverged}
use digdir_agents.Text.Splits.{split_on}
use digdir_agents.Text.Paths.{path_components, same_path}

abbrev linux : Platform
linux = record {
  os = b'l' ∷ [];
  architecture = b'a' ∷ [];
  variant = none;
  os_version = none;
  os_features = [];
}

abbrev base_image : ImageSource
base_image = reference (b'b' ∷ [])

abbrev worker : Str
worker = b'w' ∷ []

abbrev small : SandboxResources
small = record {
  cpu = 500;
  memory = 1024;
  root_filesystem = record { capacity = 4096; mode = layered };
  nested = false;
}

abbrev request_of : ImageSource → EnsureSandboxRequest
request_of image = record {
  name = worker;
  hostname = none;
  spec = record {
    image = image;
    platform = linux;
    resources = small;
    init_system = backend_init;
    retention_policy = retain;
  };
  mounts = [];
  environment = (b'A' ∷ b'1' ∷ [], b'x' ∷ []) ∷ [];
  required_features = execution_feature ∷ [];
}

abbrev digest : ResolveRequest → Str
digest _ = b's' ∷ []

abbrev draw : BackendState → SandboxId
draw st = 7 + length st.by_id

abbrev service : SandboxService BackendState
service = memory_service (linux ∷ []) digest draw

abbrev creation_of : CreateSandboxRequest
creation_of =
    creation service 7 (request_of base_image)
      (memory_image digest
        (record { source = base_image; platform = linux; root_filesystem_mode = layered }))
      none

abbrev one_sandbox : BackendState
one_sandbox = (create_memory creation_of no_sandboxes).1

abbrev idle : World BackendState
idle = record { components = no_sandboxes; reports = [] }

validate_environment-IsPortable_example :
    (validate_environment ((b'A' ∷ b'1' ∷ [], b'x' ∷ []) ∷ []) ≡ ok tt)
    ↔ All IsPortable ((b'A' ∷ b'1' ∷ [], b'x' ∷ []) ∷ [])
validate_environment-IsPortable_example =
    validate_environment-IsPortable ((b'A' ∷ b'1' ∷ [], b'x' ∷ []) ∷ [])

nothing_at_seven : sandbox_at 7 no_sandboxes ≡ none
unfolding get
nothing_at_seven = refl

one_sandbox-Reachable : Reachable one_sandbox
one_sandbox-Reachable =
    after no_sandboxes one_sandbox initial (create creation_of no_sandboxes nothing_at_seven)

Reachable-IsConsistent_example : IsConsistent one_sandbox
Reachable-IsConsistent_example = Reachable-IsConsistent one_sandbox one_sandbox-Reachable

valid_spec : validate_spec (request_of base_image).spec ≡ ok tt
unfolding validate_spec validate_source is_blank trim_start is_whitespace validate_platform has_text
valid_spec = refl

valid_environment : validate_environment (request_of base_image).environment ≡ ok tt
unfolding validate_environment valid_variable valid_name_from is_ascii_alphabetic is_decimal
valid_environment = refl

capable : IsCapable (linux ∷ []) digest draw linux (request_of base_image)
unfolding same_platform same_text require_capabilities require_features effective_required_features
    same_init with_volumes same_feature feature_rank require_mounts same_mode
capable = (refl, refl)

nothing_to_adopt :
    (b : Sandbox)
    → IsNamed worker b no_sandboxes
    → IsAdoptable (linux ∷ []) digest draw (request_of base_image) b
unfolding get
nothing_to_adopt b n = absurd (cc n.leads)

ensure_sandbox-Ends_example :
    Ends
      (ensure_sandbox service (request_of base_image) idle)
      (λ a. a)
      worker
      (IsConverged (request_of base_image))
ensure_sandbox-Ends_example =
    ensure_sandbox-Ends (linux ∷ []) digest draw (request_of base_image) idle
      (Reachable-IsConsistent no_sandboxes initial) valid_spec valid_environment (λ r. refl) capable
      nothing_to_adopt

found_worker : find_memory worker one_sandbox ≡ (ok (created_sandbox creation_of), one_sandbox)
unfolding find_memory get create_memory insert same_text inspect_memory
found_worker = refl

abbrev other_image : ImageSource
other_image = reference (b'c' ∷ [])

abbrev first_code : Str → ℕ
first_code (c ∷ _) = c
first_code [] = 0

same_directory : same_path (codes "app/./") (codes "app") ≡ true
unfolding same_path path_components split_on same_text
same_directory = refl

other_directory : same_path (codes "/app") (codes "./app") ≡ false
unfolding same_path path_components split_on same_text
other_directory = refl

found_network : (b : Sandbox) → IsNamed worker b one_sandbox → b.network ≡ none
found_network b n = ap (λ x. x.network) (ok-injective (ap (λ r. r.0) (sym n.found ∙ found_worker)))

delete_named-IsDeleted_example : IsDeleted worker (delete_named service worker one_sandbox)
delete_named-IsDeleted_example =
    delete_named-IsDeleted (linux ∷ []) digest draw worker one_sandbox
      (Reachable-IsConsistent one_sandbox one_sandbox-Reachable) found_network

worker-IsNamed : IsNamed worker (created_sandbox creation_of) one_sandbox
unfolding get same_text create_memory insert
worker-IsNamed = record { bears = refl; stands = refl; leads = refl; found = found_worker }

stop_named-IsStopped_example :
    Retains worker (created_sandbox creation_of) (stop_named service worker one_sandbox)
stop_named-IsStopped_example =
    stop_named-IsStopped (linux ∷ []) digest draw worker (created_sandbox creation_of) one_sandbox
      worker-IsNamed refl

abbrev linux_v2 : Platform
linux_v2 = record linux { variant = some (b'2' ∷ []); os_features = (b'f' ∷ []) ∷ [] }

abbrev linux_any_variant : Platform
linux_any_variant = record linux { os_features = (b'f' ∷ []) ∷ [] }

narrower_holds : satisfies linux_v2 linux_any_variant ≡ true
unfolding satisfies same_text is_superset has_text
narrower_holds = refl

wider_holds : satisfies linux_any_variant linux ≡ true
unfolding satisfies same_text is_superset
wider_holds = refl

abbrev running_worker : Sandbox
running_worker = with_state running (created_sandbox creation_of)

abbrev one_running : BackendState
one_running = (set_state 7 running one_sandbox).1

running_found : find_memory worker one_running ≡ (ok running_worker, one_running)
unfolding find_memory get set_state change_sandbox create_memory insert same_text inspect_memory
running_found = refl

running-IsNamed : IsNamed worker running_worker one_running
unfolding get set_state change_sandbox create_memory insert same_text
running-IsNamed = record { bears = refl; stands = refl; leads = refl; found = running_found }

unchanged : require_unchanged running_worker (request_of base_image) ≡ ok tt
unfolding require_unchanged satisfies same_text is_superset same_source same_mode same_init
unchanged = refl

ensure_sandbox-IsConverged_example :
    ensure_sandbox service
      (request_of base_image)
      (record { components = one_running; reports = [] })
    ≡ (
      ok running_worker,
      record {
        components = one_running;
        reports =
            phase_over inspect completed
            ∷ phase_began inspect
            ∷ phase_over sandbox_start reused
            ∷ phase_began sandbox_start
            ∷ phase_over sandbox_update reused
            ∷ phase_began sandbox_update
            ∷ phase_over feature_discovery completed
            ∷ phase_began feature_discovery
            ∷ phase_over lookup reused
            ∷ phase_began lookup
            ∷ phase_over validate completed
            ∷ phase_began validate
            ∷ [];
      },
    )
ensure_sandbox-IsConverged_example =
    ensure_sandbox-IsConverged (linux ∷ []) digest draw (request_of base_image) running_worker
      (record { components = one_running; reports = [] }) running-IsNamed valid_spec
      valid_environment (unchanged, refl, capable)
      (record { runs = refl; has_environment = refl; has_resources = refl })
