-- ===== src/Service/Memory/Settled.antt =====
-- Ensuring a sandbox that is as the request asks already: sandbox/core/src/{service,memory}.rs.
use digdir_agents.Base.{option_eq, Str, ok, ◌≡◌, refl, sym, ap, ◌∙◌, none, List, ◌∷◌}
use digdir_agents.Progress.{
  validate, lookup, feature_discovery, sandbox_update, sandbox_start, inspect, completed, reused,
}
use digdir_agents.Service.Errors.{Platform}
use digdir_agents.Service.Images.{ResolveRequest}
use digdir_agents.Service.Model.{
  SandboxId, same_resources, same_environment, same_attachment, Sandbox, EnsureSandboxRequest,
}
use digdir_agents.Service.Request.{validate_spec, validate_environment}
use digdir_agents.Service.Effects.{phase_began, phase_over, World}
use digdir_agents.Service.Interfaces.{SandboxService}
use digdir_agents.Service.Discovery.{require_backend_features_observed}
use digdir_agents.Service.Ensure.{
  ensure_running, ensure_environment, ensure_resources, ensure_updates, adopt, ensure_sandbox,
}
use digdir_agents.Service.Sameness.{same_resources_refl, same_environment_refl}
use digdir_agents.Service.Memory.{BackendState}
use digdir_agents.Service.Memory.Provider.{memory_service}
use digdir_agents.Service.Memory.Lifecycle.{IsNamed, tests_running, no_network}
use digdir_agents.Service.Memory.Owned.{inspect_memory-found}
use digdir_agents.Service.Memory.Accepted.{require_backend_features-capable}
use digdir_agents.Service.Memory.Converged.{IsConverged, IsAdoptable}

module _ (supported : List Platform) (digest : ResolveRequest → Str)
    (draw : BackendState → SandboxId) where
  abbrev s : SandboxService BackendState
  s = memory_service supported digest draw

  -- Ensuring a valid request on the in-memory provider, where the sandbox of that name is adoptable,
  -- runs, and has the requested environment and resources, returns that sandbox, changes nothing in the
  -- provider, and reports the lookup, the update and the start as reused.
  pub ensure_sandbox-IsConverged :
      (request : EnsureSandboxRequest) (b : Sandbox) (w : World BackendState)
      → IsNamed request.name b w.components
      → validate_spec request.spec ≡ ok tt
      → validate_environment request.environment ≡ ok tt
      → IsAdoptable supported digest draw request b
      → IsConverged request b
      → ensure_sandbox s request w ≡ (
        ok b,
        record w {
          reports =
              phase_over inspect completed
              ∷ phase_began inspect
              ∷ phase_over sandbox_start reused
              ∷ phase_began sandbox_start
              ∷ phase_over sandbox_update reused
              ∷ phase_began sandbox_update
              ∷ phase_over feature_discovery completed
              ∷ phase_began feature_discovery
              ∷ phase_over lookup reused
              ∷ phase_began lookup
              ∷ phase_over validate completed
              ∷ phase_began validate
              ∷ w.reports;
        },
      )
  unfolding ensure_sandbox adopt ensure_updates ensure_environment ensure_resources ensure_running
      require_backend_features_observed
  ensure_sandbox-IsConverged request b w n valid environment (same, detached, capable) k =
      let env =
        ap (λ e. same_environment b.environment e) (sym k.has_environment)
        ∙ same_environment_refl b.environment in
      let res =
        ap (λ r. same_resources b.resources r) (sym k.has_resources)
        ∙ same_resources_refl b.resources in
      rw
        (
          valid,
          environment,
          n.found,
          same,
          require_backend_features-capable supported digest draw b.image.platform request
              w.components capable,
          ap (λ a. option_eq same_attachment a none) detached,
          env,
          res,
          no_network b.network detached,
          (tests_running k.runs).0,
          inspect_memory-found b.id b w.components n.stands,
        )
        refl
