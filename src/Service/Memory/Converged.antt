-- ===== src/Service/Memory/Converged.antt =====
-- Ensuring a sandbox of the in-memory provider: sandbox/core/src/{service,memory}.rs.
use digdir_agents.Base.{
  option_eq, Str, same_text, same_text-IsEquality, list_is_empty, get, get-insert, ok, >>=-eq-ok,
  ◌≡◌, refl, ap, ◌∙◌, inl, inr, true, false, none, List, ◌∷◌, arith,
}
use digdir_agents.Service.{running, same_mode}
use digdir_agents.Progress.{
  validate, lookup, feature_discovery, image_resolve, sandbox_create, sandbox_update, completed,
  reused,
}
use digdir_agents.Service.Errors.{Platform, error_kind, is_not_found}
use digdir_agents.Service.Platform.{validate_platform}
use digdir_agents.Service.Images.{validate_source, ResolveRequest, validate_resolved}
use digdir_agents.Service.Model.{
  SandboxId, same_attachment, Sandbox, CreateSandboxRequest, SandboxSpec, EnsureSandboxRequest,
}
use digdir_agents.Service.Request.{validate_spec, validate_environment}
use digdir_agents.Service.Effects.{phase_began, phase_over, World}
use digdir_agents.Service.Interfaces.{SandboxService}
use digdir_agents.Service.Checks.{require_unchanged}
use digdir_agents.Service.Discovery.{require_backend_features_observed, resolve_image}
use digdir_agents.Service.Ensure.{
  joint_outcome, ensure_updates, adopt, creation, create_new, ensure_sandbox,
}
use digdir_agents.Service.Memory.{
  same_id, BackendState, created_sandbox, create_unless, create_memory,
}
use digdir_agents.Service.Memory.Provider.{memory_image, memory_service}
use digdir_agents.Service.Memory.Consistent.{same_id-IsEquality, IsConsistent}
use digdir_agents.Service.Memory.Lifecycle.{IsNamed, find_cases}
use digdir_agents.Service.Memory.Owned.{IsOwned, Ends}
use digdir_agents.Service.Memory.Ensured.{
  ensure_running-Ends, ensure_resources-Ends, ensure_environment-Ends,
}
use digdir_agents.Service.Memory.Accepted.{
  satisfies_itself, IsCapable, require_backend_features-capable,
}

-- What a request asks of the sandbox that it ensures.
pub record IsConverged (request : EnsureSandboxRequest) (b : Sandbox) : Type 0 where
  pub runs : b.state ≡ running
  pub has_environment : b.environment ≡ request.environment
  pub has_resources : b.resources ≡ request.spec.resources

unchanged_mode :
    (b : Sandbox) (request : EnsureSandboxRequest)
    → require_unchanged b request ≡ ok tt
    → same_mode b.resources.root_filesystem.mode request.spec.resources.root_filesystem.mode ≡ true
unfolding require_unchanged
unchanged_mode b request h = ground (arith, h)

validate_spec-parts :
    (spec : SandboxSpec)
    → validate_spec spec ≡ ok tt
    → (validate_source spec.image ≡ ok tt) × (validate_platform spec.platform ≡ ok tt)
unfolding validate_spec
validate_spec-parts spec h =
    let (_, source, platform) = >>=-eq-ok (validate_source spec.image) _ h in (source, platform)

-- The image that is resolved for a valid request is valid.
memory_image_valid :
    (digest : ResolveRequest → Str) (request : ResolveRequest)
    → validate_source request.source ≡ ok tt
    → validate_platform request.platform ≡ ok tt
    → list_is_empty (digest request) ≡ false
    → validate_resolved (memory_image digest request) ≡ ok tt
unfolding validate_resolved
memory_image_valid digest request source platform digests = rw (source, platform, digests) refl

create_memory-free :
    (request : CreateSandboxRequest) (st : BackendState)
    → get same_text request.name st.by_name ≡ none
    → create_memory request st ≡ create_unless none request st
unfolding create_memory
create_memory-free request st free = rw free refl

created-IsOwned :
    (request : CreateSandboxRequest) (st : BackendState)
    → request.network ≡ none
    → IsOwned request.name (created_sandbox request) (create_unless none request st).1
created-IsOwned request st detached = record {
  bears = refl;
  stands = get-insert same_id same_id-IsEquality request.id (created_sandbox request) st.by_id;
  leads = get-insert same_text same_text-IsEquality request.name request.id st.by_name;
  detached = detached;
}

module _ (supported : List Platform) (digest : ResolveRequest → Str)
    (draw : BackendState → SandboxId) where
  abbrev s : SandboxService BackendState
  s = memory_service supported digest draw

  -- A sandbox that was found, and that differs from the request in nothing that may not change.
  adopt-Ends :
      (b : Sandbox) (request : EnsureSandboxRequest) (w : World BackendState)
      → IsOwned request.name b w.components
      → require_unchanged b request ≡ ok tt
      → IsCapable supported digest draw b.image.platform request
      → Ends (adopt s b request w) (λ a. a) request.name (IsConverged request)
  unfolding adopt ensure_updates require_backend_features_observed
  adopt-Ends b request w o same capable =
      let w₁ = record w {
        reports =
            phase_began sandbox_update
            ∷ phase_over feature_discovery completed
            ∷ phase_began feature_discovery
            ∷ phase_over lookup reused
            ∷ w.reports;
      } in
      let (e, w₂, e_is, e_owned, (e_env, e_res)) =
        ensure_environment-Ends supported digest draw request.name b request.environment w₁ o in
      let mode =
        ap (λ r. same_mode r.root_filesystem.mode request.spec.resources.root_filesystem.mode) e_res
        ∙ unchanged_mode b request same in
      let (r, w₃, r_is, r_owned, (r_res, r_env)) =
        ensure_resources-Ends supported digest draw request.name e.0 request.spec.resources w₂
          e_owned mode in
      let w₄ = record w₃ {
        reports = phase_over sandbox_update (joint_outcome e.1 r.1) ∷ w₃.reports;
      } in
      let (f, w₅, f_is, f_owned, (f_runs, f_env, f_res)) =
        ensure_running-Ends supported digest draw request.name r.0 w₄ r_owned in
      (
        f,
        w₅,
        rw
            (
              same,
              require_backend_features-capable supported digest draw b.image.platform request
                  w.components capable,
              ap (λ n. option_eq same_attachment n none) o.detached,
              e_is,
              r_is,
              f_is,
            )
            refl,
        f_owned,
        record {
          runs = f_runs;
          has_environment = f_env ∙ r_env ∙ e_env;
          has_resources = f_res ∙ r_res;
        },
      )

  -- A sandbox that there was none of.
  create_new-Ends :
      (request : EnsureSandboxRequest) (w : World BackendState)
      → get same_text request.name w.components.by_name ≡ none
      → validate_spec request.spec ≡ ok tt
      → ((r : ResolveRequest) → list_is_empty (digest r) ≡ false)
      → IsCapable supported digest draw request.spec.platform request
      → Ends (create_new s request w) (λ a. a) request.name (IsConverged request)
  unfolding create_new require_backend_features_observed resolve_image
  create_new-Ends request w free valid digests capable =
      let resolve : ResolveRequest = record {
        source = request.spec.image;
        platform = request.spec.platform;
        root_filesystem_mode = request.spec.resources.root_filesystem.mode;
      } in
      let create = creation s (draw w.components) request (memory_image digest resolve) none in
      let parts = validate_spec-parts request.spec valid in
      let w₁ = record w {
        components = (create_unless none create w.components).1;
        reports =
            phase_over sandbox_create completed
            ∷ phase_began sandbox_create
            ∷ phase_over feature_discovery completed
            ∷ phase_began feature_discovery
            ∷ phase_over image_resolve completed
            ∷ phase_began image_resolve
            ∷ phase_over feature_discovery completed
            ∷ phase_began feature_discovery
            ∷ phase_over lookup completed
            ∷ w.reports;
      } in
      let (f, w₂, f_is, f_owned, (f_runs, f_env, f_res)) =
        ensure_running-Ends supported digest draw request.name (created_sandbox create) w₁
          (created-IsOwned create w.components refl) in
      (
        f,
        w₂,
        rw
            (
              require_backend_features-capable supported digest draw request.spec.platform request
                  w.components capable,
              memory_image_valid digest resolve parts.0 parts.1 (digests resolve),
              satisfies_itself request.spec.platform,
              require_backend_features-capable supported digest draw request.spec.platform request
                  w.components capable,
              create_memory-free create w.components free,
              same_id-IsEquality.1 (draw w.components),
              f_is,
            )
            refl,
        f_owned,
        record { runs = f_runs; has_environment = f_env; has_resources = f_res },
      )

  -- What is asked of a sandbox that a name leads to already.
  abbrev pub IsAdoptable : EnsureSandboxRequest → Sandbox → Type 0
  IsAdoptable request b =
      (require_unchanged b request ≡ ok tt)
      × (b.network ≡ none)
      × IsCapable supported digest draw b.image.platform request

  -- On consistent in-memory state, ensuring a valid request that the provider is capable of succeeds,
  -- whether there is a sandbox of that name, stopped or running, or none yet, provided that one that
  -- is there differs in no immutable field, runs on a capable platform and has no network; the result
  -- is a running sandbox with the requested name, environment and resources, and it is the one that
  -- the name then leads to.
  pub ensure_sandbox-Ends :
      (request : EnsureSandboxRequest) (w : World BackendState)
      → IsConsistent w.components
      → validate_spec request.spec ≡ ok tt
      → validate_environment request.environment ≡ ok tt
      → ((r : ResolveRequest) → list_is_empty (digest r) ≡ false)
      → IsCapable supported digest draw request.spec.platform request
      → ((b : Sandbox) → IsNamed request.name b w.components → IsAdoptable request b)
      → Ends (ensure_sandbox s request w) (λ a. a) request.name (IsConverged request)
  unfolding ensure_sandbox is_not_found error_kind
  ensure_sandbox-Ends request w c valid environment digests capable adoptable =
      let w₁ = record w {
        reports =
            phase_began lookup ∷ phase_over validate completed ∷ phase_began validate ∷ w.reports;
      } in
      elim (find_cases request.name w.components c) [
        | inl (free, missing) ↦
            rw (valid, environment, missing) (create_new-Ends request w₁ free valid digests capable)
        | inr (b, n) ↦
            let (same, detached, able) = adoptable b n in
            rw (valid, environment, n.found)
              (adopt-Ends b request w₁
                (record {
                  bears = n.bears;
                  stands = n.stands;
                  leads = n.leads;
                  detached = detached;
                })
                same able)
      ]
