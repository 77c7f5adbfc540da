-- ===== src/Service/Discovery.antt =====
-- What a provider offers, and whether it meets a request: sandbox/core/src/service.rs.
use digdir_agents.Base.{Str, ok, ensure, Option}
use digdir_agents.Service.{
  ImageOperation, resolve_operation, prepared_image_export_operation,
  prepared_image_import_operation,
}
use digdir_agents.Service.Errors.{Platform, image_platform_mismatch}
use digdir_agents.Service.Platform.{satisfies}
use digdir_agents.Service.Images.{
  ResolveRequest, validate_resolve, ResolvedImage, validate_resolved, PreparedImage, validate_for,
  ImageBackendCapabilities,
}
use digdir_agents.Service.Model.{
  NetworkAttachment, SandboxBackendCapabilities, EnsureSandboxRequest,
}
use digdir_agents.Service.Request.{effective_required_features}
use digdir_agents.Service.Effects.{
  Effect, ◌>>=◌, ◌>>◌, lift, in_component, phase_began, phase_over, World, ask, tell,
}
use digdir_agents.Service.Interfaces.{SandboxService}
use digdir_agents.Service.Checks.{require_capabilities, check_image_operation, select_attachment}
use digdir_agents.Progress.{feature_discovery, image_resolve, image_prepare, completed}

module _ {W : Type 0} (s : SandboxService W) where
  -- `backend_capabilities` and `image_backend_capabilities`.
  unfoldable pub backend_capabilities : Platform → Effect W SandboxBackendCapabilities
  backend_capabilities platform =
      in_component "discover sandbox capabilities" (s.backend.capabilities platform)

  unfoldable pub image_backend_capabilities : Platform → Effect W ImageBackendCapabilities
  image_backend_capabilities platform =
      in_component "discover Image capabilities" (s.image_backend.capabilities platform)

  -- `require_image_operation`.
  unfoldable pub require_image_operation : ImageOperation → ResolveRequest → Effect W (Unit {0})
  require_image_operation operation request = do
    capabilities ← image_backend_capabilities request.platform
    lift (check_image_operation capabilities operation request)

  -- `require_backend_features`.
  unfoldable pub require_backend_features :
      Platform → EnsureSandboxRequest → Effect W (Option NetworkAttachment)
  require_backend_features platform request = do
    let mode = request.spec.resources.root_filesystem.mode
    capabilities ← backend_capabilities platform
    lift (
        require_capabilities capabilities (effective_required_features request) request.mounts mode)
    require_image_operation resolve_operation
        (record { source = request.spec.image; platform = platform; root_filesystem_mode = mode })
    lift (select_attachment s.network_backend capabilities.network)

  -- `require_backend_features_observed`.
  unfoldable pub require_backend_features_observed :
      Platform → EnsureSandboxRequest → Effect (World W) (Option NetworkAttachment)
  require_backend_features_observed platform request = do
    tell (phase_began feature_discovery)
    network ← ask (require_backend_features platform request)
    tell (phase_over feature_discovery completed)
    lift (ok network)

  -- `resolve_image`.
  unfoldable pub resolve_image : EnsureSandboxRequest → Effect (World W) ResolvedImage
  resolve_image request = do
    tell (phase_began image_resolve)
    image ← ask (
        in_component "resolve sandbox image" (
          s.image_backend.resolve (record {
            source = request.spec.image;
            platform = request.spec.platform;
            root_filesystem_mode = request.spec.resources.root_filesystem.mode;
          })))
    lift (validate_resolved image)
    lift (
        ensure (satisfies image.platform request.spec.platform)
          (image_platform_mismatch request.spec.platform image.platform))
    tell (phase_over image_resolve completed)
    lift (ok image)

  -- `export_prepared_image` and `import_prepared_image`.
  unfoldable pub export_prepared : ResolveRequest → Str → Effect (World W) PreparedImage
  export_prepared request destination = do
    lift (validate_resolve request)
    ask (require_image_operation prepared_image_export_operation request)
    tell (phase_began image_prepare)
    prepared ← ask (s.image_backend.export_prepared_image request destination)
    lift (validate_for prepared request)
    tell (phase_over image_prepare completed)
    lift (ok prepared)

  unfoldable pub import_prepared : ResolveRequest → Str → Effect (World W) PreparedImage
  import_prepared request source = do
    lift (validate_resolve request)
    ask (require_image_operation prepared_image_import_operation request)
    tell (phase_began image_prepare)
    prepared ← ask (s.image_backend.import_prepared_image request source)
    lift (validate_for prepared request)
    tell (phase_over image_prepare completed)
    lift (ok prepared)
