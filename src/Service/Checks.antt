-- ===== src/Service/Checks.antt =====
-- The checks between the service's calls: sandbox/core/src/service.rs.
use digdir_agents.Base.{
  if◌then◌else◌, list_eq, any, Str, same_text, Result, err, ok, ok_or, ensure, ◌>>=◌, ◌>>◌, Option,
  none, some, List, [], ◌∷◌,
}
use digdir_agents.Service.{
  SandboxFeature, MountKind, RootFilesystemMode, ImageOperation, same_feature, same_mount_kind,
  same_mode, same_source_kind, same_init,
}
use digdir_agents.Service.Errors.{
  Error, immutable, unsupported_feature, unsupported_mount_kind, unsupported_root_filesystem_mode,
  unsupported_image_operation, unsupported_image_source_kind,
  unsupported_image_root_filesystem_mode, network_backend_unavailable, network_endpoint_unavailable,
  unsupported_network_endpoint,
}
use digdir_agents.Service.Platform.{satisfies}
use digdir_agents.Service.Images.{
  source_kind_of, same_source, ResolveRequest, is_available, ImageBackendCapabilities,
  operation_capabilities,
}
use digdir_agents.Service.Model.{
  Mount, mount_kind, same_mount, NetworkEndpointCapabilities, supports, NetworkAttachment,
  SandboxBackendCapabilities, Sandbox, EnsureSandboxRequest,
}
use digdir_agents.Service.Interfaces.{NetworkBackend}

-- The loop over the required features in `require_backend_features`.
unfoldable pub require_features :
    List SandboxFeature → List SandboxFeature → Result Error (Unit {0})
require_features offered [] = ok tt
require_features offered (f ∷ fs) = do
  ensure (any (same_feature f) offered) (unsupported_feature f)
  require_features offered fs

-- The loop over the mounts in `require_backend_features`.
unfoldable pub require_mounts : List MountKind → List Mount → Result Error (Unit {0})
require_mounts offered [] = ok tt
require_mounts offered (m ∷ ms) = do
  ensure (any (same_mount_kind (mount_kind m)) offered) (unsupported_mount_kind (mount_kind m))
  require_mounts offered ms

-- What `require_backend_features` asks of the sandbox backend.
unfoldable pub require_capabilities :
    SandboxBackendCapabilities
    → List SandboxFeature
    → List Mount
    → RootFilesystemMode
    → Result Error (Unit {0})
require_capabilities c features mounts mode = do
  require_features c.features features
  require_mounts c.mounts mounts
  ensure (any (same_mode mode) c.root_filesystems) (unsupported_root_filesystem_mode mode)

-- `require_image_operation`, from the image backend's capabilities on.
unfoldable pub check_image_operation :
    ImageBackendCapabilities → ImageOperation → ResolveRequest → Result Error (Unit {0})
check_image_operation capabilities operation request = do
  let c = operation_capabilities capabilities operation
  let source = source_kind_of request.source
  ensure (is_available c) (unsupported_image_operation operation)
  ensure (any (same_source_kind source) c.sources) (unsupported_image_source_kind operation source)
  ensure (any (same_mode request.root_filesystem_mode) c.root_filesystem_modes)
      (unsupported_image_root_filesystem_mode operation request.root_filesystem_mode)

module _ {W : Type 0} where
  -- The end of `require_backend_features`: the attachment of the network backend, if there is one.
  unfoldable pub select_attachment :
      Option (NetworkBackend W)
      → NetworkEndpointCapabilities
      → Result Error (Option NetworkAttachment)
  select_attachment none c = ok none
  select_attachment (some b) c = do
    selection ← ok_or (b.select_endpoint c) (network_endpoint_unavailable b.id)
    ensure (supports c selection) (unsupported_network_endpoint selection)
    ok (some (record { backend = b.id; endpoint = selection }))

  abbrev pub attached_to :
      Option (NetworkBackend W) → Str → Result Error (Option (NetworkBackend W))
  attached_to none id = err (network_backend_unavailable id)
  attached_to (some b) id =
      if same_text b.id id then ok (some b) else err (network_backend_unavailable id)

  -- `network_backend_for`.
  unfoldable pub network_backend_for :
      Option (NetworkBackend W)
      → Option NetworkAttachment
      → Result Error (Option (NetworkBackend W))
  network_backend_for b none = ok none
  network_backend_for b (some attachment) = attached_to b attachment.backend

-- The fields that an existing sandbox must share with the request.
unfoldable pub require_unchanged : Sandbox → EnsureSandboxRequest → Result Error (Unit {0})
require_unchanged sandbox request = do
  ensure (satisfies sandbox.image.platform request.spec.platform) (immutable "platform")
  ensure (same_source sandbox.image.source request.spec.image) (immutable "image")
  ensure
      (same_mode sandbox.resources.root_filesystem.mode request.spec.resources.root_filesystem.mode)
      (immutable "resources.rootFilesystem.mode")
  ensure (same_init sandbox.init_system request.spec.init_system) (immutable "initSystem")
  ensure (list_eq same_mount sandbox.mounts request.mounts) (immutable "mounts")
