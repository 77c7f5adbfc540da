-- ===== src/Service/Memory/Provider.antt =====
-- The in-memory provider behind the interfaces of the service: sandbox/core/src/memory.rs.
use digdir_agents.Base.{if◌then◌else◌, any, Str, err, ok, false, none, List, [], ◌∷◌}
use digdir_agents.Service.{
  execution_feature, terminal_execution, file_transfer, persistent_volumes, image_init,
  volume_mount, bind_mount, tmpfs_mount, layered, direct, prepared_image_export_operation,
  prepared_image_import_operation, build_kind, reference_kind, ethernet, ip, running,
}
use digdir_agents.Service.Errors.{Platform, unsupported_image_operation, unsupported_platform}
use digdir_agents.Service.Platform.{same_platform}
use digdir_agents.Service.Images.{
  ResolveRequest, ResolvedImage, ImageOperationCapabilities, ImageBackendCapabilities,
}
use digdir_agents.Service.Model.{SandboxId, SandboxBackendCapabilities}
use digdir_agents.Service.Effects.{Effect, lift}
use digdir_agents.Service.Interfaces.{SandboxBackend, ImageBackend, SandboxService}
use digdir_agents.Service.Memory.{
  BackendState, inspect_memory, find_memory, create_memory, update_resources_memory,
  update_environment_memory, set_state, stop_memory, delete_memory, open_endpoint_memory,
}

abbrev pub memory_capabilities : SandboxBackendCapabilities
memory_capabilities = record {
  features =
      execution_feature ∷ terminal_execution ∷ file_transfer ∷ persistent_volumes ∷ image_init ∷ [];
  mounts = volume_mount ∷ bind_mount ∷ tmpfs_mount ∷ [];
  root_filesystems = layered ∷ direct ∷ [];
  network = record {
    packet_media = ethernet ∷ ip ∷ [];
    intercepts = false;
    control_protocols = [];
  };
}

-- `capabilities`.
unfoldable pub capabilities_memory :
    List Platform → Platform → Effect BackendState SandboxBackendCapabilities
capabilities_memory supported platform st = (
  if any (same_platform platform) supported
      then ok memory_capabilities
      else err (unsupported_platform platform),
  st,
)

-- `Provider` as a `SandboxBackend`.
abbrev pub memory_backend : List Platform → SandboxBackend BackendState
memory_backend supported = record {
  capabilities = capabilities_memory supported;
  create = create_memory;
  update_resources = update_resources_memory;
  update_environment = update_environment_memory;
  find = find_memory;
  inspect = inspect_memory;
  start = λ id. set_state id running;
  stop = stop_memory;
  kill = stop_memory;
  delete = delete_memory;
  open_network_endpoint = open_endpoint_memory;
}

abbrev pub every_source_and_mode : ImageOperationCapabilities
every_source_and_mode = record {
  sources = build_kind ∷ reference_kind ∷ [];
  root_filesystem_modes = layered ∷ direct ∷ [];
}

abbrev pub no_operation : ImageOperationCapabilities
no_operation = record { sources = []; root_filesystem_modes = [] }

abbrev pub memory_image_capabilities : ImageBackendCapabilities
memory_image_capabilities = record {
  resolve = every_source_and_mode;
  prepared_image_export = no_operation;
  prepared_image_import = no_operation;
}

abbrev pub memory_image : (ResolveRequest → Str) → ResolveRequest → ResolvedImage
memory_image digest request = record {
  source = request.source;
  platform = request.platform;
  manifest_digest = digest request;
}

-- `MemoryImageBackend`; the digest of a manifest is a parameter.
abbrev pub memory_images : (ResolveRequest → Str) → ImageBackend BackendState
memory_images digest = record {
  capabilities = λ platform. lift (ok memory_image_capabilities);
  resolve = λ request. lift (ok (memory_image digest request));
  export_prepared_image = λ request destination.
      lift (err (unsupported_image_operation prepared_image_export_operation));
  import_prepared_image =
      λ request source. lift (err (unsupported_image_operation prepared_image_import_operation));
}

-- A service on the in-memory provider, without a network backend; the ids that are drawn are a
-- parameter.
abbrev pub memory_service :
    List Platform
    → (ResolveRequest → Str)
    → (BackendState → SandboxId)
    → SandboxService BackendState
memory_service supported digest draw = record {
  backend = memory_backend supported;
  image_backend = memory_images digest;
  network_backend = none;
  generate = λ st. (draw st, st);
}
