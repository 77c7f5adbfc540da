-- ===== src/Service.antt =====
-- The sandbox service: sandbox/core/src/service.rs and what it stands on. This file has the closed
-- sets of names; its children have the platforms, images and sandboxes, the interfaces that a
-- provider implements, and the service's operations.
pub mod Errors
pub mod Platform
pub mod Images
pub mod Model
pub mod Request
pub mod Effects
pub mod Interfaces
pub mod Checks
pub mod Discovery
pub mod Ensure
pub mod Release
pub mod Sameness
pub mod Compatible
pub mod Refused
pub mod Portable
pub mod Preorder
pub mod Memory
mod Tests
use digdir_agents.Base.{◌==◌, Str, same_text, ℕ, Bool, true, false}

pub data ResourceKind : Type 0 where
  sandbox_resource execution_resource volume_resource image_resource : ResourceKind
  file_resource network_resource secret_resource : ResourceKind

pub data ErrorKind : Type 0 where
  not_found_kind invalid_request_kind immutable_kind unsupported_kind : ErrorKind
  execution_kind io_kind backend_kind : ErrorKind

pub data SandboxFeature : Type 0 where
  execution_feature terminal_execution terminal_attach file_transfer : SandboxFeature
  persistent_volumes nested_containers image_init nested_sandboxes : SandboxFeature

pub data MountKind : Type 0 where
  volume_mount bind_mount tmpfs_mount : MountKind

pub data RootFilesystemMode : Type 0 where
  layered direct : RootFilesystemMode

pub data ImageOperation : Type 0 where
  resolve_operation prepared_image_export_operation prepared_image_import_operation : ImageOperation

pub data ImageSourceKind : Type 0 where
  build_kind reference_kind : ImageSourceKind

pub data PacketMedium : Type 0 where
  ethernet ip : PacketMedium

-- `NetworkEndpointSelection`; a control protocol is its text.
pub data NetworkEndpointSelection : Type 0 where
  packet : (medium : PacketMedium) → NetworkEndpointSelection
  intercepted : NetworkEndpointSelection
  control : (protocol : Str) → NetworkEndpointSelection

pub data InitSystem : Type 0 where
  backend_init image_process : InitSystem

pub data SandboxState : Type 0 where
  stopped running : SandboxState

pub data RetentionPolicy : Type 0 where
  retain delete : RetentionPolicy

-- The position of a feature in the order that `Ord` derives.
unfoldable pub feature_rank : SandboxFeature → ℕ
feature_rank execution_feature = 0
feature_rank terminal_execution = 1
feature_rank terminal_attach = 2
feature_rank file_transfer = 3
feature_rank persistent_volumes = 4
feature_rank nested_containers = 5
feature_rank image_init = 6
feature_rank nested_sandboxes = 7

-- The derived `PartialEq` of the closed sets.
unfoldable pub same_feature : SandboxFeature → SandboxFeature → Bool
same_feature f g = feature_rank f == feature_rank g

unfoldable pub same_mount_kind : MountKind → MountKind → Bool
same_mount_kind volume_mount volume_mount = true
same_mount_kind bind_mount bind_mount = true
same_mount_kind tmpfs_mount tmpfs_mount = true
same_mount_kind _ _ = false

unfoldable pub same_mode : RootFilesystemMode → RootFilesystemMode → Bool
same_mode layered layered = true
same_mode direct direct = true
same_mode _ _ = false

unfoldable pub same_source_kind : ImageSourceKind → ImageSourceKind → Bool
same_source_kind build_kind build_kind = true
same_source_kind reference_kind reference_kind = true
same_source_kind _ _ = false

unfoldable pub same_medium : PacketMedium → PacketMedium → Bool
same_medium ethernet ethernet = true
same_medium ip ip = true
same_medium _ _ = false

unfoldable pub same_selection : NetworkEndpointSelection → NetworkEndpointSelection → Bool
same_selection (packet m) (packet n) = same_medium m n
same_selection intercepted intercepted = true
same_selection (control p) (control q) = same_text p q
same_selection _ _ = false

unfoldable pub same_init : InitSystem → InitSystem → Bool
same_init backend_init backend_init = true
same_init image_process image_process = true
same_init _ _ = false

unfoldable pub is_stopped : SandboxState → Bool
is_stopped stopped = true
is_stopped running = false

unfoldable pub is_running_state : SandboxState → Bool
is_running_state running = true
is_running_state stopped = false
