-- ===== src/Service/Model.antt =====
-- Sandboxes, their mounts, resources and attachments, and the request that ensures one:
-- sandbox/core/src/{mount,root_filesystem,network,backend,service}.rs. Sets are lists in their order,
-- and the environment lists its names in order. A quantity is the number it stands for, and an id
-- the number that its UUID is.
use digdir_agents.Base.{
  ◌==◌, list_eq, any, Str, same_text, ℕ, Bool, true, false, not, ◌&&◌, Option, List,
}
use digdir_agents.Text.Paths.{same_path}
use digdir_agents.Service.{
  SandboxFeature, MountKind, volume_mount, bind_mount, tmpfs_mount, RootFilesystemMode,
  PacketMedium, NetworkEndpointSelection, packet, intercepted, control, InitSystem, SandboxState,
  RetentionPolicy, same_mode, same_medium, same_selection,
}
use digdir_agents.Service.Errors.{Platform}
use digdir_agents.Service.Images.{ImageSource, ResolvedImage}

abbrev pub SandboxId : Type 0
SandboxId = ℕ

-- `Mount`.
pub data Mount : Type 0 where
  volume_at : (id : ℕ) (target : Str) (read_only : Bool) → Mount
  bind_at : (source : Str) (target : Str) (read_only : Bool) → Mount
  tmpfs_at : (target : Str) (capacity : ℕ) → Mount

-- `Mount::kind`.
unfoldable pub mount_kind : Mount → MountKind
mount_kind (volume_at id target read_only) = volume_mount
mount_kind (bind_at source target read_only) = bind_mount
mount_kind (tmpfs_at target capacity) = tmpfs_mount

abbrev pub same_bool : Bool → Bool → Bool
same_bool true b = b
same_bool false b = not b

-- The derived `PartialEq` of `Mount`.
unfoldable pub same_mount : Mount → Mount → Bool
same_mount (volume_at i t r) (volume_at i' t' r') = (i == i') && same_text t t' && same_bool r r'
same_mount (bind_at s t r) (bind_at s' t' r') = same_path s s' && same_text t t' && same_bool r r'
same_mount (tmpfs_at t c) (tmpfs_at t' c') = same_text t t' && (c == c')
same_mount _ _ = false

pub record RootFilesystem : Type 0 where
  pub capacity : ℕ
  pub mode : RootFilesystemMode

pub record SandboxResources : Type 0 where
  pub cpu : ℕ
  pub memory : ℕ
  pub root_filesystem : RootFilesystem
  pub nested : Bool

-- The derived `PartialEq` of `SandboxResources`.
unfoldable pub same_resources : SandboxResources → SandboxResources → Bool
same_resources r s =
    (r.cpu == s.cpu)
    && (r.memory == s.memory)
    && ((r.root_filesystem.capacity == s.root_filesystem.capacity)
        && same_mode r.root_filesystem.mode s.root_filesystem.mode)
    && same_bool r.nested s.nested

abbrev pub Environment : Type 0
Environment = List (Str × Str)

abbrev pub same_variable : Str × Str → Str × Str → Bool
same_variable v w = same_text v.0 w.0 && same_text v.1 w.1

unfoldable pub same_environment : Environment → Environment → Bool
same_environment = list_eq same_variable

pub record NetworkEndpointCapabilities : Type 0 where
  pub packet_media : List PacketMedium
  pub intercepts : Bool
  pub control_protocols : List Str

-- `NetworkEndpointCapabilities::supports`.
unfoldable pub supports : NetworkEndpointCapabilities → NetworkEndpointSelection → Bool
supports c (packet medium) = any (same_medium medium) c.packet_media
supports c intercepted = c.intercepts
supports c (control protocol) = any (same_text protocol) c.control_protocols

pub record NetworkAttachment : Type 0 where
  pub backend : Str
  pub endpoint : NetworkEndpointSelection

-- The derived `PartialEq` of `NetworkAttachment`.
unfoldable pub same_attachment : NetworkAttachment → NetworkAttachment → Bool
same_attachment a b = same_text a.backend b.backend && same_selection a.endpoint b.endpoint

pub record SandboxBackendCapabilities : Type 0 where
  pub features : List SandboxFeature
  pub mounts : List MountKind
  pub root_filesystems : List RootFilesystemMode
  pub network : NetworkEndpointCapabilities

-- `Sandbox`, with the sequence number of the guest's latest heartbeat.
pub record Sandbox : Type 0 where
  pub id : SandboxId
  pub image : ResolvedImage
  pub init_system : InitSystem
  pub name : Str
  pub hostname : Str
  pub resources : SandboxResources
  pub state : SandboxState
  pub guest_heartbeat : Option ℕ
  pub mounts : List Mount
  pub environment : Environment
  pub network : Option NetworkAttachment

pub record CreateSandboxRequest : Type 0 where
  pub id : SandboxId
  pub image : ResolvedImage
  pub name : Str
  pub hostname : Str
  pub resources : SandboxResources
  pub init_system : InitSystem
  pub mounts : List Mount
  pub environment : Environment
  pub network : Option NetworkAttachment

pub record SandboxSpec : Type 0 where
  pub image : ImageSource
  pub platform : Platform
  pub resources : SandboxResources
  pub init_system : InitSystem
  pub retention_policy : RetentionPolicy

pub record EnsureSandboxRequest : Type 0 where
  pub name : Str
  pub hostname : Option Str
  pub spec : SandboxSpec
  pub mounts : List Mount
  pub environment : Environment
  pub required_features : List SandboxFeature
