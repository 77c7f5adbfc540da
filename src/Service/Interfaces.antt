-- ===== src/Service/Interfaces.antt =====
-- What a provider and a network backend implement: sandbox/core/src/{backend,image,network}.rs. The
-- service's operations take an implementation as their parameter. An endpoint is the selection that it
-- answers to, and the events that a component itself reports are left out.
use digdir_agents.Base.{Str, Bool, Option}
use digdir_agents.Service.{NetworkEndpointSelection}
use digdir_agents.Service.Errors.{Platform}
use digdir_agents.Service.Images.{
  ResolveRequest, ResolvedImage, PreparedImage, ImageBackendCapabilities,
}
use digdir_agents.Service.Model.{
  SandboxId, SandboxResources, Environment, NetworkEndpointCapabilities, SandboxBackendCapabilities,
  Sandbox, CreateSandboxRequest,
}
use digdir_agents.Service.Effects.{Effect}

-- `SandboxBackend`, of which the lifecycle operations are used here.
pub record SandboxBackend (W : Type 0) : Type 0 where
  pub capabilities : Platform → Effect W SandboxBackendCapabilities
  pub create : CreateSandboxRequest → Effect W Sandbox
  pub update_resources : SandboxId → SandboxResources → Effect W Sandbox
  pub update_environment : SandboxId → Environment → Effect W Sandbox
  pub find : Str → Effect W Sandbox
  pub inspect : SandboxId → Effect W Sandbox
  pub start : SandboxId → Effect W (Unit {0})
  pub stop : SandboxId → Effect W (Unit {0})
  pub kill : SandboxId → Effect W (Unit {0})
  pub delete : SandboxId → Effect W (Unit {0})
  pub open_network_endpoint : SandboxId → Effect W NetworkEndpointSelection

-- `ImageBackend`.
pub record ImageBackend (W : Type 0) : Type 0 where
  pub capabilities : Platform → Effect W ImageBackendCapabilities
  pub resolve : ResolveRequest → Effect W ResolvedImage
  pub export_prepared_image : ResolveRequest → Str → Effect W PreparedImage
  pub import_prepared_image : ResolveRequest → Str → Effect W PreparedImage

-- `StartNetworkRequest`.
pub record StartNetworkRequest : Type 0 where
  pub sandbox_id : SandboxId
  pub sandbox_name : Str
  pub endpoint : NetworkEndpointSelection

-- `NetworkBackend`.
pub record NetworkBackend (W : Type 0) : Type 0 where
  pub id : Str
  pub select_endpoint : NetworkEndpointCapabilities → Option NetworkEndpointSelection
  pub is_running : SandboxId → W → Bool
  pub start : StartNetworkRequest → Effect W (Unit {0})
  pub stop : SandboxId → Effect W (Unit {0})
  pub delete : SandboxId → Effect W (Unit {0})

-- `SandboxService`, with where its ids come from: `Uuid::new_v4`.
pub record SandboxService (W : Type 0) : Type 0 where
  pub backend : SandboxBackend W
  pub image_backend : ImageBackend W
  pub network_backend : Option (NetworkBackend W)
  pub generate : W → SandboxId × W
