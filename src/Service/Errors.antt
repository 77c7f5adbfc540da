-- ===== src/Service/Errors.antt =====
-- The errors of sandbox/core/src/service.rs. What is displayed of a number or of a quantity is left
-- as the value itself.
use digdir_agents.Base.{Str, ℕ, String, ◌≡◌, refl, Bool, true, false, Option, none, some, List}
use digdir_agents.Service.{
  ResourceKind, ErrorKind, not_found_kind, invalid_request_kind, immutable_kind, unsupported_kind,
  execution_kind, io_kind, backend_kind, SandboxFeature, MountKind, RootFilesystemMode,
  ImageOperation, ImageSourceKind, NetworkEndpointSelection,
}

-- What a lookup was for: a text, or the number that an id is.
pub data LookupId : Type 0 where
  by_text : Str → LookupId
  by_number : ℕ → LookupId

-- `Platform`: sandbox/core/src/platform.rs. The features are in the order of their set.
pub record Platform : Type 0 where
  pub os : Str
  pub architecture : Str
  pub variant : Option Str
  pub os_version : Option Str
  pub os_features : List Str

pub data Error : Type 0 where
  not_found : (resource : ResourceKind) (id : LookupId) → Error
  immutable : (field : String) → Error
  invalid : (field : String) (reason : String) → Error
  unsupported_feature : SandboxFeature → Error
  unsupported_mount_kind : MountKind → Error
  unsupported_root_filesystem_mode : RootFilesystemMode → Error
  unsupported_image_operation : ImageOperation → Error
  unsupported_image_source_kind :
      (operation : ImageOperation) (source_kind : ImageSourceKind) → Error
  unsupported_image_root_filesystem_mode :
      (operation : ImageOperation) (mode : RootFilesystemMode) → Error
  unsupported_platform : Platform → Error
  unsupported_resource_value : (resource : String) (value : ℕ) (reason : String) → Error
  unsupported_resource_change :
      (resource : String) (current : ℕ) (requested : ℕ) (reason : String) → Error
  sandbox_id_mismatch : (expected : ℕ) (actual : ℕ) → Error
  network_backend_unavailable network_endpoint_unavailable : (backend : Str) → Error
  unsupported_network_endpoint : NetworkEndpointSelection → Error
  network_endpoint_mismatch :
      (expected : NetworkEndpointSelection) (actual : NetworkEndpointSelection) → Error
  image_platform_mismatch : (requested : Platform) (actual : Platform) → Error
  io : (operation : String) → Error
  execution_failed : (id : ℕ) (message : String) → Error
  execution_stream_ended : (id : ℕ) → Error
  operation_stream_ended : Error
  component : (operation : String) (source : Error) → Error
  backend_error : (message : String) → Error

-- `Error::kind`.
unfoldable pub error_kind : Error → ErrorKind
error_kind (not_found resource id) = not_found_kind
error_kind (immutable field) = immutable_kind
error_kind (sandbox_id_mismatch expected actual) = immutable_kind
error_kind (network_endpoint_mismatch expected actual) = immutable_kind
error_kind (invalid field reason) = invalid_request_kind
error_kind (image_platform_mismatch requested actual) = invalid_request_kind
error_kind (unsupported_feature feature) = unsupported_kind
error_kind (unsupported_mount_kind kind) = unsupported_kind
error_kind (unsupported_root_filesystem_mode mode) = unsupported_kind
error_kind (unsupported_image_operation operation) = unsupported_kind
error_kind (unsupported_image_source_kind operation source_kind) = unsupported_kind
error_kind (unsupported_image_root_filesystem_mode operation mode) = unsupported_kind
error_kind (unsupported_platform platform) = unsupported_kind
error_kind (unsupported_resource_value resource value reason) = unsupported_kind
error_kind (unsupported_resource_change resource current requested reason) = unsupported_kind
error_kind (network_backend_unavailable backend) = unsupported_kind
error_kind (network_endpoint_unavailable backend) = unsupported_kind
error_kind (unsupported_network_endpoint selection) = unsupported_kind
error_kind (io operation) = io_kind
error_kind (execution_failed id message) = execution_kind
error_kind (execution_stream_ended id) = execution_kind
error_kind operation_stream_ended = backend_kind
error_kind (backend_error message) = backend_kind
error_kind (component operation source) = error_kind source

abbrev pub is_not_found_kind : ErrorKind → Bool
is_not_found_kind not_found_kind = true
is_not_found_kind _ = false

-- `Error::is_not_found`.
unfoldable pub is_not_found : Error → Bool
is_not_found error = is_not_found_kind (error_kind error)

-- `Error::not_found_target`.
unfoldable pub not_found_target : Error → Option (ResourceKind × LookupId)
not_found_target (not_found resource id) = some (resource, id)
not_found_target (component operation source) = not_found_target source
not_found_target _ = none

abbrev pub present {ℓ} : {A : Type ℓ} → Option A → Bool
present none = false
present (some _) = true

-- An error reports a missing resource exactly when its category is not-found, whatever components it
-- passed through.
pub not_found_target-is_not_found : (e : Error) → present (not_found_target e) ≡ is_not_found e
unfolding not_found_target is_not_found error_kind
not_found_target-is_not_found (component operation source) = not_found_target-is_not_found source
not_found_target-is_not_found _ = refl
