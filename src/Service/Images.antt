-- ===== src/Service/Images.antt =====
-- Image sources and what an image backend returns: sandbox/core/src/image.rs.
use digdir_agents.Base.{
  ◌==◌, option_eq, Str, same_text, list_is_empty, Result, ensure, ◌>>◌, ℕ, Bool, false, not, ◌&&◌,
  Option, none, some, List,
}
use digdir_agents.Text.{trim_start}
use digdir_agents.Text.Paths.{same_path}
use digdir_agents.Service.{
  RootFilesystemMode, ImageOperation, resolve_operation, prepared_image_export_operation,
  prepared_image_import_operation, ImageSourceKind, build_kind, reference_kind, same_mode,
}
use digdir_agents.Service.Errors.{Platform, Error, image_platform_mismatch}
use digdir_agents.Service.Platform.{require, satisfies, validate_platform}

-- `ImageSource`; a path is its text.
pub data ImageSource : Type 0 where
  build : (context : Str) (dockerfile : Str) (target : Option Str) → ImageSource
  reference : (reference : Str) → ImageSource

-- `ImageSource::kind`.
unfoldable pub source_kind_of : ImageSource → ImageSourceKind
source_kind_of (build context dockerfile target) = build_kind
source_kind_of (reference name) = reference_kind

-- `str::trim`, of which only emptiness is asked.
unfoldable pub is_blank : Str → Bool
is_blank t = list_is_empty (trim_start t)

abbrev pub blank_when_present : Option Str → Bool
blank_when_present none = false
blank_when_present (some t) = is_blank t

-- `ImageSource::validate`.
unfoldable pub validate_source : ImageSource → Result Error (Unit {0})
validate_source (build context dockerfile target) = do
  require (not (list_is_empty context)) "image.context" "must not be empty"
  require (not (list_is_empty dockerfile)) "image.dockerfile" "must not be empty"
  require (not (blank_when_present target)) "image.target" "must not be empty"
validate_source (reference name) =
    require (not (is_blank name)) "image.reference" "must not be empty"

-- The derived `PartialEq` of `ImageSource`.
unfoldable pub same_source : ImageSource → ImageSource → Bool
same_source (build c d t) (build c' d' t') =
    same_path c c' && same_path d d' && option_eq same_text t t'
same_source (reference r) (reference r') = same_text r r'
same_source _ _ = false

pub record ResolveRequest : Type 0 where
  pub source : ImageSource
  pub platform : Platform
  pub root_filesystem_mode : RootFilesystemMode

-- `ResolveRequest::validate`.
unfoldable pub validate_resolve : ResolveRequest → Result Error (Unit {0})
validate_resolve request = do validate_source request.source; validate_platform request.platform

pub record ResolvedImage : Type 0 where
  pub source : ImageSource
  pub platform : Platform
  pub manifest_digest : Str

-- `ResolvedImage::validate`.
unfoldable pub validate_resolved : ResolvedImage → Result Error (Unit {0})
validate_resolved image = do
  validate_source image.source
  validate_platform image.platform
  require (not (list_is_empty image.manifest_digest)) "image.manifestDigest" "must not be empty"

pub record PreparedImage : Type 0 where
  pub image : ResolvedImage
  pub root_filesystem_mode : RootFilesystemMode
  pub artifact_digest : Str
  pub virtual_size_bytes : ℕ

-- `PreparedImage::validate_for`.
unfoldable pub validate_for : PreparedImage → ResolveRequest → Result Error (Unit {0})
validate_for prepared request = do
  validate_resolved prepared.image
  require (same_source prepared.image.source request.source) "preparedImage.image.source"
      "must match the requested Image Source"
  ensure (satisfies prepared.image.platform request.platform)
      (image_platform_mismatch request.platform prepared.image.platform)
  require (same_mode prepared.root_filesystem_mode request.root_filesystem_mode)
      "preparedImage.rootFilesystemMode" "must match the requested root filesystem mode"
  require (not (list_is_empty prepared.artifact_digest)) "preparedImage.artifactDigest"
      "must not be empty"
  require (not (prepared.virtual_size_bytes == 0)) "preparedImage.virtualSizeBytes"
      "must be greater than zero"

pub record ImageOperationCapabilities : Type 0 where
  pub sources : List ImageSourceKind
  pub root_filesystem_modes : List RootFilesystemMode

-- `ImageOperationCapabilities::is_available`.
unfoldable pub is_available : ImageOperationCapabilities → Bool
is_available c = not (list_is_empty c.sources) && not (list_is_empty c.root_filesystem_modes)

pub record ImageBackendCapabilities : Type 0 where
  pub resolve : ImageOperationCapabilities
  pub prepared_image_export : ImageOperationCapabilities
  pub prepared_image_import : ImageOperationCapabilities

-- The capabilities that `require_image_operation` looks at.
unfoldable pub operation_capabilities :
    ImageBackendCapabilities → ImageOperation → ImageOperationCapabilities
operation_capabilities c resolve_operation = c.resolve
operation_capabilities c prepared_image_export_operation = c.prepared_image_export
operation_capabilities c prepared_image_import_operation = c.prepared_image_import
