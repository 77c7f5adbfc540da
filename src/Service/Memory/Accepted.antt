-- ===== src/Service/Memory/Accepted.antt =====
-- The checks that a request passes on the in-memory provider: sandbox/core/src/{service,memory}.rs.
use digdir_agents.Base.{
  any, Str, and_parts, same_text-IsEquality, ok, ◌≡◌, refl, true, Option, none, some, List, [], ◌∷◌,
  arith,
}
use digdir_agents.Service.{
  RootFilesystemMode, layered, direct, resolve_operation, ImageSourceKind, build_kind,
  reference_kind, same_mode, same_source_kind,
}
use digdir_agents.Service.Errors.{Platform}
use digdir_agents.Service.Platform.{has_text, is_superset, meets, satisfies, same_platform}
use digdir_agents.Service.Images.{
  source_kind_of, ResolveRequest, is_available, operation_capabilities,
}
use digdir_agents.Service.Model.{SandboxId, EnsureSandboxRequest}
use digdir_agents.Service.Request.{effective_required_features}
use digdir_agents.Service.Interfaces.{SandboxService}
use digdir_agents.Service.Checks.{require_capabilities, check_image_operation, select_attachment}
use digdir_agents.Service.Discovery.{
  backend_capabilities, image_backend_capabilities, require_image_operation,
  require_backend_features,
}
use digdir_agents.Service.Memory.{BackendState}
use digdir_agents.Service.Memory.Provider.{
  memory_capabilities, capabilities_memory, every_source_and_mode, memory_image_capabilities,
  memory_service,
}

meets_itself : (part : Option Str) → meets part part ≡ true
meets_itself none = refl
meets_itself (some t) = same_text-IsEquality.1 t

superset_grows :
    (t : Str) (has wanted : List Str)
    → is_superset has wanted ≡ true
    → is_superset (t ∷ has) wanted ≡ true
unfolding is_superset has_text
superset_grows t has [] h = refl
superset_grows t has (u ∷ us) h =
    let (first, rest) = and_parts (has_text u has) (is_superset has us) h in
    ground (arith, first, superset_grows t has us rest)

superset_itself : (ts : List Str) → is_superset ts ts ≡ true
unfolding is_superset has_text
superset_itself [] = refl
superset_itself (t ∷ ts) =
    ground (arith, same_text-IsEquality.1 t, superset_grows t ts ts (superset_itself ts))

-- A platform satisfies itself.
pub satisfies_itself : (p : Platform) → satisfies p p ≡ true
unfolding satisfies
satisfies_itself p =
    rw
      (
        same_text-IsEquality.1 p.os,
        same_text-IsEquality.1 p.architecture,
        meets_itself p.variant,
        meets_itself p.os_version,
      )
      (superset_itself p.os_features)

any_source : (k : ImageSourceKind) → any (same_source_kind k) every_source_and_mode.sources ≡ true
unfolding same_source_kind
any_source build_kind = refl
any_source reference_kind = refl

any_mode :
    (m : RootFilesystemMode) → any (same_mode m) every_source_and_mode.root_filesystem_modes ≡ true
unfolding same_mode
any_mode layered = refl
any_mode direct = refl

-- The in-memory images resolve every source in every mode.
images_resolve :
    (request : ResolveRequest)
    → check_image_operation memory_image_capabilities resolve_operation request ≡ ok tt
unfolding check_image_operation operation_capabilities is_available
images_resolve request =
    rw (any_source (source_kind_of request.source), any_mode request.root_filesystem_mode) refl

module _ (supported : List Platform) (digest : ResolveRequest → Str)
    (draw : BackendState → SandboxId) where
  abbrev s : SandboxService BackendState
  s = memory_service supported digest draw

  abbrev pub IsCapable : Platform → EnsureSandboxRequest → Type 0
  IsCapable platform request =
      (any (same_platform platform) supported ≡ true)
      × (require_capabilities memory_capabilities (effective_required_features request)
            request.mounts request.spec.resources.root_filesystem.mode
          ≡ ok tt)

  pub require_backend_features-capable :
      (platform : Platform) (request : EnsureSandboxRequest) (st : BackendState)
      → IsCapable platform request
      → require_backend_features s platform request st ≡ (ok none, st)
  unfolding require_backend_features backend_capabilities require_image_operation
      image_backend_capabilities capabilities_memory select_attachment
  require_backend_features-capable platform request st (known, capable) =
      rw (known, capable, images_resolve _) refl
