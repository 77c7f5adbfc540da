-- ===== src/Service/Compatible.antt =====
-- The fields of a sandbox that a request may not change: sandbox/core/src/service.rs.
use digdir_agents.Base.{
  Result, err, ok, ensure, ◌>>◌, String, ◌≡◌, refl, ◌⊎◌, inl, inr, Bool, true, false, arith,
}
use digdir_agents.Service.Errors.{Error, immutable}
use digdir_agents.Service.Platform.{satisfies}
use digdir_agents.Service.Model.{Sandbox, EnsureSandboxRequest}
use digdir_agents.Service.Checks.{require_unchanged}
use digdir_agents.Service.Sameness.{
  same_mode-Sound, same_init-Sound, IsSameSource, IsSameMounts, same_source-IsSameSource,
  list_eq-IsSameMounts,
}

-- What a sandbox must share with the request that ensures it.
pub record IsCompatible (b : Sandbox) (request : EnsureSandboxRequest) : Type 0 where
  pub platform : satisfies b.image.platform request.spec.platform ≡ true
  pub image : IsSameSource b.image.source request.spec.image
  pub mode : b.resources.root_filesystem.mode ≡ request.spec.resources.root_filesystem.mode
  pub init : b.init_system ≡ request.spec.init_system
  pub mounted : IsSameMounts b.mounts request.mounts

-- A check that passes, or that reports an immutable field.
abbrev pub Reports : Result Error (Unit {0}) → Type 0
Reports r = (r ≡ ok tt) ⊎ ((field : String) × (r ≡ err (immutable field)))

ensure-Reports : (test : Bool) (field : String) → Reports (ensure test (immutable field))
ensure-Reports true field = inl refl
ensure-Reports false field = inr (field, refl)

chain-Reports :
    (test : Bool) (field : String) (next : Result Error (Unit {0}))
    → Reports next
    → Reports (ensure test (immutable field) >> next)
chain-Reports true field next h = h
chain-Reports false field next h = inr (field, refl)

pub unchanged_cases :
    (b : Sandbox) (request : EnsureSandboxRequest) → Reports (require_unchanged b request)
unfolding require_unchanged
unchanged_cases b request = chain-Reports _ "platform" _ (
    chain-Reports _ "image" _ (
      chain-Reports _ "resources.rootFilesystem.mode" _
        (chain-Reports _ "initSystem" _ (ensure-Reports _ "mounts"))))

pub require_unchanged-IsCompatible :
    (b : Sandbox) (request : EnsureSandboxRequest)
    → require_unchanged b request ≡ ok tt
    → IsCompatible b request
unfolding require_unchanged
require_unchanged-IsCompatible b request h = record {
  platform = ground (arith, h);
  image = same_source-IsSameSource _ _ (ground (arith, h));
  mode = same_mode-Sound _ _ (ground (arith, h));
  init = same_init-Sound _ _ (ground (arith, h));
  mounted = list_eq-IsSameMounts _ _ (ground (arith, h));
}
