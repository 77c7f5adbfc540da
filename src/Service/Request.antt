-- ===== src/Service/Request.antt =====
-- What an ensure request asks for and how it is checked: sandbox/core/src/service.rs.
use digdir_agents.Base.{
  ltb, leb, ◌==◌, if◌then◌else◌, any, Str, list_is_empty, Result, ok, ◌>>◌, ℕ, suc, Bool, true, not,
  ◌&&◌, ◌||◌, Option, none, some, List, [], ◌∷◌,
}
use digdir_agents.Service.{
  SandboxFeature, persistent_volumes, image_init, nested_sandboxes, volume_mount, image_process,
  feature_rank, same_feature, same_mount_kind, same_init,
}
use digdir_agents.Service.Errors.{Error}
use digdir_agents.Service.Platform.{require, validate_platform}
use digdir_agents.Service.Images.{validate_source}
use digdir_agents.Service.Model.{Mount, mount_kind, Environment, SandboxSpec, EnsureSandboxRequest}

-- `SandboxSpec::validate`.
unfoldable pub validate_spec : SandboxSpec → Result Error (Unit {0})
validate_spec spec = do validate_source spec.image; validate_platform spec.platform

-- `Option::unwrap_or`.
abbrev pub value_or {ℓ} : {A : Type ℓ} → A → Option A → A
value_or other none = other
value_or other (some a) = a

-- `EnsureSandboxRequest::hostname`.
unfoldable pub request_hostname : EnsureSandboxRequest → Str
request_hostname request = value_or request.name request.hostname

-- `SandboxFeatureSet::insert`, into a list in the order of the features.
unfoldable pub insert_feature : SandboxFeature → List SandboxFeature → List SandboxFeature
insert_feature f [] = f ∷ []
insert_feature f (g ∷ gs) =
    let rest = insert_feature f gs in
    if ltb (feature_rank f) (feature_rank g)
    then f ∷ g ∷ gs
    else if same_feature f g
    then g ∷ gs
    else g ∷ rest

abbrev pub insert_when : Bool → SandboxFeature → List SandboxFeature → List SandboxFeature
insert_when test f fs = if test then insert_feature f fs else fs

abbrev pub is_volume : Mount → Bool
is_volume m = same_mount_kind (mount_kind m) volume_mount

unfoldable pub with_volumes : List Mount → List SandboxFeature → List SandboxFeature
with_volumes [] fs = fs
with_volumes (m ∷ ms) fs = with_volumes ms (insert_when (is_volume m) persistent_volumes fs)

-- `EnsureSandboxRequest::effective_required_features`.
unfoldable pub effective_required_features : EnsureSandboxRequest → List SandboxFeature
effective_required_features request = insert_when request.spec.resources.nested nested_sandboxes (
    insert_when (same_init request.spec.init_system image_process) image_init
      (with_volumes request.mounts request.required_features))

-- A byte of a variable's name, at the first place or later.
unfoldable pub is_ascii_alphabetic : ℕ → Bool
is_ascii_alphabetic b = (leb b'a' b && leb b b'z') || (leb b'A' b && leb b b'Z')

unfoldable pub is_decimal : ℕ → Bool
is_decimal b = leb b'0' b && leb b b'9'

unfoldable pub valid_name_from : ℕ → Str → Bool
valid_name_from index [] = true
valid_name_from index (b ∷ bs) =
    ((b == b'_') || is_ascii_alphabetic b || (ltb 0 index && is_decimal b))
    && valid_name_from (suc index) bs

unfoldable pub valid_variable : Str × Str → Bool
valid_variable v = not (list_is_empty v.0) && valid_name_from 0 v.0 && not (any (λ c. c == 0) v.1)

-- `validate_environment`.
unfoldable pub validate_environment : Environment → Result Error (Unit {0})
validate_environment [] = ok tt
validate_environment (v ∷ vs) = do
  require (valid_variable v) "environment"
      "names must be portable environment variables and values must not contain NUL"
  validate_environment vs
