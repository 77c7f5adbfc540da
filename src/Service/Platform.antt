-- ===== src/Service/Platform.antt =====
-- Platforms: sandbox/core/src/platform.rs.
use digdir_agents.Base.{
  list_eq, option_eq, every, any, Str, same_text, list_is_empty, Result, ensure, ◌>>◌, String, Bool,
  true, false, not, ◌&&◌, Option, none, some, List, [],
}
use digdir_agents.Service.Errors.{Platform, Error, invalid}

-- `Error::invalid`, where a test fails.
abbrev pub require : Bool → String → String → Result Error (Unit {0})
require test field reason = ensure test (invalid field reason)

unfoldable pub has_text : Str → List Str → Bool
has_text t ts = any (same_text t) ts

-- `BTreeSet::is_superset`.
unfoldable pub is_superset : List Str → List Str → Bool
is_superset has wanted = every (λ t. has_text t has) wanted

-- `Option::is_none_or` with a comparison: a part that is not asked for is met.
abbrev pub meets : Option Str → Option Str → Bool
meets none has = true
meets (some wanted) has = option_eq same_text has (some wanted)

-- `Platform::satisfies`.
unfoldable pub satisfies : Platform → Platform → Bool
satisfies p requested =
    same_text p.os requested.os
    && same_text p.architecture requested.architecture
    && meets requested.variant p.variant
    && meets requested.os_version p.os_version
    && is_superset p.os_features requested.os_features

abbrev pub empty_when_present : Option Str → Bool
empty_when_present none = false
empty_when_present (some t) = list_is_empty t

-- `Platform::validate`.
unfoldable pub validate_platform : Platform → Result Error (Unit {0})
validate_platform p = do
  require (not (list_is_empty p.os)) "platform.os" "must not be empty"
  require (not (list_is_empty p.architecture)) "platform.architecture" "must not be empty"
  require (not (empty_when_present p.variant)) "platform.variant" "must not be empty when present"
  require (not (empty_when_present p.os_version)) "platform.osVersion"
      "must not be empty when present"
  require (not (has_text [] p.os_features)) "platform.osFeatures" "must not contain an empty value"

-- The derived `PartialEq` of `Platform`.
unfoldable pub same_platform : Platform → Platform → Bool
same_platform p q =
    same_text p.os q.os
    && same_text p.architecture q.architecture
    && option_eq same_text p.variant q.variant
    && option_eq same_text p.os_version q.os_version
    && list_eq same_text p.os_features q.os_features
