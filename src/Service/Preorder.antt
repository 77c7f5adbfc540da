-- ===== src/Service/Preorder.antt =====
-- How platforms compare: sandbox/core/src/platform.rs.
use digdir_agents.Base.{
  Bool-cases, Str, same_text, and_parts, and3_parts, same_text-IsEquality, ◌≡◌, refl, inl, inr,
  true, ◌&&◌, Option, none, some, List, [], ◌∷◌,
}
use digdir_agents.Service.Errors.{Platform}
use digdir_agents.Service.Platform.{has_text, is_superset, meets, satisfies}

same_text_trans : (a b c : Str) → same_text a b ≡ true → same_text b c ≡ true → same_text a c ≡ true
same_text_trans a b c h k = rw (same_text-IsEquality.0 a b h) k

-- A part that meets what meets another meets the other.
meets_trans :
    (wanted middle has : Option Str)
    → meets wanted middle ≡ true
    → meets middle has ≡ true
    → meets wanted has ≡ true
meets_trans none middle has h k = refl
meets_trans (some w) none has h k = cc
meets_trans (some w) (some m) none h k = cc
meets_trans (some w) (some m) (some x) h k = same_text_trans x m w k h

has_text-superset :
    (t : Str) (has wanted : List Str)
    → has_text t wanted ≡ true
    → is_superset has wanted ≡ true
    → has_text t has ≡ true
unfolding has_text is_superset
has_text-superset t has [] h k = cc
has_text-superset t has (w ∷ ws) h k = elim (Bool-cases (same_text t w)) [
  | inl same ↦
      rw (same_text-IsEquality.0 t w same) (and_parts (has_text w has) (is_superset has ws) k).0
  | inr other ↦
      has_text-superset t has ws (rw other at h)
        (and_parts (has_text w has) (is_superset has ws) k).1
]

superset_trans :
    (has middle wanted : List Str)
    → is_superset has middle ≡ true
    → is_superset middle wanted ≡ true
    → is_superset has wanted ≡ true
unfolding is_superset
superset_trans has middle [] h k = refl
superset_trans has middle (w ∷ ws) h k =
    let (first, rest) = and_parts (has_text w middle) (is_superset middle ws) k in
    rw (has_text-superset w has middle first h, superset_trans has middle ws h rest) refl

-- The five parts of `satisfies`.
record Parts (p requested : Platform) : Type 0 where
  os : same_text p.os requested.os ≡ true
  architecture : same_text p.architecture requested.architecture ≡ true
  variant : meets requested.variant p.variant ≡ true
  version : meets requested.os_version p.os_version ≡ true
  features : is_superset p.os_features requested.os_features ≡ true

satisfies-Parts : (p q : Platform) → satisfies p q ≡ true → Parts p q
unfolding satisfies
satisfies-Parts p q h =
    let (first, features) =
      and_parts
        (same_text p.os q.os
          && same_text p.architecture q.architecture
          && meets q.variant p.variant
          && meets q.os_version p.os_version)
        (is_superset p.os_features q.os_features) h in
    let (front, version) =
      and_parts
        (same_text p.os q.os
          && same_text p.architecture q.architecture
          && meets q.variant p.variant)
        (meets q.os_version p.os_version) first in
    let (os, architecture, variant) =
      and3_parts (same_text p.os q.os) (same_text p.architecture q.architecture)
        (meets q.variant p.variant) front in
    record {
      os = os;
      architecture = architecture;
      variant = variant;
      version = version;
      features = features;
    }

-- A platform that satisfies one that satisfies a request satisfies the request.
pub satisfies_trans :
    (p q requested : Platform)
    → satisfies p q ≡ true
    → satisfies q requested ≡ true
    → satisfies p requested ≡ true
unfolding satisfies
satisfies_trans p q requested h k =
    let a = satisfies-Parts p q h in
    let b = satisfies-Parts q requested k in
    rw
      (
        same_text_trans p.os q.os requested.os a.os b.os,
        same_text_trans p.architecture q.architecture requested.architecture a.architecture
            b.architecture,
        meets_trans requested.variant q.variant p.variant b.variant a.variant,
        meets_trans requested.os_version q.os_version p.os_version b.version a.version,
        superset_trans p.os_features q.os_features requested.os_features a.features b.features,
      )
      refl
