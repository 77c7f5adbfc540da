-- ===== src/Agents/Validation/Harnesses.antt =====
-- What the loop over the harness installations accepts: agentctl/src/manifest.rs.
use digdir_agents.Base.{
  ltb, ◌==◌, if◌then◌else◌, ==→eq, Bool-cases, length, All, list_is_empty, ok, >>=-eq-ok, ℕ, suc,
  ◌+◌, ◌≤◌, ◌≡◌, refl, ◌≢◌, ◌↔◌, ◌⊎◌, inl, inr, true, not, ◌&&◌, ◌||◌, Option, none, some, List, [],
  ◌∷◌, map, arith,
}
use digdir_agents.Agents.Harness.{Harness, same_harness}
use digdir_agents.Agents.Model.{HarnessSpec}
use digdir_agents.Agents.Validation.{
  has_kind, Installations, validate_installation, count_installation, validate_installations,
  no_installations, reject_duplicate, check_installed, validate_harnesses,
}
use digdir_agents.Agents.Validation.Distinct.{Distinct, Fresh, Fresh-Distinct, Unseen-nothing}
use digdir_agents.Agents.Validation.Spelled.{not_empty}
use digdir_agents.Agents.Validation.Mounts.{passed}
use digdir_agents.Agents.Validation.Installed.{
  same_harness-IsEquality, IsInstallation, checks_read, installation_accepted,
}

unfoldable pub count_defaults : List HarnessSpec → ℕ
count_defaults [] = 0
count_defaults (h ∷ hs) = (if h.default then 1 else 0) + count_defaults hs

counted : Installations → List HarnessSpec → Installations
counted seen [] = seen
counted seen (h ∷ hs) = counted (count_installation h seen) hs

installations_read :
    (index : ℕ) (seen : Installations) (hs : List HarnessSpec) (out : Installations)
    → validate_installations index seen hs ≡ ok out
    → All IsInstallation hs × (out ≡ counted seen hs)
unfolding validate_installations counted
installations_read index seen [] out e = (tt, cc)
installations_read index seen (h ∷ hs) out e =
    let (r, one, rest) = >>=-eq-ok (validate_installation index h) _ e in
    let (all, same) = installations_read (suc index) (count_installation h seen) hs out rest in
    ((checks_read index h one, all), same)

installations_accepted :
    (index : ℕ) (seen : Installations) (hs : List HarnessSpec)
    → All IsInstallation hs
    → validate_installations index seen hs ≡ ok (counted seen hs)
unfolding validate_installations counted
installations_accepted index seen [] all = refl
installations_accepted index seen (h ∷ hs) all =
    rw (installation_accepted index h all.0)
      (installations_accepted (suc index) (count_installation h seen) hs all.1)

default_count-counted :
    (seen : Installations) (hs : List HarnessSpec)
    → (counted seen hs).default_count ≡ seen.default_count + count_defaults hs
unfolding counted count_installation count_defaults
default_count-counted seen [] = omega arith
default_count-counted seen (h ∷ hs) =
    omega (arith, default_count-counted (count_installation h seen) hs)

defaults_counted :
    (hs : List HarnessSpec) → (counted no_installations hs).default_count ≡ count_defaults hs
defaults_counted hs = omega (arith, default_count-counted no_installations hs)

-- A kind that is there twice is not forgotten.
duplicate_kept :
    (seen : Installations) (hs : List HarnessSpec)
    → (counted seen hs).duplicate ≡ none
    → (seen.duplicate ≡ none) × Fresh same_harness seen.kinds (map (λ h. h.kind) hs)
unfolding counted count_installation
duplicate_kept seen [] e = (e, tt)
duplicate_kept seen (h ∷ hs) e =
    let (none_yet, fresh) = duplicate_kept (count_installation h seen) hs e in
    elim (Bool-cases (has_kind h.kind seen.kinds)) [
      | inl twice ↦ absurd (cc (rw twice at none_yet))
      | inr new ↦ (rw new at none_yet, (new, fresh))
    ]

no_duplicate :
    (seen : Installations) (hs : List HarnessSpec)
    → seen.duplicate ≡ none
    → Fresh same_harness seen.kinds (map (λ h. h.kind) hs)
    → (counted seen hs).duplicate ≡ none
unfolding counted count_installation
no_duplicate seen [] e fresh = e
no_duplicate seen (h ∷ hs) e fresh =
    no_duplicate (count_installation h seen) hs (rw fresh.0 e) fresh.1

-- One default, or a single installation.
abbrev pub HasDefault : List HarnessSpec → Type 0
HasDefault hs = (length hs ≡ 1) ⊎ (count_defaults hs ≡ 1)

count_defaults-le : (hs : List HarnessSpec) → count_defaults hs ≤ length hs
unfolding count_defaults
count_defaults-le [] = omega arith
count_defaults-le (h ∷ hs) = ground (arith, count_defaults-le hs)

default_read :
    (n d : ℕ) → n ≢ 0 → not (ltb 1 d || (ltb 1 n && not (d == 1))) ≡ true → (n ≡ 1) ⊎ (d ≡ 1)
default_read n d filled e = elim (Bool-cases (d == 1)) [
  | inl one ↦ inr (==→eq d 1 one)
  | inr other ↦ inl (ground (arith, e, other, filled))
]

default_accepted :
    (n d : ℕ) → d ≤ n → (n ≡ 1) ⊎ (d ≡ 1) → not (ltb 1 d || (ltb 1 n && not (d == 1))) ≡ true
default_accepted n d le (inl e) = ground (arith, e, le)
default_accepted n d le (inr e) = ground (arith, e)

-- What is accepted of a manifest's harnesses: at least one, each well-formed, of different kinds and with
-- one default.
pub record AreInstallations (hs : List HarnessSpec) : Type 0 where
  pub installed : hs ≢ []
  pub each : All IsInstallation hs
  pub kinds : Distinct (map (λ h. h.kind) hs)
  pub default_one : HasDefault hs

reject_none : (kind : Option Harness) → reject_duplicate kind ≡ ok tt → kind ≡ none
reject_none none e = refl
reject_none (some kind) e = cc

filled_length : (hs : List HarnessSpec) → hs ≢ [] → length hs ≢ 0
filled_length [] h = absurd (h refl)
filled_length (x ∷ xs) h = λ e. omega (arith, e)

installed_read :
    (hs : List HarnessSpec)
    → hs ≢ []
    → All IsInstallation hs
    → check_installed (length hs) (counted no_installations hs) ≡ ok tt
    → AreInstallations hs
unfolding check_installed
installed_read hs filled all e =
    let out = counted no_installations hs in
    let (defaults, e') =
      passed (not (ltb 1 out.default_count || (ltb 1 (length hs) && not (out.default_count == 1))))
        _ _ e in
    let (_, fresh) = duplicate_kept no_installations hs (reject_none out.duplicate e') in
    record {
      installed = filled;
      each = all;
      kinds =
          ((Fresh-Distinct same_harness same_harness-IsEquality [] (map (λ h. h.kind) hs)).0
            fresh).0;
      default_one =
          default_read (length hs) (count_defaults hs) (filled_length hs filled)
            (rw defaults_counted at defaults);
    }

harnesses_read : (hs : List HarnessSpec) → validate_harnesses hs ≡ ok tt → AreInstallations hs
unfolding validate_harnesses
harnesses_read hs e =
    let (filled, e1) = passed (not (list_is_empty hs)) _ _ e in
    let (out, loop, e2) = >>=-eq-ok (validate_installations 0 no_installations hs) _ e1 in
    let (all, same) = installations_read 0 no_installations hs out loop in
    installed_read hs ((not_empty hs).0 filled) all (rw same at e2)

harnesses_accepted : (hs : List HarnessSpec) → AreInstallations hs → validate_harnesses hs ≡ ok tt
unfolding validate_harnesses check_installed
harnesses_accepted hs a =
    let fresh =
      (Fresh-Distinct same_harness same_harness-IsEquality [] (map (λ h. h.kind) hs)).1
        (a.kinds, Unseen-nothing same_harness (map (λ h. h.kind) hs)) in
    let defaults =
      default_accepted (length hs) (count_defaults hs) (count_defaults-le hs) a.default_one in
    rw
      (
        (not_empty hs).1 a.installed,
        installations_accepted 0 no_installations hs a.each,
        defaults_counted,
        defaults,
        no_duplicate no_installations hs refl fresh,
      )
      refl

pub validate_harnesses-lem :
    (hs : List HarnessSpec) → (validate_harnesses hs ≡ ok tt) ↔ AreInstallations hs
validate_harnesses-lem hs = (harnesses_read hs, harnesses_accepted hs)
