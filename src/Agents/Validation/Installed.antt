-- ===== src/Agents/Validation/Installed.antt =====
-- What is accepted of one harness installation: agentctl/src/manifest.rs.
use digdir_agents.Base.{
  Str, same_text, IsEquality, same_text-IsEquality, ok, ℕ, ◌≡◌, refl, ap, ◌≢◌, ◌↔◌, ◌⊎◌, inl, inr,
  Bool, true, false, not, ◌&&◌, Option, none, some, [], ◌∷◌, arith,
}
use digdir_agents.Service.Platform.{empty_when_present}
use digdir_agents.Agents.Harness.{
  Harness, claude_code, codex, pi, same_harness, HarnessAuthMode, mediated, unmediated, same_auth,
  auth_mode,
}
use digdir_agents.Agents.Logins.{
  default_login, login_is_default, LoginSet, named, any_stored, one_login, set_is_default,
}
use digdir_agents.Agents.Model.{HarnessSpec}
use digdir_agents.Agents.Validation.{validate_installation}
use digdir_agents.Agents.Validation.Mounts.{passed, ensured_last}

same_harness→eq : (a b : Harness) → same_harness a b ≡ true → a ≡ b
same_harness→eq claude_code claude_code h = refl
same_harness→eq codex codex h = refl
same_harness→eq pi pi h = refl
same_harness→eq _ _ h = cc

same_harness_refl : (a : Harness) → same_harness a a ≡ true
same_harness_refl claude_code = refl
same_harness_refl codex = refl
same_harness_refl pi = refl

pub same_harness-IsEquality : IsEquality same_harness
same_harness-IsEquality = (same_harness→eq, same_harness_refl)

-- A version that is not empty, the delivery of its credentials that its kind asks for, and an option or a
-- choice of logins only where the platform has logins for it.
pub record IsInstallation (h : HarnessSpec) : Type 0 where
  pub versioned : h.version ≢ some []
  pub delivered : h.auth ≡ auth_mode h.kind
  pub required : h.auth ≡ unmediated → h.optional ≡ false
  pub unchosen : h.auth ≡ unmediated → h.login ≡ one_login default_login

same_auth→eq : (a b : HarnessAuthMode) → same_auth a b ≡ true → a ≡ b
same_auth→eq mediated mediated h = refl
same_auth→eq unmediated unmediated h = refl
same_auth→eq _ _ h = cc

same_auth_refl : (a : HarnessAuthMode) → same_auth a a ≡ true
same_auth_refl mediated = refl
same_auth_refl unmediated = refl

set_is_default-eq : (set : LoginSet) → set_is_default set ≡ true → set ≡ one_login default_login
unfolding set_is_default login_is_default one_login
set_is_default-eq (named []) h = cc
set_is_default-eq (named (login ∷ [])) h =
    ap (λ l. named (l ∷ [])) (same_text-IsEquality.0 login default_login h)
set_is_default-eq (named (a ∷ b ∷ rest)) h = cc
set_is_default-eq any_stored h = cc

default_set : set_is_default (one_login default_login) ≡ true
unfolding set_is_default login_is_default one_login same_text
default_set = refl

pub filled_when_present :
    (version : Option Str) → (not (empty_when_present version) ≡ true) ↔ (version ≢ some [])
filled_when_present none = ((λ _. cc), λ _. refl)
filled_when_present (some []) = ((λ h. cc), λ h. absurd (h refl))
filled_when_present (some (b ∷ bs)) = ((λ _. cc), λ _. refl)

pub checks_read :
    (index : ℕ) (h : HarnessSpec) → validate_installation index h ≡ ok tt → IsInstallation h
unfolding validate_installation
checks_read index h e =
    let (version, e1) = passed (not (empty_when_present h.version)) _ _ e in
    let (auth, e2) = passed (same_auth h.auth (auth_mode h.kind)) _ _ e1 in
    let (kept, e3) = passed (not (h.optional && same_auth h.auth unmediated)) _ _ e2 in
    let last =
      ensured_last (not (not (set_is_default h.login) && same_auth h.auth unmediated)) _ e3 in
    record {
      versioned = (filled_when_present h.version).0 version;
      delivered = same_auth→eq h.auth (auth_mode h.kind) auth;
      required = λ off. ground (arith, kept, off);
      unchosen = λ off. set_is_default-eq h.login (ground (arith, last, off));
    }

auth-cases : (a : HarnessAuthMode) → (a ≡ mediated) ⊎ (a ≡ unmediated)
auth-cases mediated = inl refl
auth-cases unmediated = inr refl

free : (b : Bool) → not (b && false) ≡ true
free true = refl
free false = refl

pub installation_accepted :
    (index : ℕ) (h : HarnessSpec) → IsInstallation h → validate_installation index h ≡ ok tt
unfolding validate_installation
installation_accepted index h i =
    let versioned = (filled_when_present h.version).1 i.versioned in
    let delivered : same_auth h.auth (auth_mode h.kind) ≡ true =
      rw i.delivered (same_auth_refl (auth_mode h.kind)) in
    rw (versioned, delivered)
      (elim (auth-cases h.auth) [
        | inl on ↦ rw (on, free h.optional, free (not (set_is_default h.login))) refl
        | inr off ↦ rw (off, i.required off, i.unchosen off, default_set) refl
      ])
