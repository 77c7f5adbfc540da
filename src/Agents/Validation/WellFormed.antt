-- ===== src/Agents/Validation/WellFormed.antt =====
-- Which specifications are accepted: agentctl/src/manifest.rs.
use digdir_agents.Base.{
  All, any, same_text, same_text-IsEquality, list_is_empty, ok, >>=-eq-ok, ℕ, suc, ◌≡◌, refl, ◌≢◌,
  ◌↔◌, true, not, List, [], ◌∷◌, map, arith,
}
use digdir_agents.Agents.Model.{Spec}
use digdir_agents.Agents.Manifest.{
  mount_target, AccessSpec, ssh, vnc, same_access, valid_host_pattern,
}
use digdir_agents.Agents.Validation.{
  validate_mounts, validate_instructions, validate_skills, validate_harnesses,
  validate_agent_environment, validate_secrets, validate_access, validate_agent_spec,
}
use digdir_agents.Agents.Validation.Distinct.{Distinct, Fresh, Fresh-Distinct, Unseen-nothing}
use digdir_agents.Agents.Validation.Spelled.{not_empty, every-All}
use digdir_agents.Agents.Validation.Hosts.{IsHostPattern, valid_host_pattern-IsHostPattern}
use digdir_agents.Agents.Validation.Mounts.{
  passed, ensured_last, IsMount, validate_mounts-lem, HasText, validate_instructions-lem, AreSkills,
  validate_skills-lem,
}
use digdir_agents.Agents.Validation.Harnesses.{AreInstallations, validate_harnesses-lem}
use digdir_agents.Agents.Validation.Variables.{AreVariables, validate_agent_environment-lem}
use digdir_agents.Agents.Validation.Bindings.{AreBindings, validate_secrets-lem}

same_access→eq : (a b : AccessSpec) → same_access a b ≡ true → a ≡ b
same_access→eq ssh ssh e = refl
same_access→eq vnc vnc e = refl
same_access→eq _ _ e = cc

same_access_refl : (a : AccessSpec) → same_access a a ≡ true
same_access_refl ssh = refl
same_access_refl vnc = refl

access_loop :
    (index : ℕ) (seen access : List AccessSpec)
    → (validate_access index seen access ≡ ok tt) ↔ Fresh same_access seen access
unfolding validate_access
access_loop index seen [] = ((λ _. tt), λ _. refl)
access_loop index seen (a ∷ access) =
    let (there, back) = access_loop (suc index) (a ∷ seen) access in
    (
      (λ e.
          let (new, e') = passed (not (any (same_access a) seen)) _ _ e in
          (ground (arith, new), there e')),
      λ f. rw f.0 (back f.1),
    )

access_lem : (access : List AccessSpec) → (validate_access 0 [] access ≡ ok tt) ↔ Distinct access
access_lem access =
    let (there, back) = access_loop 0 [] access in
    let (parts, parts_back) =
      Fresh-Distinct same_access (same_access→eq, same_access_refl) [] access in
    ((λ e. (parts (there e)).0), λ d. back (parts_back (d, Unseen-nothing same_access access)))

-- What a manifest's `spec` must be.
pub record IsWellFormed (spec : Spec) : Type 0 where
  pub mounts : All IsMount spec.sandbox.mounts
  pub targets : Distinct (map mount_target spec.sandbox.mounts)
  pub home : spec.home.source ≢ []
  pub instructions : All HasText spec.instructions
  pub skills : AreSkills [] spec.skills
  pub harnesses : AreInstallations spec.harnesses
  pub environment : AreVariables spec.harnesses spec.environment
  pub secrets : AreBindings spec.harnesses spec.environment spec.secrets
  pub access : Distinct spec.access
  pub deny : All IsHostPattern spec.network.deny

pub spec_read : (spec : Spec) → validate_agent_spec spec ≡ ok tt → IsWellFormed spec
unfolding validate_agent_spec
spec_read spec e =
    let (_, e_mounts, e1) = >>=-eq-ok (validate_mounts 0 [] spec.sandbox.mounts) _ e in
    let (home, e2) = passed (not (list_is_empty spec.home.source)) _ _ e1 in
    let (_, e_instructions, e3) = >>=-eq-ok (validate_instructions 0 spec.instructions) _ e2 in
    let (_, e_skills, e4) = >>=-eq-ok (validate_skills 0 [] spec.skills) _ e3 in
    let (_, e_harnesses, e5) = >>=-eq-ok (validate_harnesses spec.harnesses) _ e4 in
    let (_, e_environment, e6) =
      >>=-eq-ok (validate_agent_environment spec.harnesses spec.environment) _ e5 in
    let (_, e_secrets, e7) =
      >>=-eq-ok (validate_secrets spec.harnesses spec.environment spec.secrets) _ e6 in
    let (_, e_access, e8) = >>=-eq-ok (validate_access 0 [] spec.access) _ e7 in
    let (mounts, fresh) = (validate_mounts-lem 0 [] spec.sandbox.mounts).0 e_mounts in
    let targets = map mount_target spec.sandbox.mounts in
    record {
      mounts = mounts;
      targets = ((Fresh-Distinct same_text same_text-IsEquality [] targets).0 fresh).0;
      home = (not_empty spec.home.source).0 home;
      instructions = (validate_instructions-lem 0 spec.instructions).0 e_instructions;
      skills = (validate_skills-lem 0 [] spec.skills).0 e_skills;
      harnesses = (validate_harnesses-lem spec.harnesses).0 e_harnesses;
      environment =
          (validate_agent_environment-lem spec.harnesses spec.environment).0 e_environment;
      secrets = (validate_secrets-lem spec.harnesses spec.environment spec.secrets).0 e_secrets;
      access = (access_lem spec.access).0 e_access;
      deny =
          (every-All valid_host_pattern IsHostPattern valid_host_pattern-IsHostPattern
              spec.network.deny).0
            (ensured_last _ _ e8);
    }

pub spec_accepted : (spec : Spec) → IsWellFormed spec → validate_agent_spec spec ≡ ok tt
unfolding validate_agent_spec
spec_accepted spec w =
    let targets = map mount_target spec.sandbox.mounts in
    let fresh =
      (Fresh-Distinct same_text same_text-IsEquality [] targets).1
        (w.targets, Unseen-nothing same_text targets) in
    rw
      (
        (validate_mounts-lem 0 [] spec.sandbox.mounts).1 (w.mounts, fresh),
        (not_empty spec.home.source).1 w.home,
        (validate_instructions-lem 0 spec.instructions).1 w.instructions,
        (validate_skills-lem 0 [] spec.skills).1 w.skills,
        (validate_harnesses-lem spec.harnesses).1 w.harnesses,
        (validate_agent_environment-lem spec.harnesses spec.environment).1 w.environment,
        (validate_secrets-lem spec.harnesses spec.environment spec.secrets).1 w.secrets,
        (access_lem spec.access).1 w.access,
        (every-All valid_host_pattern IsHostPattern valid_host_pattern-IsHostPattern
              spec.network.deny).1
            w.deny,
      )
      refl
