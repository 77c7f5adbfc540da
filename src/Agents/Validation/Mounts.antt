-- ===== src/Agents/Validation/Mounts.antt =====
-- What the loops over mounts, instructions and skills accept: agentctl/src/manifest.rs.
use digdir_agents.Base.{
  ◌==◌, ==→eq, Bool-cases, Option-cases, All, any, Str, same_text, and_parts, list_is_empty, Result,
  ok, ensure, ◌>>=◌, ℕ, suc, ◌≡◌, refl, ap, ◌≢◌, ◌↔◌, inl, inr, Bool, true, false, not, ◌&&◌, some,
  List, [], ◌∷◌, map, arith,
}
use digdir_agents.Service.Platform.{has_text}
use digdir_agents.Agents.Manifest.{
  MountSpec, bind, tmpfs, mount_target, InstructionsSpec, SkillSpec, skill_name, starts_with_dot,
  valid_skill_name, valid_sandbox_path,
}
use digdir_agents.Agents.Validation.{
  lacks_source, validate_mounts, validate_instructions, validate_skills,
}
use digdir_agents.Agents.Validation.Distinct.{Fresh}
use digdir_agents.Agents.Validation.Spelled.{
  not_empty, IsSandboxPath, valid_sandbox_path-IsSandboxPath,
}
use digdir_agents.Text.Splits.{Without}

-- What a check that was passed has tested, and what comes behind it.
pub passed :
    {E A : Type 0} (b : Bool) (e : E) (r : Result E A) {v : A}
    → (ensure b e >>= λ _. r) ≡ ok v
    → (b ≡ true) × (r ≡ ok v)
passed true e r h = (refl, h)
passed false e r h = cc

pub ensured_last : {E : Type 0} (b : Bool) (e : E) → ensure b e ≡ ok tt → b ≡ true
ensured_last true e h = refl
ensured_last false e h = cc

-- A directory on the host that is mounted has a path.
abbrev pub HasSource : MountSpec → Type 0
HasSource (bind source target read_only optional) = source ≢ []
HasSource (tmpfs target capacity) = Unit {0}

abbrev pub IsMount : MountSpec → Type 0
IsMount mount = HasSource mount × IsSandboxPath (mount_target mount)

lacks_source-HasSource : (mount : MountSpec) → (not (lacks_source mount) ≡ true) ↔ HasSource mount
lacks_source-HasSource (bind source target read_only optional) = not_empty source
lacks_source-HasSource (tmpfs target capacity) = ((λ _. tt), λ _. refl)

pub validate_mounts-lem :
    (index : ℕ) (seen : List Str) (mounts : List MountSpec)
    → (validate_mounts index seen mounts ≡ ok tt)
      ↔ (All IsMount mounts × Fresh same_text seen (map mount_target mounts))
unfolding validate_mounts has_text
validate_mounts-lem index seen [] = ((λ _. (tt, tt)), λ _. refl)
validate_mounts-lem index seen (mount ∷ mounts) =
    let target = mount_target mount in
    let (there, back) = validate_mounts-lem (suc index) (target ∷ seen) mounts in
    let (source, source_back) = lacks_source-HasSource mount in
    let (path, path_back) = valid_sandbox_path-IsSandboxPath target in
    (
      (λ h.
          let (a, h') = passed (not (lacks_source mount)) _ _ h in
          let (b, h'') =
            passed (valid_sandbox_path target && not (any (same_text target) seen)) _ _ h' in
          let (valid, new) =
            and_parts (valid_sandbox_path target) (not (any (same_text target) seen)) b in
          let (all, fresh) = there h'' in
          (((source a, path valid), all), (ground (arith, new), fresh))),
      λ h. rw (source_back h.0.0.0, path_back h.0.0.1, h.1.0) (back (h.0.1, h.1.1)),
    )

abbrev pub HasText : InstructionsSpec → Type 0
HasText instructions = instructions.source ≢ []

pub validate_instructions-lem :
    (index : ℕ) (rest : List InstructionsSpec)
    → (validate_instructions index rest ≡ ok tt) ↔ All HasText rest
unfolding validate_instructions
validate_instructions-lem index [] = ((λ _. tt), λ _. refl)
validate_instructions-lem index (i ∷ rest) =
    let (there, back) = validate_instructions-lem (suc index) rest in
    let (filled, filled_back) = not_empty i.source in
    (
      (λ h. let (a, h') = passed (not (list_is_empty i.source)) _ _ h in (filled a, there h')),
      λ h. rw (filled_back h.0) (back h.1),
    )

-- The name of a directory that is not hidden.
abbrev pub IsSkillName : Str → Type 0
IsSkillName name =
    (name ≢ []) × ((rest : Str) → name ≢ b'.' ∷ rest) × Without b'/' name × Without 92 name

without : (s : ℕ) (name : Str) → (not (any (λ b. b == s) name) ≡ true) ↔ Without s name
without s [] = ((λ _. tt), λ _. refl)
without s (b ∷ bs) =
    let (there, back) = without s bs in
    (
      (λ h. ((λ e. ground (arith, h, e)), there (ground (arith, h)))),
      λ h. ground (arith, h.0, back h.1),
    )

undotted : (name : Str) → (not (starts_with_dot name) ≡ true) ↔ ((rest : Str) → name ≢ b'.' ∷ rest)
undotted [] = ((λ _ rest. cc), λ _. refl)
undotted (b ∷ bs) = (
  (λ h rest e. ground (arith, h, e)),
  λ h. elim (Bool-cases (b == b'.')) [
    | inl e ↦ absurd (h bs (ap (λ x. x ∷ bs) (==→eq b b'.' e)))
    | inr e ↦ rw e refl
  ],
)

valid_skill_name-IsSkillName : (name : Str) → (valid_skill_name name ≡ true) ↔ IsSkillName name
unfolding valid_skill_name
valid_skill_name-IsSkillName name =
    let (filled, filled_back) = not_empty name in
    let (shown, shown_back) = undotted name in
    let (slash, slash_back) = without b'/' name in
    let (backslash, backslash_back) = without 92 name in
    (
      (λ h. (
        filled (ground (arith, h)),
        shown (ground (arith, h)),
        slash (ground (arith, h)),
        backslash (ground (arith, h)),
      )),
      λ h. rw (filled_back h.0, shown_back h.1, slash_back h.2, backslash_back h.3) refl,
    )

-- Each skill has such a name, and no two have one.
abbrev pub AreSkills : List Str → List SkillSpec → Type 0
AreSkills seen skills =
    (names : List Str) × (map skill_name skills ≡ map some names)
    × All IsSkillName names
    × Fresh same_text seen names

skills_named :
    (index : ℕ) (seen : List Str) (skills : List SkillSpec)
    → validate_skills index seen skills ≡ ok tt
    → AreSkills seen skills
unfolding validate_skills has_text
skills_named index seen [] h = ([], refl, tt, tt)
skills_named index seen (skill ∷ skills) h = elim (Option-cases (skill_name skill)) [
  | inl e ↦ absurd (cc (rw e at h))
  | inr (name, e) ↦
      let (valid, h') = passed (valid_skill_name name) _ _ (rw e at h) in
      let (new, h'') = passed (not (any (same_text name) seen)) _ _ h' in
      let (names, named', all, fresh) = skills_named (suc index) (name ∷ seen) skills h'' in
      (
        name ∷ names,
        rw (e, named') refl,
        ((valid_skill_name-IsSkillName name).0 valid, all),
        (ground (arith, new), fresh),
      )
]

skills_accepted :
    (index : ℕ) (seen : List Str) (skills : List SkillSpec) (names : List Str)
    → map skill_name skills ≡ map some names
    → All IsSkillName names
    → Fresh same_text seen names
    → validate_skills index seen skills ≡ ok tt
unfolding validate_skills has_text
skills_accepted index seen [] names e all fresh = refl
skills_accepted index seen (skill ∷ skills) [] e all fresh = cc
skills_accepted index seen (skill ∷ skills) (name ∷ names) e all fresh =
    let first : skill_name skill ≡ some name = cc in
    let rest : map skill_name skills ≡ map some names = cc in
    rw (first, (valid_skill_name-IsSkillName name).1 all.0, fresh.0)
      (skills_accepted (suc index) (name ∷ seen) skills names rest all.1 fresh.1)

pub validate_skills-lem :
    (index : ℕ) (seen : List Str) (skills : List SkillSpec)
    → (validate_skills index seen skills ≡ ok tt) ↔ AreSkills seen skills
validate_skills-lem index seen skills =
    (skills_named index seen skills, λ h. skills_accepted index seen skills h.0 h.1 h.2 h.3)
