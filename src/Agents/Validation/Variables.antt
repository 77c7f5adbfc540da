-- ===== src/Agents/Validation/Variables.antt =====
-- What the loop over the environment accepts: agentctl/src/manifest.rs.
use digdir_agents.Base.{
  codes, All, any, Str, same_text, and_parts, and3_parts, same_text-IsEquality, ok, >>=-eq-ok, ℕ,
  suc, ◌≡◌, refl, ◌↔◌, Bool, true, false, not, ◌&&◌, ◌||◌, Option, none, some, List, [], ◌∷◌, map,
  arith,
}
use digdir_agents.Service.Platform.{has_text}
use digdir_agents.Service.Portable.{IsVariableName}
use digdir_agents.Agents.Model.{HarnessSpec}
use digdir_agents.Agents.Manifest.{EnvironmentSpec, valid_environment_variable, manages_environment}
use digdir_agents.Agents.Validation.{
  valid_when_present, validate_variables, same_bool, validate_agent_environment,
}
use digdir_agents.Agents.Validation.Distinct.{Distinct, Fresh, Fresh-Distinct, Unseen-nothing}
use digdir_agents.Agents.Validation.Spelled.{valid_environment_variable-IsVariableName}
use digdir_agents.Agents.Validation.Mounts.{passed, ensured_last}

-- A source that is given is the name of a variable.
abbrev pub IsSource : Option Str → Type 0
IsSource none = Unit {0}
IsSource (some source) = IsVariableName source

pub valid_when_present-IsSource :
    (source : Option Str) → (valid_when_present source ≡ true) ↔ IsSource source
valid_when_present-IsSource none = ((λ _. tt), λ _. refl)
valid_when_present-IsSource (some source) = valid_environment_variable-IsVariableName source

-- A test that fails for every item.
pub none_of :
    {A : Type 0} (p : A → Bool) (xs : List A) → (not (any p xs) ≡ true) ↔ All (λ x. p x ≡ false) xs
none_of p [] = ((λ _. tt), λ _. refl)
none_of p (x ∷ xs) =
    let (there, back) = none_of p xs in
    ((λ e. (ground (arith, e), there (ground (arith, e)))), λ h. rw (h.0, back h.1) refl)

-- A portable name that no installed harness sets by itself, and a portable source.
pub record IsVariable (hs : List HarnessSpec) (v : EnvironmentSpec) : Type 0 where
  pub named_well : IsVariableName v.name
  pub sourced : IsSource v.source
  pub unmanaged : All (λ h. manages_environment h.kind v.name ≡ false) hs

variable_lem :
    (hs : List HarnessSpec) (v : EnvironmentSpec)
    → (valid_environment_variable v.name
          && valid_when_present v.source
          && not (any (λ h. manages_environment h.kind v.name) hs)
        ≡ true)
      ↔ IsVariable hs v
variable_lem hs v =
    let (name, name_back) = valid_environment_variable-IsVariableName v.name in
    let (source, source_back) = valid_when_present-IsSource v.source in
    let (free, free_back) = none_of (λ h. manages_environment h.kind v.name) hs in
    (
      (λ e.
          let (a, b, c) =
            and3_parts (valid_environment_variable v.name) (valid_when_present v.source)
              (not (any (λ h. manages_environment h.kind v.name) hs)) e in
          record { named_well = name a; sourced = source b; unmanaged = free c }),
      λ i. rw (name_back i.named_well, source_back i.sourced, free_back i.unmanaged) refl,
    )

-- The names behind those seen before.
pub gathered : List Str → List EnvironmentSpec → List Str
gathered names [] = names
gathered names (v ∷ vs) = gathered (v.name ∷ names) vs

variables_read :
    (hs : List HarnessSpec) (index : ℕ) (names : List Str) (vs : List EnvironmentSpec)
    (out : List Str)
    → validate_variables hs index names vs ≡ ok out
    → All (IsVariable hs) vs
      × Fresh same_text names (map (λ v. v.name) vs)
      × (out ≡ gathered names vs)
unfolding validate_variables has_text gathered
variables_read hs index names [] out e = (tt, tt, cc)
variables_read hs index names (v ∷ vs) out e =
    let managed = any (λ h. manages_environment h.kind v.name) hs in
    let valid = valid_environment_variable v.name && valid_when_present v.source && not managed in
    let (both, e') = passed (valid && not (any (same_text v.name) names)) _ _ e in
    let (one, new) = and_parts valid (not (any (same_text v.name) names)) both in
    let (all, fresh, same) = variables_read hs (suc index) (v.name ∷ names) vs out e' in
    (((variable_lem hs v).0 one, all), (ground (arith, new), fresh), same)

variables_accepted :
    (hs : List HarnessSpec) (index : ℕ) (names : List Str) (vs : List EnvironmentSpec)
    → All (IsVariable hs) vs
    → Fresh same_text names (map (λ v. v.name) vs)
    → validate_variables hs index names vs ≡ ok (gathered names vs)
unfolding validate_variables has_text gathered
variables_accepted hs index names [] all fresh = refl
variables_accepted hs index names (v ∷ vs) all fresh =
    rw ((variable_lem hs v).1 all.0, fresh.0)
      (variables_accepted hs (suc index) (v.name ∷ names) vs all.1 fresh.1)

has_text-gathered :
    (t : Str) (names : List Str) (vs : List EnvironmentSpec)
    → has_text t (gathered names vs) ≡ (has_text t names || has_text t (map (λ v. v.name) vs))
unfolding has_text gathered
has_text-gathered t names [] = ground arith
has_text-gathered t names (v ∷ vs) = rw (has_text-gathered t (v.name ∷ names) vs) (ground arith)

abbrev pub names_of : List EnvironmentSpec → List Str
names_of vs = map (λ v. v.name) vs

-- Variables of different names, with both or none of Git's.
pub record AreVariables (hs : List HarnessSpec) (vs : List EnvironmentSpec) : Type 0 where
  pub each : All (IsVariable hs) vs
  pub names : Distinct (names_of vs)
  pub git :
      has_text (codes "GIT_USER_NAME") (names_of vs)
      ≡ has_text (codes "GIT_USER_EMAIL") (names_of vs)

same_bool→eq : (a b : Bool) → same_bool a b ≡ true → a ≡ b
same_bool→eq true true e = refl
same_bool→eq true false e = cc
same_bool→eq false true e = cc
same_bool→eq false false e = refl

same_bool_refl : (a : Bool) → same_bool a a ≡ true
same_bool_refl true = refl
same_bool_refl false = refl

has_text-all :
    (t : Str) (vs : List EnvironmentSpec) → has_text t (gathered [] vs) ≡ has_text t (names_of vs)
unfolding has_text
has_text-all t vs = has_text-gathered t [] vs

pub validate_agent_environment-lem :
    (hs : List HarnessSpec) (vs : List EnvironmentSpec)
    → (validate_agent_environment hs vs ≡ ok tt) ↔ AreVariables hs vs
unfolding validate_agent_environment
validate_agent_environment-lem hs vs =
    let (parts, fresh_back) = Fresh-Distinct same_text same_text-IsEquality [] (names_of vs) in
    let git_name = codes "GIT_USER_NAME" in
    let git_email = codes "GIT_USER_EMAIL" in
    (
      (λ e.
          let (out, loop, e') = >>=-eq-ok (validate_variables hs 0 [] vs) _ e in
          let (all, fresh, same) = variables_read hs 0 [] vs out loop in
          let git =
            rw (same, has_text-all git_name vs, has_text-all git_email vs) at
              (ensured_last _ _ e') in
          record { each = all; names = (parts fresh).0; git = same_bool→eq _ _ git }),
      λ a.
          rw
            (
              variables_accepted hs 0 [] vs a.each
                  (fresh_back (a.names, Unseen-nothing same_text (names_of vs))),
              has_text-all git_name vs,
              has_text-all git_email vs,
              a.git,
              same_bool_refl (has_text git_email (names_of vs)),
            )
            refl,
    )
