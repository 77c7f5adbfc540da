-- ===== src/Agents/Validation/Spelled.antt =====
-- The texts that a manifest may name paths, variables and hosts by: agentctl/src/manifest.rs.
use digdir_agents.Base.{
  ◌==◌, codes, ==→eq, Bool-cases, All, every, Str, same_text, and_parts, and3_parts,
  same_text-IsEquality, list_is_empty, ◌≡◌, refl, ◌≢◌, ◌↔◌, inl, inr, Bool, true, false, not, List,
  [], ◌∷◌, ◌++◌, arith,
}
use digdir_agents.Text.Splits.{
  split_on, joined_by, Without, split_some, joined_by-split_on, split_on-Without,
  split_on-joined_by,
}
use digdir_agents.Service.Portable.{IsVariableName, name_valid}
use digdir_agents.Agents.Manifest.{valid_environment_variable, is_path_part, valid_sandbox_path}

pub not_same : (a b : Str) → (not (same_text a b) ≡ true) ↔ (a ≢ b)
not_same a b = (
  (λ e same. cc (e, same, same_text-IsEquality.1 b)),
  λ other. elim (Bool-cases (same_text a b)) [
    | inl e ↦ absurd (other (same_text-IsEquality.0 a b e))
    | inr e ↦ rw e refl
  ],
)

pub not_empty : {A : Type 0} (xs : List A) → (not (list_is_empty xs) ≡ true) ↔ (xs ≢ [])
not_empty [] = ((λ e. absurd (ground (arith, e))), λ other. absurd (other refl))
not_empty (x ∷ xs) = ((λ _. cc), λ _. refl)

-- What holds of each item exactly when a test does.
pub every-All :
    {A : Type 0} (p : A → Bool) (P : A → Type 0)
    → ((a : A) → (p a ≡ true) ↔ P a)
    → (xs : List A) → (every p xs ≡ true) ↔ All P xs
every-All p P h [] = ((λ _. tt), λ _. refl)
every-All p P h (x ∷ xs) =
    let (there, back) = every-All p P h xs in
    let (now, then_back) = h x in
    (
      (λ e. let parts = and_parts (p x) (every p xs) e in (now parts.0, there parts.1)),
      λ a. rw (then_back a.0, back a.1) refl,
    )

-- A component of a path: neither empty nor a dot or two, and without a slash.
abbrev pub IsPathPart : Str → Type 0
IsPathPart part = (part ≢ []) × (part ≢ codes ".") × (part ≢ codes "..")

-- An absolute path: components, each behind a slash.
abbrev pub IsSandboxPath : Str → Type 0
IsSandboxPath path =
    (parts : List Str) × (parts ≢ [])
    × (path ≡ joined_by b'/' parts)
    × All IsPathPart parts
    × All (Without b'/') parts

is_path_part-IsPathPart : (part : Str) → (is_path_part part ≡ true) ↔ IsPathPart part
is_path_part-IsPathPart part =
    let (filled, filled_back) = not_empty part in
    let (dot, dot_back) = not_same part (codes ".") in
    let (dots, dots_back) = not_same part (codes "..") in
    (
      (λ e.
          let (a, b, c) =
            and3_parts (not (list_is_empty part)) (not (same_text part (codes ".")))
              (not (same_text part (codes ".."))) e in
          (filled a, dot b, dots c)),
      λ h. rw (filled_back h.0, dot_back h.1, dots_back h.2) refl,
    )

path_parts : (path : Str) → valid_sandbox_path path ≡ true → IsSandboxPath path
unfolding valid_sandbox_path
path_parts [] h = absurd (ground (arith, h))
path_parts (b ∷ path) h =
    let (slash, filled, each) =
      and3_parts (b == b'/') (not (list_is_empty path)) (every is_path_part (split_on b'/' path))
        h in
    (
      split_on b'/' path,
      split_some b'/' path,
      rw (joined_by-split_on b'/' path, ==→eq b b'/' slash) refl,
      (every-All is_path_part IsPathPart is_path_part-IsPathPart (split_on b'/' path)).0 each,
      split_on-Without b'/' path,
    )

parts_valid :
    (parts : List Str)
    → parts ≢ []
    → All IsPathPart parts
    → All (Without b'/') parts
    → valid_sandbox_path (joined_by b'/' parts) ≡ true
unfolding valid_sandbox_path
parts_valid [] some_part h k = absurd (some_part refl)
parts_valid (part ∷ parts) some_part h k =
    let each = (every-All is_path_part IsPathPart is_path_part-IsPathPart (part ∷ parts)).1 h in
    rw (split_on-joined_by b'/' part parts k, each, longer part h.0.0 (joined_by b'/' parts)) refl
  where
    longer : (part : Str) → part ≢ [] → (rest : Str) → list_is_empty (part ++ rest) ≡ false
    longer [] h rest = absurd (h refl)
    longer (b ∷ bs) h rest = refl

-- A target is accepted exactly when it is an absolute path of components that are neither empty nor a dot
-- or two.
pub valid_sandbox_path-IsSandboxPath :
    (path : Str) → (valid_sandbox_path path ≡ true) ↔ IsSandboxPath path
valid_sandbox_path-IsSandboxPath path = (path_parts path, λ h. rw h.2 (parts_valid h.0 h.1 h.3 h.4))

-- The names of environment variables.
pub valid_environment_variable-IsVariableName :
    (value : Str) → (valid_environment_variable value ≡ true) ↔ IsVariableName value
unfolding valid_environment_variable
valid_environment_variable-IsVariableName value = name_valid value
