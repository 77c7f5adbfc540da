-- ===== src/Service/Portable.antt =====
-- The environment variables that a request may set: sandbox/core/src/service.rs.
use digdir_agents.Base.{
  ltb, ◌==◌, All, any, Str, and_parts, list_is_empty, ok, ℕ, suc, ◌<◌, ◌≡◌, refl, sym, ◌∙◌, ◌≢◌,
  ◌↔◌, Bool, true, false, not, ◌&&◌, ◌||◌, [], ◌∷◌, arith,
}
use digdir_agents.Service.Model.{Environment}
use digdir_agents.Service.Request.{
  is_ascii_alphabetic, is_decimal, valid_name_from, valid_variable, validate_environment,
}

abbrev pub starts_name : ℕ → Bool
starts_name b = (b == b'_') || is_ascii_alphabetic b

abbrev pub continues_name : ℕ → Bool
continues_name b = starts_name b || is_decimal b

-- A letter or underscore, and then letters, digits and underscores.
pub data IsVariableName : Str → Type 0 where
  spelled :
      (b : ℕ) (bs : Str)
      → starts_name b ≡ true
      → All (λ c. continues_name c ≡ true) bs
      → IsVariableName (b ∷ bs)

-- A variable with such a name and a value without a NUL.
abbrev pub IsPortable : Str × Str → Type 0
IsPortable v = IsVariableName v.0 × All (λ c. c ≢ 0) v.1

-- A byte that may stand at an index.
abbrev allowed_at : ℕ → ℕ → Bool
allowed_at index b = (b == b'_') || is_ascii_alphabetic b || (ltb 0 index && is_decimal b)

allowed_first : (b : ℕ) → allowed_at 0 b ≡ starts_name b
allowed_first b = ground arith

allowed_later : (index b : ℕ) → 0 < index → allowed_at index b ≡ continues_name b
allowed_later index b h = ground arith

rest_valid :
    (index : ℕ) (bs : Str)
    → 0 < index
    → (valid_name_from index bs ≡ true) ↔ All (λ c. continues_name c ≡ true) bs
unfolding valid_name_from
rest_valid index [] h = ((λ _. tt), λ _. refl)
rest_valid index (b ∷ bs) h =
    let (there, back) = rest_valid (suc index) bs (omega arith) in
    let split = and_parts (allowed_at index b) (valid_name_from (suc index) bs) in
    (
      (λ e. (sym (allowed_later index b h) ∙ (split e).0, there (split e).1)),
      λ e. rw (allowed_later index b h, e.0, back e.1) refl,
    )

without_nul : (value : Str) → (not (any (λ c. c == 0) value) ≡ true) ↔ All (λ c. c ≢ 0) value
without_nul [] = ((λ _. tt), λ _. refl)
without_nul (c ∷ cs) =
    let (there, back) = without_nul cs in
    (
      (λ e. ((λ z. ground (arith, e, z)), there (ground (arith, e)))),
      λ e. ground (arith, e.0, back e.1),
    )

spelled_parts :
    (b : ℕ) (bs : Str)
    → IsVariableName (b ∷ bs)
    → (starts_name b ≡ true) × All (λ c. continues_name c ≡ true) bs
spelled_parts _ _ (spelled b bs first rest) = (first, rest)

spelled_something : (name : Str) → IsVariableName name → list_is_empty name ≡ false
spelled_something _ (spelled b bs first rest) = refl

pub name_valid :
    (name : Str) → (not (list_is_empty name) && valid_name_from 0 name ≡ true) ↔ IsVariableName name
unfolding valid_name_from
name_valid [] = ((λ e. absurd (cc e)), λ v. absurd (cc (spelled_something [] v)))
name_valid (b ∷ bs) =
    let (there, back) = rest_valid 1 bs (omega arith) in
    let split = and_parts (allowed_at 0 b) (valid_name_from 1 bs) in
    (
      (λ e. spelled b bs (sym (allowed_first b) ∙ (split e).0) (there (split e).1)),
      λ v. rw (allowed_first b, (spelled_parts b bs v).0, back (spelled_parts b bs v).1) refl,
    )

variable-IsPortable : (v : Str × Str) → (valid_variable v ≡ true) ↔ IsPortable v
unfolding valid_variable
variable-IsPortable v =
    let named = name_valid v.0 in
    let valued = without_nul v.1 in
    let split =
      and_parts (not (list_is_empty v.0) && valid_name_from 0 v.0) (not (any (λ c. c == 0) v.1)) in
    ((λ e. (named.0 (split e).0, valued.0 (split e).1)), λ p. rw (named.1 p.0, valued.1 p.1) refl)

-- An environment is accepted exactly when every name is a letter or underscore followed by letters,
-- digits and underscores, and no value has a NUL.
pub validate_environment-IsPortable :
    (environment : Environment)
    → (validate_environment environment ≡ ok tt) ↔ All IsPortable environment
unfolding validate_environment
validate_environment-IsPortable [] = ((λ _. tt), λ _. refl)
validate_environment-IsPortable (v ∷ vs) =
    let (there, back) = validate_environment-IsPortable vs in
    let (valid, portable) = variable-IsPortable v in
    (
      (λ e. (valid (ground (arith, e)), there (ground (arith, e)))),
      λ p. rw (portable p.0, back p.1) refl,
    )
