-- ===== src/Name/Tests.antt =====
-- Concrete names for the theorem on sandbox names: sandbox/core/src/name.rs.
use digdir_agents.Base.{length, ok, err, ℕ, ◌≤◌, ◌≡◌, refl, ◌↔◌, List, [], ◌∷◌}
use digdir_agents.Name.{
  invalid_syntax, is_ascii_lowercase, is_ascii_digit, is_alphanumeric, last_of, validate_name,
}
use digdir_agents.Name.Label.{IsLabel, validate_name-IsLabel}

abbrev worker_name : List ℕ
worker_name = b'a' ∷ b'-' ∷ b'7' ∷ []

trailing_hyphen : validate_name (b'a' ∷ b'-' ∷ []) ≡ err invalid_syntax
unfolding validate_name is_alphanumeric is_ascii_lowercase last_of is_ascii_digit
trailing_hyphen = refl

validate_name-IsLabel_example :
    (validate_name worker_name ≡ ok tt) ↔ (IsLabel worker_name × (length worker_name ≤ 63))
validate_name-IsLabel_example = validate_name-IsLabel worker_name
