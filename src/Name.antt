-- ===== src/Name.antt =====
-- Portable sandbox names: sandbox/core/src/name.rs. A name is the list of its bytes.
pub mod Label
mod Tests
use digdir_agents.Base.{
  leb, ◌==◌, length, Result, ok, err, ◌>>=◌, ◌>>◌, ensure, ℕ, Bool, true, ◌&&◌, ◌||◌, List, [], ◌∷◌,
}

-- `MAX_SANDBOX_NAME_BYTES`.
abbrev pub max_sandbox_name_bytes : ℕ
max_sandbox_name_bytes = 63

pub data InvalidSandboxName : Type 0 where
  empty invalid_syntax : InvalidSandboxName
  too_long : (length : ℕ) → InvalidSandboxName

-- `u8::is_ascii_lowercase` and `u8::is_ascii_digit`.
unfoldable pub is_ascii_lowercase : ℕ → Bool
is_ascii_lowercase b = leb b'a' b && leb b b'z'

unfoldable pub is_ascii_digit : ℕ → Bool
is_ascii_digit b = leb b'0' b && leb b b'9'

-- `is_alphanumeric`.
unfoldable pub is_alphanumeric : ℕ → Bool
is_alphanumeric b = is_ascii_lowercase b || is_ascii_digit b

-- `SandboxName::accepts`.
unfoldable pub accepts : ℕ → Bool
accepts c = is_ascii_lowercase c || is_ascii_digit c || (c == b'-')

unfoldable pub all_bytes : (ℕ → Bool) → List ℕ → Bool
all_bytes p [] = true
all_bytes p (b ∷ bs) = p b && all_bytes p bs

unfoldable pub last_of : ℕ → List ℕ → ℕ
last_of b [] = b
last_of b (c ∷ cs) = last_of c cs

-- `validate`.
unfoldable pub validate_name : List ℕ → Result InvalidSandboxName (Unit {0})
validate_name [] = err empty
validate_name (b ∷ bs) = do
  ensure (leb (length (b ∷ bs)) max_sandbox_name_bytes) (too_long (length (b ∷ bs)))
  ensure
      (is_alphanumeric b
        && is_alphanumeric (last_of b bs)
        && all_bytes (λ c. is_alphanumeric c || (c == b'-')) (b ∷ bs))
      invalid_syntax

-- `SandboxName::new` and `Hostname::new`, which share their form.
unfoldable pub new_name : List ℕ → Result InvalidSandboxName (List ℕ)
new_name value = do validate_name value; ok value
