-- ===== src/Authorization.antt =====
-- How a policy's patterns match hosts: agentctl/src/authorization/agent_policy.rs. A text is the list of
-- its bytes.
pub mod Hosts
pub mod Request
pub mod Engine
pub mod Granted
mod Tests
use digdir_agents.Base.{
  ltb, leb, ◌==◌, if◌then◌else◌, length, drop, Str, same_text, list_is_empty, ℕ, zero, suc, ◌+◌,
  ◌-◌, Bool, false, ◌&&◌, Option, none, some, [], ◌∷◌, map,
}

-- `str::to_ascii_lowercase`, for a byte.
unfoldable pub to_lower : ℕ → ℕ
to_lower b = if leb b'A' b && leb b b'Z' then b + 32 else b

-- `trim_end_matches('.')`.
unfoldable pub trim_dots : Str → Str
trim_dots [] = []
trim_dots (b ∷ bs) =
    let rest = trim_dots bs in if (b == b'.') && list_is_empty rest then [] else b ∷ rest

-- `str::strip_prefix("*.")`.
unfoldable pub strip_wildcard : Str → Option Str
strip_wildcard (a ∷ b ∷ suffix) = if (a == b'*') && (b == b'.') then some suffix else none
strip_wildcard _ = none

abbrev pub byte_at : ℕ → Str → Option ℕ
byte_at n [] = none
byte_at zero (b ∷ bs) = some b
byte_at (suc n) (b ∷ bs) = byte_at n bs

-- `str::ends_with`, of a suffix that is no longer than the text.
unfoldable pub ends_with : Str → Str → Bool
ends_with host suffix = same_text (drop (length host - length suffix) host) suffix

abbrev pub is_dot : Option ℕ → Bool
is_dot none = false
is_dot (some b) = b == b'.'

-- The match with a wildcard, and without one.
unfoldable pub matches_suffix : Str → Str → Bool
matches_suffix suffix host =
    ltb (length suffix) (length host)
    && ends_with host suffix
    && is_dot (byte_at (length host - length suffix - 1) host)

abbrev pub matches_either : Option Str → Str → Str → Bool
matches_either none pattern host = same_text host pattern
matches_either (some suffix) pattern host = matches_suffix suffix host

-- `host_matches`.
unfoldable pub host_matches : Str → Str → Bool
host_matches pattern host =
    let pattern' = map to_lower pattern in
    matches_either (strip_wildcard pattern') pattern' (map to_lower (trim_dots host))
