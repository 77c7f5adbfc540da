-- ===== src/Authorization/Request.antt =====
-- Requests and policies, and what is read from a request: agentctl/src/authorization/agent_policy.rs
-- and sandbox/authorization/src/lib.rs. The names of actions, kinds and attributes are `String`s, and what
-- the code looks into is a list of bytes.
use digdir_agents.Base.{
  ltb, ◌==◌, str_eq, if◌then◌else◌, every, Str, same_text, list_is_empty, get, remove, insert, ℤ, ℕ,
  ◌/◌, String, Bool, false, not, ◌&&◌, ◌||◌, Option, none, some, List, [], ◌∷◌,
}
use digdir_agents.Quantity.Digits.{all_digits, value_from}

-- `AuthorizationValue`.
pub data AuthorizationValue : Type 0 where
  text_value : Str → AuthorizationValue
  integer_value : ℤ → AuthorizationValue
  boolean_value : Bool → AuthorizationValue
  texts_value : List Str → AuthorizationValue

pub data AuthorizationDecision : Type 0 where
  allow deny : AuthorizationDecision

pub record Principal : Type 0 where
  pub kind : String
  pub id : Str

pub record Resource : Type 0 where
  pub kind : String
  pub id : Str

pub record AuthorizationRequest : Type 0 where
  pub principal : Principal
  pub action : String
  pub resource : Resource
  pub attributes : List (String × AuthorizationValue)

pub record PlatformEndpoint : Type 0 where
  pub host : Str
  pub port : ℕ

pub record AgentPolicy : Type 0 where
  pub denied_hosts : List Str
  pub secrets : List (Str × List Str)

pub record AgentPolicyEngine : Type 0 where
  pub agents : List (Str × AgentPolicy)
  pub platform_endpoint : Option PlatformEndpoint

-- An address as its octets.
pub data IpAddr : Type 0 where
  v4 : (a b c d : ℕ) → IpAddr
  v6 : (octets : List ℕ) → IpAddr

pub record SocketAddr : Type 0 where
  pub ip : IpAddr
  pub port : ℕ

-- `AgentPolicyEngine::set_platform_endpoint`, `set_agent` and `remove_agent`; the secrets are those of
-- the agent and the managed ones.
unfoldable pub set_platform_endpoint : Str → ℕ → AgentPolicyEngine → AgentPolicyEngine
set_platform_endpoint host port e = record e {
  platform_endpoint = some (record { host = host; port = port });
}

unfoldable pub collect_secrets :
    List (Str × List Str) → List (Str × List Str) → List (Str × List Str)
collect_secrets [] collected = collected
collect_secrets ((name, hosts) ∷ secrets) collected =
    collect_secrets secrets (insert same_text name hosts collected)

unfoldable pub set_agent :
    Str → List Str → List (Str × List Str) → AgentPolicyEngine → AgentPolicyEngine
set_agent sandbox denied secrets e = record e {
  agents =
      insert same_text sandbox
        (record { denied_hosts = denied; secrets = collect_secrets secrets [] }) e.agents;
}

unfoldable pub remove_agent : Str → AgentPolicyEngine → AgentPolicyEngine
remove_agent sandbox e = record e { agents = remove same_text sandbox e.agents }

abbrev pub as_str : Option AuthorizationValue → Option Str
as_str (some (text_value t)) = some t
as_str _ = none

abbrev pub as_bool : Option AuthorizationValue → Option Bool
as_bool (some (boolean_value b)) = some b
as_bool _ = none

abbrev pub attribute : String → AuthorizationRequest → Option AuthorizationValue
attribute name request = get str_eq name request.attributes

abbrev pub or_else {ℓ} : {A : Type ℓ} → Option A → Option A → Option A
or_else none other = other
or_else (some a) other = some a

abbrev pub map_option {ℓ κ} : {A : Type ℓ} {B : Type κ} → (A → B) → Option A → Option B
map_option f none = none
map_option f (some a) = some (f a)

abbrev pub and_option {ℓ κ} : {A : Type ℓ} {B : Type κ} → Option A → (A → Option B) → Option B
and_option none f = none
and_option (some a) f = f a

-- `str::rsplit_once(':')`: what stands before the last colon, and behind it.
unfoldable pub rsplit_colon : Str → Option (Str × Str)
rsplit_colon [] = none
rsplit_colon (b ∷ bs) =
    or_else (map_option (λ s. (b ∷ s.0, s.1)) (rsplit_colon bs))
      (if b == b':' then some ([], bs) else none)

-- What stands before the first `]`.
unfoldable pub before_bracket : Str → Option Str
before_bracket [] = none
before_bracket (b ∷ bs) = if b == b']' then some [] else map_option (λ s. b ∷ s) (before_bracket bs)

abbrev pub bracketed : Str → Option Str
bracketed [] = none
bracketed (b ∷ bs) = if b == b'[' then before_bracket bs else none

abbrev pub is_port : Str → Bool
is_port port = not (list_is_empty port) && all_digits port

abbrev pub before_port : Option (Str × Str) → Option Str
before_port none = none
before_port (some (host, port)) = if is_port port then some host else none

abbrev pub otherwise : Option Str → Str → Str
otherwise none t = t
otherwise (some s) t = s

-- `without_port`.
unfoldable pub without_port : Str → Str
without_port authority =
    otherwise (or_else (bracketed authority) (before_port (rsplit_colon authority))) authority

abbrev pub digits_to_u16 : Str → Option ℕ
digits_to_u16 digits =
    if is_port digits && ltb (value_from 0 digits) 65536 then some (value_from 0 digits) else none

-- `str::parse::<u16>`, which takes a plus sign.
unfoldable pub parse_u16 : Str → Option ℕ
parse_u16 [] = none
parse_u16 (b ∷ bs) = if b == b'+' then digits_to_u16 bs else digits_to_u16 (b ∷ bs)

-- `authority_port`.
unfoldable pub authority_port : AuthorizationRequest → Option ℕ
authority_port request =
    and_option (and_option (as_str (attribute "http.authority" request)) rsplit_colon)
      (λ s. parse_u16 s.1)

-- `request_host`.
unfoldable pub request_host : AuthorizationRequest → Option Str
request_host request = map_option without_port (
    or_else (as_str (attribute "http.authority" request)) (
      or_else (as_str (attribute "network.hostname" request))
        (if str_eq request.action "dns.query" then some request.resource.id else none)))

abbrev pub all_zero : List ℕ → Bool
all_zero bs = every (λ b. b == 0) bs

abbrev pub one_behind_zeros : List ℕ → Bool
one_behind_zeros [] = false
one_behind_zeros (b ∷ []) = b == 1
one_behind_zeros (b ∷ c ∷ bs) = (b == 0) && one_behind_zeros (c ∷ bs)

abbrev pub local_prefix : List ℕ → Bool
local_prefix (a ∷ b ∷ _) = (a / 2 == 126) || ((a == 254) && (b / 64 == 2))
local_prefix _ = false

-- `is_host_reserved`; a mask on the high bits of an octet is a division.
unfoldable pub is_host_reserved : IpAddr → Bool
is_host_reserved (v4 a b c d) =
    (a == 127)
    || ((a == 169) && (b == 254))
    || ((a == 0) && (b == 0) && (c == 0) && (d == 0))
    || ((a == 100) && (b / 64 == 1))
is_host_reserved (v6 octets) = one_behind_zeros octets || all_zero octets || local_prefix octets
