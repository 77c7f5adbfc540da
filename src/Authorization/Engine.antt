-- ===== src/Authorization/Engine.antt =====
-- The decisions of the agent policy engine: agentctl/src/authorization/agent_policy.rs. How the standard
-- library reads a socket address is a parameter.
use digdir_agents.Base.{
  ◌==◌, str_eq, if◌then◌else◌, any, Str, same_text, get, ℕ, String, Bool, true, false, not, ◌&&◌,
  ◌||◌, Option, none, some, List, map,
}
use digdir_agents.Authorization.{to_lower, host_matches}
use digdir_agents.Authorization.Request.{
  AuthorizationDecision, allow, deny, AuthorizationRequest, PlatformEndpoint, AgentPolicy,
  AgentPolicyEngine, SocketAddr, as_str, as_bool, attribute, or_else, map_option, and_option,
  authority_port, request_host, is_host_reserved,
}

-- `decision`.
abbrev pub decision : Bool → AuthorizationDecision
decision true = allow
decision false = deny

abbrev pub is_network_action : String → Bool
is_network_action action =
    str_eq action "network.connect" || str_eq action "dns.query" || str_eq action "http.request"

abbrev pub is_true : Option Bool → Bool
is_true (some b) = b
is_true none = false

abbrev pub same_host : Str → Str → Bool
same_host a b = same_text (map to_lower a) (map to_lower b)

abbrev pub is_alias : Option PlatformEndpoint → Option Str → Bool
is_alias (some endpoint) (some host) = same_host host endpoint.host
is_alias _ _ = false

abbrev pub has_port : Option PlatformEndpoint → Option ℕ → Bool
has_port (some endpoint) (some port) = port == endpoint.port
has_port _ _ = false

abbrev pub reserved_destination : Option SocketAddr → Bool
reserved_destination none = false
reserved_destination (some address) = is_host_reserved address.ip

abbrev pub matches_any : List Str → Str → Bool
matches_any patterns host = any (λ pattern. host_matches pattern host) patterns

abbrev pub secret_allowed : Option (List Str) → Str → Bool
secret_allowed none host = false
secret_allowed (some patterns) host = matches_any patterns host

-- The `match` on the action, for a request that is not destined to the host.
unfoldable pub decide_action :
    AgentPolicy → AuthorizationRequest → Option Str → AuthorizationDecision
decide_action policy request none = deny
decide_action policy request (some host) =
    if is_network_action request.action
    then decision (not (matches_any policy.denied_hosts host))
    else if str_eq request.action "secret.use"
    then decision (secret_allowed (get same_text request.resource.id policy.secrets) host)
    else deny

abbrev pub unless_decided :
    Option AuthorizationDecision → AuthorizationDecision → AuthorizationDecision
unless_decided none d = d
unless_decided (some d) _ = d

abbrev pub policy_of : AgentPolicyEngine → AuthorizationRequest → Option AgentPolicy
policy_of e request =
    and_option (as_str (attribute "sandbox.name" request)) (λ name. get same_text name e.agents)

module _ (parse_address : Str → Option SocketAddr) where
  -- `destination_address`.
  abbrev pub destination_address : AuthorizationRequest → Option SocketAddr
  destination_address request =
      and_option (as_str (attribute "network.destinationAddress" request)) parse_address

  abbrev pub is_flagged : AuthorizationRequest → Bool
  is_flagged request = is_true (as_bool (attribute "network.destinationIsHost" request))

  abbrev pub destination_port : AuthorizationRequest → Option ℕ
  destination_port request =
      or_else (map_option (λ a. a.port) (destination_address request)) (authority_port request)

  abbrev pub is_host_destined : Option PlatformEndpoint → AuthorizationRequest → Option Str → Bool
  is_host_destined endpoint request host =
      is_alias endpoint host
      || is_flagged request
      || reserved_destination (destination_address request)

  -- `host_destined_decision`.
  unfoldable pub host_destined_decision :
      AgentPolicyEngine → AuthorizationRequest → Option Str → Option AuthorizationDecision
  host_destined_decision e request host =
      if not (is_network_action request.action)
        || not (is_host_destined e.platform_endpoint request host)
      then none
      else if str_eq request.action "dns.query"
      then some allow
      else some (
          decision (
            is_alias e.platform_endpoint host
            && has_port e.platform_endpoint (destination_port request)))

  abbrev pub decide_with :
      Option AgentPolicy → AgentPolicyEngine → AuthorizationRequest → AuthorizationDecision
  decide_with none e request = deny
  decide_with (some policy) e request =
      unless_decided (host_destined_decision e request (request_host request))
        (decide_action policy request (request_host request))

  -- `evaluate_request`.
  unfoldable pub evaluate_request : AgentPolicyEngine → AuthorizationRequest → AuthorizationDecision
  evaluate_request e request =
      if str_eq request.principal.kind "sandbox"
      then decide_with (policy_of e request) e request
      else deny
