-- ===== src/Authorization/Tests.antt =====
-- Concrete patterns, policies and requests: agentctl/src/authorization/agent_policy.rs.
use digdir_agents.Base.{
  Str, same_text, get, remove, insert, ◌≡◌, refl, ◌↔◌, true, Option, none, [], ◌∷◌, map,
}
use digdir_agents.Authorization.{
  to_lower, trim_dots, strip_wildcard, ends_with, matches_suffix, host_matches,
}
use digdir_agents.Authorization.Request.{
  text_value, allow, deny, AuthorizationRequest, AgentPolicyEngine, SocketAddr, collect_secrets,
  set_agent, remove_agent, rsplit_colon, before_bracket, without_port, request_host,
}
use digdir_agents.Authorization.Engine.{decide_action, host_destined_decision, evaluate_request}
use digdir_agents.Authorization.Hosts.{IsMatched, host_matches-IsMatched}
use digdir_agents.Authorization.Granted.{
  IsGranted, evaluate_request-Reason, evaluate_request-remove_agent,
}
use digdir_agents.Quantity.Digits.{is_digit, all_digits}

abbrev wildcard_pattern : Str
wildcard_pattern = b'*' ∷ b'.' ∷ b'a' ∷ b'.' ∷ b'b' ∷ []

abbrev upper_host : Str
upper_host = b'X' ∷ b'.' ∷ b'A' ∷ b'.' ∷ b'b' ∷ b'.' ∷ []

upper_host_matches : host_matches wildcard_pattern upper_host ≡ true
unfolding host_matches strip_wildcard to_lower matches_suffix trim_dots ends_with same_text
upper_host_matches = refl

host_matches-IsMatched_example :
    (host_matches wildcard_pattern upper_host ≡ true)
    ↔ IsMatched
        (strip_wildcard (map to_lower wildcard_pattern))
        (map to_lower wildcard_pattern)
        (map to_lower (trim_dots upper_host))
host_matches-IsMatched_example = host_matches-IsMatched wildcard_pattern upper_host

abbrev worker : Str
worker = b'w' ∷ []

abbrev no_address : Str → Option SocketAddr
no_address _ = none

abbrev engine : AgentPolicyEngine
engine =
    set_agent worker (wildcard_pattern ∷ []) [] (record { agents = []; platform_endpoint = none })

abbrev connect_to : Str → AuthorizationRequest
connect_to host = record {
  principal = record { kind = "sandbox"; id = worker };
  action = "http.request";
  resource = record { kind = "externalService"; id = host };
  attributes = ("sandbox.name", text_value worker) ∷ ("http.authority", text_value host) ∷ [];
}

abbrev other_host : Str
other_host = b'c' ∷ b':' ∷ b'8' ∷ b'0' ∷ []

denied_upper : evaluate_request no_address engine (connect_to upper_host) ≡ deny
unfolding evaluate_request get set_agent insert same_text host_destined_decision decide_action
    request_host host_matches strip_wildcard to_lower matches_suffix trim_dots without_port
    rsplit_colon ends_with
denied_upper = refl

allowed_other : evaluate_request no_address engine (connect_to other_host) ≡ allow
unfolding evaluate_request get set_agent insert remove collect_secrets same_text
    host_destined_decision decide_action request_host host_matches strip_wildcard to_lower
    matches_suffix ends_with trim_dots without_port before_bracket rsplit_colon all_digits is_digit
allowed_other = refl

evaluate_request-Reason_example :
    (evaluate_request no_address engine (connect_to other_host) ≡ allow)
    ↔ IsGranted no_address engine (connect_to other_host)
evaluate_request-Reason_example = evaluate_request-Reason no_address engine (connect_to other_host)

evaluate_request-remove_agent_example :
    evaluate_request no_address (remove_agent worker engine) (connect_to other_host) ≡ deny
unfolding get
evaluate_request-remove_agent_example =
    evaluate_request-remove_agent no_address engine worker (connect_to other_host) refl
