-- ===== src/Authorization/Granted.antt =====
-- What the agent policy engine allows: agentctl/src/authorization/agent_policy.rs.
use digdir_agents.Base.{
  str_eq, Bool-cases, Option-cases, Str, same_text, and_parts, get, get-remove, String, ◌≡◌, refl,
  ap, ◌↔◌, ◌⊎◌, inl, inr, Bool, true, false, not, Option, none, some, arith,
}
use digdir_agents.Authorization.Request.{
  allow, deny, AuthorizationRequest, AgentPolicy, AgentPolicyEngine, SocketAddr, remove_agent,
  as_str, as_bool, attribute, request_host, is_host_reserved,
}
use digdir_agents.Authorization.Engine.{
  decision, is_network_action, is_true, is_alias, has_port, matches_any, secret_allowed,
  decide_action, unless_decided, policy_of, destination_address, is_flagged, destination_port,
  is_host_destined, host_destined_decision, evaluate_request,
}

module _ (parse_address : Str → Option SocketAddr) where
  -- What makes the host itself the destination of a request: the host's alias, the flag that the
  -- sandbox's network sets, or an address in a range that is the host's.
  pub data IsOnHost (e : AgentPolicyEngine) (request : AuthorizationRequest) : Type 0 where
    by_alias : is_alias e.platform_endpoint (request_host request) ≡ true → IsOnHost e request
    by_flag :
        as_bool (attribute "network.destinationIsHost" request) ≡ some true → IsOnHost e request
    by_range :
        (address : SocketAddr)
        → destination_address parse_address request ≡ some address
        → is_host_reserved address.ip ≡ true
        → IsOnHost e request

  is_true-some : (b : Option Bool) → is_true b ≡ true → b ≡ some true
  is_true-some none h = absurd (cc h)
  is_true-some (some b) h = ap (λ x. some x) h

  is_host_destined-IsOnHost :
      (e : AgentPolicyEngine) (request : AuthorizationRequest)
      → is_host_destined parse_address e.platform_endpoint request (request_host request) ≡ true
      → IsOnHost e request
  is_host_destined-IsOnHost e request h =
      elim (Bool-cases (is_alias e.platform_endpoint (request_host request))) [
        | inl alias ↦ by_alias alias
        | inr unnamed ↦ elim (Bool-cases (is_flagged parse_address request)) [
          | inl flagged ↦ by_flag (is_true-some _ flagged)
          | inr unflagged ↦ elim (Option-cases (destination_address parse_address request)) [
            | inl nowhere ↦ absurd (cc (rw (unnamed, unflagged, nowhere) at h))
            | inr (address, is_address) ↦
                by_range address is_address (rw (unnamed, unflagged, is_address) at h)
          ]
        ]
      ]

  IsOnHost-destined :
      (e : AgentPolicyEngine) (request : AuthorizationRequest)
      → IsOnHost e request
      → is_host_destined parse_address e.platform_endpoint request (request_host request) ≡ true
  IsOnHost-destined e request (by_alias alias) = rw alias refl
  IsOnHost-destined e request (by_flag flagged) = rw flagged (ground arith)
  IsOnHost-destined e request (by_range address is_address reserved) =
      rw (is_address, reserved) (ground arith)

  undestined :
      (e : AgentPolicyEngine) (request : AuthorizationRequest)
      → ¬ (IsOnHost e request)
      → is_host_destined parse_address e.platform_endpoint request (request_host request) ≡ false
  undestined e request elsewhere =
      elim (Bool-cases
        (is_host_destined parse_address e.platform_endpoint request (request_host request))) [
          | inl destined ↦ absurd (elsewhere (is_host_destined-IsOnHost e request destined))
          | inr other ↦ other
        ]

  -- Why a request of a sandbox with a policy may proceed: it only resolves a name of the host; it goes
  -- to the platform's endpoint on the host; it goes elsewhere, to a host that no pattern denies; or it
  -- uses a secret at a host that the secret is for.
  pub data Reason (e : AgentPolicyEngine) (policy : AgentPolicy) (request : AuthorizationRequest)
      : Type 0 where
    resolves_host :
        str_eq request.action "dns.query" ≡ true → IsOnHost e request → Reason e policy request
    reaches_platform :
        is_network_action request.action ≡ true
        → is_alias e.platform_endpoint (request_host request) ≡ true
        → has_port e.platform_endpoint (destination_port parse_address request) ≡ true
        → Reason e policy request
    reaches_network :
        (host : Str)
        → is_network_action request.action ≡ true
        → request_host request ≡ some host
        → ¬ (IsOnHost e request)
        → matches_any policy.denied_hosts host ≡ false
        → Reason e policy request
    uses_secret :
        (host : Str)
        → is_network_action request.action ≡ false
        → request_host request ≡ some host
        → str_eq request.action "secret.use" ≡ true
        → secret_allowed (get same_text request.resource.id policy.secrets) host ≡ true
        → Reason e policy request

  -- The principal is a sandbox, and the policy of the sandbox that the request names gives a reason.
  abbrev pub IsGranted : AgentPolicyEngine → AuthorizationRequest → Type 0
  IsGranted e request =
      (str_eq request.principal.kind "sandbox" ≡ true)
      × ((policy : AgentPolicy) × (policy_of e request ≡ some policy) × Reason e policy request)

  not-true : (b : Bool) → not b ≡ true → b ≡ false
  not-true true h = cc
  not-true false h = refl

  decision-allow : (b : Bool) → decision b ≡ allow → b ≡ true
  decision-allow true h = refl
  decision-allow false h = cc

  by_action :
      (e : AgentPolicyEngine) (policy : AgentPolicy) (request : AuthorizationRequest)
      → (is_network_action request.action ≡ false)
        ⊎ (is_host_destined parse_address e.platform_endpoint request (request_host request)
            ≡ false)
      → decide_action policy request (request_host request) ≡ allow
      → Reason e policy request
  unfolding decide_action
  by_action e policy request other h = elim (Option-cases (request_host request)) [
    | inl absent ↦ absurd (cc (rw absent at h))
    | inr (host, is_host) ↦ elim (Bool-cases (is_network_action request.action)) [
      | inl network ↦
          reaches_network host network is_host
            (elim other [
              | inl not_network ↦ absurd (cc (network, not_network))
              | inr elsewhere ↦ λ on. cc (elsewhere, IsOnHost-destined e request on)
            ])
            (not-true _ (decision-allow _ (rw (is_host, network) at h)))
      | inr not_network ↦ elim (Bool-cases (str_eq request.action "secret.use")) [
        | inl secret ↦
            uses_secret host not_network is_host secret
              (decision-allow _ (rw (is_host, not_network, secret) at h))
        | inr not_secret ↦ absurd (cc (rw (is_host, not_network, not_secret) at h))
      ]
    ]
  ]

  by_destination :
      (e : AgentPolicyEngine) (policy : AgentPolicy) (request : AuthorizationRequest)
      → unless_decided
          (host_destined_decision parse_address e request (request_host request))
          (decide_action policy request (request_host request))
        ≡ allow
      → Reason e policy request
  unfolding host_destined_decision
  by_destination e policy request h = elim (Bool-cases (is_network_action request.action)) [
    | inr not_network ↦ by_action e policy request (inl not_network) (rw not_network at h)
    | inl network ↦
        let host = request_host request in
        elim (Bool-cases (is_host_destined parse_address e.platform_endpoint request host)) [
          | inr elsewhere ↦
              by_action e policy request (inr elsewhere) (rw (network, elsewhere) at h)
          | inl destined ↦ elim (Bool-cases (str_eq request.action "dns.query")) [
            | inl dns ↦ resolves_host dns (is_host_destined-IsOnHost e request destined)
            | inr not_dns ↦
                let (alias, port) =
                  and_parts (is_alias e.platform_endpoint host)
                    (has_port e.platform_endpoint (destination_port parse_address request))
                    (decision-allow _ (rw (network, destined, not_dns) at h)) in
                reaches_platform network alias port
          ]
        ]
  ]

  granted :
      (e : AgentPolicyEngine) (request : AuthorizationRequest)
      → evaluate_request parse_address e request ≡ allow
      → IsGranted e request
  unfolding evaluate_request
  granted e request h = elim (Bool-cases (str_eq request.principal.kind "sandbox")) [
    | inr other ↦ absurd (cc (rw other at h))
    | inl sandbox ↦ elim (Option-cases (policy_of e request)) [
      | inl none_known ↦ absurd (cc (rw (sandbox, none_known) at h))
      | inr (policy, known) ↦
          (sandbox, (policy, known, by_destination e policy request (rw (sandbox, known) at h)))
    ]
  ]

  dns_network :
      (action : String) → str_eq action "dns.query" ≡ true → is_network_action action ≡ true
  dns_network action dns = elim (Bool-cases (str_eq action "network.connect")) [
    | inl connect ↦ rw connect refl
    | inr other ↦ rw (other, dns) refl
  ]

  decided :
      (e : AgentPolicyEngine) (policy : AgentPolicy) (request : AuthorizationRequest)
      → Reason e policy request
      → unless_decided
          (host_destined_decision parse_address e request (request_host request))
          (decide_action policy request (request_host request))
        ≡ allow
  unfolding host_destined_decision decide_action
  decided e policy request (resolves_host dns on) =
      rw (dns_network request.action dns, IsOnHost-destined e request on, dns) refl
  decided e policy request (reaches_platform network alias port) =
      elim (Bool-cases (str_eq request.action "dns.query")) [
        | inl dns ↦ rw (network, alias, dns) refl
        | inr other ↦ rw (network, alias, other, port) refl
      ]
  decided e policy request (reaches_network host network is_host elsewhere undenied) =
      rw (undestined e request elsewhere, is_host, network, undenied) refl
  decided e policy request (uses_secret host not_network is_host secret for_host) =
      rw (is_host, not_network, secret, for_host) refl

  -- A request is allowed exactly when its principal is a sandbox, the sandbox that it names has a
  -- policy, and one of these holds: it resolves a name and its destination is the host, by its alias,
  -- by the flag or by a reserved address; it is a network action to the platform's alias and port; it
  -- is a network action to a host that is named, is not the host itself and is denied by no pattern; or
  -- it uses a secret of the policy, for a named host that is one of the secret's.
  pub evaluate_request-Reason :
      (e : AgentPolicyEngine) (request : AuthorizationRequest)
      → (evaluate_request parse_address e request ≡ allow) ↔ IsGranted e request
  unfolding evaluate_request
  evaluate_request-Reason e request = (
    granted e request,
    λ (sandbox, (policy, known, reason)). rw (sandbox, known, decided e policy request reason) refl,
  )

  -- Once an agent's policy is removed, every request that names its sandbox is denied.
  pub evaluate_request-remove_agent :
      (e : AgentPolicyEngine) (sandbox : Str) (request : AuthorizationRequest)
      → as_str (attribute "sandbox.name" request) ≡ some sandbox
      → evaluate_request parse_address (remove_agent sandbox e) request ≡ deny
  unfolding evaluate_request remove_agent
  evaluate_request-remove_agent e sandbox request named =
      elim (Bool-cases (str_eq request.principal.kind "sandbox")) [
        | inl is_sandbox ↦ rw (is_sandbox, named, get-remove same_text sandbox e.agents) refl
        | inr other ↦ rw other refl
      ]
