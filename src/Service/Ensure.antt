-- ===== src/Service/Ensure.antt =====
-- Ensuring a sandbox: sandbox/core/src/service.rs.
use mathlib.Core.Option
use digdir_agents.Base.{
  ◌==◌, if◌then◌else◌, option_eq, Result, err, ok, ok_or, ensure, Bool, true, false, not, ◌&&◌,
  Option, none, some,
}
use digdir_agents.Service.{NetworkEndpointSelection, same_selection, is_stopped, is_running_state}
use digdir_agents.Service.Errors.{
  Error, immutable, invalid, sandbox_id_mismatch, network_endpoint_mismatch, component,
  is_not_found,
}
use digdir_agents.Service.Images.{ResolvedImage}
use digdir_agents.Service.Model.{
  SandboxId, SandboxResources, same_resources, Environment, same_environment, NetworkAttachment,
  same_attachment, Sandbox, CreateSandboxRequest, EnsureSandboxRequest,
}
use digdir_agents.Service.Request.{validate_spec, request_hostname, validate_environment}
use digdir_agents.Service.Effects.{
  Effect, ◌>>=◌, ◌>>◌, lift, when_true, attempt, in_component, phase_began, phase_over, step_began,
  step_completed, World, ask, tell,
}
use digdir_agents.Service.Interfaces.{NetworkBackend, SandboxService}
use digdir_agents.Service.Checks.{network_backend_for, require_unchanged}
use digdir_agents.Service.Discovery.{require_backend_features_observed, resolve_image}
use digdir_agents.Progress.{
  validate, lookup, sandbox_create, sandbox_update, network_start, sandbox_start, inspect, Outcome,
  completed, reused,
}

abbrev pub is_reused : Outcome → Bool
is_reused reused = true
is_reused _ = false

abbrev pub joint_outcome : Outcome → Outcome → Outcome
joint_outcome a b = if is_reused a && is_reused b then reused else completed

abbrev pub on_network :
    {W : Type 0}
    → Option (NetworkBackend W)
    → (NetworkBackend W → Effect W (Unit {0}))
    → Effect W (Unit {0})
on_network none call = lift (ok tt)
on_network (some network) call = call network

-- The endpoint that a sandbox was attached to.
abbrev pub expected_endpoint : Sandbox → Result Error NetworkEndpointSelection
expected_endpoint b =
    ok_or (Option.map (λ a. a.endpoint) b.network) (invalid "network" "attachment is missing")

module _ {W : Type 0} (s : SandboxService W) where
  -- The network's part of `ensure_running`.
  unfoldable pub start_network : NetworkBackend W → Sandbox → Effect (World W) (Unit {0})
  start_network network b = do
    tell (phase_began network_start)
    actual ←
        ask (in_component "open sandbox network endpoint" (s.backend.open_network_endpoint b.id))
    expected ← lift (expected_endpoint b)
    lift (ensure (same_selection actual expected) (network_endpoint_mismatch expected actual))
    ask (
        in_component "start sandbox network"
          (network.start (record { sandbox_id = b.id; sandbox_name = b.name; endpoint = actual })))
    tell (phase_over network_start completed)

  abbrev pub start_network_unless_running :
      Option (NetworkBackend W) → Sandbox → Effect (World W) (Unit {0})
  start_network_unless_running none b = lift (ok tt)
  start_network_unless_running (some network) b =
      λ w. when_true (not (network.is_running b.id w.components)) (start_network network b) w

  -- `ensure_running`.
  unfoldable pub ensure_running : Sandbox → Effect (World W) Sandbox
  ensure_running b = do
    network ← lift (network_backend_for s.network_backend b.network)
    start_network_unless_running network b
    tell (phase_began sandbox_start)
    when_true (not (is_running_state b.state))
        (ask (in_component "start sandbox" (s.backend.start b.id)))
    tell (phase_over sandbox_start (if is_running_state b.state then reused else completed))
    tell (phase_began inspect)
    inspected ← ask (in_component "inspect sandbox" (s.backend.inspect b.id))
    tell (phase_over inspect completed)
    lift (ok inspected)

  -- The stop before an update in `ensure_environment`.
  unfoldable pub stop_for_update : Sandbox → Effect W (Unit {0})
  stop_for_update b = do
    in_component "stop sandbox for environment update" (s.backend.stop b.id)
    network ← lift (network_backend_for s.network_backend b.network)
    on_network network
        (λ n. in_component "stop sandbox network for environment update" (n.stop b.id))

  unfoldable pub update_environment : Sandbox → Environment → Effect (World W) (Sandbox × Outcome)
  update_environment b environment = do
    tell (step_began "Update sandbox environment")
    when_true (not (is_stopped b.state)) (ask (stop_for_update b))
    updated ←
        ask (
          in_component "update sandbox environment" (s.backend.update_environment b.id environment))
    tell (step_completed "Update sandbox environment")
    lift (ok (updated, completed))

  -- `ensure_environment`.
  unfoldable pub ensure_environment : Sandbox → Environment → Effect (World W) (Sandbox × Outcome)
  ensure_environment b environment =
      if same_environment b.environment environment
      then lift (ok (b, reused))
      else update_environment b environment

  unfoldable pub update_resources :
      Sandbox → SandboxResources → Effect (World W) (Sandbox × Outcome)
  update_resources b resources = do
    tell (step_began "Update sandbox resources")
    updated ←
        ask (in_component "update sandbox resources" (s.backend.update_resources b.id resources))
    tell (step_completed "Update sandbox resources")
    lift (ok (updated, completed))

  -- `ensure_resources`.
  unfoldable pub ensure_resources :
      Sandbox → SandboxResources → Effect (World W) (Sandbox × Outcome)
  ensure_resources b resources =
      if same_resources b.resources resources
      then lift (ok (b, reused))
      else update_resources b resources

  -- `ensure_updates`.
  unfoldable pub ensure_updates : Sandbox → EnsureSandboxRequest → Effect (World W) Sandbox
  ensure_updates b request = do
    tell (phase_began sandbox_update)
    environment ← ensure_environment b request.environment
    resources ← ensure_resources environment.0 request.spec.resources
    tell (phase_over sandbox_update (joint_outcome environment.1 resources.1))
    lift (ok resources.0)

  -- `ensure_sandbox`, where the sandbox was found.
  unfoldable pub adopt : Sandbox → EnsureSandboxRequest → Effect (World W) Sandbox
  adopt b request = do
    lift (require_unchanged b request)
    tell (phase_over lookup reused)
    network ← require_backend_features_observed s b.image.platform request
    lift (ensure (option_eq same_attachment b.network network) (immutable "network"))
    updated ← ensure_updates b request
    ensure_running updated

  abbrev pub new_id : Effect (World W) SandboxId
  new_id = ask (λ w. let (id, w') = s.generate w in (ok id, w'))

  abbrev pub creation :
      SandboxId
      → EnsureSandboxRequest
      → ResolvedImage
      → Option NetworkAttachment
      → CreateSandboxRequest
  creation id request image network = record {
    id = id;
    image = image;
    name = request.name;
    hostname = request_hostname request;
    resources = request.spec.resources;
    init_system = request.spec.init_system;
    mounts = request.mounts;
    environment = request.environment;
    network = network;
  }

  -- `ensure_sandbox`, where there is no such sandbox.
  unfoldable pub create_new : EnsureSandboxRequest → Effect (World W) Sandbox
  create_new request = do
    tell (phase_over lookup completed)
    _ ← require_backend_features_observed s request.spec.platform request
    image ← resolve_image s request
    network ← require_backend_features_observed s image.platform request
    tell (phase_began sandbox_create)
    id ← new_id
    created ←
        ask (in_component "create sandbox" (s.backend.create (creation id request image network)))
    lift (ensure (created.id == id) (sandbox_id_mismatch id created.id))
    tell (phase_over sandbox_create completed)
    ensure_running created

  abbrev pub adopt_or_create :
      Result Error Sandbox → EnsureSandboxRequest → Effect (World W) Sandbox
  adopt_or_create (ok b) request = adopt b request
  adopt_or_create (err e) request =
      if is_not_found e then create_new request else lift (err (component "find sandbox" e))

  -- `ensure_sandbox`.
  unfoldable pub ensure_sandbox : EnsureSandboxRequest → Effect (World W) Sandbox
  ensure_sandbox request = do
    tell (phase_began validate)
    lift (validate_spec request.spec)
    lift (validate_environment request.environment)
    tell (phase_over validate completed)
    tell (phase_began lookup)
    found ← attempt (ask (s.backend.find request.name))
    adopt_or_create found request
