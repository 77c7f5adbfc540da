-- ===== src/Service/Release.antt =====
-- Stopping, killing and deleting sandboxes: sandbox/core/src/service.rs.
use digdir_agents.Base.{if◌then◌else◌, Str, Result, err, ok, String, Bool, true, false, not, Option}
use digdir_agents.Service.{RetentionPolicy, retain, delete, is_stopped}
use digdir_agents.Service.Errors.{Error, component, is_not_found}
use digdir_agents.Service.Model.{SandboxId, Sandbox}
use digdir_agents.Service.Effects.{Effect, ◌>>=◌, ◌>>◌, lift, when_true, attempt, in_component}
use digdir_agents.Service.Interfaces.{NetworkBackend, SandboxService}
use digdir_agents.Service.Checks.{network_backend_for}
use digdir_agents.Service.Ensure.{on_network}

abbrev pub is_delete : RetentionPolicy → Bool
is_delete delete = true
is_delete retain = false

module _ {W : Type 0} (s : SandboxService W) where
  -- The deletion at the end of `release_sandbox`.
  unfoldable pub delete_released : Option (NetworkBackend W) → SandboxId → Effect W (Unit {0})
  delete_released network id = do
    on_network network (λ n. in_component "delete sandbox network" (n.delete id))
    in_component "delete sandbox" (s.backend.delete id)

  -- `release_sandbox`.
  unfoldable pub release_sandbox : Sandbox → RetentionPolicy → Effect W (Unit {0})
  release_sandbox b retention = do
    network ← lift (network_backend_for s.network_backend b.network)
    when_true (not (is_stopped b.state)) (in_component "stop sandbox" (s.backend.stop b.id))
    on_network network (λ n. in_component "stop sandbox network" (n.stop b.id))
    when_true (is_delete retention) (delete_released network b.id)

  -- The `match` on a lookup: a sandbox that is not there is done with.
  unfoldable pub if_found :
      String → Result Error Sandbox → (Sandbox → Effect W (Unit {0})) → Effect W (Unit {0})
  if_found operation (ok b) next = next b
  if_found operation (err e) next =
      if is_not_found e then lift (ok tt) else lift (err (component operation e))

  -- `release` and `release_by_id`.
  unfoldable pub release : Str → RetentionPolicy → Effect W (Unit {0})
  release name retention = do
    found ← attempt (s.backend.find name)
    if_found "find sandbox" found (λ b. release_sandbox b retention)

  unfoldable pub release_by_id : SandboxId → RetentionPolicy → Effect W (Unit {0})
  release_by_id id retention = do
    found ← attempt (s.backend.inspect id)
    if_found "inspect sandbox" found (λ b. release_sandbox b retention)

  -- `SandboxService::delete` and `SandboxService::stop`.
  unfoldable pub delete_named : Str → Effect W (Unit {0})
  delete_named name = release name delete

  unfoldable pub stop_named : Str → Effect W (Unit {0})
  stop_named name = release name retain

  -- The `match` of `kill`, with the stop behind it.
  unfoldable pub kill_found : Str → Result Error Sandbox → Effect W (Unit {0})
  kill_found name (ok b) = do in_component "kill sandbox" (s.backend.kill b.id); stop_named name
  kill_found name (err e) =
      if is_not_found e then lift (ok tt) else lift (err (component "find sandbox" e))

  -- `SandboxService::kill`.
  unfoldable pub kill_named : Str → Effect W (Unit {0})
  kill_named name = do found ← attempt (s.backend.find name); kill_found name found

  -- `SandboxService::inspect`.
  unfoldable pub inspect_named : Str → Effect W Sandbox
  inspect_named name = in_component "find sandbox" (s.backend.find name)
