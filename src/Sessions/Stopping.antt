-- ===== src/Sessions/Stopping.antt =====
-- How the session reconciler releases a session, archives it, and settles one that is unarchived:
-- agentctl/src/sessions/reconciler.rs.
use digdir_agents.Base.{
  ltb, if◌then◌else◌, Result, err, ok, ℕ, Bool, true, false, not, ◌&&◌, ◌||◌, Option, none, some,
}
use digdir_agents.Agents.Errors.{Error, not_found, sandbox}
use digdir_agents.Agents.Model.{AgentRecord, is_some}
use digdir_agents.Service.{is_stopped}
use digdir_agents.Service.Errors.{is_not_found}
use digdir_agents.Sessions.Activity.{Phase, same_phase}
use digdir_agents.Sessions.Status.{LifecycleState, Lifecycle, in_state, is_some_message}
use digdir_agents.Sessions.Model.{Session}
use digdir_agents.Sessions.Effects.{
  Observation, missing, alive, SandboxHandle, SessionRuntime, RuntimeCall, observed_call,
  stopped_call, Step, ◌>>=◌, ◌>>◌, lift, attempt, read, write, with_env, ask,
}
use digdir_agents.Sessions.Timing.{archive_turn_quiet_seconds, effective_idle_seconds}
use digdir_agents.Persistence.Agents.{get_agent}
use digdir_agents.Persistence.Sessions.{finalize_session_deletion, reset_session_launch_attempts}
use digdir_agents.Sessions.Blocking.{is_in, is_materialized}

abbrev pub quiet_turn : Session → Observation → ℕ → Bool
quiet_turn s missing now = false
quiet_turn s (alive attached idle_seconds) now =
    ltb (effective_idle_seconds s.status.reported.activity idle_seconds now)
      archive_turn_quiet_seconds

abbrev pub is_waiting : Session → Bool
is_waiting s = same_phase s.status.reported.activity.phase Phase.waiting_for_input

abbrev pub settled_as : Observation → Lifecycle
settled_as missing = in_state LifecycleState.idle
settled_as (alive attached idle_seconds) = in_state LifecycleState.running

module _ {R : Type 0} (rt : SessionRuntime R) where
  unfoldable pub opened_sandbox : Result Error SandboxHandle → Step R (Option SandboxHandle)
  opened_sandbox (ok box) = lift (ok (if is_stopped box.state then none else some box))
  opened_sandbox (err (sandbox e)) = lift (if is_not_found e then ok none else err (sandbox e))
  opened_sandbox (err e) = lift (err e)

  unfoldable pub sandbox_of : Result Error AgentRecord → Step R (Option SandboxHandle)
  sandbox_of (err not_found) = lift (ok none)
  sandbox_of (err e) = lift (err e)
  sandbox_of (ok r) =
      if is_some r.agent.metadata.deletion_timestamp || not (is_materialized r.agent.status.sandbox)
      then lift (ok none)
      else do result ← attempt (ask RuntimeCall.opened (rt.open_sandbox r)); opened_sandbox result

  -- `release_sandbox`.
  unfoldable pub release_sandbox : Session → Step R (Option SandboxHandle)
  release_sandbox s = do found ← attempt (read (λ db. get_agent db s.agent_id)); sandbox_of found

  unfoldable pub stop_in : Option SandboxHandle → Session → Step R (Unit {0})
  stop_in none s = lift (ok tt)
  stop_in (some box) s = ask stopped_call (rt.stop s box)

  -- `release`.
  unfoldable pub release : Session → Step R (Unit {0})
  release s = do box ← release_sandbox s; stop_in box s; write (finalize_session_deletion s.id)

  -- `mid_turn`.
  unfoldable pub mid_turn : Session → SandboxHandle → Step R Bool
  mid_turn s box = if is_waiting s then lift (ok false) else do
    seen ← ask observed_call (rt.observe s box)
    now ← with_env rt.now
    lift (ok (quiet_turn s seen now))

  unfoldable pub stop_archived : Bool → Session → SandboxHandle → Step R Lifecycle
  stop_archived true s box = lift (ok s.status.lifecycle)
  stop_archived false s box = do
    ask stopped_call (rt.stop s box)
    write (reset_session_launch_attempts s.id)
    lift (ok (in_state LifecycleState.archived))

  unfoldable pub archive_in : Option SandboxHandle → Session → Step R Lifecycle
  archive_in none s = do
    write (reset_session_launch_attempts s.id)
    lift (ok (in_state LifecycleState.archived))
  archive_in (some box) s = do busy ← mid_turn s box; stop_archived busy s box

  -- `converge_archive`.
  unfoldable pub converge_archive : Session → Step R Lifecycle
  converge_archive s =
      if is_in LifecycleState.archived s && not (is_some_message s.status.lifecycle.failure)
      then lift (ok (in_state LifecycleState.archived))
      else do box ← release_sandbox s; archive_in box s

  unfoldable pub settle_in : Option SandboxHandle → Session → Step R Lifecycle
  settle_in none s = lift (ok (in_state LifecycleState.idle))
  settle_in (some box) s = do
    seen ← ask observed_call (rt.observe s box)
    lift (ok (settled_as seen))

  -- `settle_unarchived`.
  unfoldable pub settle_unarchived : Session → Step R Lifecycle
  settle_unarchived s = do box ← release_sandbox s; settle_in box s
