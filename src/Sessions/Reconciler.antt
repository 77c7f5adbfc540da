-- ===== src/Sessions/Reconciler.antt =====
-- The session reconciler: agentctl/src/sessions/reconciler.rs.
pub mod Quiet
pub mod Passive
pub mod Single
pub mod Launches
pub mod Turns
pub mod Outcomes
use digdir_agents.Base.{
  ltb, leb, ◌==◌, str_eq, codes, if◌then◌else◌, Str, Result, err, ok, ensure, ℕ, ◌+◌, Bool, true,
  false, not, ◌&&◌, ◌||◌, Option, none, some, [], ◌∷◌,
}
use digdir_agents.Agents.Errors.{
  text, number, said, format, to_string, Error, not_found, sandbox, session,
}
use digdir_agents.Agents.Model.{spec_is_stopped, status_is_stopped, AgentRecord}
use digdir_agents.Sessions.Status.{LifecycleState, Lifecycle, in_state, in_state_with}
use digdir_agents.Sessions.Model.{Session, is_deleting, is_archived, Launch}
use digdir_agents.Sessions.Effects.{
  Observation, missing, alive, SandboxHandle, SessionRuntime, RuntimeCall, observed_call,
  stopped_call, started_call, Step, ◌>>=◌, ◌>>◌, lift, attempt, read, write, with_env, ask,
}
use digdir_agents.Sessions.Timing.{
  healthy_after_seconds, idle_after_seconds, effective_idle_seconds, backoff_seconds,
}
use digdir_agents.Persistence.Agents.{get_agent}
use digdir_agents.Persistence.Sessions.{
  get_session, update_session_lifecycle, clear_session_report, reset_session_launch_attempts,
}
use digdir_agents.Persistence.Launches.{record_session_launch, session_launch_state}
use digdir_agents.Sessions.Blocking.{is_in, launch_blocked, Rest, rests, settles, wakes, rest_of}
use digdir_agents.Sessions.Stopping.{release, converge_archive, settle_unarchived}
use digdir_agents.Sessions.Resuming.{wait_for_resumed_input}

abbrev pub unless_resumed : Option Str → Option Str → Option Str
unless_resumed none prompt = prompt
unless_resumed (some native) prompt = none

abbrev pub is_healthy : Option Launch → ℕ → Bool
is_healthy none now = false
is_healthy (some launch) now =
    ltb 0 launch.attempts && leb (launch.launched_at + healthy_after_seconds) now

abbrev pub new_launch : SandboxHandle → ℕ → ℕ → ℕ → Launch
new_launch box token now attempts = record {
  token = token;
  sandbox = box.id;
  launched_at = now;
  attempts = attempts + 1;
}

abbrev pub not_linux : SandboxHandle → Error
not_linux box = session (
    format "tmux sessions require a Linux sandbox, but the materialized platform is {}"
      (text (codes box.os) ∷ []))

abbrev pub failed_as : Session → Error → Lifecycle
failed_as current e =
    if is_archived current
    then in_state_with LifecycleState.archived (to_string e)
    else if is_in LifecycleState.resuming current
    then in_state_with LifecycleState.resuming (to_string e)
    else in_state_with LifecycleState.failed (to_string e)

module _ {R : Type 0} (rt : SessionRuntime R) (polls : ℕ) where
  unfoldable pub mark_resuming : Option Str → Session → Step R (Unit {0})
  mark_resuming none s = lift (ok tt)
  mark_resuming (some native) s = do
    now ← with_env rt.now
    write (
        update_session_lifecycle s.id (in_state LifecycleState.resuming) s.activation_generation
          now)

  unfoldable pub wait_resumed : Option Str → Session → SandboxHandle → ℕ → Step R (Unit {0})
  wait_resumed none s box token = lift (ok tt)
  wait_resumed (some native) s box token = wait_for_resumed_input rt polls s box token

  -- `launch`.
  unfoldable pub launch_session :
      Session → AgentRecord → SandboxHandle → Launch → Option Str → Step R Lifecycle
  launch_session s r box launch resume = do
    prompt ← write (record_session_launch s.id launch)
    mark_resuming resume s
    ask (started_call launch.token resume (unless_resumed resume prompt))
        (rt.start s box r launch.token resume (unless_resumed resume prompt))
    wait_resumed resume s box launch.token
    lift (ok (in_state LifecycleState.running))

  unfoldable pub reset_when : Bool → Session → Step R (Unit {0})
  reset_when true s = write (reset_session_launch_attempts s.id)
  reset_when false s = lift (ok tt)

  unfoldable pub resumed_launch : Option Launch → Session → SandboxHandle → Step R (Unit {0})
  resumed_launch none s box =
      lift (err (session (said (codes "resumed harness has no launch record"))))
  resumed_launch (some launch) s box =
      if launch.sandbox == box.id
      then wait_for_resumed_input rt polls s box launch.token
      else lift (err (session (said (codes "resumed harness belongs to a replaced sandbox"))))

  -- A harness that is there.
  unfoldable pub converge_alive :
      Session → SandboxHandle → Option Launch → ℕ → Bool → ℕ → Step R Lifecycle
  converge_alive s box launch now attached idle_seconds =
      if not attached
        && leb idle_after_seconds
            (effective_idle_seconds s.status.reported.activity idle_seconds now)
      then (do
        ask stopped_call (rt.stop s box)
        write (reset_session_launch_attempts s.id)
        lift (ok (in_state LifecycleState.idle)))
      else do
        reset_when (is_healthy launch now) s
        if is_in LifecycleState.resuming s then resumed_launch launch s box else lift (ok tt)
        lift (ok (in_state LifecycleState.running))

  -- A harness that is not there, and was launched before or not.
  unfoldable pub converge_missing :
      Session → AgentRecord → SandboxHandle → Option Launch → ℕ → Step R Lifecycle
  converge_missing s r box none now = do
    token ← with_env rt.uuid
    launch_session s r box (new_launch box token now 0) s.status.reported.harness_session_id
  converge_missing s r box (some launch) now =
      if launch.sandbox == box.id
      then if ltb 0 launch.attempts
          && ltb now (launch.launched_at + backoff_seconds launch.attempts)
        then lift (
            ok (
              in_state_with LifecycleState.failed (
                format "harness exited; relaunching after up to {}s of backoff"
                  (number (backoff_seconds launch.attempts) ∷ []))))
        else (do
          token ← with_env rt.uuid
          launch_session s r box (new_launch box token now launch.attempts)
              s.status.reported.harness_session_id)
      else do
        write (clear_session_report s.id)
        token ← with_env rt.uuid
        launch_session s r box (new_launch box token now 0) none

  unfoldable pub converge_seen :
      Observation → Session → AgentRecord → SandboxHandle → Option Launch → ℕ → Step R Lifecycle
  converge_seen missing s r box launch now = converge_missing s r box launch now
  converge_seen (alive attached idle_seconds) s r box launch now =
      converge_alive s box launch now attached idle_seconds

  -- `converge` from the opening of the sandbox on.
  unfoldable pub converge_in_sandbox : Session → AgentRecord → Step R Lifecycle
  converge_in_sandbox s r = do
    box ← ask RuntimeCall.opened (rt.open_sandbox r)
    lift (ensure (str_eq box.os "linux") (not_linux box))
    launch ← read (λ db. session_launch_state db s.id)
    now ← with_env rt.now
    seen ← ask observed_call (rt.observe s box)
    converge_seen seen s r box launch now

  unfoldable pub converge_held : Option Lifecycle → Session → AgentRecord → Step R Lifecycle
  converge_held (some held) s r = lift (ok held)
  converge_held none s r = converge_in_sandbox s r

  -- `converge` from the agent's record on.
  unfoldable pub converge_agent : Session → AgentRecord → Step R Lifecycle
  converge_agent s r =
      if spec_is_stopped r.agent.spec || status_is_stopped r.agent.status
      then (do write (reset_session_launch_attempts s.id); lift (ok (in_state LifecycleState.idle)))
      else converge_held (launch_blocked r s) s r

  unfoldable pub converge_rest : Rest → Session → Step R Lifecycle
  converge_rest rests s = lift (ok (in_state LifecycleState.idle))
  converge_rest settles s = settle_unarchived rt s
  converge_rest wakes s = do r ← read (λ db. get_agent db s.agent_id); converge_agent s r

  -- `converge`.
  unfoldable pub converge : Session → Step R Lifecycle
  converge s = converge_rest (rest_of s) s

  unfoldable pub recorded : Session → Result Error Lifecycle → Step R (Unit {0})
  recorded s (ok lifecycle) = do
    now ← with_env rt.now
    write (update_session_lifecycle s.id lifecycle s.activation_generation now)
  recorded s (err e) = do
    current ← read (λ db. get_session db s.id)
    now ← with_env rt.now
    write (update_session_lifecycle s.id (failed_as current e) s.activation_generation now)
    lift (err e)

  -- A session that is there: released, or converged with the outcome recorded.
  unfoldable pub reconcile_session : Session → Step R (Unit {0})
  reconcile_session s = if is_deleting s then release rt s else do
    converged ← attempt (if is_archived s then converge_archive rt s else converge s)
    recorded s converged

  unfoldable pub reconcile_found : Result Error Session → Step R (Unit {0})
  reconcile_found (err not_found) = lift (ok tt)
  reconcile_found (err e) = lift (err e)
  reconcile_found (ok s) = reconcile_session s

  -- `reconcile`.
  unfoldable pub reconcile : ℕ → Step R (Unit {0})
  reconcile id = do found ← attempt (read (λ db. get_session db id)); reconcile_found found
