-- ===== src/Sessions/Resuming.antt =====
-- How the session reconciler waits for a resumed harness: agentctl/src/sessions/reconciler.rs. It polls
-- `polls` times before its time is out.
use digdir_agents.Base.{
  codes, if◌then◌else◌, Result, err, ok, ℕ, zero, suc, Bool, true, false, Option, none, some, [],
  ◌∷◌,
}
use digdir_agents.Agents.Errors.{number, said, format, to_string, Error, session}
use digdir_agents.Sessions.Activity.{waiting_reported, Activity}
use digdir_agents.Sessions.Status.{LifecycleState, in_state_with}
use digdir_agents.Sessions.Model.{Session}
use digdir_agents.Sessions.Effects.{
  SandboxHandle, SessionRuntime, ready_call, stopped_call, Step, ◌>>=◌, ◌>>◌, lift, attempt, read,
  write, with_env, ask,
}
use digdir_agents.Persistence.Sessions.{get_session, update_session_lifecycle}
use digdir_agents.Persistence.Launches.{apply_activity_for_launch}
use digdir_agents.Sessions.Stopping.{is_waiting}

abbrev pub is_ready_answer : Result Error Bool → Bool
is_ready_answer (ok ready) = ready
is_ready_answer (err e) = false

abbrev pub resume_timeout : Error
resume_timeout =
    session
      (format "resumed harness did not become ready for input within {} seconds" (number 15 ∷ []))

module _ {R : Type 0} (rt : SessionRuntime R) (polls : ℕ) where
  unfoldable pub reported_waiting : Option Activity → Step R Bool
  reported_waiting (some activity) = lift (ok true)
  reported_waiting none =
      lift (err (session (said (codes "resumed harness launch changed while waiting for input"))))

  unfoldable pub report_ready : Bool → Session → ℕ → Step R Bool
  report_ready false s token = lift (ok false)
  report_ready true s token = do
    event ← with_env rt.uuid
    now ← with_env rt.now
    applied_to ← write (apply_activity_for_launch s.id token event waiting_reported now)
    reported_waiting applied_to

  -- Whether the harness is ready, in one poll.
  unfoldable pub poll_session : Session → Session → SandboxHandle → ℕ → Step R Bool
  poll_session s current box token = if is_waiting current then lift (ok true) else do
    answer ← attempt (ask ready_call (rt.input_ready current box))
    report_ready (is_ready_answer answer) s token

  unfoldable pub poll_again : Bool → Step R Bool → Step R Bool
  poll_again true rest = lift (ok true)
  poll_again false rest = rest

  -- The loop of `wait_for_resumed_input`: whether it ended before its time was out.
  unfoldable pub poll_input : ℕ → Session → SandboxHandle → ℕ → Step R Bool
  poll_input zero s box token = lift (ok false)
  poll_input (suc n) s box token = do
    current ← read (λ db. get_session db s.id)
    ready ← poll_session s current box token
    poll_again ready (poll_input n s box token)

  unfoldable pub timed_out : Bool → Session → SandboxHandle → Step R (Unit {0})
  timed_out true s box = lift (ok tt)
  timed_out false s box = do
    current ← read (λ db. get_session db s.id)
    ask stopped_call (rt.stop current box)
    now ← with_env rt.now
    write (
        update_session_lifecycle s.id
          (in_state_with LifecycleState.failed (to_string resume_timeout)) s.activation_generation
          now)
    lift (err resume_timeout)

  -- `wait_for_resumed_input`.
  unfoldable pub wait_for_resumed_input : Session → SandboxHandle → ℕ → Step R (Unit {0})
  wait_for_resumed_input s box token = do
    ready ← poll_input polls s box token
    timed_out ready s box
