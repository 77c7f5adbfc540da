-- ===== src/Sessions/Reconciler/Passive.antt =====
-- The calls that a pass makes on its way: agentctl/src/sessions/reconciler.rs.
use digdir_agents.Base.{Result, err, ok, ℕ, zero, suc, ◌≡◌, Bool, true, false, Option, none, some}
use digdir_agents.Agents.Errors.{Error, not_found, sandbox}
use digdir_agents.Agents.Model.{AgentRecord}
use digdir_agents.Sessions.Activity.{Activity}
use digdir_agents.Sessions.Status.{Lifecycle}
use digdir_agents.Sessions.Model.{Session}
use digdir_agents.Sessions.Effects.{
  SandboxHandle, SessionRuntime, RuntimeCall, observed_call, ready_call, stopped_call, Step,
}
use digdir_agents.Sessions.Stopping.{
  opened_sandbox, sandbox_of, release_sandbox, stop_in, release, mid_turn, stop_archived,
  archive_in, converge_archive, settle_in, settle_unarchived,
}
use digdir_agents.Sessions.Resuming.{
  reported_waiting, report_ready, poll_session, poll_again, poll_input, timed_out,
  wait_for_resumed_input,
}
use digdir_agents.Sessions.Reconciler.{recorded}
use digdir_agents.Sessions.Reconciler.Quiet.{IsQuiet, quiet_steps}

-- A kind of calls that opening, observing and asking for readiness are not of.
pub record IsActive (p : RuntimeCall → Bool) : Type 0 where
  pub opens : p RuntimeCall.opened ≡ false
  pub observes : p observed_call ≡ false
  pub asks : p ready_call ≡ false

module _ {R : Type 0} (rt : SessionRuntime R) (p : RuntimeCall → Bool) (active : IsActive p) where
  opened_sandbox-IsQuiet : (r : Result Error SandboxHandle) → IsQuiet p (opened_sandbox rt r)
  unfolding opened_sandbox
  opened_sandbox-IsQuiet (ok box) = search quiet_steps
  opened_sandbox-IsQuiet (err (sandbox e)) = search quiet_steps
  opened_sandbox-IsQuiet (err e) = search quiet_steps

  sandbox_of-IsQuiet : (r : Result Error AgentRecord) → IsQuiet p (sandbox_of rt r)
  unfolding sandbox_of
  sandbox_of-IsQuiet (err not_found) = search quiet_steps
  sandbox_of-IsQuiet (err e) = search quiet_steps
  sandbox_of-IsQuiet (ok r) = search (quiet_steps, opened_sandbox-IsQuiet, active.opens) depth 12

  pub release_sandbox-IsQuiet : (s : Session) → IsQuiet p (release_sandbox rt s)
  unfolding release_sandbox
  release_sandbox-IsQuiet s = search (quiet_steps, sandbox_of-IsQuiet) depth 12

  pub mid_turn-IsQuiet : (s : Session) (box : SandboxHandle) → IsQuiet p (mid_turn rt s box)
  unfolding mid_turn
  mid_turn-IsQuiet s box = search (quiet_steps, active.observes) depth 12

  settle_in-IsQuiet : (o : Option SandboxHandle) (s : Session) → IsQuiet p (settle_in rt o s)
  unfolding settle_in
  settle_in-IsQuiet none s = search quiet_steps
  settle_in-IsQuiet (some box) s = search (quiet_steps, active.observes) depth 12

  pub settle_unarchived-IsQuiet : (s : Session) → IsQuiet p (settle_unarchived rt s)
  unfolding settle_unarchived
  settle_unarchived-IsQuiet s =
      search (quiet_steps, release_sandbox-IsQuiet, settle_in-IsQuiet) depth 12

  pub recorded-IsQuiet :
      (polls : ℕ) (s : Session) (r : Result Error Lifecycle) → IsQuiet p (recorded rt polls s r)
  unfolding recorded
  recorded-IsQuiet polls s (ok lifecycle) = search quiet_steps depth 12
  recorded-IsQuiet polls s (err e) = search quiet_steps depth 12

  module _ (stops : p stopped_call ≡ false) where
    stop_in-IsQuiet : (o : Option SandboxHandle) (s : Session) → IsQuiet p (stop_in rt o s)
    unfolding stop_in
    stop_in-IsQuiet none s = search quiet_steps
    stop_in-IsQuiet (some box) s = search (quiet_steps, stops)

    pub release-IsQuiet : (s : Session) → IsQuiet p (release rt s)
    unfolding release
    release-IsQuiet s = search (quiet_steps, release_sandbox-IsQuiet, stop_in-IsQuiet) depth 12

    stop_archived-IsQuiet :
        (busy : Bool) (s : Session) (box : SandboxHandle) → IsQuiet p (stop_archived rt busy s box)
    unfolding stop_archived
    stop_archived-IsQuiet true s box = search quiet_steps
    stop_archived-IsQuiet false s box = search (quiet_steps, stops) depth 12

    archive_in-IsQuiet : (o : Option SandboxHandle) (s : Session) → IsQuiet p (archive_in rt o s)
    unfolding archive_in
    archive_in-IsQuiet none s = search quiet_steps depth 12
    archive_in-IsQuiet (some box) s =
        search (quiet_steps, mid_turn-IsQuiet, stop_archived-IsQuiet) depth 12

    pub converge_archive-IsQuiet : (s : Session) → IsQuiet p (converge_archive rt s)
    unfolding converge_archive
    converge_archive-IsQuiet s =
        search (quiet_steps, release_sandbox-IsQuiet, archive_in-IsQuiet) depth 12

    reported_waiting-IsQuiet :
        (polls : ℕ) (o : Option Activity) → IsQuiet p (reported_waiting rt polls o)
    unfolding reported_waiting
    reported_waiting-IsQuiet polls none = search quiet_steps
    reported_waiting-IsQuiet polls (some a) = search quiet_steps

    report_ready-IsQuiet :
        (polls : ℕ) (ready : Bool) (s : Session) (token : ℕ)
        → IsQuiet p (report_ready rt polls ready s token)
    unfolding report_ready
    report_ready-IsQuiet polls true s token =
        search (quiet_steps, reported_waiting-IsQuiet) depth 12
    report_ready-IsQuiet polls false s token = search quiet_steps

    poll_session-IsQuiet :
        (polls : ℕ) (s current : Session) (box : SandboxHandle) (token : ℕ)
        → IsQuiet p (poll_session rt polls s current box token)
    unfolding poll_session
    poll_session-IsQuiet polls s current box token =
        search (quiet_steps, report_ready-IsQuiet, active.asks) depth 12

    poll_again-IsQuiet :
        (polls : ℕ) (ready : Bool) (rest : Step R Bool)
        → IsQuiet p rest
        → IsQuiet p (poll_again rt polls ready rest)
    unfolding poll_again
    poll_again-IsQuiet polls true rest h = search quiet_steps
    poll_again-IsQuiet polls false rest h = h

    poll_input-IsQuiet :
        (polls n : ℕ) (s : Session) (box : SandboxHandle) (token : ℕ)
        → IsQuiet p (poll_input rt polls n s box token)
    unfolding poll_input
    poll_input-IsQuiet polls zero s box token = search quiet_steps
    poll_input-IsQuiet polls (suc n) s box token =
        let rest = poll_input-IsQuiet polls n s box token in
        search (quiet_steps, poll_session-IsQuiet, poll_again-IsQuiet, rest) depth 12

    timed_out-IsQuiet :
        (polls : ℕ) (ready : Bool) (s : Session) (box : SandboxHandle)
        → IsQuiet p (timed_out rt polls ready s box)
    unfolding timed_out
    timed_out-IsQuiet polls true s box = search quiet_steps
    timed_out-IsQuiet polls false s box = search (quiet_steps, stops) depth 16

    pub wait_for_resumed_input-IsQuiet :
        (polls : ℕ) (s : Session) (box : SandboxHandle) (token : ℕ)
        → IsQuiet p (wait_for_resumed_input rt polls s box token)
    unfolding wait_for_resumed_input
    wait_for_resumed_input-IsQuiet polls s box token =
        search (quiet_steps, poll_input-IsQuiet, timed_out-IsQuiet) depth 12
