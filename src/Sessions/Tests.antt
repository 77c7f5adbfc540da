-- ===== src/Sessions/Tests.antt =====
-- Concrete sessions, reports and runtimes: agentctl/src/sessions.
use digdir_agents.Base.{
  ltb, codes, same_text, Result, err, ok, ℕ, ◌-◌, ◌≡◌, refl, ◌↔◌, true, false, none, some, List, [],
  ◌∷◌, map, arith,
}
use digdir_agents.Agents.Harness.{codex}
use digdir_agents.Agents.Errors.{said, Error, io}
use digdir_agents.Agents.Model.{
  spec_is_stopped, materialized, holds, AgentStatus, find_ready, is_ready, status_is_stopped,
  stamp_condition, stamp_transitions,
}
use digdir_agents.Sessions.Activity.{
  Phase, session_start, turn_started, turn_completed, waiting_reported, u64_max, next_phase, folded,
}
use digdir_agents.Sessions.Activity.Folds.{
  Reports, fold_from, fold_reports, completions, at_most, last_signal, phase_meant,
  fold_reports_lem,
}
use digdir_agents.Sessions.Status.{
  LifecycleState, in_state, Reported, not_reported, State, running_state, harness_state_of, entered,
  observed,
}
use digdir_agents.Sessions.Status.Derived.{Shows, observed-state}
use digdir_agents.Sessions.Model.{Session}
use digdir_agents.Sessions.Effects.{
  missing, alive, SandboxHandle, SessionRuntime, World, and_then, ◌>>=◌, read, ask,
}
use digdir_agents.Sessions.Timing.{
  archive_turn_quiet_seconds, smaller, effective_idle_seconds, bounded_wait, backoff_seconds,
  doubled, backoff_lem,
}
use digdir_agents.Sessions.Stopping.{converge_archive}
use digdir_agents.Sessions.Reconciler.{
  converge_in_sandbox, converge_held, converge_agent, converge_rest, converge, reconcile_session,
  reconcile,
}
use digdir_agents.Sessions.Reconciler.Launches.{MayLaunch, Starts, reconcile-Starts}
use digdir_agents.Sessions.Reconciler.Turns.{stops, SeesTurn, converge_archive-waits}
use digdir_agents.Persistence.Rows.{Db, committed, decode_agent}
use digdir_agents.Persistence.Sessions.{active_name_of, get_session, query_named, ensure_session}
use digdir_agents.Persistence.Agents.{
  get_agent, get_agent_by_name, encode_desired, put_agent, update_status,
}
use digdir_agents.Persistence.Tests.{tables}
use digdir_agents.Sessions.Completion.{polled, settle_poll, wait_polls, wait_for_completion}
use digdir_agents.Sessions.Completion.Settled.{IsCompleted, wait_for_completion_lem}
use digdir_agents.Sessions.Reconciler.Outcomes.{
  Records, answer_of, converged, reconcile_session-IsRecorded,
}
use digdir_agents.Persistence.Store.Steps.{perform_all}
use digdir_agents.Persistence.Store.{perform}
use digdir_agents.Sessions.Blocking.{launch_blocked, rest_of}
use digdir_agents.Persistence.Tables.{update_where}
use digdir_agents.Service

abbrev two_turns : Reports
two_turns =
    (session_start, 1)
    ∷ (turn_started, 2)
    ∷ (turn_completed, 5)
    ∷ (waiting_reported, 6)
    ∷ (session_start, 7)
    ∷ (turn_completed, 9)
    ∷ []

waits_after_two_turns : (fold_reports two_turns).phase ≡ Phase.waiting_for_input
unfolding fold_reports fold_from folded next_phase
waits_after_two_turns = refl

fold_reports_lem_example :
    ((fold_reports two_turns).turns ≡ at_most u64_max (completions two_turns))
    × ((fold_reports two_turns).phase ≡ phase_meant (last_signal two_turns) two_turns Phase.unknown)
fold_reports_lem_example = fold_reports_lem two_turns

abbrev at_work : Reported
at_work = record {
  harness_session_id = some (codes "native");
  harness_transcript_path = none;
  activity = record {
    phase = Phase.working;
    turns = 0;
    last_event_at = some 995;
    phase_since = some 995;
  };
}

archiving_reads :
    (observed (in_state LifecycleState.running) at_work (some 2) (some 3)).state ≡ State.archiving
unfolding observed
archiving_reads = refl

observed-state_example :
    ((observed (in_state LifecycleState.running) at_work (some 2) none).state ≡ State.working)
    ↔ Shows none LifecycleState.running none at_work State.working
observed-state_example =
    observed-state (in_state LifecycleState.running) at_work (some 2) none State.working

backoff_lem_example : backoff_seconds 5 ≡ bounded_wait (doubled 4)
backoff_lem_example = backoff_lem 4

abbrev turning : Session
turning = record {
  id = 7;
  agent_id = 1;
  agent = codes "w";
  name = codes "s1";
  harness = codex;
  model_selection = record { model = none; effort = none };
  created_at = 0;
  deletion_timestamp = none;
  archived_at = some 990;
  status = observed (in_state LifecycleState.running) at_work (some 2) (some 990);
  activation_generation = 1;
  observed_activation_generation = 1;
}

abbrev box : SandboxHandle
box = record { id = 5; state = Service.running; os = "linux" }

-- A runtime whose world is its clock, in which a harness is always there and at work.
abbrev busy_runtime : SessionRuntime ℕ
busy_runtime = record {
  open_sandbox = λ r d. (ok box, d.0, d.1);
  observe = λ s b d. (ok (alive false 4), d.0, d.1);
  start = λ s b r token resume prompt d. (ok tt, d.0, d.1);
  stop = λ s b d. (ok tt, d.0, d.1);
  input_ready = λ s b d. (ok true, d.0, d.1);
  now = λ clock. clock;
  uuid = λ clock. clock;
}

abbrev no_rows : Db
no_rows = record { agents = []; sessions = []; reports = [] }

-- The world at the clock's second 1000.
abbrev at_second : World ℕ
at_second = record { db = no_rows; env = 1000; calls = [] }

smaller_first : (a b c : ℕ) → ltb a c ≡ true → ltb (smaller a b) c ≡ true
smaller_first a b c h = ground arith

sees_turn : SeesTurn busy_runtime turning
unfolding effective_idle_seconds observed
sees_turn = record {
  seen = λ b d. (false, 4, refl, smaller_first 4 (d.1 - 995) archive_turn_quiet_seconds refl);
}

converge_archive-waits_example :
    stops (converge_archive busy_runtime turning at_second).1.calls ≡ stops at_second.calls
unfolding observed
converge_archive-waits_example =
    converge_archive-waits busy_runtime turning sees_turn refl at_second

-- The agent of the tables, its sandbox made and ready.
abbrev ready_status : AgentStatus
ready_status = record {
  observed_generation = 1;
  observed_restart_timestamp = none;
  sandbox = some (materialized 1 5 (codex ∷ []));
  conditions =
      record {
        kind = "Ready";
        status = holds;
        reason = "Running";
        message = "";
        last_transition_time = none;
      }
      ∷ [];
  failure = none;
}

-- A runtime in which no harness is left.
abbrev lost_runtime : SessionRuntime ℕ
lost_runtime = record busy_runtime { observe = λ s b d. (ok missing, d.0, d.1) }

abbrev before_launch : World ℕ
before_launch = record {
  db = (update_status 1 1 ready_status 110 tables).1;
  env = 1000;
  calls = [];
}

reconcile-Starts_example :
    Starts before_launch
      (reconcile lost_runtime 3 7 before_launch).1
      ((s : Session) × (get_session before_launch.db 7 ≡ ok s) × MayLaunch before_launch.db s)
reconcile-Starts_example = reconcile-Starts lost_runtime 3 7 before_launch

-- What the store answers while a turn ends: at work, then waiting twice with the same activity.
abbrev seen_with : Phase → ℕ → Result Error Session
seen_with phase turns = ok (record turning {
  status =
      observed (in_state LifecycleState.running)
        (record {
          harness_session_id = some (codes "native");
          harness_transcript_path = none;
          activity = record {
            phase = phase;
            turns = turns;
            last_event_at = some 995;
            phase_since = some 995;
          };
        })
        none none;
})

abbrev answers : List (Result Error Session)
answers =
    seen_with Phase.working 2
    ∷ seen_with Phase.waiting_for_input 3
    ∷ seen_with Phase.waiting_for_input 3
    ∷ []

completes : wait_for_completion (codes "s1") 2 answers ≡ some (ok tt)
unfolding wait_for_completion wait_polls settle_poll polled observed running_state entered
    harness_state_of
completes = refl

wait_for_completion_lem_example :
    (wait_for_completion (codes "s1") 2 answers ≡ some (ok tt))
    ↔ IsCompleted 2 (map (polled (codes "s1")) answers)
wait_for_completion_lem_example = wait_for_completion_lem (codes "s1") 2 answers

-- A runtime whose sandboxes do not open.
abbrev failing_runtime : SessionRuntime ℕ
failing_runtime = record busy_runtime {
  open_sandbox = λ r d. (err (io (said (codes "no space"))), d.0, d.1);
}

abbrev asked_for : Session
asked_for = record turning {
  archived_at = none;
  status = observed (in_state LifecycleState.starting) not_reported none none;
  observed_activation_generation = 0;
}

abbrev as_stored : Result Error Session → Session
as_stored (ok s) = s
as_stored (err e) = asked_for

abbrev stored : Session
stored = as_stored (get_session before_launch.db 7)

reconcile_session-IsRecorded_example :
    ((reconcile_session failing_runtime 3 asked_for before_launch).0
      ≡ answer_of (converged failing_runtime 3 asked_for before_launch).0)
    × Records asked_for stored
        (converged failing_runtime 3 asked_for before_launch).0
        (reconcile_session failing_runtime 3 asked_for before_launch).1.db
unfolding get_session converge converge_rest rest_of digdir_agents.Sessions.Effects.◌>>=◌ and_then
    read get_agent update_status committed perform_all perform ensure_session get_agent_by_name
    put_agent same_text decode_agent encode_desired query_named active_name_of converge_agent
    launch_blocked converge_held converge_in_sandbox ask spec_is_stopped status_is_stopped
    find_ready is_ready update_where stamp_transitions stamp_condition
reconcile_session-IsRecorded_example =
    reconcile_session-IsRecorded failing_runtime 3 asked_for stored before_launch refl refl
      (refl, tt)
