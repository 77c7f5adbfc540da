-- ===== src/ControlPlane/Tests.antt =====
-- Concrete agents and waits: agentctl/src/control_plane/convergence.rs.
use digdir_agents.Base.{
  codes, Str, same_text, err, ok, ℕ, ◌+◌, ◌≡◌, refl, none, some, List, [], ◌∷◌, arith,
}
use digdir_agents.Agents.Errors.{said}
use digdir_agents.Agents.Model.{
  spec_is_stopped, holds, invalid_failure, transient_failure, AgentStatus, no_status, find_ready,
  is_ready, status_is_stopped, stamp_condition, stamp_transitions, AgentRecord,
}
use digdir_agents.Persistence.Rows.{Db, committed, decode_agent}
use digdir_agents.Persistence.Agents.{
  get_agent, get_agent_by_name, encode_desired, put_agent, update_status,
}
use digdir_agents.ControlPlane.Failures.{classify, into_error, classify-into_error}
use digdir_agents.ControlPlane.Convergence.{
  unresponsive, outcome, until_converged, Controller, get_active, await_outcome, converge_named,
}
use digdir_agents.ControlPlane.Waits.{IsConverged, converge_named-IsConverged}
use digdir_agents.Persistence.Tables.{update_where}
use digdir_agents.ControlPlane.Scheduler.{
  add_to, enqueue, enqueue_keys, take_next, start_passes, start_pending, Event, requested, ticked,
  ended, take_pass, remove_key, handle, run_events, run_controller,
}
use digdir_agents.ControlPlane.Scheduler.Slots.{IsStarted, run_controller-IsStarted}
use digdir_agents.Agents.Examples.{worker_spec}
use digdir_agents.ControlPlane.Scheduler.Rounds.{start_passes-start_pending}

abbrev worker_name : Str
worker_name = codes "w"

abbrev ready_agent_status : AgentStatus
ready_agent_status = record {
  observed_generation = 1;
  observed_restart_timestamp = none;
  sandbox = none;
  conditions =
      record {
        kind = "Ready";
        status = holds;
        reason = "Running";
        message = "";
        last_transition_time = some 10;
      }
      ∷ [];
  failure = none;
}

abbrev agent_with : AgentStatus → AgentRecord
agent_with status = record {
  id = 1;
  source_directory = [];
  agent = record {
    api_version = codes "agents.platform/v1alpha1";
    kind = codes "Agent";
    metadata = record {
      name = worker_name;
      generation = 1;
      deletion_timestamp = none;
      restart_timestamp = none;
    };
    spec = record worker_spec { harnesses = [] };
    status = status;
  };
}

abbrev before_pass : Db
before_pass =
    (put_agent (agent_with no_status) 0 (record { agents = []; sessions = []; reports = [] })).1

-- A controller whose first pass is not the last: the agent is ready at the next change.
abbrev controller : Controller ℕ
controller = record {
  reconcile = λ id d. (err (record { kind = transient_failure; message = said [] }), d.0, d.1);
  changed_since = λ d. ((update_status 1 1 ready_agent_status 10 d.0).1, d.1 + 1);
}

classify-into_error_example :
    ((classify (into_error (record { kind = invalid_failure; message = said worker_name }))).kind
      ≡ invalid_failure)
    × (invalid_failure ≡ invalid_failure
        → classify (into_error (record { kind = invalid_failure; message = said worker_name }))
          ≡ record { kind = invalid_failure; message = said worker_name })
classify-into_error_example =
    classify-into_error (record { kind = invalid_failure; message = said worker_name })

converge_named-IsConverged_example :
    (named : AgentRecord) × (get_agent_by_name before_pass worker_name ≡ ok named)
    × (named.agent.metadata.deletion_timestamp ≡ none)
    × IsConverged named.id
        (converge_named controller 5 worker_name until_converged (before_pass, 0)).1
        (agent_with ready_agent_status)
unfolding converge_named await_outcome unresponsive status_is_stopped into_error get_agent_by_name
    get_active get_agent update_status committed put_agent decode_agent same_text encode_desired
    update_where outcome stamp_transitions spec_is_stopped is_ready find_ready stamp_condition
converge_named-IsConverged_example =
    converge_named-IsConverged controller 5 worker_name (before_pass, 0)
      (agent_with ready_agent_status) refl

-- Two ask for one session, the second while its pass runs; another session is found by the ticker.
abbrev wakeups : List Event
wakeups =
    requested (record { key = 7; response = some 1 } ∷ [])
    ∷ requested (record { key = 7; response = some 2 } ∷ [])
    ∷ ended 7 (ok tt)
    ∷ ticked (ok (7 ∷ 8 ∷ []))
    ∷ []

runs_again : (run_controller (ok []) wakeups).running ≡ 8 ∷ 7 ∷ []
unfolding run_controller run_events start_pending start_passes handle enqueue enqueue_keys add_to
    take_next take_pass remove_key
runs_again = refl

abbrev asks_for : ℕ → ℕ
asks_for waiter = 7

run_controller-IsStarted_example : IsStarted (run_controller (ok []) wakeups)
run_controller-IsStarted_example = run_controller-IsStarted (ok []) wakeups

start_passes-start_pending_example :
    start_passes 20 (run_controller (ok []) wakeups)
    ≡ start_pending (run_controller (ok []) wakeups)
start_passes-start_pending_example =
    start_passes-start_pending 20 (run_controller (ok []) wakeups) (omega arith)
