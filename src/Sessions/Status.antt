-- ===== src/Sessions/Status.antt =====
-- The state that a session is seen in: agentctl/src/sessions/mod.rs.
pub mod Derived
use digdir_agents.Base.{Str, ℕ, Bool, true, false, Option, none, some}
use digdir_agents.Agents.Errors.{Message}
use digdir_agents.Sessions.Activity.{Phase, Activity, no_activity}

pub data LifecycleState : Type 0 where
  starting resuming running idle archived failed : LifecycleState

pub record Lifecycle : Type 0 where
  pub state : LifecycleState
  pub failure : Option Message

-- `Lifecycle::running` and its siblings.
abbrev pub in_state : LifecycleState → Lifecycle
in_state state = record { state = state; failure = none }

abbrev pub in_state_with : LifecycleState → Message → Lifecycle
in_state_with state reason = record { state = state; failure = some reason }

pub record Reported : Type 0 where
  pub harness_session_id : Option Str
  pub harness_transcript_path : Option Str
  pub activity : Activity

abbrev pub not_reported : Reported
not_reported = record {
  harness_session_id = none;
  harness_transcript_path = none;
  activity = no_activity;
}

pub data State : Type 0 where
  starting working waiting_for_input idle archiving archived failed : State

pub record Status : Type 0 where
  pub state : State
  pub state_since : Option ℕ
  pub lifecycle : Lifecycle
  pub reported : Reported

abbrev state_of_phase : Phase → State
state_of_phase Phase.unknown = State.starting
state_of_phase Phase.working = State.working
state_of_phase Phase.waiting_for_input = State.waiting_for_input

abbrev reported_state : Option Str → Phase → State
reported_state none phase = State.starting
reported_state (some id) phase = state_of_phase phase

-- `Status::running_state`.
unfoldable pub running_state : Reported → State
running_state reported = reported_state reported.harness_session_id reported.activity.phase

abbrev harness_state_in : LifecycleState → Reported → State
harness_state_in LifecycleState.failed reported = State.failed
harness_state_in LifecycleState.idle reported = State.idle
harness_state_in LifecycleState.archived reported = State.archived
harness_state_in LifecycleState.starting reported = State.starting
harness_state_in LifecycleState.resuming reported = State.starting
harness_state_in LifecycleState.running reported = running_state reported

-- `Status::harness_state_of`, and `Status::harness_state`.
unfoldable pub harness_state_of : Lifecycle → Reported → State
harness_state_of lifecycle reported = harness_state_in lifecycle.state reported

-- `Status::entered`.
unfoldable pub entered : State → Reported → Option ℕ → State × Option ℕ
entered State.working reported since = (State.working, reported.activity.phase_since)
entered State.waiting_for_input reported since =
    (State.waiting_for_input, reported.activity.phase_since)
entered State.starting reported since = (State.starting, since)
entered State.idle reported since = (State.idle, since)
entered State.archiving reported since = (State.archiving, since)
entered State.archived reported since = (State.archived, since)
entered State.failed reported since = (State.failed, since)

abbrev is_archived_state : LifecycleState → Bool
is_archived_state LifecycleState.archived = true
is_archived_state LifecycleState.starting = false
is_archived_state LifecycleState.resuming = false
is_archived_state LifecycleState.running = false
is_archived_state LifecycleState.idle = false
is_archived_state LifecycleState.failed = false

abbrev pub is_some_message : Option Message → Bool
is_some_message (some _) = true
is_some_message none = false

-- The `match` of `Status::observed`, whose tests are whether the harness's stop is recorded and whether
-- it failed.
abbrev observed_state : Option ℕ → Bool → Bool → Lifecycle → Reported → Option ℕ → State × Option ℕ
observed_state (some at) true false lifecycle reported since = (State.archived, since)
observed_state (some at) true true lifecycle reported since = (State.archiving, some at)
observed_state (some at) false stop_failed lifecycle reported since = (State.archiving, some at)
observed_state none true true lifecycle reported since =
    entered (running_state reported) reported since
observed_state none true false lifecycle reported since = (State.idle, since)
observed_state none false stop_failed lifecycle reported since =
    entered (harness_state_of lifecycle reported) reported since

-- `Status::observed`, and `Status::new` without times.
unfoldable pub observed : Lifecycle → Reported → Option ℕ → Option ℕ → Status
observed lifecycle reported since archived_at =
    let state =
      observed_state archived_at (is_archived_state lifecycle.state)
        (is_some_message lifecycle.failure) lifecycle reported since in
    record { state = state.0; state_since = state.1; lifecycle = lifecycle; reported = reported }
