-- ===== src/Persistence/Store.antt =====
-- The calls of the control plane's store, as agentctl/src/persistence/mod.rs passes them on to the tables.
pub mod Lookups
pub mod Changes
pub mod Calls
pub mod Reporting
pub mod Performed
pub mod Owners
pub mod Invariant
pub mod Steps
pub mod Duplicates
pub mod Recorded
pub mod Streams
use digdir_agents.Base.{Str, ℕ, Bool, Option}
use digdir_agents.Agents.Model.{AgentStatus, AgentRecord}
use digdir_agents.Sessions.Activity.{ActivityEvent}
use digdir_agents.Sessions.Status.{Lifecycle}
use digdir_agents.Sessions.Model.{NewSession, Launch}
use digdir_agents.Persistence.Rows.{Db}
use digdir_agents.Persistence.Agents.{
  put_agent, update_status, mark_agent_deleting, finalize_agent_deletion,
}
use digdir_agents.Persistence.Sessions.{
  ensure_session, activate_session, mark_session_deleting, set_session_archived,
  finalize_session_deletion, update_session_lifecycle, clear_session_report,
  reset_session_launch_attempts,
}
use digdir_agents.Persistence.Launches.{
  apply_activity_for_launch, record_start_for_launch, record_session_launch,
}

-- A call that writes, with the time at which it is made and the UUID that it draws.
pub data StoreCall : Type 0 where
  put_agent_call : (r : AgentRecord) (expected : ℕ) → StoreCall
  update_status_call : (id generation : ℕ) (status : AgentStatus) (now : ℕ) → StoreCall
  mark_agent_call : (name : Str) (now : ℕ) → StoreCall
  finalize_agent_call : (id generation : ℕ) → StoreCall
  ensure_call : (agent name : Str) (new : NewSession) (id now : ℕ) → StoreCall
  activate_call : (id : ℕ) → StoreCall
  mark_call : (agent name : Str) (now : ℕ) → StoreCall
  archive_call : (agent name : Str) (wanted : Bool) (now : ℕ) → StoreCall
  finalize_call : (id : ℕ) → StoreCall
  lifecycle_call : (id : ℕ) (lifecycle : Lifecycle) (generation now : ℕ) → StoreCall
  clear_call : (id : ℕ) → StoreCall
  reset_call : (id : ℕ) → StoreCall
  launch_call : (id : ℕ) (launch : Launch) → StoreCall
  activity_call : (id token event_id : ℕ) (event : ActivityEvent) (at : ℕ) → StoreCall
  start_call : (id token event_id : ℕ) (native : Str) (path : Option Str) (at : ℕ) → StoreCall

-- What a call leaves in the tables.
unfoldable pub perform : StoreCall → Db → Db
perform (put_agent_call r expected) db = (put_agent r expected db).1
perform (update_status_call id generation status now) db =
    (update_status id generation status now db).1
perform (mark_agent_call name now) db = (mark_agent_deleting name now db).1
perform (finalize_agent_call id generation) db = (finalize_agent_deletion id generation db).1
perform (ensure_call agent name new id now) db = (ensure_session agent name new id now db).1
perform (activate_call id) db = (activate_session id db).1
perform (mark_call agent name now) db = (mark_session_deleting agent name now db).1
perform (archive_call agent name wanted now) db = (set_session_archived agent name wanted now db).1
perform (finalize_call id) db = (finalize_session_deletion id db).1
perform (lifecycle_call id lifecycle generation now) db =
    (update_session_lifecycle id lifecycle generation now db).1
perform (clear_call id) db = (clear_session_report id db).1
perform (reset_call id) db = (reset_session_launch_attempts id db).1
perform (launch_call id launch) db = (record_session_launch id launch db).1
perform (activity_call id token event_id event at) db =
    (apply_activity_for_launch id token event_id event at db).1
perform (start_call id token event_id native path at) db =
    (record_start_for_launch id token event_id native path at db).1
