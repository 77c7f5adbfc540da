-- ===== src/Persistence/Store/Performed.antt =====
-- Whom a call of the store is for, and that it changes no more than theirs:
-- agentctl/src/persistence/sessions.rs.
use digdir_agents.Persistence.Rows.{Db}
use digdir_agents.Persistence.Store.{
  StoreCall, put_agent_call, update_status_call, mark_agent_call, finalize_agent_call, ensure_call,
  activate_call, mark_call, archive_call, finalize_call, lifecycle_call, clear_call, reset_call,
  launch_call, activity_call, start_call, perform,
}
use digdir_agents.Persistence.Store.Changes.{
  Owner, lifecycle_owner, report_owner, agents_owner, session_owner, Change,
}
use digdir_agents.Persistence.Store.Calls.{
  put_agent-Change, update_status-Change, mark_agent-Change, finalize_agent-Change, ensure-Change,
  activate-Change, mark-Change, archive-Change, finalize-Change, lifecycle-Change, clear-Change,
  reset-Change, launch-Change,
}
use digdir_agents.Persistence.Store.Reporting.{activity-Change, start-Change}

-- The owner of a call.
abbrev pub owner_of : StoreCall → Owner
owner_of (put_agent_call r expected) = agents_owner
owner_of (update_status_call id generation status now) = agents_owner
owner_of (mark_agent_call name now) = agents_owner
owner_of (finalize_agent_call id generation) = agents_owner
owner_of (ensure_call agent name new id now) = session_owner id
owner_of (activate_call id) = lifecycle_owner
owner_of (mark_call agent name now) = lifecycle_owner
owner_of (archive_call agent name wanted now) = lifecycle_owner
owner_of (finalize_call id) = session_owner id
owner_of (lifecycle_call id lifecycle generation now) = lifecycle_owner
owner_of (clear_call id) = report_owner
owner_of (reset_call id) = lifecycle_owner
owner_of (launch_call id launch) = session_owner id
owner_of (activity_call id token event_id event at) = report_owner
owner_of (start_call id token event_id native path at) = report_owner

pub perform-Change : (c : StoreCall) (db : Db) → Change (owner_of c) db (perform c db)
unfolding perform
perform-Change (put_agent_call r expected) db = put_agent-Change r expected db
perform-Change (update_status_call id generation status now) db =
    update_status-Change id generation status now db
perform-Change (mark_agent_call name now) db = mark_agent-Change name now db
perform-Change (finalize_agent_call id generation) db = finalize_agent-Change id generation db
perform-Change (ensure_call agent name new id now) db = ensure-Change agent name new id now db
perform-Change (activate_call id) db = activate-Change id db
perform-Change (mark_call agent name now) db = mark-Change agent name now db
perform-Change (archive_call agent name wanted now) db = archive-Change agent name wanted now db
perform-Change (finalize_call id) db = finalize-Change id db
perform-Change (lifecycle_call id lifecycle generation now) db =
    lifecycle-Change id lifecycle generation now db
perform-Change (clear_call id) db = clear-Change id db
perform-Change (reset_call id) db = reset-Change id db
perform-Change (launch_call id launch) db = launch-Change id launch db
perform-Change (activity_call id token event_id event at) db =
    activity-Change id token event_id event at db
perform-Change (start_call id token event_id native path at) db =
    start-Change id token event_id native path at db
