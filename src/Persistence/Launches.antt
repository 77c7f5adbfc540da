-- ===== src/Persistence/Launches.antt =====
-- Launches and the reports of a launch: agentctl/src/persistence/sessions.rs.
use digdir_agents.Base.{
  ◌==◌, codes, if◌then◌else◌, any, Str, Result, err, ok, ok_or, ensure, ◌>>=◌, ℕ, Bool, false, not,
  ◌&&◌, Option, none, some, [], ◌∷◌, ◌++◌,
}
use digdir_agents.Agents.Errors.{text, said, format, Error, invalid, not_found, database}
use digdir_agents.Agents.Model.{
  find_first, Assignment, selected, materialized, is_ready, AgentRecord, is_some,
}
use digdir_agents.Sessions.Activity.{ActivityEvent, session_start, Activity, no_activity, folded}
use digdir_agents.Sessions.Status.{LifecycleState}
use digdir_agents.Sessions.Model.{Session, not_running_error, Launch, AttachTarget}
use digdir_agents.Persistence.Tables.{update_where, delete_where}
use digdir_agents.Persistence.Rows.{SessionRow, ReportRow, Db, Call, committed}
use digdir_agents.Persistence.Agents.{get_agent}
use digdir_agents.Persistence.Sessions.{
  has_id, active_name_of, get_session, set_row, reported_by, same_lifecycle_state,
}

abbrev pub is_token : ℕ → Option ℕ → Bool
is_token token none = false
is_token token (some current) = current == token

-- A session's row for the launch that bears the token.
abbrev pub is_launch : Db → ℕ → ℕ → SessionRow → Bool
is_launch db id token r =
    has_id id r && is_token token r.launch_token && is_some (active_name_of db r.agent_id)

abbrev pub is_report : ReportRow → ReportRow → Bool
is_report a b =
    a.session_id == b.session_id && a.launch_token == b.launch_token && a.event_id == b.event_id

-- `begin_report`: nothing for a report that was there already, and otherwise the activity so far with
-- the report in the table.
unfoldable pub begin_report : ℕ → ℕ → ℕ → Db → Result Error (Option (Activity × Db))
begin_report id token event db =
    let report : ReportRow = record { session_id = id; launch_token = token; event_id = event } in
    ok_or (find_first (is_launch db id token) db.sessions) not_found >>= λ r.
    if any (is_report report) db.reports
    then ok none
    else ok (some (r.activity, record db { reports = db.reports ++ report ∷ [] }))

abbrev pub put_activity : Activity → SessionRow → SessionRow
put_activity activity r = record r { activity = activity }

-- `commit_report`.
unfoldable pub commit_report : ℕ → Activity → Db → Activity × Db
commit_report id activity db = (activity, set_row (put_activity activity) id db)

abbrev pub applied :
    Result Error (Option (Activity × Db)) → ℕ → ActivityEvent → ℕ → Call (Option Activity)
applied (err not_found) id event at db = (ok none, db)
applied (err e) id event at db = (err e, db)
applied (ok none) id event at db = (ok none, db)
applied (ok (some (activity, db'))) id event at db =
    let (a, db'') = commit_report id (folded event at activity) db' in (ok (some a), db'')

-- `apply_activity_for_launch`.
unfoldable pub apply_activity_for_launch : ℕ → ℕ → ℕ → ActivityEvent → ℕ → Call (Option Activity)
apply_activity_for_launch id token event_id event at db =
    applied (begin_report id token event_id db) id event at db

abbrev pub put_start : Str → Option Str → SessionRow → SessionRow
put_start native path r = record r {
  harness_native_id = some native;
  harness_transcript_path = path;
}

abbrev pub started :
    Result Error (Option (Activity × Db)) → ℕ → Str → Option Str → ℕ → Call (Option Activity)
started (err e) id native path at db = (err e, db)
started (ok none) id native path at db = (ok none, db)
started (ok (some (activity, db'))) id native path at db =
    let (a, db'') =
      commit_report id (folded session_start at activity)
        (set_row (put_start native path) id db') in
    (ok (some a), db'')

-- `record_start_for_launch`.
unfoldable pub record_start_for_launch : ℕ → ℕ → ℕ → Str → Option Str → ℕ → Call (Option Activity)
record_start_for_launch id token event_id native path at db =
    started (begin_report id token event_id db) id native path at db

abbrev pub launched : Launch → SessionRow → SessionRow
launched launch r = record r {
  launch_token = some launch.token;
  launch_sandbox = some launch.sandbox;
  launched_at = some launch.launched_at;
  launch_attempts = launch.attempts;
  activity = no_activity;
  initial_prompt = none;
}

-- Another session's launch has the token, which the table's key refuses.
abbrev pub is_other_launch : ℕ → ℕ → SessionRow → Bool
is_other_launch id token r = not (has_id id r) && is_token token r.launch_token

-- `record_launch`, which returns the prompt that it takes away.
unfoldable pub record_session_launch : ℕ → Launch → Call (Option Str)
record_session_launch id launch db =
    committed
      (ok_or (find_first (has_id id) db.sessions) not_found >>= λ r.
        if any (is_other_launch id launch.token) db.sessions
        then err (database (said (codes "UNIQUE constraint failed")))
        else ok (
          r.initial_prompt,
          record db {
            sessions = update_where (has_id id) (launched launch) db.sessions;
            reports = delete_where (reported_by id) db.reports;
          },
        ))
      db

abbrev pub launch_of : Option ℕ → Option ℕ → Option ℕ → ℕ → Option Launch
launch_of (some token) (some box) (some launched_at) attempts =
    some (record { token = token; sandbox = box; launched_at = launched_at; attempts = attempts })
launch_of _ _ _ attempts = none

-- `launch_state`.
unfoldable pub session_launch_state : Db → ℕ → Result Error (Option Launch)
session_launch_state db id = ok_or (find_first (has_id id) db.sessions) not_found >>= λ r.
    ok (launch_of r.launch_token r.launch_sandbox r.launched_at r.launch_attempts)

abbrev pub is_running : LifecycleState → Bool
is_running state = same_lifecycle_state state LifecycleState.running

abbrev pub not_ready : AgentRecord → Error
not_ready r = invalid (format "Agent {} is not ready" (text r.agent.metadata.name ∷ []))

abbrev pub target_of : Option Assignment → Session → AgentRecord → Result Error AttachTarget
target_of (some (materialized provider id harnesses)) s r =
    ensure (is_ready r.agent.status && not (is_some r.agent.metadata.deletion_timestamp))
      (not_ready r)
    >>= λ _. ok (record { session = s; sandbox = materialized provider id harnesses })
target_of (some (selected provider)) s r = err (not_ready r)
target_of none s r = err (not_ready r)

-- `attach_target`.
unfoldable pub session_attach_target : Db → ℕ → Result Error AttachTarget
session_attach_target db id = get_session db id >>= λ s.
    ensure (is_running s.status.lifecycle.state) (not_running_error s) >>= λ _.
    get_agent db s.agent_id >>= λ r. target_of r.agent.status.sandbox s r
