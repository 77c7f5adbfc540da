-- ===== src/Persistence/Sessions.antt =====
-- The sessions' table: agentctl/src/persistence/sessions.rs. The clock and a drawn UUID are arguments.
use digdir_agents.Base.{
  ◌==◌, codes, if◌then◌else◌, any, Str, same_text, Result, err, ok, ok_or, ensure, ◌>>=◌, ℕ, ◌+◌,
  Bool, true, false, not, ◌&&◌, ◌||◌, Option, none, some, [], ◌∷◌, ◌++◌,
}
use digdir_agents.Agents.Harness.{same_harness, SelectionConflict, conflict_with}
use digdir_agents.Agents.Errors.{
  text, harness, conflict_clause, said, format, Error, invalid, not_found, conflict, database,
}
use digdir_agents.Agents.Model.{find_first, is_some}
use digdir_agents.Sessions.Activity.{no_activity}
use digdir_agents.Sessions.Status.{LifecycleState, Lifecycle}
use digdir_agents.Sessions.Model.{Session, is_deleting, is_archived, NewSession}
use digdir_agents.Persistence.Tables.{count, update_where, delete_where}
use digdir_agents.Persistence.Rows.{
  LifecycleRow, SessionRow, ReportRow, Db, Call, committed, decode_session,
}
use digdir_agents.Persistence.Agents.{is_active, get_agent_by_name}

abbrev pub has_id : ℕ → SessionRow → Bool
has_id id r = r.id == id

-- The active name of a session's agent, which the queries join.
unfoldable pub active_name_of : Db → ℕ → Option Str
active_name_of db id = elim (find_first (λ r. r.id == id && is_active r) db.agents) [
  | none ↦ none
  | some r ↦ r.active_name
]

abbrev pub joined : Db → Option SessionRow → Option Session
joined db none = none
joined db (some r) = elim (active_name_of db r.agent_id) [
  | none ↦ none
  | some agent ↦ some (decode_session agent r)
]

-- `get`.
unfoldable pub get_session : Db → ℕ → Result Error Session
get_session db id = ok_or (joined db (find_first (has_id id) db.sessions)) not_found

abbrev pub is_named : ℕ → Str → SessionRow → Bool
is_named agent name r = r.agent_id == agent && same_text r.name name

-- `query_named`.
unfoldable pub query_named : Db → ℕ → Str → Option Session
query_named db agent name = joined db (find_first (is_named agent name) db.sessions)

-- `get_by_name`.
unfoldable pub get_session_by_name : Db → Str → Str → Result Error Session
get_session_by_name db agent name =
    get_agent_by_name db agent >>= λ owner. ok_or (query_named db owner.id name) not_found

abbrev pub new_lifecycle : LifecycleRow
new_lifecycle = record {
  state = LifecycleState.starting;
  failure = none;
  observed_activation_generation = 0;
  since = none;
}

abbrev pub new_row : ℕ → ℕ → Str → NewSession → ℕ → SessionRow
new_row id agent name new now = record {
  id = id;
  agent_id = agent;
  name = name;
  harness = new.harness;
  created_at = now;
  activation_generation = 0;
  lifecycle = new_lifecycle;
  harness_native_id = none;
  harness_transcript_path = none;
  activity = no_activity;
  model_selection = new.model_selection;
  deletion_timestamp = none;
  archived_at = none;
  initial_prompt = new.initial_prompt;
  launch_token = none;
  launch_sandbox = none;
  launched_at = none;
  launch_attempts = 0;
}

-- The check of a session's model, its last.
unfoldable pub agreed_session :
    Option SelectionConflict → Session → Db → Result Error (Session × Db)
agreed_session none s db = ok (s, db)
agreed_session (some clause) s db =
    err (invalid (format "Session \"{}\" {}" (text s.name ∷ conflict_clause clause ∷ [])))

-- What `ensure` does with the session of that name, if there is one.
abbrev pub existing_session : Session → NewSession → Db → Result Error (Session × Db)
existing_session s new db =
    ensure (not (is_deleting s)) (
      invalid (
        format "Session \"{}\" is being deleted; its name is free once its harness has stopped"
          (text s.name ∷ [])))
    >>= λ _.
        ensure (same_harness s.harness new.harness) (
          invalid (
            format "Session \"{}\" already uses harness {}, not {}"
              (text s.name ∷ harness s.harness ∷ harness new.harness ∷ [])))
        >>= λ _. agreed_session (conflict_with s.model_selection new.requested) s db

-- `INSERT`, whose row the table's keys may refuse.
abbrev pub insert_session : SessionRow → Db → Result Error (Unit {0} × Db)
insert_session r db =
    if any (λ row. has_id r.id row || is_named r.agent_id r.name row) db.sessions
    then err (database (said (codes "UNIQUE constraint failed")))
    else ok (tt, record db { sessions = db.sessions ++ r ∷ [] })

abbrev pub ensured :
    Option Session → ℕ → ℕ → Str → NewSession → ℕ → Db → Result Error (Session × Db)
ensured (some s) id agent name new now db = existing_session s new db
ensured none id agent name new now db =
    insert_session (new_row id agent name new now) db >>= λ (_, db').
    ok_or (query_named db' agent name) not_found >>= λ s. ok (s, db')

-- `ensure`.
unfoldable pub ensure_session : Str → Str → NewSession → ℕ → ℕ → Call Session
ensure_session agent name new id now db =
    committed
      (get_agent_by_name db agent >>= λ owner.
        ensure (not (is_some owner.agent.metadata.deletion_timestamp)) conflict >>= λ _.
        ensured (query_named db owner.id name) id owner.id name new now db)
      db

-- A statement that is to change one row.
abbrev pub set_row : (SessionRow → SessionRow) → ℕ → Db → Db
set_row f id db = record db { sessions = update_where (has_id id) f db.sessions }

abbrev pub changes_one : ℕ → Db → Bool
changes_one id db = count (has_id id) db.sessions == 1

abbrev pub changed_one : ℕ → Db → Error → Result Error (Unit {0})
changed_one id db failure = ensure (changes_one id db) failure

abbrev pub raised : SessionRow → SessionRow
raised r = record r { activation_generation = r.activation_generation + 1 }

abbrev pub generation_of : Option SessionRow → Result Error ℕ
generation_of none = err (database (said (codes "Query returned no rows")))
generation_of (some r) = ok r.activation_generation

-- `activate`.
unfoldable pub activate_session : ℕ → Call ℕ
activate_session id db =
    let db' = set_row raised id db in
    (changed_one id db not_found >>= λ _. generation_of (find_first (has_id id) db'.sessions), db')

abbrev pub is_unmarked : ℕ → SessionRow → Bool
is_unmarked id r = has_id id r && not (is_some r.deletion_timestamp)

abbrev pub marked : ℕ → SessionRow → SessionRow
marked now r = record r { deletion_timestamp = some now }

abbrev pub mark_session : ℕ → Str → ℕ → Session → Db → Result Error (Session × Db)
mark_session agent name now s db =
    ensure (count (is_unmarked s.id) db.sessions == 1) conflict >>= λ _.
    let db' = record db { sessions = update_where (is_unmarked s.id) (marked now) db.sessions } in
    ok_or (query_named db' agent name) not_found >>= λ s'. ok (s', db')

-- `mark_deleting`.
unfoldable pub mark_session_deleting : Str → Str → ℕ → Call Session
mark_session_deleting agent name now db =
    committed
      (get_agent_by_name db agent >>= λ owner.
        ok_or (query_named db owner.id name) not_found >>= λ s.
        if is_deleting s then ok (s, db) else mark_session owner.id name now s db)
      db

abbrev pub same_answer : Bool → Bool → Bool
same_answer true b = b
same_answer false b = not b

abbrev pub archive_time : Bool → ℕ → Option ℕ
archive_time true now = some now
archive_time false now = none

abbrev pub archive_row : Option ℕ → SessionRow → SessionRow
archive_row at r = record r { archived_at = at }

-- Archiving an archived session keeps its time.
unfoldable pub archive_found : Session → Bool → ℕ → Db → Db
archive_found s wanted now db =
    if same_answer (is_archived s) wanted
    then db
    else set_row (archive_row (archive_time wanted now)) s.id db

-- `set_archived`.
unfoldable pub set_session_archived : Str → Str → Bool → ℕ → Call Session
set_session_archived agent name wanted now db =
    committed
      (get_agent_by_name db agent >>= λ owner.
        ok_or (query_named db owner.id name) not_found >>= λ s.
        ensure (not (is_deleting s)) not_found >>= λ _.
        ok_or (query_named (archive_found s wanted now db) owner.id name) not_found >>= λ s'.
        ok (s', archive_found s wanted now db))
      db

abbrev pub is_released : ℕ → SessionRow → Bool
is_released id r = has_id id r && is_some r.deletion_timestamp

abbrev pub reported_by : ℕ → ReportRow → Bool
reported_by id r = r.session_id == id

-- `finalize_deletion`; the reports of a removed session cascade with it.
unfoldable pub finalize_session_deletion : ℕ → Call (Unit {0})
finalize_session_deletion id db =
    if count (is_released id) db.sessions == 1
    then (
      ok tt,
      record db {
        sessions = delete_where (is_released id) db.sessions;
        reports = delete_where (reported_by id) db.reports;
      },
    )
    else (err conflict, db)

abbrev pub same_lifecycle_state : LifecycleState → LifecycleState → Bool
same_lifecycle_state LifecycleState.starting LifecycleState.starting = true
same_lifecycle_state LifecycleState.resuming LifecycleState.resuming = true
same_lifecycle_state LifecycleState.running LifecycleState.running = true
same_lifecycle_state LifecycleState.idle LifecycleState.idle = true
same_lifecycle_state LifecycleState.archived LifecycleState.archived = true
same_lifecycle_state LifecycleState.failed LifecycleState.failed = true
same_lifecycle_state _ _ = false

abbrev pub lifecycle_row : LifecycleRow → Lifecycle → ℕ → ℕ → LifecycleRow
lifecycle_row current lifecycle generation now = record {
  state = lifecycle.state;
  failure = lifecycle.failure;
  observed_activation_generation = generation;
  since = if same_lifecycle_state current.state lifecycle.state then current.since else some now;
}

abbrev pub put_lifecycle : LifecycleRow → SessionRow → SessionRow
put_lifecycle lifecycle r = record r { lifecycle = lifecycle }

abbrev pub update_found : Option SessionRow → ℕ → Lifecycle → ℕ → ℕ → Call (Unit {0})
update_found none id lifecycle generation now db = (err not_found, db)
update_found (some current) id lifecycle generation now db = (
  changed_one id db not_found,
  set_row (put_lifecycle (lifecycle_row current.lifecycle lifecycle generation now)) id db,
)

-- `update_lifecycle`.
unfoldable pub update_session_lifecycle : ℕ → Lifecycle → ℕ → ℕ → Call (Unit {0})
update_session_lifecycle id lifecycle generation now db =
    update_found (find_first (has_id id) db.sessions) id lifecycle generation now db

abbrev pub cleared : SessionRow → SessionRow
cleared r = record r {
  harness_native_id = none;
  harness_transcript_path = none;
  activity = no_activity;
}

-- `clear_report`.
unfoldable pub clear_session_report : ℕ → Call (Unit {0})
clear_session_report id db = (changed_one id db not_found, set_row cleared id db)

abbrev pub rested : SessionRow → SessionRow
rested r = record r { launch_attempts = 0 }

-- `reset_launch_attempts`.
unfoldable pub reset_session_launch_attempts : ℕ → Call (Unit {0})
reset_session_launch_attempts id db = (changed_one id db not_found, set_row rested id db)
