-- ===== src/Persistence/Store/Calls.antt =====
-- Each call of the store is a change of one kind: agentctl/src/persistence/sessions.rs and
-- agentctl/src/persistence/agents.rs.
use digdir_agents.Base.{
  ◌==◌, Bool-cases, Option-cases, any, Str, Result, ok, ok_or, ◌>>=◌, ℕ, ◌≡◌, refl, inl, inr, Bool,
  false, ◌||◌, Option, none, some, List, [], ◌∷◌,
}
use digdir_agents.Agents.Harness.{SelectionConflict}
use digdir_agents.Agents.Model.{find_first, AgentStatus, AgentRecord}
use digdir_agents.Agents.Errors.{Error, not_found}
use digdir_agents.Sessions.Status.{Lifecycle}
use digdir_agents.Sessions.Model.{Session, is_archived, NewSession, Launch}
use digdir_agents.Persistence.Tables.{count}
use digdir_agents.Persistence.Rows.{SessionRow, Db}
use digdir_agents.Persistence.Agents.{
  put_agent, update_status, mark_agent_deleting, finalize_agent_deletion,
}
use digdir_agents.Persistence.Sessions.{
  has_id, is_named, query_named, new_row, agreed_session, insert_session, ensured, ensure_session,
  activate_session, mark_session_deleting, same_answer, archive_time, archive_found,
  set_session_archived, is_released, finalize_session_deletion, lifecycle_row,
  update_session_lifecycle, clear_session_report, reset_session_launch_attempts,
}
use digdir_agents.Persistence.Launches.{record_session_launch}
use digdir_agents.Persistence.Store.Changes.{
  Owner, lifecycle_owner, report_owner, agents_owner, session_owner, raised_edit, marked_edit,
  archive_edit, lifecycle_edit, rested_edit, cleared_edit, Change, unchanged, agents_changed,
  inserted, edited, launch_recorded, removed, Leaves, fails_with, ends_in, committed-Change,
  bind-Leaves, if-Leaves, read-Leaves,
}

ruleset leaving = (committed-Change, bind-Leaves, if-Leaves, read-Leaves, fails_with, ends_in)

pub put_agent-Change :
    (r : AgentRecord) (expected : ℕ) (db : Db) → Change agents_owner db (put_agent r expected db).1
unfolding put_agent
put_agent-Change r expected db = search (leaving, agents_changed) depth 12

pub update_status-Change :
    (id generation : ℕ) (status : AgentStatus) (now : ℕ) (db : Db)
    → Change agents_owner db (update_status id generation status now db).1
unfolding update_status
update_status-Change id generation status now db = search (leaving, agents_changed) depth 12

pub mark_agent-Change :
    (name : Str) (now : ℕ) (db : Db) → Change agents_owner db (mark_agent_deleting name now db).1
unfolding mark_agent_deleting
mark_agent-Change name now db = search (leaving, agents_changed, unchanged) depth 12

pub finalize_agent-Change :
    (id generation : ℕ) (db : Db)
    → Change agents_owner db (finalize_agent_deletion id generation db).1
unfolding finalize_agent_deletion
finalize_agent-Change id generation db = search (leaving, agents_changed) depth 12

-- A row that no key stands against is found by no id.
missing_id :
    (r : SessionRow) (rows : List SessionRow)
    → any (λ row. has_id r.id row || is_named r.agent_id r.name row) rows ≡ false
    → find_first (has_id r.id) rows ≡ none
missing_id r [] h = refl
missing_id r (row ∷ rows) h = elim (Bool-cases (row.id == r.id)) [
  | inl hit ↦ absurd (cc (rw hit at h))
  | inr miss ↦ elim (Bool-cases (is_named r.agent_id r.name row)) [
    | inl named ↦ absurd (cc (rw (miss, named) at h))
    | inr other ↦ rw miss (missing_id r rows (rw (miss, other) at h))
  ]
]

insert-Leaves :
    (r : SessionRow) (db : Db)
    → r.launch_token ≡ none
    → Leaves (session_owner r.id) db (insert_session r db)
insert-Leaves r db new =
    if-Leaves (session_owner r.id) db _ _ _ (λ _. fails_with _)
      (λ free. ends_in tt (inserted db r (missing_id r db.sessions free) new))

-- A step behind an insertion.
after-Leaves :
    {A : Type 0} {w : Owner} (db : Db) (m : Result Error (Unit {0} × Db))
    (next : Db → Result Error A)
    → Leaves w db m
    → Leaves w db (m >>= λ (_, db'). next db' >>= λ a. ok (a, db'))
after-Leaves db m next (fails_with e) = fails_with e
after-Leaves {w = w} db m next (ends_in a {db' = db'} h) = read-Leaves w db db' (next db') h

pub agreed-Leaves :
    {w : Owner} (o : Option SelectionConflict) (s : Session) (db : Db)
    → Leaves w db (agreed_session o s db)
unfolding agreed_session
agreed-Leaves none s db = ends_in s (unchanged db)
agreed-Leaves (some clause) s db = fails_with _

ensured-Leaves :
    (o : Option Session) (id owner : ℕ) (name : Str) (new : NewSession) (now : ℕ) (db : Db)
    → Leaves (session_owner id) db (ensured o id owner name new now db)
ensured-Leaves (some s) id owner name new now db = search (leaving, agreed-Leaves) depth 12
ensured-Leaves none id owner name new now db =
    after-Leaves db (insert_session (new_row id owner name new now) db)
      (λ db'. ok_or (query_named db' owner name) not_found)
      (insert-Leaves (new_row id owner name new now) db refl)

pub ensure-Change :
    (agent name : Str) (new : NewSession) (id now : ℕ) (db : Db)
    → Change (session_owner id) db (ensure_session agent name new id now db).1
unfolding ensure_session
ensure-Change agent name new id now db = search (leaving, ensured-Leaves) depth 12

pub activate-Change : (id : ℕ) (db : Db) → Change lifecycle_owner db (activate_session id db).1
unfolding activate_session
activate-Change id db = edited db (has_id id) raised_edit

pub mark-Change :
    (agent name : Str) (now : ℕ) (db : Db)
    → Change lifecycle_owner db (mark_session_deleting agent name now db).1
unfolding mark_session_deleting
mark-Change agent name now db =
    search (leaving, unchanged, λ (p : SessionRow → Bool). edited db p (marked_edit now)) depth 12

pub archive_found-Change :
    (s : Session) (wanted : Bool) (now : ℕ) (db : Db)
    → Change lifecycle_owner db (archive_found s wanted now db)
unfolding archive_found
archive_found-Change s wanted now db = elim (Bool-cases (same_answer (is_archived s) wanted)) [
  | inl already ↦ rw already (unchanged db)
  | inr other ↦ rw other (edited db (has_id s.id) (archive_edit (archive_time wanted now)))
]

pub archive-Change :
    (agent name : Str) (wanted : Bool) (now : ℕ) (db : Db)
    → Change lifecycle_owner db (set_session_archived agent name wanted now db).1
unfolding set_session_archived
archive-Change agent name wanted now db = search (leaving, archive_found-Change) depth 12

pub finalize-Change :
    (id : ℕ) (db : Db) → Change (session_owner id) db (finalize_session_deletion id db).1
unfolding finalize_session_deletion
finalize-Change id db = elim (Bool-cases (count (is_released id) db.sessions == 1)) [
  | inl one ↦ rw one (removed db id)
  | inr other ↦ rw other (unchanged db)
]

pub lifecycle-Change :
    (id : ℕ) (lifecycle : Lifecycle) (generation now : ℕ) (db : Db)
    → Change lifecycle_owner db (update_session_lifecycle id lifecycle generation now db).1
unfolding update_session_lifecycle
lifecycle-Change id lifecycle generation now db =
    elim (Option-cases (find_first (has_id id) db.sessions)) [
      | inl missing ↦ rw missing (unchanged db)
      | inr (r, found) ↦ rw found (
          edited db (has_id id)
            (lifecycle_edit (lifecycle_row r.lifecycle lifecycle generation now)))
    ]

pub clear-Change : (id : ℕ) (db : Db) → Change report_owner db (clear_session_report id db).1
unfolding clear_session_report
clear-Change id db = edited db (has_id id) cleared_edit

pub reset-Change :
    (id : ℕ) (db : Db) → Change lifecycle_owner db (reset_session_launch_attempts id db).1
unfolding reset_session_launch_attempts
reset-Change id db = edited db (has_id id) rested_edit

pub launch-Change :
    (id : ℕ) (launch : Launch) (db : Db)
    → Change (session_owner id) db (record_session_launch id launch db).1
unfolding record_session_launch
launch-Change id launch db = search (leaving, launch_recorded) depth 12
