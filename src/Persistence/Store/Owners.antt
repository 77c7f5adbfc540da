-- ===== src/Persistence/Store/Owners.antt =====
-- Which half of a session's status a call writes: agentctl/src/persistence/sessions.rs.
use digdir_agents.Base.{◌==◌, Str, ℕ, ◌≡◌, refl, false, Option}
use digdir_agents.Agents.Model.{find_first}
use digdir_agents.Sessions.Activity.{Activity}
use digdir_agents.Persistence.Rows.{LifecycleRow, SessionRow, Db}
use digdir_agents.Persistence.Sessions.{has_id}
use digdir_agents.Persistence.Store.Lookups.{part_of}
use digdir_agents.Persistence.Store.Changes.{
  Owner, lifecycle_owner, report_owner, agents_owner, session_owner, Edit, raised_edit, marked_edit,
  archive_edit, lifecycle_edit, rested_edit, cleared_edit, activity_edit, start_edit, edit,
}

-- What a harness reported, and what else is known of the session.
abbrev pub report_part : SessionRow → Option Str × Option Str × Activity
report_part r = (r.harness_native_id, r.harness_transcript_path, r.activity)

abbrev pub lifecycle_part : SessionRow → LifecycleRow × ℕ × Option ℕ × Option ℕ × Option ℕ × ℕ
lifecycle_part r = (
  r.lifecycle, r.activation_generation, r.deletion_timestamp, r.archived_at, r.launch_token,
  r.launch_attempts,
)

-- Every session has its part as before.
abbrev pub KeepsPart : {B : Type 0} → (SessionRow → B) → Db → Db → Type 0
KeepsPart part db db' = (id : ℕ) → part_of part id db'.sessions ≡ part_of part id db.sessions

-- Every session but one is as before, and no other is there.
abbrev pub KeepsOthers : ℕ → Db → Db → Type 0
KeepsOthers id db db' =
    (other : ℕ)
    → (id == other) ≡ false
    → find_first (has_id other) db'.sessions ≡ find_first (has_id other) db.sessions

-- What the changes of an owner leave.
abbrev pub Keeps : Owner → Db → Db → Type 0
Keeps lifecycle_owner db db' = KeepsPart report_part db db'
Keeps report_owner db db' = KeepsPart lifecycle_part db db'
Keeps agents_owner db db' = (db'.sessions ≡ db.sessions) × (db'.reports ≡ db.reports)
Keeps (session_owner id) db db' = KeepsOthers id db db'

pub edit-id : {o : Owner} (e : Edit o) (r : SessionRow) → (edit e r).id ≡ r.id
edit-id raised_edit r = refl
edit-id (marked_edit now) r = refl
edit-id (archive_edit at) r = refl
edit-id (lifecycle_edit l) r = refl
edit-id rested_edit r = refl
edit-id cleared_edit r = refl
edit-id (activity_edit a) r = refl
edit-id (start_edit native path) r = refl
