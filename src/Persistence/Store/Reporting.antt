-- ===== src/Persistence/Store/Reporting.antt =====
-- What a report of a harness changes: agentctl/src/persistence/sessions.rs.
use mathlib.Core.Path.{subst}
use digdir_agents.Base.{
  Bool-cases, Option-cases, any, Str, Result, err, ok, ℕ, ◌≡◌, refl, inl, inr, Option, none, some,
  [], ◌∷◌, ◌++◌,
}
use digdir_agents.Agents.Model.{find_first}
use digdir_agents.Agents.Errors.{Error, not_found}
use digdir_agents.Sessions.Activity.{ActivityEvent, session_start, Activity, folded}
use digdir_agents.Persistence.Rows.{SessionRow, ReportRow, Db}
use digdir_agents.Persistence.Sessions.{has_id}
use digdir_agents.Persistence.Launches.{
  is_launch, is_report, begin_report, commit_report, applied, apply_activity_for_launch, started,
  record_start_for_launch,
}
use digdir_agents.Persistence.Store.Changes.{
  report_owner, activity_edit, start_edit, Change, unchanged, edited, report_added, then_changed,
}

pub begin-Change :
    (id token event : ℕ) (db : Db) (a : Activity) (db' : Db)
    → begin_report id token event db ≡ ok (some (a, db'))
    → Change report_owner db db'
unfolding begin_report
begin-Change id token event db a db' h =
    elim (Option-cases (find_first (is_launch db id token) db.sessions)) [
      | inl missing ↦ absurd (cc (rw missing at h))
      | inr (r, found) ↦
          let report : ReportRow = record {
            session_id = id;
            launch_token = token;
            event_id = event;
          } in
          elim (Bool-cases (any (is_report report) db.reports)) [
            | inl known ↦ absurd (cc (rw (found, known) at h))
            | inr new ↦ added r found (rw (found, new) at h)
          ]
    ]
  where
    with_report : Db
    with_report = record db {
      reports =
          db.reports ++ record { session_id = id; launch_token = token; event_id = event } ∷ [];
    }

    added :
        (r : SessionRow)
        → find_first (is_launch db id token) db.sessions ≡ some r
        → ◌≡◌ {A = Result Error (Option (Activity × Db))}
            (ok (some (r.activity, with_report)))
            (ok (some (a, db')))
        → Change report_owner db db'
    added r found e =
        subst (λ d. Change report_owner db d) (cc e) (report_added db r id token event found)

pub applied-Change :
    (r : Result Error (Option (Activity × Db))) (id : ℕ) (event : ActivityEvent) (at : ℕ) (db : Db)
    → ((a : Activity) (db' : Db) → r ≡ ok (some (a, db')) → Change report_owner db db')
    → Change report_owner db (applied r id event at db).1
unfolding commit_report
applied-Change (err not_found) id event at db h = unchanged db
applied-Change (err e) id event at db h = unchanged db
applied-Change (ok none) id event at db h = unchanged db
applied-Change (ok (some (a, db'))) id event at db h =
    then_changed (h a db' refl) (edited db' (has_id id) (activity_edit (folded event at a)))

pub activity-Change :
    (id token event_id : ℕ) (event : ActivityEvent) (at : ℕ) (db : Db)
    → Change report_owner db (apply_activity_for_launch id token event_id event at db).1
unfolding apply_activity_for_launch
activity-Change id token event_id event at db =
    applied-Change (begin_report id token event_id db) id event at db
      (begin-Change id token event_id db)

pub started-Change :
    (r : Result Error (Option (Activity × Db))) (id : ℕ) (native : Str) (path : Option Str) (at : ℕ)
    (db : Db)
    → ((a : Activity) (db' : Db) → r ≡ ok (some (a, db')) → Change report_owner db db')
    → Change report_owner db (started r id native path at db).1
unfolding commit_report
started-Change (err e) id native path at db h = unchanged db
started-Change (ok none) id native path at db h = unchanged db
started-Change (ok (some (a, db'))) id native path at db h = then_changed (h a db' refl) (
    then_changed (edited db' (has_id id) (start_edit native path))
      (edited _ (has_id id) (activity_edit (folded session_start at a))))

pub start-Change :
    (id token event_id : ℕ) (native : Str) (path : Option Str) (at : ℕ) (db : Db)
    → Change report_owner db (record_start_for_launch id token event_id native path at db).1
unfolding record_start_for_launch
start-Change id token event_id native path at db =
    started-Change (begin_report id token event_id db) id native path at db
      (begin-Change id token event_id db)
