-- ===== src/Persistence/Store/Streams/Counting.antt =====
-- What the tables make of a stream of reports: agentctl/src/persistence/sessions.rs.
use digdir_agents.Base.{
  ◌==◌, Bool-cases, any, Str, ok, ℕ, ◌≡◌, refl, inl, inr, false, Option, List, [], ◌∷◌,
}
use digdir_agents.Sessions.Status.{observed}
use digdir_agents.Sessions.Model.{Session, Launch}
use digdir_agents.Persistence.Tables.{delete_where}
use digdir_agents.Persistence.Rows.{ReportRow, Db, committed, decode_session}
use digdir_agents.Persistence.Sessions.{has_id, active_name_of, joined, get_session, reported_by}
use digdir_agents.Persistence.Launches.{is_report, launched, is_other_launch, record_session_launch}
use digdir_agents.Persistence.Store.Lookups.{IsDistinct, update_where-IsDistinct}
use digdir_agents.Persistence.Store.Duplicates.{report}
use digdir_agents.Persistence.Store.Recorded.{find_first-update_where, session_row}
use digdir_agents.Persistence.Store.Streams.{Delivery, deliver_all, take_all, nothing_counted}
use digdir_agents.Persistence.Store.Streams.Views.{other_session, IsView, all-IsView}

-- The reports of a session that starts anew are gone.
no_reports :
    (id token event_id : ℕ) (reports : List ReportRow)
    → any (is_report (report id token event_id)) (delete_where (reported_by id) reports) ≡ false
unfolding delete_where
no_reports id token event_id [] = refl
no_reports id token event_id (r ∷ reports) =
    let rest = no_reports id token event_id reports in
    elim (Bool-cases (r.session_id == id)) [
      | inl hit ↦ rw hit rest
      | inr miss ↦
          rw (miss, other_session id token event_id r.session_id r.launch_token r.event_id miss)
            rest
    ]

launch-IsView :
    (id : ℕ) (launch : Launch) (db : Db) (s : Session) (p : Option Str)
    → get_session db id ≡ ok s
    → IsDistinct db.sessions
    → (record_session_launch id launch db).0 ≡ ok p
    → IsView id launch.token (record_session_launch id launch db).1 nothing_counted
unfolding record_session_launch committed active_name_of
launch-IsView id launch db s p h d done =
    let (r, agent, found, named) = session_row id db s h in
    elim (Bool-cases (any (is_other_launch id launch.token) db.sessions)) [
      | inl taken ↦ absurd (cc (rw (found, taken) at done))
      | inr free ↦
          rw (found, free)
            (record {
              row = launched launch r;
              found = find_first-update_where id (launched launch) (λ r'. refl) db.sessions r found;
              current = refl;
              reached = (agent, named);
              active = refl;
              listed = λ e. no_reports id launch.token e db.reports;
              distinct =
                  update_where-IsDistinct (has_id id) (launched launch) (λ r'. refl) db.sessions d;
            })
    ]

-- Once a launch is recorded, and whatever reports the platform's API is then sent, starts and others, of
-- this and of other sessions, in whatever order, late or again and again, the session's activity is that
-- of folding, in the order in which they first came, the events that were reported with its id and the
-- launch's token, each once, but for the starts that are refused for the conversation's name or the
-- transcript's path.
pub deliver_all-take_all :
    (id : ℕ) (launch : Launch) (ms : List Delivery) (db : Db) (s : Session) (p : Option Str)
    → get_session db id ≡ ok s
    → IsDistinct db.sessions
    → (record_session_launch id launch db).0 ≡ ok p
    → (s' : Session) × (get_session (deliver_all ms (record_session_launch id launch db).1) id
        ≡ ok s')
      × (s'.status.reported.activity ≡ (take_all id launch.token ms nothing_counted).1)
unfolding get_session decode_session observed
deliver_all-take_all id launch ms db s p h d done =
    let view =
      all-IsView id launch.token ms _ nothing_counted (launch-IsView id launch db s p h d done) in
    let (agent, named) = view.reached in
    (decode_session agent view.row, rw (view.found, joined, named) refl, view.active)
