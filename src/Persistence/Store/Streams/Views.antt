-- ===== src/Persistence/Store/Streams/Views.antt =====
-- How the tables stand for what was counted: agentctl/src/persistence/sessions.rs.
use digdir_agents.Base.{
  ◌==◌, ==→eq, Bool-cases, Option-cases, any, Str, Result, err, ok, ℕ, ◌≡◌, refl, sym, ap, ◌∙◌, inl,
  inr, true, false, ◌||◌, Option, none, some, List, [], ◌∷◌, arith,
}
use digdir_agents.Agents.Model.{find_first}
use digdir_agents.Sessions.Activity.{
  ActivityEvent, session_start, turn_started, turn_completed, waiting_reported, Activity, folded,
}
use digdir_agents.Persistence.Tables.{update_where}
use digdir_agents.Persistence.Rows.{SessionRow, Db}
use digdir_agents.Persistence.Sessions.{has_id, active_name_of, set_row}
use digdir_agents.Persistence.Launches.{
  is_launch, is_report, begin_report, put_activity, commit_report, applied,
  apply_activity_for_launch, put_start, started, record_start_for_launch,
}
use digdir_agents.Persistence.Store.Lookups.{
  IsDistinct, update_where-IsDistinct, any-snoc, or_false, apart, find_first-other,
}
use digdir_agents.Persistence.Store.Invariant.{token_part, found-has_id, is_launch_parts}
use digdir_agents.Persistence.Store.Duplicates.{report, known_report, no_launch}
use digdir_agents.Persistence.Store.Recorded.{find_first-update_where}
use digdir_agents.Persistence.Store.Streams.{
  Delivery, given, is_start_well_formed, accept_report, deliver, deliver_all, Counted, is_counted,
  take_new, count_in, take, take_all,
}
use digdir_agents.Agents.Errors.{Error, not_found}

same_event : (id token a b : ℕ) → is_report (report id token a) (report id token b) ≡ (a == b)
same_event id token a b = ground arith

pub other_session :
    (id token a other token' b : ℕ)
    → (other == id) ≡ false
    → is_report (report id token a) (report other token' b) ≡ false
other_session id token a other token' b h = ground arith

launch-has_id :
    (db : Db) (id token : ℕ) (r : SessionRow) → is_launch db id token r ≡ true → (r.id == id) ≡ true
launch-has_id db id token r h = elim (Bool-cases (r.id == id)) [
  | inl hit ↦ hit
  | inr miss ↦ absurd (cc (rw miss at h))
]

-- The two changes of a start do not disturb each other.
put_apart :
    (id : ℕ) (native : Str) (path : Option Str) (a : Activity) (rows : List SessionRow)
    → update_where
        (has_id id)
        (put_activity a)
        (update_where (has_id id) (put_start native path) rows)
      ≡ update_where
          (has_id id)
          (put_start native path)
          (update_where (has_id id) (put_activity a) rows)
unfolding update_where
put_apart id native path a [] = refl
put_apart id native path a (r ∷ rows) =
    let rest = put_apart id native path a rows in
    elim (Bool-cases (r.id == id)) [
      | inl hit ↦ rw (hit, hit, rest) refl
      | inr miss ↦ rw (miss, miss, rest) refl
    ]

module _ (id token : ℕ) where
  -- The tables have the launch, with what was counted of it.
  pub record IsView (db : Db) (v : Counted) : Type 0 where
    pub row : SessionRow
    pub found : find_first (has_id id) db.sessions ≡ some row
    pub current : row.launch_token ≡ some token
    pub reached : (agent : Str) × (active_name_of db row.agent_id ≡ some agent)
    pub active : row.activity ≡ v.1
    pub listed :
        (event_id : ℕ)
        → any (is_report (report id token event_id)) db.reports ≡ is_counted event_id v.0
    pub distinct : IsDistinct db.sessions

  launch-found :
      (db : Db) (rows : List SessionRow) (r : SessionRow)
      → find_first (has_id id) rows ≡ some r
      → is_launch db id token r ≡ true
      → find_first (is_launch db id token) rows ≡ some r
  launch-found db [] r h l = absurd (cc h)
  launch-found db (row ∷ rows) r h l = elim (Bool-cases (row.id == id)) [
    | inl hit ↦ let is_row : row ≡ r = cc (rw hit at h) in rw (is_row, l) refl
    | inr miss ↦ rw miss (launch-found db rows r (rw miss at h) l)
  ]

  view-launch : (db : Db) (v : Counted) (view : IsView db v) → is_launch db id token view.row ≡ true
  view-launch db v view =
      let (agent, named) = view.reached in
      let (_, hit) =
        found-has_id (has_id id) id (λ r h. h) db.sessions view.row view.distinct view.found in
      rw (hit, view.current, named) (ground arith)

  mine-IsView :
      (native : Str) (path : Option Str) (event_id : ℕ) (event : ActivityEvent) (at : ℕ) (db : Db)
      (v : Counted)
      → IsView db v
      → IsView (apply_activity_for_launch id token event_id event at db).1 (
          take_new
            (is_counted event_id v.0)
            (record {
              session = id;
              token = token;
              event_id = event_id;
              event = event;
              native_session_id = native;
              transcript_path = path;
              at = at;
            })
            v)
  unfolding apply_activity_for_launch begin_report commit_report active_name_of
  mine-IsView native path event_id event at db v view =
      elim (Bool-cases (is_counted event_id v.0)) [
        | inl known ↦
            rw (known, known_report id token event_id event at db (view.listed event_id ∙ known))
              view
        | inr new ↦
            let launch : is_launch db id token view.row ≡ true = view-launch db v view in
            let found = launch-found db db.sessions view.row view.found launch in
            let unlisted = view.listed event_id ∙ new in
            rw (new, found, unlisted)
              (record {
                row = put_activity (folded event at view.row.activity) view.row;
                found =
                    find_first-update_where id (put_activity _) (λ r. refl) db.sessions view.row
                      view.found;
                current = view.current;
                reached = view.reached;
                active = ap (λ a. folded event at a) view.active;
                listed = λ e.
                    any-snoc (is_report (report id token e)) db.reports (report id token event_id)
                    ∙ ap (λ b. b || is_report (report id token e) (report id token event_id))
                        (view.listed e)
                    ∙ ap (λ b. is_counted e v.0 || b) (same_event id token e event_id)
                    ∙ sym (any-snoc (λ x. e == x) v.0 event_id);
                distinct =
                    update_where-IsDistinct (has_id id) (put_activity _) (λ r. refl) db.sessions
                      view.distinct;
              })
      ]

  -- The owner has no other launch.
  no_other_token :
      (token' : ℕ) (db : Db) (v : Counted)
      → IsView db v
      → (token' == token) ≡ false
      → find_first (is_launch db id token') db.sessions ≡ none
  no_other_token token' db v view other =
      elim (Option-cases (find_first (is_launch db id token') db.sessions)) [
        | inl missing ↦ missing
        | inr (r, found) ↦
            let (of_id, is_it) =
              found-has_id (is_launch db id token') id (λ row h. launch-has_id db id token' row h)
                db.sessions r view.distinct found in
            let same : view.row ≡ r = cc (sym view.found ∙ of_id) in
            let (_, has_token) = is_launch_parts db id token' r is_it in
            let equal : token' ≡ token =
              cc (sym has_token ∙ ap token_part (sym same) ∙ view.current) in
            absurd (apart token' token equal other)
      ]

  foreign-IsView :
      (owner token' event_id : ℕ) (event : ActivityEvent) (at : ℕ) (db : Db) (v : Counted)
      → IsView db v
      → (owner == id) ≡ false
      → IsView (apply_activity_for_launch owner token' event_id event at db).1 v
  unfolding apply_activity_for_launch begin_report commit_report active_name_of
  foreign-IsView owner token' event_id event at db v view other =
      elim (Option-cases (find_first (is_launch db owner token') db.sessions)) [
        | inl missing ↦ rw missing view
        | inr (r, found) ↦
            elim (Bool-cases (any (is_report (report owner token' event_id)) db.reports)) [
              | inl known ↦ rw (found, known) view
              | inr new ↦
                  rw (found, new)
                    (record {
                      row = view.row;
                      found =
                          find_first-other id owner (put_activity _) (λ r'. refl) other db.sessions
                          ∙ view.found;
                      current = view.current;
                      reached = view.reached;
                      active = view.active;
                      listed = λ e.
                          any-snoc (is_report (report id token e)) db.reports
                            (report owner token' event_id)
                          ∙ ap (λ b. any (is_report (report id token e)) db.reports || b)
                              (other_session id token e owner token' event_id other)
                          ∙ or_false _
                          ∙ view.listed e;
                      distinct =
                          update_where-IsDistinct (has_id owner) (put_activity _) (λ r'. refl)
                            db.sessions view.distinct;
                    })
            ]
      ]

  applied-IsView :
      (native : Str) (path : Option Str) (owner token' event_id : ℕ) (event : ActivityEvent)
      (at : ℕ) (db : Db) (v : Counted)
      → IsView db v
      → IsView (apply_activity_for_launch owner token' event_id event at db).1 (
          count_in id token
            (record {
              session = owner;
              token = token';
              event_id = event_id;
              event = event;
              native_session_id = native;
              transcript_path = path;
              at = at;
            })
            v)
  applied-IsView native path owner token' event_id event at db v view =
      elim (Bool-cases (owner == id)) [
        | inr foreign ↦ rw foreign (foreign-IsView owner token' event_id event at db v view foreign)
        | inl own ↦ elim (Bool-cases (token' == token)) [
          | inl latest ↦
              rw (own, latest, ==→eq owner id own, ==→eq token' token latest)
                (mine-IsView native path event_id event at db v view)
          | inr stale ↦
              rw
                (
                  own,
                  stale,
                  ==→eq owner id own,
                  no_launch id token' event_id event at db (no_other_token token' db v view stale),
                )
                view
        ]
      ]

  -- What a start records of the conversation leaves the view.
  put_start-IsView :
      (owner : ℕ) (native : Str) (path : Option Str) (db : Db) (v : Counted)
      → IsView db v
      → IsView (set_row (put_start native path) owner db) v
  unfolding active_name_of
  put_start-IsView owner native path db v view = elim (Bool-cases (owner == id)) [
    | inr other ↦ record {
      row = view.row;
      found =
          find_first-other id owner (put_start native path) (λ r. refl) other db.sessions
          ∙ view.found;
      current = view.current;
      reached = view.reached;
      active = view.active;
      listed = view.listed;
      distinct =
          update_where-IsDistinct (has_id owner) (put_start native path) (λ r. refl) db.sessions
            view.distinct;
    }
    | inl own ↦ record {
      row = put_start native path view.row;
      found = rw (==→eq owner id own) (
          find_first-update_where id (put_start native path) (λ r. refl) db.sessions view.row
            view.found);
      current = view.current;
      reached = view.reached;
      active = view.active;
      listed = view.listed;
      distinct =
          update_where-IsDistinct (has_id owner) (put_start native path) (λ r. refl) db.sessions
            view.distinct;
    }
  ]

  started-IsView :
      (begun : Result Error (Option (Activity × Db))) (owner : ℕ) (native : Str) (path : Option Str)
      (at : ℕ) (db : Db) (v : Counted)
      → IsView (applied begun owner session_start at db).1 v
      → IsView (started begun owner native path at db).1 v
  unfolding commit_report
  started-IsView (err not_found) owner native path at db v view = view
  started-IsView (err e) owner native path at db v view = view
  started-IsView (ok none) owner native path at db v view = view
  started-IsView (ok (some (a, db'))) owner native path at db v view =
      rw (put_apart owner native path (folded session_start at a) db'.sessions)
        (put_start-IsView owner native path _ v view)

  start-IsView :
      (owner token' event_id : ℕ) (native : Str) (path : Option Str) (at : ℕ) (db : Db)
      (v : Counted)
      → IsView (apply_activity_for_launch owner token' event_id session_start at db).1 v
      → IsView (record_start_for_launch owner token' event_id native path at db).1 v
  unfolding apply_activity_for_launch record_start_for_launch
  start-IsView owner token' event_id native path at db v view =
      started-IsView (begin_report owner token' event_id db) owner native path at db v view

  abbrev report_of : Str → Option Str → ℕ → ℕ → ℕ → ActivityEvent → ℕ → Delivery
  report_of native path owner token' event_id event at = record {
    session = owner;
    token = token';
    event_id = event_id;
    event = event;
    native_session_id = native;
    transcript_path = path;
    at = at;
  }

  reported-IsView :
      (native : Str) (path : Option Str) (owner token' event_id : ℕ) (event : ActivityEvent)
      (at : ℕ) (db : Db) (v : Counted)
      → IsView db v
      → IsView
          (deliver (report_of native path owner token' event_id event at) db)
          (take id token (report_of native path owner token' event_id event at) v)
  unfolding deliver take accept_report
  reported-IsView native path owner token' event_id turn_started at db v view =
      applied-IsView native path owner token' event_id turn_started at db v view
  reported-IsView native path owner token' event_id turn_completed at db v view =
      applied-IsView native path owner token' event_id turn_completed at db v view
  reported-IsView native path owner token' event_id waiting_reported at db v view =
      applied-IsView native path owner token' event_id waiting_reported at db v view
  reported-IsView native path owner token' event_id session_start at db v view =
      elim (Bool-cases
        (is_start_well_formed (report_of native path owner token' event_id session_start at))) [
          | inr refused ↦ rw refused view
          | inl formed ↦ rw formed (
              start-IsView owner token' event_id native (given path) at db _
                (applied-IsView native path owner token' event_id session_start at db v view))
        ]

  deliver-IsView :
      (m : Delivery) (db : Db) (v : Counted)
      → IsView db v
      → IsView (deliver m db) (take id token m v)
  deliver-IsView m =
      reported-IsView m.native_session_id m.transcript_path m.session m.token m.event_id m.event
        m.at

  pub all-IsView :
      (ms : List Delivery) (db : Db) (v : Counted)
      → IsView db v
      → IsView (deliver_all ms db) (take_all id token ms v)
  unfolding deliver_all take_all
  all-IsView [] db v view = view
  all-IsView (m ∷ ms) db v view =
      all-IsView ms (deliver m db) (take id token m v) (deliver-IsView m db v view)
