-- ===== src/Persistence/Store/Duplicates.antt =====
-- Reports that come twice or too late: agentctl/src/persistence/sessions.rs.
use digdir_agents.Base.{
  ◌==◌, Bool-cases, Option-cases, any, Str, ok, ℕ, ◌≡◌, refl, ap, ◌∙◌, inl, inr, true, false,
  Option, none, some, List, [], ◌∷◌, ◌++◌, arith,
}
use digdir_agents.Agents.Model.{find_first}
use digdir_agents.Sessions.Activity.{ActivityEvent, Activity}
use digdir_agents.Sessions.Model.{Launch}
use digdir_agents.Persistence.Tables.{update_where}
use digdir_agents.Persistence.Rows.{SessionRow, ReportRow, Db, committed}
use digdir_agents.Persistence.Sessions.{has_id}
use digdir_agents.Persistence.Launches.{
  is_launch, is_report, begin_report, commit_report, apply_activity_for_launch, launched,
  is_other_launch, record_session_launch,
}

abbrev pub report : ℕ → ℕ → ℕ → ReportRow
report id token event = record { session_id = id; launch_token = token; event_id = event }

any-last : (r : ReportRow) (rows : List ReportRow) → any (is_report r) (rows ++ r ∷ []) ≡ true
any-last r [] = ground arith
any-last r (row ∷ rows) = elim (Bool-cases (is_report r row)) [
  | inl hit ↦ rw hit refl
  | inr miss ↦ rw (miss, any-last r rows) refl
]

-- A report that is in the table changes nothing.
pub known_report :
    (id token event_id : ℕ) (event : ActivityEvent) (at : ℕ) (db : Db)
    → any (is_report (report id token event_id)) db.reports ≡ true
    → apply_activity_for_launch id token event_id event at db ≡ (ok none, db)
unfolding apply_activity_for_launch begin_report
known_report id token event_id event at db h =
    elim (Option-cases (find_first (is_launch db id token) db.sessions)) [
      | inl missing ↦ rw missing refl
      | inr (r, found) ↦ rw (found, h) refl
    ]

-- A report that was taken is in the table.
taken_report :
    (id token event_id : ℕ) (event : ActivityEvent) (at : ℕ) (db : Db) (a : Activity)
    → (apply_activity_for_launch id token event_id event at db).0 ≡ ok (some a)
    → any
        (is_report (report id token event_id))
        (apply_activity_for_launch id token event_id event at db).1.reports
      ≡ true
unfolding apply_activity_for_launch begin_report commit_report
taken_report id token event_id event at db a h =
    elim (Option-cases (find_first (is_launch db id token) db.sessions)) [
      | inl missing ↦ absurd (cc (rw missing at h))
      | inr (r, found) ↦ elim (Bool-cases (any (is_report (report id token event_id)) db.reports)) [
        | inl known ↦ absurd (cc (rw (found, known) at h))
        | inr new ↦ rw (found, new) (any-last (report id token event_id) db.reports)
      ]
    ]

-- A report is counted once: where one of an event was taken, another of that event, whatever it says,
-- returns nothing and changes nothing.
pub report_once :
    (id token event_id : ℕ) (event event' : ActivityEvent) (at at' : ℕ) (db : Db) (a : Activity)
    → (apply_activity_for_launch id token event_id event at db).0 ≡ ok (some a)
    → apply_activity_for_launch id token event_id event' at'
        (apply_activity_for_launch id token event_id event at db).1
      ≡ (ok none, (apply_activity_for_launch id token event_id event at db).1)
report_once id token event_id event event' at at' db a h =
    known_report id token event_id event' at'
      (apply_activity_for_launch id token event_id event at db).1
      (taken_report id token event_id event at db a h)

-- Once a session is launched, no row is of another launch of it.
no_other_launch :
    (d : Db) (id token : ℕ) (launch : Launch) (rows : List SessionRow)
    → (token == launch.token) ≡ false
    → find_first (is_launch d id token) (update_where (has_id id) (launched launch) rows) ≡ none
unfolding update_where
no_other_launch d id token launch [] other = refl
no_other_launch d id token launch (r ∷ rows) other =
    let rest = no_other_launch d id token launch rows other in
    elim (Bool-cases (r.id == id)) [
      | inl hit ↦
          let apart : (launch.token == token) ≡ false = ground (arith, other) in
          rw (hit, hit, apart) rest
      | inr miss ↦ rw (miss, miss) rest
    ]

pub no_launch :
    (id token event_id : ℕ) (event : ActivityEvent) (at : ℕ) (db : Db)
    → find_first (is_launch db id token) db.sessions ≡ none
    → apply_activity_for_launch id token event_id event at db ≡ (ok none, db)
unfolding apply_activity_for_launch begin_report
no_launch id token event_id event at db h = rw h refl

pub relaunched :
    (id : ℕ) (launch : Launch) (db : Db) (p : Option Str)
    → (record_session_launch id launch db).0 ≡ ok p
    → (record_session_launch id launch db).1.sessions
      ≡ update_where (has_id id) (launched launch) db.sessions
unfolding record_session_launch committed
relaunched id launch db p h = elim (Option-cases (find_first (has_id id) db.sessions)) [
  | inl missing ↦ absurd (cc (rw missing at h))
  | inr (r, found) ↦ elim (Bool-cases (any (is_other_launch id launch.token) db.sessions)) [
    | inl taken ↦ absurd (cc (rw (found, taken) at h))
    | inr free ↦ rw (found, free) refl
  ]
]

-- A report of an earlier launch comes too late: once a new launch is recorded, one with another token
-- returns nothing and changes nothing.
pub report_stale :
    (id token event_id : ℕ) (event : ActivityEvent) (at : ℕ) (launch : Launch) (db : Db)
    (p : Option Str)
    → (record_session_launch id launch db).0 ≡ ok p
    → (token == launch.token) ≡ false
    → apply_activity_for_launch id token event_id event at (record_session_launch id launch db).1
      ≡ (ok none, (record_session_launch id launch db).1)
report_stale id token event_id event at launch db p h other =
    let d = (record_session_launch id launch db).1 in
    no_launch id token event_id event at d (
      ap (find_first (is_launch d id token)) (relaunched id launch db p h)
      ∙ no_other_launch d id token launch db.sessions other)
