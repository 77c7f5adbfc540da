-- ===== src/Persistence/Store/Steps.antt =====
-- What holds after any calls of the store: agentctl/src/persistence/mod.rs.
use digdir_agents.Base.{
  ◌==◌, Bool-cases, Option-cases, All, any, Str, ok, ℕ, ◌≡◌, sym, ap, ◌∙◌, inl, inr, none, some,
  List, [], ◌∷◌,
}
use digdir_agents.Agents.Model.{find_first}
use digdir_agents.Sessions.Model.{Launch}
use digdir_agents.Persistence.Rows.{SessionRow, Db, committed}
use digdir_agents.Persistence.Sessions.{has_id}
use digdir_agents.Persistence.Launches.{is_other_launch, record_session_launch}
use digdir_agents.Persistence.Store.{StoreCall, perform}
use digdir_agents.Persistence.Store.Lookups.{part_of}
use digdir_agents.Persistence.Store.Performed.{perform-Change}
use digdir_agents.Persistence.Store.Invariant.{
  token_part, IsConsumed, IsConsistent, Change-IsConsistent,
}

abbrev pub empty_tables : Db
empty_tables = record { agents = []; sessions = []; reports = [] }

unfoldable pub perform_all : List StoreCall → Db → Db
perform_all [] db = db
perform_all (c ∷ cs) db = perform_all cs (perform c db)

all-IsConsistent :
    (cs : List StoreCall) (db : Db) → IsConsistent db → IsConsistent (perform_all cs db)
unfolding perform_all
all-IsConsistent [] db h = h
all-IsConsistent (c ∷ cs) db h =
    all-IsConsistent cs (perform c db) (Change-IsConsistent (perform-Change c db) h)

-- After any calls on a new database, no two sessions have one id, a session that has been launched has
-- no first prompt left, and each recorded report is of a session that is there and of its current
-- launch.
pub perform_all-IsConsistent : (cs : List StoreCall) → IsConsistent (perform_all cs empty_tables)
perform_all-IsConsistent cs =
    all-IsConsistent cs empty_tables (record { distinct = tt; consumed = tt; current = tt })

IsConsumed-find_first :
    (id : ℕ) (rows : List SessionRow) (r : SessionRow)
    → All IsConsumed rows
    → find_first (has_id id) rows ≡ some r
    → IsConsumed r
IsConsumed-find_first id [] r c h = absurd (cc h)
IsConsumed-find_first id (row ∷ rows) r (now, later) h = elim (Bool-cases (row.id == id)) [
  | inl hit ↦ let is_row : row ≡ r = cc (rw hit at h) in rw (← is_row) now
  | inr miss ↦ IsConsumed-find_first id rows r later (rw miss at h)
]

-- What a launch hands out was the prompt of the session's row.
launch_prompt :
    (id : ℕ) (launch : Launch) (db : Db) (p : Str)
    → (record_session_launch id launch db).0 ≡ ok (some p)
    → (r : SessionRow) × (find_first (has_id id) db.sessions ≡ some r) × (r.initial_prompt ≡ some p)
unfolding record_session_launch committed
launch_prompt id launch db p h = elim (Option-cases (find_first (has_id id) db.sessions)) [
  | inl missing ↦ absurd (cc (rw missing at h))
  | inr (r, found) ↦ elim (Bool-cases (any (is_other_launch id launch.token) db.sessions)) [
    | inl taken ↦ absurd (cc (rw (found, taken) at h))
    | inr free ↦ (r, found, cc (rw (found, free) at h))
  ]
]

-- A first prompt is handed out at most once: after any calls on a new database, a launch that is given
-- one is the session's first.
pub prompt_once :
    (cs : List StoreCall) (id : ℕ) (launch : Launch) (p : Str)
    → (record_session_launch id launch (perform_all cs empty_tables)).0 ≡ ok (some p)
    → part_of token_part id (perform_all cs empty_tables).sessions ≡ some none
prompt_once cs id launch p h =
    let db = perform_all cs empty_tables in
    let (r, found, prompt) = launch_prompt id launch db p h in
    elim (IsConsumed-find_first id db.sessions r (perform_all-IsConsistent cs).consumed found) [
      | inl unlaunched ↦ rw found (ap some unlaunched)
      | inr consumed ↦ absurd (cc (sym prompt ∙ consumed))
    ]
