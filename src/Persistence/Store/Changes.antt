-- ===== src/Persistence/Store/Changes.antt =====
-- What a call of the store does to the tables: agentctl/src/persistence/sessions.rs and
-- agentctl/src/persistence/agents.rs.
use digdir_agents.Base.{
  if◌then◌else◌, Str, Result, err, ok, ◌>>=◌, ℕ, ◌≡◌, refl, Bool, true, false, Option, none, some,
  List, [], ◌∷◌, ◌++◌,
}
use digdir_agents.Agents.Model.{find_first}
use digdir_agents.Agents.Errors.{Error}
use digdir_agents.Sessions.Activity.{Activity}
use digdir_agents.Sessions.Model.{Launch}
use digdir_agents.Persistence.Tables.{update_where, delete_where}
use digdir_agents.Persistence.Rows.{AgentRow, LifecycleRow, SessionRow, Db, committed}
use digdir_agents.Persistence.Sessions.{
  has_id, raised, marked, archive_row, is_released, reported_by, put_lifecycle, cleared, rested,
}
use digdir_agents.Persistence.Launches.{is_launch, put_activity, put_start, launched}

-- Who a call is for: the reconciler and the operators write a session's lifecycle and what is asked of
-- it, a harness its reports, some calls change the agents, and some create, launch or remove a session.
pub data Owner : Type 0 where
  lifecycle_owner report_owner agents_owner : Owner
  session_owner : (id : ℕ) → Owner

-- A change of one part of a row, which keeps the row's identity, its launch and its prompt.
pub data Edit : Owner → Type 0 where
  raised_edit : Edit lifecycle_owner
  marked_edit : (now : ℕ) → Edit lifecycle_owner
  archive_edit : (at : Option ℕ) → Edit lifecycle_owner
  lifecycle_edit : (l : LifecycleRow) → Edit lifecycle_owner
  rested_edit : Edit lifecycle_owner
  cleared_edit : Edit report_owner
  activity_edit : (a : Activity) → Edit report_owner
  start_edit : (native : Str) (path : Option Str) → Edit report_owner

abbrev pub edit : {o : Owner} → Edit o → SessionRow → SessionRow
edit raised_edit r = raised r
edit (marked_edit now) r = marked now r
edit (archive_edit at) r = archive_row at r
edit (lifecycle_edit l) r = put_lifecycle l r
edit rested_edit r = rested r
edit cleared_edit r = cleared r
edit (activity_edit a) r = put_activity a r
edit (start_edit native path) r = put_start native path r

pub data Change : Owner → Db → Db → Type 0 where
  unchanged : {o : Owner} (db : Db) → Change o db db
  agents_changed :
      (db : Db) (rows : List AgentRow) → Change agents_owner db (record db { agents = rows })
  inserted :
      (db : Db) (r : SessionRow)
      → find_first (has_id r.id) db.sessions ≡ none
      → r.launch_token ≡ none
      → Change (session_owner r.id) db (record db { sessions = db.sessions ++ r ∷ [] })
  edited :
      {o : Owner} (db : Db) (p : SessionRow → Bool) (e : Edit o)
      → Change o db (record db { sessions = update_where p (edit e) db.sessions })
  launch_recorded :
      (db : Db) (id : ℕ) (launch : Launch)
      → Change (session_owner id) db (record db {
        sessions = update_where (has_id id) (launched launch) db.sessions;
        reports = delete_where (reported_by id) db.reports;
      })
  removed :
      (db : Db) (id : ℕ)
      → Change (session_owner id) db (record db {
        sessions = delete_where (is_released id) db.sessions;
        reports = delete_where (reported_by id) db.reports;
      })
  report_added :
      (db : Db) (r : SessionRow) (id token event : ℕ)
      → find_first (is_launch db id token) db.sessions ≡ some r
      → Change report_owner db (record db {
        reports =
            db.reports ++ record { session_id = id; launch_token = token; event_id = event } ∷ [];
      })
  then_changed : {o : Owner} {a b c : Db} → Change o a b → Change o b c → Change o a c

-- Whatever a fallible step ends with, what it would commit is such a change.
pub data Leaves {A : Type 0} (o : Owner) (db : Db) : Result Error (A × Db) → Type 0 where
  fails_with : (e : Error) → Leaves o db (err e)
  ends_in : (a : A) {db' : Db} → Change o db db' → Leaves o db (ok (a, db'))

pub committed-Change :
    {A : Type 0} {o : Owner} (db : Db) (r : Result Error (A × Db))
    → Leaves o db r
    → Change o db (committed r db).1
unfolding committed
committed-Change db r (fails_with e) = unchanged db
committed-Change db r (ends_in a h) = h

module _ (o : Owner) (db : Db) where
  pub bind-Leaves :
      {A B : Type 0} (m : Result Error A) (f : A → Result Error (B × Db))
      → ((a : A) → m ≡ ok a → Leaves o db (f a))
      → Leaves o db (m >>= f)
  bind-Leaves (err e) f h = fails_with e
  bind-Leaves (ok a) f h = h a refl

  pub if-Leaves :
      {A : Type 0} (b : Bool) (x y : Result Error (A × Db))
      → (b ≡ true → Leaves o db x)
      → (b ≡ false → Leaves o db y)
      → Leaves o db (if b then x else y)
  if-Leaves true x y h k = h refl
  if-Leaves false x y h k = k refl

  -- A call that reads the tables again behind its change.
  pub read-Leaves :
      {A : Type 0} (db' : Db) (m : Result Error A)
      → Change o db db'
      → Leaves o db (m >>= λ a. ok (a, db'))
  read-Leaves db' (err e) h = fails_with e
  read-Leaves db' (ok a) h = ends_in a h
