-- ===== src/Persistence/Store/Recorded.antt =====
-- What is read after a lifecycle is recorded: agentctl/src/persistence/sessions.rs.
use digdir_agents.Base.{
  ◌==◌, Bool-cases, Option-cases, Str, ok, ℕ, ◌≡◌, refl, ap, ◌∙◌, inl, inr, true, none, some, List,
  [], ◌∷◌, arith,
}
use digdir_agents.Agents.Model.{find_first}
use digdir_agents.Sessions.Status.{Lifecycle, observed}
use digdir_agents.Sessions.Model.{Session}
use digdir_agents.Persistence.Tables.{count, update_where}
use digdir_agents.Persistence.Rows.{SessionRow, Db, decode_session}
use digdir_agents.Persistence.Sessions.{
  has_id, active_name_of, joined, get_session, lifecycle_row, put_lifecycle,
  update_session_lifecycle,
}
use digdir_agents.Persistence.Store.Lookups.{IsDistinct}

module _ (id : ℕ) where
  pub find_first-update_where :
      (f : SessionRow → SessionRow)
      → ((r : SessionRow) → (f r).id ≡ r.id)
      → (rows : List SessionRow) (r : SessionRow) → find_first (has_id id) rows ≡ some r
      → find_first (has_id id) (update_where (has_id id) f rows) ≡ some (f r)
  unfolding update_where
  find_first-update_where f keeps_id [] r h = absurd (cc h)
  find_first-update_where f keeps_id (row ∷ rows) r h = elim (Bool-cases (row.id == id)) [
    | inl hit ↦
        let is_row : row ≡ r = cc (rw hit at h) in
        let hit' : ((f row).id == id) ≡ true = ap (λ i. i == id) (keeps_id row) ∙ hit in
        rw (hit, hit') (ap (λ x. some (f x)) is_row)
    | inr miss ↦ rw (miss, miss) (find_first-update_where f keeps_id rows r (rw miss at h))
  ]

  count-missing :
      (rows : List SessionRow) → find_first (has_id id) rows ≡ none → count (has_id id) rows ≡ 0
  count-missing [] h = refl
  count-missing (row ∷ rows) h = elim (Bool-cases (row.id == id)) [
    | inl hit ↦ absurd (cc (rw hit at h))
    | inr miss ↦ rw miss (omega (arith, count-missing rows (rw miss at h)))
  ]

  count-found :
      (rows : List SessionRow) (r : SessionRow)
      → IsDistinct rows
      → find_first (has_id id) rows ≡ some r
      → count (has_id id) rows ≡ 1
  count-found [] r d h = absurd (cc h)
  count-found (row ∷ rows) r (alone, rest) h = elim (Bool-cases (row.id == id)) [
    | inl hit ↦
        let same : row.id ≡ id = ground arith in
        rw hit (omega (arith, count-missing rows (rw same at alone)))
    | inr miss ↦ rw miss (omega (arith, count-found rows r rest (rw miss at h)))
  ]

  -- The row and the agent's name that a session is read from.
  pub session_row :
      (db : Db) (s : Session)
      → get_session db id ≡ ok s
      → (r : SessionRow) × (agent : Str) × (find_first (has_id id) db.sessions ≡ some r)
        × (active_name_of db r.agent_id ≡ some agent)
  unfolding get_session
  session_row db s h = elim (Option-cases (find_first (has_id id) db.sessions)) [
    | inl missing ↦ absurd (cc (rw missing at h))
    | inr (r, found) ↦ elim (Option-cases (active_name_of db r.agent_id)) [
      | inl nameless ↦ absurd (cc (rw (found, joined, nameless) at h))
      | inr (agent, named) ↦ (r, agent, found, named)
    ]
  ]

  -- The session is read with this lifecycle, as seen at this activation.
  pub record IsRecorded (lifecycle : Lifecycle) (generation : ℕ) (db : Db) : Type 0 where
    pub session : Session
    pub found : get_session db id ≡ ok session
    pub stored : session.status.lifecycle ≡ lifecycle
    pub noticed : session.observed_activation_generation ≡ generation

  pub update-IsRecorded :
      (lifecycle : Lifecycle) (generation now : ℕ) (db : Db) (s : Session)
      → get_session db id ≡ ok s
      → IsDistinct db.sessions
      → ((update_session_lifecycle id lifecycle generation now db).0 ≡ ok tt)
        × IsRecorded lifecycle generation
            (update_session_lifecycle id lifecycle generation now db).1
  unfolding update_session_lifecycle get_session decode_session observed active_name_of session_row
  update-IsRecorded lifecycle generation now db s h d =
      let (r, agent, found, named) = session_row db s h in
      let recorded = put_lifecycle (lifecycle_row r.lifecycle lifecycle generation now) in
      let one = count-found db.sessions r d found in
      let found' = find_first-update_where recorded (λ r'. refl) db.sessions r found in
      rw (found, one)
        (
          refl,
          record {
            session = decode_session agent (recorded r);
            found = rw (found', joined, named) refl;
            stored = refl;
            noticed = refl;
          },
        )
