-- ===== src/Persistence/Store/Invariant.antt =====
-- What holds of the sessions' and the reports' tables: agentctl/src/persistence/sessions.rs.
use digdir_agents.Base.{
  ◌==◌, ==→eq, Bool-cases, All, All-append, and3_parts, ℕ, ◌≡◌, refl, sym, ap, ◌∙◌, ◌⊎◌, inl, inr,
  Bool, true, false, Option, none, some, List, [], ◌∷◌, ◌++◌, arith,
}
use digdir_agents.Agents.Model.{find_first, is_some}
use digdir_agents.Persistence.Tables.{update_where, delete_where}
use digdir_agents.Persistence.Rows.{SessionRow, ReportRow, Db}
use digdir_agents.Persistence.Sessions.{has_id, active_name_of, is_released, reported_by}
use digdir_agents.Persistence.Launches.{is_token, is_launch, launched}
use digdir_agents.Persistence.Store.Lookups.{
  part_of, part-update_where, part-set_other, part-delete_other, part-append, IsDistinct,
  update_where-IsDistinct, delete_where-IsDistinct,
}
use digdir_agents.Persistence.Store.Changes.{
  Owner, Edit, raised_edit, marked_edit, archive_edit, lifecycle_edit, rested_edit, cleared_edit,
  activity_edit, start_edit, edit, Change, unchanged, agents_changed, inserted, edited,
  launch_recorded, removed, report_added, then_changed,
}
use digdir_agents.Persistence.Store.Owners.{edit-id}

-- The launch of a session.
abbrev pub token_part : SessionRow → Option ℕ
token_part r = r.launch_token

-- A launch has taken the session's first prompt.
abbrev pub IsConsumed : SessionRow → Type 0
IsConsumed r = (r.launch_token ≡ none) ⊎ (r.initial_prompt ≡ none)

-- A report is of the session's current launch.
abbrev pub IsCurrent : List SessionRow → ReportRow → Type 0
IsCurrent rows report = part_of token_part report.session_id rows ≡ some (some report.launch_token)

pub record IsConsistent (db : Db) : Type 0 where
  pub distinct : IsDistinct db.sessions
  pub consumed : All IsConsumed db.sessions
  pub current : All (IsCurrent db.sessions) db.reports

All-map {ℓ} :
    {A : Type ℓ} {P Q : A → Type 0} (xs : List A) → ((x : A) → P x → Q x) → All P xs → All Q xs
All-map [] f h = tt
All-map (x ∷ xs) f (now, later) = (f x now, All-map xs f later)

All-update_where :
    (p : SessionRow → Bool) (f : SessionRow → SessionRow)
    → ((r : SessionRow) → IsConsumed r → IsConsumed (f r))
    → (rows : List SessionRow) → All IsConsumed rows
    → All IsConsumed (update_where p f rows)
unfolding update_where
All-update_where p f keeps [] h = tt
All-update_where p f keeps (r ∷ rows) (now, later) =
    let rest = All-update_where p f keeps rows later in
    elim (Bool-cases (p r)) [
      | inl hit ↦ rw hit (keeps r now, rest)
      | inr miss ↦ rw miss (now, rest)
    ]

All-delete_where :
    {A : Type 0} (P : A → Type 0) (p : A → Bool) (rows : List A)
    → All P rows
    → All P (delete_where p rows)
unfolding delete_where
All-delete_where P p [] h = tt
All-delete_where P p (r ∷ rows) (now, later) = elim (Bool-cases (p r)) [
  | inl hit ↦ rw hit (All-delete_where P p rows later)
  | inr miss ↦ rw miss (now, All-delete_where P p rows later)
]

edit-IsConsumed : {o : Owner} (e : Edit o) (r : SessionRow) → IsConsumed r → IsConsumed (edit e r)
edit-IsConsumed raised_edit r h = h
edit-IsConsumed (marked_edit now) r h = h
edit-IsConsumed (archive_edit at) r h = h
edit-IsConsumed (lifecycle_edit l) r h = h
edit-IsConsumed rested_edit r h = h
edit-IsConsumed cleared_edit r h = h
edit-IsConsumed (activity_edit a) r h = h
edit-IsConsumed (start_edit native path) r h = h

edit-token_part : {o : Owner} (e : Edit o) (r : SessionRow) → token_part (edit e r) ≡ token_part r
edit-token_part raised_edit r = refl
edit-token_part (marked_edit now) r = refl
edit-token_part (archive_edit at) r = refl
edit-token_part (lifecycle_edit l) r = refl
edit-token_part rested_edit r = refl
edit-token_part cleared_edit r = refl
edit-token_part (activity_edit a) r = refl
edit-token_part (start_edit native path) r = refl

edit-IsConsistent :
    {o : Owner} (db : Db) (p : SessionRow → Bool) (e : Edit o)
    → IsConsistent db
    → IsConsistent (record db { sessions = update_where p (edit e) db.sessions })
edit-IsConsistent db p e c = record {
  distinct = update_where-IsDistinct p (edit e) (edit-id e) db.sessions c.distinct;
  consumed = All-update_where p (edit e) (edit-IsConsumed e) db.sessions c.consumed;
  current =
      All-map db.reports
        (λ report now.
          part-update_where token_part report.session_id p (edit e) (edit-id e) (edit-token_part e)
            db.sessions
          ∙ now)
        c.current;
}

-- Without a session's reports, the others are of other sessions.
IsCurrent-delete :
    (id : ℕ) (rows rows' : List SessionRow)
    → ((j : ℕ) → (j == id) ≡ false → part_of token_part j rows' ≡ part_of token_part j rows)
    → (reports : List ReportRow) → All (IsCurrent rows) reports
    → All (IsCurrent rows') (delete_where (reported_by id) reports)
unfolding delete_where
IsCurrent-delete id rows rows' others [] h = tt
IsCurrent-delete id rows rows' others (r ∷ reports) (now, later) =
    let rest = IsCurrent-delete id rows rows' others reports later in
    elim (Bool-cases (r.session_id == id)) [
      | inl hit ↦ rw hit rest
      | inr miss ↦ rw miss (others r.session_id miss ∙ now, rest)
    ]

missing-append :
    (j : ℕ) (rows : List SessionRow) (new : SessionRow)
    → find_first (has_id j) rows ≡ none
    → (new.id == j) ≡ false
    → find_first (has_id j) (rows ++ new ∷ []) ≡ none
missing-append j [] new h other = rw other refl
missing-append j (r ∷ rows) new h other = elim (Bool-cases (r.id == j)) [
  | inl hit ↦ absurd (cc (rw hit at h))
  | inr miss ↦ rw miss (missing-append j rows new (rw miss at h) other)
]

append-IsDistinct :
    (rows : List SessionRow) (new : SessionRow)
    → find_first (has_id new.id) rows ≡ none
    → IsDistinct rows
    → IsDistinct (rows ++ new ∷ [])
append-IsDistinct [] new free h = (refl, tt)
append-IsDistinct (r ∷ rows) new free (alone, rest) = elim (Bool-cases (r.id == new.id)) [
  | inl hit ↦ absurd (cc (rw hit at free))
  | inr miss ↦
      let apart : (new.id == r.id) ≡ false = ground arith in
      (missing-append r.id rows new alone apart, append-IsDistinct rows new (rw miss at free) rest)
]

-- Among distinct rows, a row is the one that its id leads to.
pub found-has_id :
    (p : SessionRow → Bool) (id : ℕ)
    → ((r : SessionRow) → p r ≡ true → (r.id == id) ≡ true)
    → (rows : List SessionRow) (r : SessionRow) → IsDistinct rows
    → find_first p rows ≡ some r
    → (find_first (has_id id) rows ≡ some r) × (p r ≡ true)
found-has_id p id of_id [] r d h = absurd (cc h)
found-has_id p id of_id (row ∷ rows) r (alone, rest) h = elim (Bool-cases (p row)) [
  | inl hit ↦
      let is_row : row ≡ r = cc (rw hit at h) in
      (rw (of_id row hit) (ap some is_row), ap p (sym is_row) ∙ hit)
  | inr miss ↦
      let (later, holds_of) = found-has_id p id of_id rows r rest (rw miss at h) in
      elim (Bool-cases (row.id == id)) [
        | inl same ↦ absurd (
            cc (
              sym later
              ∙ ap (λ i. find_first (has_id i) rows) (sym (==→eq row.id id same))
              ∙ alone))
        | inr other ↦ (rw other later, holds_of)
      ]
]

pub is_launch_parts :
    (db : Db) (id token : ℕ) (r : SessionRow)
    → is_launch db id token r ≡ true
    → ((r.id == id) ≡ true) × (r.launch_token ≡ some token)
is_launch_parts db id token r h =
    let (of_id, of_token, _) =
      and3_parts (r.id == id) (is_token token r.launch_token)
        (is_some (active_name_of db r.agent_id)) h in
    (of_id, bears r.launch_token of_token)
  where
    bears : (o : Option ℕ) → is_token token o ≡ true → o ≡ some token
    bears none e = cc
    bears (some t) e = ap some (==→eq t token e)

report-current :
    (db : Db) (r : SessionRow) (id token : ℕ)
    → IsConsistent db
    → find_first (is_launch db id token) db.sessions ≡ some r
    → part_of token_part id db.sessions ≡ some (some token)
report-current db r id token c h =
    let (found, is_row) =
      found-has_id (is_launch db id token) id (λ row e. (is_launch_parts db id token row e).0)
        db.sessions r c.distinct h in
    rw found (ap some (is_launch_parts db id token r is_row).1)

released-other :
    (id j : ℕ) (r : SessionRow) → (j == id) ≡ false → is_released id r ≡ true → (r.id == j) ≡ false
released-other id j r other h = ground (arith, other, h)

-- Every change keeps the tables consistent.
pub Change-IsConsistent : {o : Owner} {a b : Db} → Change o a b → IsConsistent a → IsConsistent b
Change-IsConsistent (unchanged db) c = c
Change-IsConsistent (agents_changed db rows) c = record {
  distinct = c.distinct;
  consumed = c.consumed;
  current = c.current;
}
Change-IsConsistent (inserted db r free new) c = record {
  distinct = append-IsDistinct db.sessions r free c.distinct;
  consumed = All-append IsConsumed db.sessions (r ∷ []) c.consumed (inl new, tt);
  current =
      All-map db.reports (λ report now. part-append token_part report.session_id db.sessions r now)
        c.current;
}
Change-IsConsistent (edited db p e) c = edit-IsConsistent db p e c
Change-IsConsistent (launch_recorded db id launch) c = record {
  distinct =
      update_where-IsDistinct (has_id id) (launched launch) (λ r. refl) db.sessions c.distinct;
  consumed =
      All-update_where (has_id id) (launched launch) (λ r h. inr refl) db.sessions c.consumed;
  current =
      IsCurrent-delete id db.sessions (update_where (has_id id) (launched launch) db.sessions)
        (λ j other. part-set_other token_part j id (launched launch) (λ r. refl) other db.sessions)
        db.reports c.current;
}
Change-IsConsistent (removed db id) c = record {
  distinct = delete_where-IsDistinct (is_released id) db.sessions c.distinct;
  consumed = All-delete_where IsConsumed (is_released id) db.sessions c.consumed;
  current =
      IsCurrent-delete id db.sessions (delete_where (is_released id) db.sessions)
        (λ j other.
          part-delete_other token_part j (is_released id) (λ r h. released-other id j r other h)
            db.sessions)
        db.reports c.current;
}
Change-IsConsistent (report_added db r id token event found) c = record {
  distinct = c.distinct;
  consumed = c.consumed;
  current =
      All-append (IsCurrent db.sessions) db.reports _ c.current
        (report-current db r id token c found, tt);
}
Change-IsConsistent (then_changed h k) c = Change-IsConsistent k (Change-IsConsistent h c)
