-- ===== src/Persistence/Store/Lookups.antt =====
-- What a row is after an update, an insertion or a removal: agentctl/src/persistence/sessions.rs.
use digdir_agents.Base.{
  ◌==◌, Bool-cases, any, ℕ, ◌≡◌, refl, ap, ◌∙◌, ◌≢◌, inl, inr, Bool, true, false, ◌||◌, Option,
  none, some, List, [], ◌∷◌, ◌++◌, arith,
}
use digdir_agents.Agents.Model.{find_first}
use digdir_agents.Persistence.Tables.{update_where, delete_where}
use digdir_agents.Persistence.Rows.{SessionRow}
use digdir_agents.Persistence.Sessions.{has_id}

abbrev pub map_found : {A B : Type 0} → (A → B) → Option A → Option B
map_found f none = none
map_found f (some a) = some (f a)

-- A part of a session's row.
abbrev pub part_of : {B : Type 0} → (SessionRow → B) → ℕ → List SessionRow → Option B
part_of part id rows = map_found part (find_first (has_id id) rows)

module _ {B : Type 0} (part : SessionRow → B) (j : ℕ) where
  pub part-update_where :
      (p : SessionRow → Bool) (f : SessionRow → SessionRow)
      → ((r : SessionRow) → (f r).id ≡ r.id)
      → ((r : SessionRow) → part (f r) ≡ part r)
      → (rows : List SessionRow) → part_of part j (update_where p f rows) ≡ part_of part j rows
  unfolding update_where
  part-update_where p f keeps_id keeps [] = refl
  part-update_where p f keeps_id keeps (r ∷ rows) =
      let rest = part-update_where p f keeps_id keeps rows in
      elim (Bool-cases (p r)) [
        | inl hit ↦ elim (Bool-cases (r.id == j)) [
          | inl found ↦
              let found' : ((f r).id == j) ≡ true = ap (λ i. i == j) (keeps_id r) ∙ found in
              rw (hit, found', found) (ap some (keeps r))
          | inr later ↦
              let later' : ((f r).id == j) ≡ false = ap (λ i. i == j) (keeps_id r) ∙ later in
              rw (hit, later', later) rest
        ]
        | inr miss ↦ rw miss (ground (arith, rest))
      ]

  -- A change of another row leaves the row.
  pub part-set_other :
      (id : ℕ) (f : SessionRow → SessionRow)
      → ((r : SessionRow) → (f r).id ≡ r.id)
      → (j == id) ≡ false
      → (rows : List SessionRow)
      → part_of part j (update_where (has_id id) f rows) ≡ part_of part j rows
  unfolding update_where
  part-set_other id f keeps_id other [] = refl
  part-set_other id f keeps_id other (r ∷ rows) =
      let rest = part-set_other id f keeps_id other rows in
      elim (Bool-cases (r.id == id)) [
        | inl hit ↦ let miss : (r.id == j) ≡ false = ground arith in rw (hit, keeps_id r, miss) rest
        | inr miss ↦ rw miss (ground (arith, rest))
      ]

  pub part-delete_other :
      (p : SessionRow → Bool)
      → ((r : SessionRow) → p r ≡ true → (r.id == j) ≡ false)
      → (rows : List SessionRow) → part_of part j (delete_where p rows) ≡ part_of part j rows
  unfolding delete_where
  part-delete_other p other [] = refl
  part-delete_other p other (r ∷ rows) =
      let rest = part-delete_other p other rows in
      elim (Bool-cases (p r)) [
        | inl hit ↦ rw (hit, other r hit) rest
        | inr miss ↦ rw miss (ground (arith, rest))
      ]

  -- A row behind the others is not found before them.
  pub part-append :
      (rows : List SessionRow) (new : SessionRow) {b : B}
      → part_of part j rows ≡ some b
      → part_of part j (rows ++ new ∷ []) ≡ some b
  part-append [] new h = absurd (cc h)
  part-append (r ∷ rows) new h = elim (Bool-cases (r.id == j)) [
    | inl hit ↦ rw hit (rw hit at h)
    | inr miss ↦ rw miss (part-append rows new (rw miss at h))
  ]

-- No two rows of one id.
abbrev pub IsDistinct : List SessionRow → Type 0
IsDistinct [] = Unit
IsDistinct (r ∷ rows) = (find_first (has_id r.id) rows ≡ none) × IsDistinct rows

pub missing-update_where :
    (j : ℕ) (p : SessionRow → Bool) (f : SessionRow → SessionRow)
    → ((r : SessionRow) → (f r).id ≡ r.id)
    → (rows : List SessionRow) → find_first (has_id j) rows ≡ none
    → find_first (has_id j) (update_where p f rows) ≡ none
unfolding update_where
missing-update_where j p f keeps_id [] h = refl
missing-update_where j p f keeps_id (r ∷ rows) h = elim (Bool-cases (r.id == j)) [
  | inl hit ↦ absurd (cc (rw hit at h))
  | inr miss ↦
      let rest = missing-update_where j p f keeps_id rows (rw miss at h) in
      elim (Bool-cases (p r)) [
        | inl one ↦ rw (one, keeps_id r, miss) rest
        | inr other ↦ rw (other, miss) rest
      ]
]

pub update_where-IsDistinct :
    (p : SessionRow → Bool) (f : SessionRow → SessionRow)
    → ((r : SessionRow) → (f r).id ≡ r.id)
    → (rows : List SessionRow) → IsDistinct rows
    → IsDistinct (update_where p f rows)
unfolding update_where
update_where-IsDistinct p f keeps_id [] h = tt
update_where-IsDistinct p f keeps_id (r ∷ rows) (alone, rest) =
    let now = missing-update_where r.id p f keeps_id rows alone in
    let later = update_where-IsDistinct p f keeps_id rows rest in
    elim (Bool-cases (p r)) [
      | inl hit ↦ rw (hit, keeps_id r) (now, later)
      | inr miss ↦ rw miss (now, later)
    ]

pub missing-delete_where :
    (j : ℕ) (p : SessionRow → Bool) (rows : List SessionRow)
    → find_first (has_id j) rows ≡ none
    → find_first (has_id j) (delete_where p rows) ≡ none
unfolding delete_where
missing-delete_where j p [] h = refl
missing-delete_where j p (r ∷ rows) h = elim (Bool-cases (r.id == j)) [
  | inl hit ↦ absurd (cc (rw hit at h))
  | inr miss ↦
      let rest = missing-delete_where j p rows (rw miss at h) in
      elim (Bool-cases (p r)) [ inl one ↦ rw one rest | inr other ↦ rw (other, miss) rest ]
]

pub delete_where-IsDistinct :
    (p : SessionRow → Bool) (rows : List SessionRow)
    → IsDistinct rows
    → IsDistinct (delete_where p rows)
unfolding delete_where
delete_where-IsDistinct p [] h = tt
delete_where-IsDistinct p (r ∷ rows) (alone, rest) = elim (Bool-cases (p r)) [
  | inl hit ↦ rw hit (delete_where-IsDistinct p rows rest)
  | inr miss ↦ rw miss (missing-delete_where r.id p rows alone, delete_where-IsDistinct p rows rest)
]

pub any-snoc :
    {A : Type 0} (p : A → Bool) (xs : List A) (x : A) → any p (xs ++ x ∷ []) ≡ any p xs || p x
any-snoc p [] x = elim (Bool-cases (p x)) [ inl hit ↦ rw hit refl | inr miss ↦ rw miss refl ]
any-snoc p (y ∷ xs) x = elim (Bool-cases (p y)) [
  | inl hit ↦ rw hit refl
  | inr miss ↦ rw miss (any-snoc p xs x)
]

pub or_false : (b : Bool) → b || false ≡ b
or_false true = refl
or_false false = refl

pub apart : (a b : ℕ) → a ≡ b → (a == b) ≢ false
apart a b e h = absurd (ground arith)

pub find_first-other :
    (id other : ℕ) (f : SessionRow → SessionRow)
    → ((r : SessionRow) → (f r).id ≡ r.id)
    → (other == id) ≡ false
    → (rows : List SessionRow)
    → find_first (has_id id) (update_where (has_id other) f rows) ≡ find_first (has_id id) rows
unfolding update_where
find_first-other id other f keeps_id apart [] = refl
find_first-other id other f keeps_id apart (r ∷ rows) =
    let rest = find_first-other id other f keeps_id apart rows in
    elim (Bool-cases (r.id == other)) [
      | inl hit ↦ let miss : (r.id == id) ≡ false = ground arith in rw (hit, keeps_id r, miss) rest
      | inr miss ↦ rw miss (ground (arith, rest))
    ]
