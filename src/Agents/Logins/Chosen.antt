-- ===== src/Agents/Logins/Chosen.antt =====
-- Which login is chosen: `LoginSet::choose` of agentctl/src/harness/login.rs.
use digdir_agents.Base.{
  ltb, ltb→lt, Bool-cases, Option-cases, filter_by, All, All-append, Str, same_text,
  same_text-IsEquality, ℕ, ◌≤◌, ◌<◌, ◌≡◌, refl, ◌⊎◌, inl, inr, Bool, true, false, ◌&&◌, ◌||◌,
  Option, none, some, List, [], ◌∷◌, ◌++◌, arith,
}
use digdir_agents.Service.Platform.{has_text}
use digdir_agents.Agents.Logins.{
  LoginSet, named, any_stored, text_leb, insert_by, sort_by, uses, candidates, filter_option,
  head_of, choose,
}
use digdir_agents.Agents.Logins.Order.{All-unsort, sorted_from}
use digdir_agents.Agents.Logins.Least.{by_key, sort_by-IsFirstLeast, filter_all}

-- Whether a login is in a set, and stored.
abbrev pub is_allowed : LoginSet → List Str → Str → Bool
is_allowed (named logins) stored login = has_text login logins && has_text login stored
is_allowed any_stored stored login = has_text login stored

-- The least used of a set's stored logins: of the named ones that are used equally often the earlier in
-- the set, and of all the stored ones the earlier by name.
abbrev pub IsLeastUsed : LoginSet → List Str → List (Str × ℕ) → Str → Type 0
IsLeastUsed (named logins) stored in_use login =
    (front : List Str) × (back : List Str) × (logins ≡ front ++ login ∷ back)
    × All (λ x. has_text x stored ≡ true → uses in_use login < uses in_use x) front
    × All (λ x. has_text x stored ≡ true → uses in_use login ≤ uses in_use x) back
IsLeastUsed any_stored stored in_use login =
    All
      (λ x.
        (uses in_use login < uses in_use x)
        ⊎ ((uses in_use login ≡ uses in_use x) × (text_leb login x ≡ true)))
      stored

-- The current login, if it is in the set and stored.
abbrev pub kept : LoginSet → List Str → Option Str → Option Str
kept set stored current = filter_option (is_allowed set stored) current

abbrev pub IsChoice : LoginSet → List Str → Option Str → List (Str × ℕ) → Option Str → Type 0
IsChoice set stored current in_use none = (login : Str) → is_allowed set stored login ≡ false
IsChoice set stored current in_use (some login) =
    (is_allowed set stored login ≡ true)
    × ((kept set stored current ≡ some login)
        ⊎ ((kept set stored current ≡ none) × IsLeastUsed set stored in_use login))

has_text-insert :
    (le : Str → Str → Bool) (t u : Str) (us : List Str)
    → has_text t (insert_by le u us) ≡ (same_text t u || has_text t us)
unfolding has_text insert_by
has_text-insert le t u [] = refl
has_text-insert le t u (v ∷ vs) = elim (Bool-cases (le u v)) [
  | inl e ↦ rw e refl
  | inr e ↦ rw (e, has_text-insert le t u vs) (ground arith)
]

pub has_text-sort :
    (le : Str → Str → Bool) (t : Str) (ts : List Str) → has_text t (sort_by le ts) ≡ has_text t ts
unfolding has_text sort_by
has_text-sort le t [] = refl
has_text-sort le t (u ∷ us) =
    rw (has_text-insert le t u (sort_by le us), has_text-sort le t us) refl

-- The tests of a list whose first item passes, or does not.
here_too : (x p r : Bool) → (x ≡ true → p ≡ true) → (x || r && p) ≡ ((x || r) && p)
here_too true p r h = rw (h refl) refl
here_too false p r h = refl

not_here : (x p r : Bool) → (x ≡ true → p ≡ false) → (r && p) ≡ ((x || r) && p)
not_here true p r h = ground (arith, h refl)
not_here false p r h = refl

has_text-filter :
    (p : Str → Bool) (t : Str) (ts : List Str)
    → has_text t (filter_by p ts) ≡ (has_text t ts && p t)
unfolding has_text
has_text-filter p t [] = refl
has_text-filter p t (u ∷ us) = elim (Bool-cases (p u)) [
  | inl e ↦
      rw (e, has_text-filter p t us)
        (here_too (same_text t u) (p t) (has_text t us)
          λ same. rw (same_text-IsEquality.0 t u same) e)
  | inr e ↦
      rw (e, has_text-filter p t us)
        (not_here (same_text t u) (p t) (has_text t us)
          λ same. rw (same_text-IsEquality.0 t u same) e)
]

-- The candidates are the logins of the set that are stored.
has_text-candidates :
    (set : LoginSet) (stored : List Str) (login : Str)
    → has_text login (candidates set stored) ≡ is_allowed set stored login
unfolding candidates
has_text-candidates (named logins) stored login = has_text-filter _ login logins
has_text-candidates any_stored stored login = has_text-sort text_leb login stored

-- An item that is used more often than `login`, or as often and is not before it by name.
abbrev IsWorse : List (Str × ℕ) → Str → Str → Type 0
IsWorse in_use login x =
    (uses in_use login < uses in_use x)
    ⊎ ((uses in_use login ≡ uses in_use x) × (text_leb login x ≡ true))

module _ (in_use : List (Str × ℕ)) (login : Str) where
  sooner :
      (front : List Str)
      → All (λ x. true ≡ true → uses in_use login < uses in_use x) front
      → All (IsWorse in_use login) front
  sooner [] h = tt
  sooner (x ∷ xs) h = (inl (h.0 refl), sooner xs h.1)

  later_ones :
      (back : List Str)
      → All (λ x. true ≡ true → uses in_use login ≤ uses in_use x) back
      → All (λ x. text_leb login x ≡ true) back
      → All (IsWorse in_use login) back
  later_ones [] h k = tt
  later_ones (x ∷ xs) h k = (
    elim (Bool-cases (ltb (uses in_use login) (uses in_use x))) [
      | inl less ↦ inl (ltb→lt _ _ less)
      | inr other ↦ inr (ground (arith, h.0 refl, other), k.0)
    ],
    later_ones xs h.1 k.1,
  )

head_of-none : (ts : List Str) (t : Str) → head_of ts ≡ none → has_text t ts ≡ false
unfolding has_text
head_of-none [] t e = refl
head_of-none (u ∷ us) t e = cc

head_of-some : (ts : List Str) (t : Str) → head_of ts ≡ some t → has_text t ts ≡ true
unfolding has_text
head_of-some [] t e = cc
head_of-some (u ∷ us) t e = let same : u ≡ t = cc in rw (same, same_text-IsEquality.1 t) refl

sort_by-IsLeastUsed :
    (set : LoginSet) (stored : List Str) (in_use : List (Str × ℕ)) (login : Str)
    → head_of (sort_by (by_key (uses in_use)) (candidates set stored)) ≡ some login
    → IsLeastUsed set stored in_use login
unfolding candidates
sort_by-IsLeastUsed (named logins) stored in_use login e =
    let (_, front, back, parts, before, behind) =
      rw e at (sort_by-IsFirstLeast (uses in_use) (λ x. has_text x stored) logins) in
    (front, back, parts, before, behind)
sort_by-IsLeastUsed any_stored stored in_use login e =
    let sorted = sort_by text_leb stored in
    let all_pass = rw filter_all at (sort_by-IsFirstLeast (uses in_use) (λ _. true) sorted) in
    let (_, front, back, parts, before, behind) = rw e at all_pass in
    let later = sorted_from stored front login back parts in
    All-unsort text_leb (IsWorse in_use login) stored (
      rw parts (
        All-append (IsWorse in_use login) front (login ∷ back) (sooner in_use login front before)
          (inr (refl, later.0), later_ones in_use login back behind later.1)))

kept-candidates :
    (set : LoginSet) (stored : List Str) (current : Option Str)
    → filter_option (λ login. has_text login (candidates set stored)) current
      ≡ kept set stored current
kept-candidates set stored none = refl
kept-candidates set stored (some login) = rw (has_text-candidates set stored login) refl

kept_allowed :
    (set : LoginSet) (stored : List Str) (current : Option Str) (login : Str)
    → kept set stored current ≡ some login
    → is_allowed set stored login ≡ true
kept_allowed set stored none login e = cc
kept_allowed set stored (some c) login e = elim (Bool-cases (is_allowed set stored c)) [
  | inl yes' ↦ let same : c ≡ login = cc (rw yes' at e) in rw same at yes'
  | inr no' ↦ absurd (cc (rw no' at e))
]

first-IsChoice :
    (set : LoginSet) (stored : List Str) (current : Option Str) (in_use : List (Str × ℕ))
    (best : Option Str)
    → kept set stored current ≡ none
    → head_of (sort_by (by_key (uses in_use)) (candidates set stored)) ≡ best
    → IsChoice set stored current in_use best
first-IsChoice set stored current in_use none free e = λ login.
    rw (has_text-sort, has_text-candidates set stored login) at
      (head_of-none (sort_by (by_key (uses in_use)) (candidates set stored)) login e)
first-IsChoice set stored current in_use (some login) free e = (
  rw (has_text-sort, has_text-candidates set stored login) at
      (head_of-some (sort_by (by_key (uses in_use)) (candidates set stored)) login e),
  inr (free, sort_by-IsLeastUsed set stored in_use login e),
)

-- A login is chosen if and only if the set has one that is stored, and it is such a one. It is the current
-- login where that is in the set and stored. Otherwise no login of the set that is stored is used less: of
-- the named ones it is the earliest that is used least, and of all the stored ones the first by name.
pub choose_lem :
    (set : LoginSet) (stored : List Str) (current : Option Str) (in_use : List (Str × ℕ))
    → IsChoice set stored current in_use (choose set stored current in_use)
unfolding choose
choose_lem set stored current in_use =
    rw (kept-candidates set stored current) (elim (Option-cases (kept set stored current)) [
      | inl free ↦ rw free (first-IsChoice set stored current in_use _ free refl)
      | inr (login, e) ↦ rw e (kept_allowed set stored current login e, inl e)
    ])
