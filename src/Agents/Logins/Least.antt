-- ===== src/Agents/Logins/Least.antt =====
-- The first of a sorted list: agentctl/src/harness/login.rs.
use digdir_agents.Base.{
  leb, if◌then◌else◌, leb→le, Bool-cases, filter_by, All, All-append, Str, ℕ, ◌≤◌, ◌<◌, ◌≡◌, refl,
  ap, inl, inr, Bool, true, false, Option, none, some, List, [], ◌∷◌, ◌++◌, arith,
}
use digdir_agents.Agents.Logins.{insert_by, sort_by, head_of}

abbrev least_of : (Str → Str → Bool) → Str → Option Str → Option Str
least_of le t none = some t
least_of le t (some u) = if le t u then some t else some u

-- The first of a list after a login is put in.
head_of-insert :
    (le : Str → Str → Bool) (t : Str) (ts : List Str)
    → head_of (insert_by le t ts) ≡ least_of le t (head_of ts)
unfolding insert_by
head_of-insert le t [] = refl
head_of-insert le t (u ∷ us) = elim (Bool-cases (le t u)) [ inl e ↦ rw e refl | inr e ↦ rw e refl ]

module _ (key : Str → ℕ) where
  abbrev pub by_key : Str → Str → Bool
  by_key a b = leb (key a) (key b)

  -- The first of a sorted list is the first of the least, among the items that pass a test.
  abbrev pub IsFirstLeast : (Str → Bool) → List Str → Option Str → Type 0
  IsFirstLeast p ts none = All (λ x. p x ≡ false) ts
  IsFirstLeast p ts (some t) =
      (p t ≡ true)
      × (front : List Str) × (back : List Str) × (ts ≡ front ++ t ∷ back)
      × All (λ x. p x ≡ true → key t < key x) front
      × All (λ x. p x ≡ true → key t ≤ key x) back

  weaker :
      (p : Str → Bool) (t u : Str) (ts : List Str)
      → key t ≤ key u
      → All (λ x. p x ≡ true → key u ≤ key x) ts
      → All (λ x. p x ≡ true → key t ≤ key x) ts
  weaker p t u [] le h = tt
  weaker p t u (x ∷ xs) le h = ((λ e. omega (arith, h.0 e)), weaker p t u xs le h.1)

  not_less :
      (p : Str → Bool) (u : Str) (ts : List Str)
      → All (λ x. p x ≡ true → key u < key x) ts
      → All (λ x. p x ≡ true → key u ≤ key x) ts
  not_less p u [] h = tt
  not_less p u (x ∷ xs) h = ((λ e. omega (arith, h.0 e)), not_less p u xs h.1)

  none_pass :
      (p : Str → Bool) (t : Str) (ts : List Str)
      → All (λ x. p x ≡ false) ts
      → All (λ x. p x ≡ true → key t ≤ key x) ts
  none_pass p t [] h = tt
  none_pass p t (x ∷ xs) h = ((λ e. absurd (ground (arith, h.0))), none_pass p t xs h.1)

  IsFirstLeast-cons :
      (p : Str → Bool) (t : Str) (ts : List Str) (best : Option Str)
      → p t ≡ true
      → IsFirstLeast p ts best
      → IsFirstLeast p (t ∷ ts) (least_of by_key t best)
  IsFirstLeast-cons p t ts none pass h = (pass, [], ts, refl, tt, none_pass p t ts h)
  IsFirstLeast-cons p t ts (some u) pass (found, front, back, e, before, behind) =
      elim (Bool-cases (by_key t u)) [
        | inl le ↦ rw le (
          pass,
          [],
          ts,
          refl,
          tt,
          rw e (
              All-append (λ x. p x ≡ true → key t ≤ key x) front (u ∷ back)
                (weaker p t u front (leb→le _ _ le) (not_less p u front before))
                ((λ _. leb→le _ _ le), weaker p t u back (leb→le _ _ le) behind)),
        )
        | inr gt ↦
            rw gt (found, t ∷ front, back, ap (◌∷◌ t) e, ((λ _. ground arith), before), behind)
      ]

  IsFirstLeast-skip :
      (p : Str → Bool) (t : Str) (ts : List Str) (best : Option Str)
      → p t ≡ false
      → IsFirstLeast p ts best
      → IsFirstLeast p (t ∷ ts) best
  IsFirstLeast-skip p t ts none fail h = (fail, h)
  IsFirstLeast-skip p t ts (some u) fail (found, front, back, e, before, behind) = (
    found,
    t ∷ front,
    back,
    ap (◌∷◌ t) e,
    ((λ pass. absurd (ground (arith, fail, pass))), before),
    behind,
  )

  pub sort_by-IsFirstLeast :
      (p : Str → Bool) (ts : List Str)
      → IsFirstLeast p ts (head_of (sort_by by_key (filter_by p ts)))
  unfolding sort_by
  sort_by-IsFirstLeast p [] = tt
  sort_by-IsFirstLeast p (t ∷ ts) =
      let rest = sort_by-IsFirstLeast p ts in
      elim (Bool-cases (p t)) [
        | inl pass ↦
            rw (pass, head_of-insert by_key t (sort_by by_key (filter_by p ts)))
              (IsFirstLeast-cons p t ts _ pass rest)
        | inr fail ↦ rw fail (IsFirstLeast-skip p t ts _ fail rest)
      ]

pub filter_all : (ts : List Str) → filter_by (λ _. true) ts ≡ ts
filter_all [] = refl
filter_all (t ∷ ts) = ap (◌∷◌ t) (filter_all ts)
