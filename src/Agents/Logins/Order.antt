-- ===== src/Agents/Logins/Order.antt =====
-- The order of names, and lists sorted by it: agentctl/src/harness/login.rs.
use digdir_agents.Base.{
  Bool-cases, All, Str, ◌≡◌, refl, inl, inr, Bool, true, false, List, [], ◌∷◌, ◌++◌, arith,
}
use digdir_agents.Agents.Logins.{text_leb, insert_by, sort_by}

text_leb_refl : (a : Str) → text_leb a a ≡ true
unfolding text_leb
text_leb_refl [] = refl
text_leb_refl (x ∷ xs) = ground (arith, text_leb_refl xs)

text_leb_total : (a b : Str) → text_leb a b ≡ false → text_leb b a ≡ true
unfolding text_leb
text_leb_total [] b h = cc
text_leb_total (x ∷ xs) [] h = refl
text_leb_total (x ∷ xs) (y ∷ ys) h = ground (arith, text_leb_total xs ys)

text_leb_trans : (a b c : Str) → text_leb a b ≡ true → text_leb b c ≡ true → text_leb a c ≡ true
unfolding text_leb
text_leb_trans [] b c h k = refl
text_leb_trans (x ∷ xs) [] c h k = cc
text_leb_trans (x ∷ xs) (y ∷ ys) [] h k = cc
text_leb_trans (x ∷ xs) (y ∷ ys) (z ∷ zs) h k = ground (arith, text_leb_trans xs ys zs)

-- Each name is before those behind it.
abbrev pub IsAscending : List Str → Type 0
IsAscending [] = Unit {0}
IsAscending (t ∷ ts) = All (λ x. text_leb t x ≡ true) ts × IsAscending ts

module _ (le : Str → Str → Bool) (P : Str → Type 0) where
  All-insert : (t : Str) (ts : List Str) → P t → All P ts → All P (insert_by le t ts)
  unfolding insert_by
  All-insert t [] h k = (h, tt)
  All-insert t (u ∷ us) h k = elim (Bool-cases (le t u)) [
    | inl e ↦ rw e (h, k)
    | inr e ↦ rw e (k.0, All-insert t us h k.1)
  ]

  All-uninsert : (t : Str) (ts : List Str) → All P (insert_by le t ts) → P t × All P ts
  unfolding insert_by
  All-uninsert t [] h = h
  All-uninsert t (u ∷ us) h = elim (Bool-cases (le t u)) [
    | inl e ↦ rw e at h
    | inr e ↦ let h' = rw e at h in let rest = All-uninsert t us h'.1 in (rest.0, (h'.0, rest.1))
  ]

  -- What holds of all of a sorted list holds of all of the list.
  pub All-unsort : (ts : List Str) → All P (sort_by le ts) → All P ts
  unfolding sort_by
  All-unsort [] h = tt
  All-unsort (t ∷ ts) h =
      let parts = All-uninsert t (sort_by le ts) h in (parts.0, All-unsort ts parts.1)

leb_each :
    (t u : Str) (us : List Str)
    → text_leb t u ≡ true
    → All (λ x. text_leb u x ≡ true) us
    → All (λ x. text_leb t x ≡ true) us
leb_each t u [] h k = tt
leb_each t u (x ∷ xs) h k = (text_leb_trans t u x h k.0, leb_each t u xs h k.1)

insert_by-IsAscending :
    (t : Str) (ts : List Str) → IsAscending ts → IsAscending (insert_by text_leb t ts)
unfolding insert_by
insert_by-IsAscending t [] h = (tt, tt)
insert_by-IsAscending t (u ∷ us) h = elim (Bool-cases (text_leb t u)) [
  | inl e ↦ rw e ((e, leb_each t u us e h.0), h)
  | inr e ↦ rw e (
    All-insert text_leb (λ x. text_leb u x ≡ true) t us (text_leb_total t u e) h.0,
    insert_by-IsAscending t us h.1,
  )
]

sort_by-IsAscending : (ts : List Str) → IsAscending (sort_by text_leb ts)
unfolding sort_by
sort_by-IsAscending [] = tt
sort_by-IsAscending (t ∷ ts) =
    insert_by-IsAscending t (sort_by text_leb ts) (sort_by-IsAscending ts)

from_here :
    (front : List Str) (t : Str) (back : List Str)
    → IsAscending (front ++ t ∷ back)
    → All (λ x. text_leb t x ≡ true) (t ∷ back)
from_here [] t back h = (text_leb_refl t, h.0)
from_here (x ∷ front) t back h = from_here front t back h.1

-- In a sorted list an item is before itself and those behind it.
pub sorted_from :
    (ts front : List Str) (t : Str) (back : List Str)
    → sort_by text_leb ts ≡ front ++ t ∷ back
    → All (λ x. text_leb t x ≡ true) (t ∷ back)
sorted_from ts front t back e = from_here front t back (rw e at (sort_by-IsAscending ts))
