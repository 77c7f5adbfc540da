-- ===== src/Base/Maps.antt =====
-- Maps as lists of entries with distinct keys, and what is read back from them.
use mathlib.Core.Path.{◌≡◌, refl}
use mathlib.Core.Logic.{inl, inr}
use mathlib.Core.Bool.{Bool, true, false}
use mathlib.Core.Option.{Option, none, some}
use mathlib.Core.List.{List, [], ◌∷◌}
use digdir_agents.Base.Tests.{if◌then◌else◌, Bool-cases}
use digdir_agents.Base.Equality.{IsEquality}

module _ {K V : Type 0} (same : K → K → Bool) where
  -- `get`, `remove` and `insert`.
  unfoldable pub get : K → List (K × V) → Option V
  get k [] = none
  get k ((k', v) ∷ entries) = let rest = get k entries in if same k k' then some v else rest

  unfoldable pub remove : K → List (K × V) → List (K × V)
  remove k [] = []
  remove k ((k', v) ∷ entries) =
      let rest = remove k entries in if same k k' then rest else (k', v) ∷ rest

  unfoldable pub insert : K → V → List (K × V) → List (K × V)
  insert k v entries = (k, v) ∷ remove k entries

  pub get-remove : (k : K) (m : List (K × V)) → get k (remove k m) ≡ none
  unfolding get remove
  get-remove k [] = refl
  get-remove k ((k', v) ∷ m) = elim (Bool-cases (same k k')) [
    | inl e ↦ rw e (get-remove k m)
    | inr e ↦ rw (e, e) (get-remove k m)
  ]

  module _ (h : IsEquality same) where
    pub get-insert : (k : K) (v : V) (m : List (K × V)) → get k (insert k v m) ≡ some v
    unfolding get insert
    get-insert k v m = rw (h.1 k)

    pub get-insert_here :
        (k j : K) (v : V) (m : List (K × V)) → same k j ≡ true → get k (insert j v m) ≡ some v
    unfolding get insert
    get-insert_here k j v m e = rw e refl

    pub get-remove_here : (k j : K) (m : List (K × V)) → same k j ≡ true → get k (remove j m) ≡ none
    get-remove_here k j m e = rw (h.0 k j e) (get-remove j m)

    -- Another key's entry stays.
    pub get-remove_other :
        (k j : K) (m : List (K × V)) → same k j ≡ false → get k (remove j m) ≡ get k m
    unfolding get remove
    get-remove_other k j [] e = refl
    get-remove_other k j ((k', v) ∷ m) e = elim (Bool-cases (same j k')) [
      | inl found ↦ rw (found, ← h.0 j k' found, e) (get-remove_other k j m e)
      | inr other ↦ rw (other, get-remove_other k j m e) refl
    ]

    pub get-insert_other :
        (k j : K) (v : V) (m : List (K × V)) → same k j ≡ false → get k (insert j v m) ≡ get k m
    unfolding get insert
    get-insert_other k j v m e = rw e (get-remove_other k j m e)
