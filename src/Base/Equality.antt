-- ===== src/Base/Equality.antt =====
-- Boolean equality of texts, lists and options, and tests over lists.
use Prim.Native.Nat.{ℕ}
use mathlib.Core.Path.{◌≡◌, refl, ap}
use mathlib.Core.Bool.{Bool, true, false, ◌&&◌, ◌||◌}
use mathlib.Core.Option.{Option, none, some}
use mathlib.Core.List.{List, [], ◌∷◌}
use native.Mathlib.Omega.{arith}
use digdir_agents.Base.Tests.{◌==◌, ==→eq}

-- Item by item comparison of lists and of options.
abbrev pub list_eq {ℓ} : {A : Type ℓ} → (A → A → Bool) → List A → List A → Bool
list_eq same [] [] = true
list_eq same (x ∷ xs) (y ∷ ys) = same x y && list_eq same xs ys
list_eq same [] (_ ∷ _) = false
list_eq same (_ ∷ _) [] = false

abbrev pub option_eq {ℓ} : {A : Type ℓ} → (A → A → Bool) → Option A → Option A → Bool
option_eq same none none = true
option_eq same (some x) (some y) = same x y
option_eq same none (some _) = false
option_eq same (some _) none = false

abbrev pub every {ℓ} : {A : Type ℓ} → (A → Bool) → List A → Bool
every p [] = true
every p (x ∷ xs) = p x && every p xs

abbrev pub any {ℓ} : {A : Type ℓ} → (A → Bool) → List A → Bool
any p [] = false
any p (x ∷ xs) = p x || any p xs

-- A text is the list of its code points.
abbrev pub Str : Type 0
Str = List ℕ

unfoldable pub same_text : Str → Str → Bool
same_text = list_eq (λ c d. c == d)

-- Comparing well: the test holds of equal items only, and of all of them.
abbrev pub IsEquality {ℓ} : {A : Type ℓ} → (A → A → Bool) → Type ℓ
IsEquality {A = A} same = ((a b : A) → same a b ≡ true → a ≡ b) × ((a : A) → same a a ≡ true)

pub and_parts : (a b : Bool) → (a && b) ≡ true → (a ≡ true) × (b ≡ true)
and_parts a b h = ground arith

pub and3_parts : (a b c : Bool) → (a && b && c) ≡ true → (a ≡ true) × (b ≡ true) × (c ≡ true)
and3_parts a b c h = ground arith

pub list_eq→eq {ℓ} :
    {A : Type ℓ} (same : A → A → Bool)
    → ((a b : A) → same a b ≡ true → a ≡ b)
    → (xs ys : List A) → list_eq same xs ys ≡ true
    → xs ≡ ys
list_eq→eq same h [] [] e = refl
list_eq→eq same h [] (y ∷ ys) e = cc
list_eq→eq same h (x ∷ xs) [] e = cc
list_eq→eq same h (x ∷ xs) (y ∷ ys) e =
    let (first, rest) = and_parts (same x y) (list_eq same xs ys) e in
    rw (h x y first, list_eq→eq same h xs ys rest)

pub list_eq_refl {ℓ} :
    {A : Type ℓ} (same : A → A → Bool)
    → ((a : A) → same a a ≡ true)
    → (xs : List A) → list_eq same xs xs ≡ true
list_eq_refl same h [] = refl
list_eq_refl same h (x ∷ xs) = rw (h x, list_eq_refl same h xs)

pub list_eq-IsEquality {ℓ} :
    {A : Type ℓ} {same : A → A → Bool} → IsEquality same → IsEquality (list_eq same)
list_eq-IsEquality {same = same} h = (list_eq→eq same h.0, list_eq_refl same h.1)

pub option_eq-IsEquality {ℓ} :
    {A : Type ℓ} {same : A → A → Bool} → IsEquality same → IsEquality (option_eq same)
option_eq-IsEquality {A = A} {same = same} h = (sound, complete)
  where
    sound : (a b : Option A) → option_eq same a b ≡ true → a ≡ b
    sound none none e = refl
    sound none (some b) e = cc
    sound (some a) none e = cc
    sound (some a) (some b) e = ap some (h.0 a b e)

    complete : (a : Option A) → option_eq same a a ≡ true
    complete none = refl
    complete (some a) = h.1 a

pub same_text-IsEquality : IsEquality same_text
unfolding same_text
same_text-IsEquality = list_eq-IsEquality ((λ a b e. ==→eq a b e), λ a. ground arith)

abbrev pub list_is_empty {ℓ} : {A : Type ℓ} → List A → Bool
list_is_empty [] = true
list_is_empty (_ ∷ _) = false
