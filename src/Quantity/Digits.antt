-- ===== src/Quantity/Digits.antt =====
-- Decimal digits: how the standard library prints a number and reads one back, where
-- sandbox/core/src/resource.rs calls it.
use digdir_agents.Base.{
  ltb, leb, if◌then◌else◌, Bool-cases, ℕ, zero, suc, ◌+◌, ◌-◌, ◌*◌, ◌/◌, ◌%◌, ◌<◌, ◌≡◌, refl, ◌≢◌,
  inl, inr, Bool, true, ◌&&◌, List, [], ◌∷◌, ◌++◌, arith,
}

-- `char::is_ascii_digit`.
unfoldable pub is_digit : ℕ → Bool
is_digit c = leb b'0' c && leb c b'9'

unfoldable pub all_digits : List ℕ → Bool
all_digits [] = true
all_digits (c ∷ cs) = is_digit c && all_digits cs

-- What digits stand for, behind those that stand for `n`.
unfoldable pub value_from : ℕ → List ℕ → ℕ
value_from n [] = n
value_from n (c ∷ cs) = value_from (n * 10 + (c - b'0')) cs

-- The digits of a number, with fuel: `n + 1` is enough for `n`.
unfoldable pub digits_of : ℕ → ℕ → List ℕ
digits_of zero n = []
digits_of (suc fuel) n =
    let front = digits_of fuel (n / 10) ++ (b'0' + n % 10) ∷ [] in
    if ltb n 10 then (b'0' + n) ∷ [] else front

-- `u64::to_string`.
unfoldable pub to_decimal : ℕ → List ℕ
to_decimal n = digits_of (suc n) n

value_from-append :
    (n : ℕ) (xs ys : List ℕ) → value_from n (xs ++ ys) ≡ value_from (value_from n xs) ys
unfolding value_from
value_from-append n [] ys = refl
value_from-append n (x ∷ xs) ys = value_from-append (n * 10 + (x - b'0')) xs ys

all_digits-append :
    (xs ys : List ℕ) → all_digits xs ≡ true → all_digits ys ≡ true → all_digits (xs ++ ys) ≡ true
unfolding all_digits
all_digits-append [] ys h k = k
all_digits-append (x ∷ xs) ys h k = ground (arith, all_digits-append xs ys)

value_from-digits_of : (fuel n : ℕ) → n < fuel → value_from 0 (digits_of fuel n) ≡ n
unfolding value_from digits_of
value_from-digits_of zero n h = absurd (omega arith)
value_from-digits_of (suc fuel) n h = elim (Bool-cases (ltb n 10)) [
  | inl small ↦ rw small (omega arith)
  | inr large ↦
      rw
        (
          large,
          value_from-append 0 (digits_of fuel (n / 10)) _,
          value_from-digits_of fuel (n / 10) (ground (arith, large)),
        )
        (omega arith)
]

all_digits-digits_of : (fuel n : ℕ) → all_digits (digits_of fuel n) ≡ true
unfolding all_digits digits_of is_digit
all_digits-digits_of zero n = refl
all_digits-digits_of (suc fuel) n = elim (Bool-cases (ltb n 10)) [
  | inl small ↦ rw small (ground (arith, small))
  | inr large ↦ rw large (
      all_digits-append (digits_of fuel (n / 10)) _ (all_digits-digits_of fuel (n / 10))
        (ground arith))
]

append-ne-nil : (xs : List ℕ) (c : ℕ) → xs ++ c ∷ [] ≢ []
append-ne-nil [] c h = cc
append-ne-nil (x ∷ xs) c h = cc

-- A printed number has a digit.
pub to_decimal-nonempty : (n : ℕ) → to_decimal n ≢ []
unfolding to_decimal digits_of
to_decimal-nonempty n h = elim (Bool-cases (ltb n 10)) [
  | inl small ↦ cc (rw small at h)
  | inr large ↦ append-ne-nil (digits_of n (n / 10)) (b'0' + n % 10) (rw large at h)
]

-- Reading back what is printed gives the number.
pub value_from-to_decimal : (n : ℕ) → value_from 0 (to_decimal n) ≡ n
unfolding to_decimal
value_from-to_decimal n = value_from-digits_of (suc n) n (omega arith)

pub all_digits-to_decimal : (n : ℕ) → all_digits (to_decimal n) ≡ true
unfolding to_decimal
all_digits-to_decimal n = all_digits-digits_of (suc n) n
