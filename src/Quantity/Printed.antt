-- ===== src/Quantity/Printed.antt =====
-- Reading a printed number with a suffix behind it: sandbox/core/src/resource.rs.
use mathlib.Core.List.{append-nil}
use digdir_agents.Base.{
  ◌==◌, ok, pos, ℕ, ◌*◌, ◌<◌, ◌≡◌, refl, ◌≢◌, Bool, true, false, ◌||◌, List, [], ◌∷◌, ◌++◌, arith,
}
use digdir_agents.Quantity.{u128_mod, checked_mul, checked_power, to_u32, to_exact_integer}
use digdir_agents.Quantity.Digits.{
  is_digit, all_digits, value_from, to_decimal, to_decimal-nonempty, value_from-to_decimal,
  all_digits-to_decimal,
}
use digdir_agents.Quantity.Parse.{
  nonempty, take_number, split_number_and_suffix, split_dots, strip_sign, parse_u128, decimal_of,
  parse_decimal,
}

-- A suffix that cannot be taken for a part of the number.
abbrev pub IsSuffix : List ℕ → Type 0
IsSuffix [] = Unit {0}
IsSuffix (c ∷ cs) = (is_digit c || c == b'.') ≡ false

take_number-suffix : (suffix : List ℕ) → IsSuffix suffix → take_number false suffix ≡ ([], suffix)
unfolding take_number
take_number-suffix [] h = refl
take_number-suffix (c ∷ cs) h = rw h

take_number-digits :
    (first : Bool) (number suffix : List ℕ)
    → all_digits number ≡ true
    → IsSuffix suffix
    → number ≢ []
    → take_number first (number ++ suffix) ≡ (number, suffix)
unfolding take_number all_digits
take_number-digits first [] suffix d s n = absurd (n refl)
take_number-digits first (c ∷ []) suffix d s n = rw (take_number-suffix suffix s) (ground arith)
take_number-digits first (c ∷ x ∷ number) suffix d s n =
    rw (take_number-digits false (x ∷ number) suffix (ground arith) s (λ e. cc)) (ground arith)

split_dots-digits : (number : List ℕ) → all_digits number ≡ true → split_dots number ≡ (number, [])
unfolding split_dots all_digits is_digit
split_dots-digits [] d = refl
split_dots-digits (c ∷ cs) d = rw (split_dots-digits cs (ground arith)) (ground arith)

strip_sign-digits : (c : ℕ) (cs : List ℕ) → is_digit c ≡ true → strip_sign (c ∷ cs) ≡ ok (c ∷ cs)
unfolding is_digit
strip_sign-digits c cs d = ground arith

decimal_of-digits :
    (number : List ℕ)
    → all_digits number ≡ true
    → nonempty number ≡ true
    → value_from 0 number < u128_mod
    → decimal_of number [] ≡ ok (record { mantissa = value_from 0 number; scale = 0 })
unfolding all_digits to_u32 parse_u128
decimal_of-digits number d n h = rw (d, append-nil number, n) (ground arith)

parse_decimal-digits :
    (number : List ℕ)
    → all_digits number ≡ true
    → number ≢ []
    → value_from 0 number < u128_mod
    → parse_decimal number ≡ ok (record { mantissa = value_from 0 number; scale = 0 })
unfolding parse_decimal
parse_decimal-digits [] d n h = absurd (n refl)
parse_decimal-digits (c ∷ cs) d n h =
    rw (strip_sign-digits c cs (unfold all_digits in ground arith), split_dots-digits (c ∷ cs) d)
      (decimal_of-digits (c ∷ cs) d refl h)

-- The value of a whole number in a unit.
pub to_exact_integer-whole :
    (n m : ℕ)
    → 0 < n * m
    → n * m < u128_mod
    → to_exact_integer (record { mantissa = n; scale = 0 }) m (pos 0) ≡ ok (n * m)
unfolding to_exact_integer checked_mul checked_power
to_exact_integer-whole n m p h = ground arith

nonempty_lem : (xs : List ℕ) → xs ≢ [] → nonempty xs ≡ true
nonempty_lem [] n = absurd (n refl)
nonempty_lem (x ∷ xs) n = refl

nonempty-append : (xs ys : List ℕ) → xs ≢ [] → nonempty (xs ++ ys) ≡ true
nonempty-append [] ys n = absurd (n refl)
nonempty-append (x ∷ xs) ys n = refl

-- A printed number with a suffix is split into the two, and reads back as the number.
pub split-printed :
    (n : ℕ) (suffix : List ℕ)
    → IsSuffix suffix
    → split_number_and_suffix (to_decimal n ++ suffix) ≡ ok (to_decimal n, suffix)
unfolding split_number_and_suffix
split-printed n suffix s =
    rw
      (take_number-digits true (to_decimal n) suffix (all_digits-to_decimal n) s
        (to_decimal-nonempty n))
      (rw (
        nonempty-append (to_decimal n) suffix (to_decimal-nonempty n),
        nonempty_lem (to_decimal n) (to_decimal-nonempty n),
      ))

pub parse_decimal-printed :
    (n : ℕ) → n < u128_mod → parse_decimal (to_decimal n) ≡ ok (record { mantissa = n; scale = 0 })
parse_decimal-printed n h =
    let value = value_from-to_decimal n in
    rw (
      parse_decimal-digits (to_decimal n) (all_digits-to_decimal n) (to_decimal-nonempty n)
          (rw value h),
      value,
    )
