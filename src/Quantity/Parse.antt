-- ===== src/Quantity/Parse.antt =====
-- Reading a quantity's number and suffix: sandbox/core/src/resource.rs.
use digdir_agents.Base.{
  ltb, leb, ◌==◌, if◌then◌else◌, length, ok, err, ◌>>=◌, ◌>>◌, ensure, ℤ, pos, negsuc, ℕ, zero, suc,
  Bool, true, false, ◌&&◌, ◌||◌, List, [], ◌∷◌, ◌++◌,
}
use digdir_agents.Quantity.{
  empty, invalid, non_positive, overflow, Parsed, u128_mod, to_u32, Decimal,
}
use digdir_agents.Quantity.Digits.{is_digit, all_digits, value_from}

abbrev pub nonempty : List ℕ → Bool
nonempty [] = false
nonempty (_ ∷ _) = true

unfoldable pub is_sign : ℕ → Bool
is_sign c = (c == b'+') || (c == b'-')

-- The loop of `split_number_and_suffix`: a sign counts at the first character only.
unfoldable pub take_number : Bool → List ℕ → List ℕ × List ℕ
take_number first [] = ([], [])
take_number first (c ∷ cs) =
    let (number, suffix) = take_number false cs in
    if (first && is_sign c) || is_digit c || c == b'.' then (c ∷ number, suffix) else ([], c ∷ cs)

-- `split_number_and_suffix`.
unfoldable pub split_number_and_suffix : List ℕ → Parsed (List ℕ × List ℕ)
split_number_and_suffix value = do
  ensure (nonempty value) empty
  ensure (nonempty (take_number true value).0) invalid
  ok (take_number true value)

-- `str::split` at the dots: the first part, and the others.
unfoldable pub split_dots : List ℕ → List ℕ × List (List ℕ)
split_dots [] = ([], [])
split_dots (c ∷ cs) =
    let (part, parts) = split_dots cs in if c == b'.' then ([], part ∷ parts) else (c ∷ part, parts)

abbrev pub strip_sign : List ℕ → Parsed (List ℕ)
strip_sign [] = ok []
strip_sign (c ∷ cs) =
    if c == b'+' then ok cs else if c == b'-' then err non_positive else ok (c ∷ cs)

-- `digits.parse::<u128>()`, of digits.
unfoldable pub parse_u128 : List ℕ → Parsed ℕ
parse_u128 digits =
    if ltb (value_from 0 digits) u128_mod then ok (value_from 0 digits) else err overflow

abbrev pub decimal_of : List ℕ → List ℕ → Parsed Decimal
decimal_of integer fraction = do
  ensure (all_digits integer && all_digits fraction) invalid
  scale ← to_u32 (length fraction)
  ensure (nonempty (integer ++ fraction)) invalid
  mantissa ← parse_u128 (integer ++ fraction)
  ok (record { mantissa = mantissa; scale = scale })

abbrev pub parts_decimal : List ℕ → List (List ℕ) → Parsed Decimal
parts_decimal integer [] = do ensure (nonempty integer) invalid; decimal_of integer []
parts_decimal integer (fraction ∷ []) = do
  ensure (nonempty integer || nonempty fraction) invalid
  decimal_of integer fraction
parts_decimal integer (_ ∷ _ ∷ _) = err invalid

-- `parse_decimal`.
unfoldable pub parse_decimal : List ℕ → Parsed Decimal
parse_decimal value = do
  unsigned ← strip_sign value
  parts_decimal (split_dots unsigned).0 (split_dots unsigned).1

-- Equality of texts.
unfoldable pub text_is : List ℕ → List ℕ → Bool
text_is [] [] = true
text_is (c ∷ cs) (d ∷ ds) = (c == d) && text_is cs ds
text_is _ _ = false

abbrev pub i32_limit : ℕ
i32_limit = 2147483648

abbrev pub negated : ℕ → ℤ
negated zero = pos 0
negated (suc n) = negsuc n

abbrev pub signed_value : Bool → List ℕ → Parsed ℤ
signed_value negative digits = do
  ensure (nonempty digits && all_digits digits) invalid
  ensure
      (if negative
        then leb (value_from 0 digits) i32_limit
        else ltb (value_from 0 digits) i32_limit)
      invalid
  ok (if negative then negated (value_from 0 digits) else pos (value_from 0 digits))

-- `str::parse::<i32>`: a sign may stand first.
unfoldable pub parse_i32 : List ℕ → Parsed ℤ
parse_i32 [] = err invalid
parse_i32 (c ∷ cs) =
    if c == b'+'
    then signed_value false cs
    else if c == b'-'
    then signed_value true cs
    else signed_value false (c ∷ cs)

-- `decimal_exponent`.
unfoldable pub decimal_exponent : List ℕ → Parsed ℤ
decimal_exponent [] = err invalid
decimal_exponent (c ∷ exponent) = do
  ensure ((c == b'e') || (c == b'E')) invalid
  ensure (nonempty exponent) invalid
  parse_i32 exponent
