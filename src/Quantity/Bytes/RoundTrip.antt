-- ===== src/Quantity/Bytes/RoundTrip.antt =====
-- A byte quantity reads back from what it prints, and prints at most as long as its digits:
-- sandbox/core/src/resource.rs.
use mathlib.Core.List.{append-nil}
use native.Mathlib.Nat.{le_trans}
use digdir_agents.Base.{
  ltb, ◌==◌, if◌then◌else◌, tests, length, All, ok, pos, ℕ, ◌*◌, ◌/◌, ◌%◌, ◌≤◌, ◌<◌, ◌≡◌, refl,
  Bool, true, false, ◌&&◌, List, [], ◌∷◌, ◌++◌, arith,
}
use digdir_agents.Quantity.{max_quantity, to_u64}
use digdir_agents.Quantity.Digits.{is_digit, to_decimal}
use digdir_agents.Quantity.Parse.{text_is}
use digdir_agents.Quantity.Printed.{
  IsSuffix, to_exact_integer-whole, split-printed, parse_decimal-printed,
}
use digdir_agents.Quantity.Bytes.{
  try_from_bytes, Suffixes, binary_suffixes, decimal_suffixes, find_scale, byte_scale, parse_bytes,
  shortest, display_bytes,
}

-- A suffix that reads as its multiplier.
abbrev IsNamed : ℕ × List ℕ → Type 0
IsNamed s = IsSuffix s.1 × (byte_scale s.1 ≡ ok (s.0, pos 0)) × (0 < s.0)

parse_printed :
    (n q : ℕ) (s : ℕ × List ℕ)
    → IsNamed s
    → n * s.0 ≡ q
    → 0 < q
    → q ≤ max_quantity
    → n ≤ max_quantity
    → parse_bytes (to_decimal n ++ s.1) ≡ ok q
unfolding parse_bytes to_u64 try_from_bytes
parse_printed n q (multiplier, suffix) (s, e, m) v p h h' =
    rw
      (
        split-printed n suffix s,
        parse_decimal-printed n (omega arith),
        e,
        to_exact_integer-whole n multiplier (omega arith) (omega arith),
      )
      (ground arith)

candidate_parses :
    (q : ℕ) (s : ℕ × List ℕ)
    → IsNamed s
    → 0 < q
    → q ≤ max_quantity
    → q % s.0 ≡ 0
    → parse_bytes (to_decimal (q / s.0) ++ s.1) ≡ ok q
candidate_parses q s m p h d = parse_printed (q / s.0) q s m (omega (arith, d)) p h (omega arith)

choice-parses :
    (q : ℕ) (s : ℕ × List ℕ) (text : List ℕ) (better : Bool)
    → (better ≡ true → parse_bytes (to_decimal (q / s.0) ++ s.1) ≡ ok q)
    → parse_bytes text ≡ ok q
    → parse_bytes (if better then to_decimal (q / s.0) ++ s.1 else text) ≡ ok q
choice-parses q s text true c t = c refl
choice-parses q s text false c t = t

shortest-parses :
    (q : ℕ) (suffixes : Suffixes) (text : List ℕ)
    → All IsNamed suffixes
    → 0 < q
    → q ≤ max_quantity
    → parse_bytes text ≡ ok q
    → parse_bytes (shortest q suffixes text) ≡ ok q
unfolding shortest
shortest-parses q [] text m p h t = t
shortest-parses q (s ∷ suffixes) text m p h t = shortest-parses q suffixes _ m.1 p h (
    choice-parses q s text
      ((q % s.0 == 0) && ltb (length (to_decimal (q / s.0) ++ s.1)) (length text))
      (λ better. candidate_parses q s m.0 p h (ground (arith, better))) t)

All-IsNamed : All IsNamed (binary_suffixes ++ decimal_suffixes)
unfolding byte_scale find_scale text_is is_digit
All-IsNamed = (
  (refl, refl, omega arith),
  (
    (refl, refl, omega arith),
    (
      (refl, refl, omega arith),
      (
        (refl, refl, omega arith),
        (
          (refl, refl, omega arith),
          (
            (refl, refl, omega arith),
            (
              (refl, refl, omega arith),
              (
                (refl, refl, omega arith),
                (
                  (refl, refl, omega arith),
                  (
                    (refl, refl, omega arith),
                    ((refl, refl, omega arith), ((refl, refl, omega arith), tt)),
                  ),
                ),
              ),
            ),
          ),
        ),
      ),
    ),
  ),
)

plain-parses : (q : ℕ) → 0 < q → q ≤ max_quantity → parse_bytes (to_decimal q) ≡ ok q
unfolding byte_scale find_scale text_is
plain-parses q p h =
    rw append-nil at (parse_printed q q (1, []) (tt, refl, omega arith) (omega arith) p h h)

-- Every quantity from 1 to the largest `i64`, such as each that is checked or read from text, reads back as
-- itself from what it prints, whichever suffix that has.
pub parse_bytes-display_bytes :
    (q : ℕ) → 0 < q → q ≤ max_quantity → parse_bytes (display_bytes q) ≡ ok q
unfolding display_bytes
parse_bytes-display_bytes q p h =
    shortest-parses q (binary_suffixes ++ decimal_suffixes) (to_decimal q) All-IsNamed p h
      (plain-parses q p h)

length-choice :
    (candidate text : List ℕ) (exact shorter : Bool)
    → (shorter ≡ true → length candidate ≤ length text)
    → length (if exact && shorter then candidate else text) ≤ length text
length-choice candidate text true true h = h refl
length-choice candidate text true false h = omega arith
length-choice candidate text false _ h = omega arith

length-shortest :
    (q : ℕ) (suffixes : Suffixes) (text : List ℕ) → length (shortest q suffixes text) ≤ length text
unfolding shortest
length-shortest q [] text = omega arith
length-shortest q (s ∷ suffixes) text =
    let candidate = to_decimal (q / s.0) ++ s.1 in
    le_trans (length-shortest q suffixes _) (
      length-choice candidate text (q % s.0 == 0) (ltb (length candidate) (length text))
        (λ shorter. omega (tests, shorter)))

-- The printed form is never longer than the plain number.
pub length-display_bytes : (q : ℕ) → length (display_bytes q) ≤ length (to_decimal q)
unfolding display_bytes
length-display_bytes q = length-shortest q (binary_suffixes ++ decimal_suffixes) (to_decimal q)
