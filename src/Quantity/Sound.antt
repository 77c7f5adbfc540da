-- ===== src/Quantity/Sound.antt =====
-- What a text that is accepted as a quantity stands for: sandbox/core/src/resource.rs.
use digdir_agents.Base.{
  ltb, leb, ◌==◌, Bool-cases, ok, ensure, >>=-eq-ok, ℤ, pos, pos_part, neg_part, ℕ, ◌*◌, ◌^◌, ◌≤◌,
  ◌<◌, ◌≡◌, ◌∙◌, inl, inr, List, arith,
}
use digdir_agents.Quantity.{overflow, max_quantity, u64_mod, to_u64, Decimal, to_exact_integer}
use digdir_agents.Quantity.Parse.{split_number_and_suffix, parse_decimal}
use digdir_agents.Quantity.Exact.{to_exact_integer-ok}
use digdir_agents.Quantity.Cpu.{try_from_millicpus, cpu_multiplier, parse_cpu}
use digdir_agents.Quantity.Bytes.{try_from_bytes, byte_scale, parse_bytes}

try_from_bytes-ok : (b q : ℕ) → try_from_bytes b ≡ ok q → (q ≡ b) × (0 < q) × (q ≤ max_quantity)
unfolding try_from_bytes
try_from_bytes-ok b q h = elim (Bool-cases (leb b max_quantity)) [
  | inr large ↦ cc (rw large at h)
  | inl fits ↦ elim (Bool-cases (b == 0)) [
    | inl nothing ↦ cc (rw (fits, nothing) at h)
    | inr something ↦ ground (arith, fits, something, rw (fits, something) at h)
  ]
]

try_from_millicpus-ok :
    (b q : ℕ) → try_from_millicpus b ≡ ok q → (q ≡ b) × (0 < q) × (q ≤ max_quantity)
unfolding try_from_millicpus
try_from_millicpus-ok b q h = elim (Bool-cases (leb b max_quantity)) [
  | inr large ↦ cc (rw large at h)
  | inl fits ↦ elim (Bool-cases (b == 0)) [
    | inl nothing ↦ cc (rw (fits, nothing) at h)
    | inr something ↦ ground (arith, fits, something, rw (fits, something) at h)
  ]
]

to_u64-ok : (b q : ℕ) → to_u64 b ≡ ok q → q ≡ b
unfolding to_u64
to_u64-ok b q h = elim (Bool-cases (ltb b u64_mod)) [
  | inr large ↦ cc (rw large at h)
  | inl fits ↦ ground (arith, rw fits at h)
]

-- How an accepted text is read: its number, its unit, and the exact value of the two.
pub record IsReading (number : List ℕ) (multiplier : ℕ) (exponent : ℤ) (q : ℕ) : Type 0 where
  pub decimal : Decimal
  pub read : parse_decimal number ≡ ok decimal
  pub exact :
      q * (10 ^ decimal.scale * 10 ^ neg_part exponent)
      ≡ decimal.mantissa * multiplier * 10 ^ pos_part exponent
  pub positive : 0 < q
  pub bounded : q ≤ max_quantity

read_exactly :
    (number : List ℕ) (decimal : Decimal) (multiplier : ℕ) (exponent : ℤ) (b q : ℕ)
    → parse_decimal number ≡ ok decimal
    → to_exact_integer decimal multiplier exponent ≡ ok b
    → q ≡ b
    → 0 < q
    → q ≤ max_quantity
    → IsReading number multiplier exponent q
read_exactly number decimal multiplier exponent b q e e' same positive bounded = record {
  decimal = decimal;
  read = e;
  exact = rw same (to_exact_integer-ok decimal multiplier exponent b e').0;
  positive = positive;
  bounded = bounded;
}

-- A text is accepted as a byte quantity only as a number with a unit, whose exact value is the
-- quantity, positive and at most the largest `i64`.
pub parse_bytes-ok :
    (value : List ℕ) (q : ℕ)
    → parse_bytes value ≡ ok q
    → (split : List ℕ × List ℕ) × (scale : ℕ × ℤ) × (split_number_and_suffix value ≡ ok split)
      × (byte_scale split.1 ≡ ok scale)
      × IsReading split.0 scale.0 scale.1 q
unfolding parse_bytes
parse_bytes-ok value q h =
    let (split, es, h₁) = >>=-eq-ok (split_number_and_suffix value) _ h in
    let (decimal, ed, h₂) = >>=-eq-ok (parse_decimal split.0) _ h₁ in
    let (scale, ec, h₃) = >>=-eq-ok (byte_scale split.1) _ h₂ in
    let (bytes, eb, h₄) = >>=-eq-ok (to_exact_integer decimal scale.0 scale.1) _ h₃ in
    let (_, _, h₅) = >>=-eq-ok (ensure (leb bytes max_quantity) overflow) _ h₄ in
    let (bytes', e', h₆) = >>=-eq-ok (to_u64 bytes) _ h₅ in
    let (same, positive, bounded) = try_from_bytes-ok bytes' q h₆ in
    (
      split,
      scale,
      es,
      ec,
      read_exactly split.0 decimal scale.0 scale.1 bytes q ed eb (same ∙ to_u64-ok bytes bytes' e')
          positive bounded,
    )

-- A text is accepted as a CPU quantity only as a number of CPUs or millicpus, whose exact value in
-- millicpus is the quantity, positive and at most the largest `i64`.
pub parse_cpu-ok :
    (value : List ℕ) (q : ℕ)
    → parse_cpu value ≡ ok q
    → (split : List ℕ × List ℕ) × (multiplier : ℕ) × (split_number_and_suffix value ≡ ok split)
      × (cpu_multiplier split.1 ≡ ok multiplier)
      × IsReading split.0 multiplier (pos 0) q
unfolding parse_cpu
parse_cpu-ok value q h =
    let (split, es, h₁) = >>=-eq-ok (split_number_and_suffix value) _ h in
    let (decimal, ed, h₂) = >>=-eq-ok (parse_decimal split.0) _ h₁ in
    let (multiplier, ec, h₃) = >>=-eq-ok (cpu_multiplier split.1) _ h₂ in
    let (millicpus, eb, h₄) = >>=-eq-ok (to_exact_integer decimal multiplier (pos 0)) _ h₃ in
    let (millicpus', e', h₅) = >>=-eq-ok (to_u64 millicpus) _ h₄ in
    let (same, positive, bounded) = try_from_millicpus-ok millicpus' q h₅ in
    (
      split,
      multiplier,
      es,
      ec,
      read_exactly split.0 decimal multiplier (pos 0) millicpus q ed eb
          (same ∙ to_u64-ok millicpus millicpus' e') positive bounded,
    )
