-- ===== src/Quantity.antt =====
-- Resource quantities in Kubernetes syntax: sandbox/core/src/resource.rs. A text is the list of its
-- code points. A quantity is the number that it stands for; that it is positive and within range is
-- proved of what the checked constructors and the parsers return.
pub mod Digits
pub mod Parse
pub mod Printed
pub mod Exact
pub mod Cpu
pub mod Bytes
pub mod Sound
mod Tests
use digdir_agents.Base.{
  ltb, ◌==◌, if◌then◌else◌, Result, ok, err, ◌>>=◌, ◌>>◌, ensure, ℤ, pos, negsuc, ℕ, suc, ◌*◌, ◌/◌,
  ◌%◌, ◌^◌, not,
}

pub data ParseQuantityError : Type 0 where
  empty invalid non_positive precision overflow : ParseQuantityError

abbrev pub Parsed : Type 0 → Type 0
Parsed A = Result ParseQuantityError A

-- `MILLICPUS_PER_CPU` and `MAX_QUANTITY`.
abbrev pub millicpus_per_cpu : ℕ
millicpus_per_cpu = 1000

abbrev pub max_quantity : ℕ
max_quantity = 9223372036854775807

abbrev pub u128_mod : ℕ
u128_mod = 340282366920938463463374607431768211456

abbrev pub u64_mod : ℕ
u64_mod = 18446744073709551616

abbrev pub u32_mod : ℕ
u32_mod = 4294967296

-- `u128::checked_mul`, `checked_power`, and the conversions into `u64` and `u32`.
unfoldable pub checked_mul : ℕ → ℕ → Parsed ℕ
checked_mul a b = if ltb (a * b) u128_mod then ok (a * b) else err overflow

unfoldable pub checked_power : ℕ → ℕ → Parsed ℕ
checked_power base exponent =
    if ltb (base ^ exponent) u128_mod then ok (base ^ exponent) else err overflow

unfoldable pub checked_mul_u64 : ℕ → ℕ → Parsed ℕ
checked_mul_u64 a b = if ltb (a * b) u64_mod then ok (a * b) else err overflow

unfoldable pub to_u64 : ℕ → Parsed ℕ
to_u64 n = if ltb n u64_mod then ok n else err overflow

unfoldable pub to_u32 : ℕ → Parsed ℕ
to_u32 n = if ltb n u32_mod then ok n else err overflow

pub record Decimal : Type 0 where
  pub mantissa : ℕ
  pub scale : ℕ

abbrev pub scaled_up : ℤ → ℕ → Parsed ℕ
scaled_up (pos e) numerator = do power ← checked_power 10 e; checked_mul numerator power
scaled_up (negsuc e) numerator = ok numerator

abbrev pub scaled_down : ℤ → ℕ → Parsed ℕ
scaled_down (pos e) denominator = ok denominator
scaled_down (negsuc e) denominator = do
  power ← checked_power 10 (suc e)
  checked_mul denominator power

abbrev pub exact_quotient : ℕ → ℕ → Parsed ℕ
exact_quotient numerator denominator = do
  ensure (numerator % denominator == 0) precision
  ensure (not (numerator / denominator == 0)) non_positive
  ok (numerator / denominator)

-- `Decimal::to_exact_integer`.
unfoldable pub to_exact_integer : Decimal → ℕ → ℤ → Parsed ℕ
to_exact_integer d multiplier exponent = do
  numerator ← checked_mul d.mantissa multiplier
  denominator ← checked_power 10 d.scale
  numerator' ← scaled_up exponent numerator
  denominator' ← scaled_down exponent denominator
  exact_quotient numerator' denominator'
