-- ===== src/Quantity/Cpu.antt =====
-- CPU quantities: `CpuQuantity` of sandbox/core/src/resource.rs, as a number of millicpus.
pub mod RoundTrip
use digdir_agents.Base.{
  leb, ◌==◌, if◌then◌else◌, ok, err, ◌>>=◌, ◌>>◌, ensure, pos, ℕ, ◌/◌, ◌%◌, not, Option, none, some,
  List, [], ◌∷◌, ◌++◌,
}
use digdir_agents.Quantity.{
  invalid, non_positive, overflow, Parsed, millicpus_per_cpu, max_quantity, checked_mul_u64, to_u64,
  to_exact_integer,
}
use digdir_agents.Quantity.Digits.{to_decimal}
use digdir_agents.Quantity.Parse.{split_number_and_suffix, parse_decimal, text_is}

-- `CpuQuantity::from_millicpus`, of a number that is not zero, which it does not compare with the largest
-- quantity.
abbrev pub from_millicpus : ℕ → ℕ
from_millicpus millicpus = millicpus

-- `CpuQuantity::try_from_millicpus`.
unfoldable pub try_from_millicpus : ℕ → Parsed ℕ
try_from_millicpus millicpus = do
  ensure (leb millicpus max_quantity) overflow
  ensure (not (millicpus == 0)) non_positive
  ok millicpus

-- `CpuQuantity::from_cpus`.
unfoldable pub from_cpus : ℕ → Parsed ℕ
from_cpus cpus = do millicpus ← checked_mul_u64 cpus millicpus_per_cpu; try_from_millicpus millicpus

-- `CpuQuantity::whole_cpus`.
unfoldable pub whole_cpus : ℕ → Option ℕ
whole_cpus millicpus =
    if millicpus % millicpus_per_cpu == 0 then some (millicpus / millicpus_per_cpu) else none

unfoldable pub cpu_multiplier : List ℕ → Parsed ℕ
cpu_multiplier [] = ok millicpus_per_cpu
cpu_multiplier (c ∷ cs) = if text_is (c ∷ cs) (b'm' ∷ []) then ok 1 else err invalid

-- `CpuQuantity::from_str`.
unfoldable pub parse_cpu : List ℕ → Parsed ℕ
parse_cpu value = do
  split ← split_number_and_suffix value
  decimal ← parse_decimal split.0
  multiplier ← cpu_multiplier split.1
  millicpus ← to_exact_integer decimal multiplier (pos 0)
  millicpus' ← to_u64 millicpus
  try_from_millicpus millicpus'

abbrev display_parts : ℕ → Option ℕ → List ℕ
display_parts millicpus (some cpus) = to_decimal cpus
display_parts millicpus none = to_decimal millicpus ++ b'm' ∷ []

-- `CpuQuantity`'s `Display::fmt`.
unfoldable pub display_cpu : ℕ → List ℕ
display_cpu millicpus = display_parts millicpus (whole_cpus millicpus)
