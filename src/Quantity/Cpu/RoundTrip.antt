-- ===== src/Quantity/Cpu/RoundTrip.antt =====
-- A CPU quantity reads back from what it prints: sandbox/core/src/resource.rs.
use mathlib.Core.List.{append-nil}
use digdir_agents.Base.{
  ◌==◌, tests, Bool-cases, ok, ℕ, ◌*◌, ◌/◌, ◌%◌, ◌≤◌, ◌<◌, ◌≡◌, refl, inl, inr, List, [], ◌∷◌, ◌++◌,
  arith,
}
use digdir_agents.Quantity.{millicpus_per_cpu, max_quantity, to_u64}
use digdir_agents.Quantity.Digits.{is_digit, to_decimal}
use digdir_agents.Quantity.Parse.{text_is}
use digdir_agents.Quantity.Printed.{
  IsSuffix, to_exact_integer-whole, split-printed, parse_decimal-printed,
}
use digdir_agents.Quantity.Cpu.{
  try_from_millicpus, whole_cpus, cpu_multiplier, parse_cpu, display_cpu,
}

parse_printed :
    (n : ℕ) (suffix : List ℕ) (multiplier q : ℕ)
    → IsSuffix suffix
    → cpu_multiplier suffix ≡ ok multiplier
    → n * multiplier ≡ q
    → 0 < q
    → q ≤ max_quantity
    → n ≤ max_quantity
    → parse_cpu (to_decimal n ++ suffix) ≡ ok q
unfolding parse_cpu to_u64 try_from_millicpus
parse_printed n suffix multiplier q s e v p h h' =
    rw
      (
        split-printed n suffix s,
        parse_decimal-printed n (omega arith),
        e,
        to_exact_integer-whole n multiplier (omega arith) (omega arith),
      )
      (ground arith)

-- Every quantity from 1 to the largest `i64`, such as each that is checked or read from text, reads back as
-- itself, printed in whole CPUs or in millicpus.
pub parse_cpu-display_cpu : (q : ℕ) → 0 < q → q ≤ max_quantity → parse_cpu (display_cpu q) ≡ ok q
unfolding display_cpu whole_cpus
parse_cpu-display_cpu q p h = elim (Bool-cases (q % millicpus_per_cpu == 0)) [
  | inl whole ↦ rw whole (
      rw append-nil at (
        parse_printed (q / millicpus_per_cpu) [] millicpus_per_cpu q tt
          (unfold cpu_multiplier in refl) (omega (tests, whole)) p h (omega arith)))
  | inr part ↦ rw part (
      parse_printed q (b'm' ∷ []) 1 q (unfold is_digit in refl)
        (unfold cpu_multiplier text_is in refl) (omega arith) p h h)
]
