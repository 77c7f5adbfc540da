-- ===== src/Quantity/Tests.antt =====
-- Quantities of the tests of sandbox/core/src/resource.rs, and the theorems at these.
use digdir_agents.Base.{err, ok, ℤ, ℕ, ◌≡◌, refl, List, [], ◌∷◌, arith}
use digdir_agents.Quantity.{precision, checked_mul, checked_power, to_u64, to_u32, to_exact_integer}
use digdir_agents.Quantity.Digits.{is_digit, all_digits, value_from, digits_of, to_decimal}
use digdir_agents.Quantity.Parse.{
  is_sign, take_number, split_number_and_suffix, split_dots, parse_u128, parse_decimal, text_is,
}
use digdir_agents.Quantity.Cpu.{
  try_from_millicpus, whole_cpus, cpu_multiplier, parse_cpu, display_cpu,
}
use digdir_agents.Quantity.Bytes.{
  try_from_bytes, find_scale, byte_scale, parse_bytes, display_bytes,
}
use digdir_agents.Quantity.Sound.{IsReading, parse_bytes-ok}
use digdir_agents.Quantity.Cpu.RoundTrip.{parse_cpu-display_cpu}
use digdir_agents.Quantity.Bytes.RoundTrip.{parse_bytes-display_bytes}

-- "0.5", "500m", "0.0001" and "1.5Gi".
abbrev half_cpu : List ℕ
half_cpu = b'0' ∷ b'.' ∷ b'5' ∷ []

abbrev half_in_millis : List ℕ
half_in_millis = b'5' ∷ b'0' ∷ b'0' ∷ b'm' ∷ []

abbrev too_fine : List ℕ
too_fine = b'0' ∷ b'.' ∷ b'0' ∷ b'0' ∷ b'0' ∷ b'1' ∷ []

abbrev gibibytes : List ℕ
gibibytes = b'1' ∷ b'.' ∷ b'5' ∷ b'G' ∷ b'i' ∷ []

half_parses : parse_cpu half_cpu ≡ ok 500
unfolding parse_cpu split_number_and_suffix take_number is_sign is_digit parse_decimal split_dots
    all_digits to_u32 parse_u128 value_from cpu_multiplier to_exact_integer checked_mul
    checked_power to_u64 try_from_millicpus
half_parses = refl

too_fine_parses : parse_cpu too_fine ≡ err precision
unfolding parse_cpu split_number_and_suffix take_number is_sign is_digit parse_decimal split_dots
    all_digits to_u32 parse_u128 value_from cpu_multiplier to_exact_integer checked_mul
    checked_power to_u64 try_from_millicpus
too_fine_parses = refl

half_displays : display_cpu 500 ≡ half_in_millis
unfolding display_cpu whole_cpus to_decimal digits_of
half_displays = refl

gibibytes_parse : parse_bytes gibibytes ≡ ok 1610612736
unfolding parse_bytes split_number_and_suffix take_number is_sign is_digit parse_decimal split_dots
    all_digits to_u32 parse_u128 value_from byte_scale find_scale text_is to_exact_integer
    checked_mul checked_power to_u64 try_from_bytes
gibibytes_parse = refl

parse_cpu-display_cpu_example : parse_cpu (display_cpu 500) ≡ ok 500
parse_cpu-display_cpu_example = parse_cpu-display_cpu 500 (omega arith) (omega arith)

parse_bytes-display_bytes_example : parse_bytes (display_bytes 1610612736) ≡ ok 1610612736
parse_bytes-display_bytes_example = parse_bytes-display_bytes 1610612736 (omega arith) (omega arith)

parse_bytes-ok_example :
    (split : List ℕ × List ℕ) × (scale : ℕ × ℤ) × (split_number_and_suffix gibibytes ≡ ok split)
    × (byte_scale split.1 ≡ ok scale)
    × IsReading split.0 scale.0 scale.1 1610612736
parse_bytes-ok_example = parse_bytes-ok gibibytes 1610612736 gibibytes_parse
