-- ===== src/Quantity/Bytes.antt =====
-- Byte quantities: `ByteQuantity` of sandbox/core/src/resource.rs, as a number of bytes.
pub mod RoundTrip
use digdir_agents.Base.{
  ltb, leb, ◌==◌, if◌then◌else◌, length, ok, ◌>>=◌, ◌>>◌, ensure, ℤ, pos, ℕ, ◌/◌, ◌%◌, ◌^◌, not,
  ◌&&◌, Option, none, some, List, [], ◌∷◌, ◌++◌,
}
use digdir_agents.Quantity.{
  non_positive, overflow, Parsed, max_quantity, checked_mul_u64, to_u64, to_exact_integer,
}
use digdir_agents.Quantity.Digits.{to_decimal}
use digdir_agents.Quantity.Parse.{split_number_and_suffix, parse_decimal, text_is, decimal_exponent}

-- `ByteQuantity::from_bytes`, of a number that is not zero, which it does not compare with the largest
-- quantity.
abbrev pub from_bytes : ℕ → ℕ
from_bytes bytes = bytes

-- `ByteQuantity::try_from_bytes`.
unfoldable pub try_from_bytes : ℕ → Parsed ℕ
try_from_bytes bytes = do
  ensure (leb bytes max_quantity) overflow
  ensure (not (bytes == 0)) non_positive
  ok bytes

-- `ByteQuantity::from_units`.
unfoldable pub from_units : ℕ → ℕ → Parsed ℕ
from_units value multiplier = do bytes ← checked_mul_u64 value multiplier; try_from_bytes bytes

unfoldable pub from_mebibytes : ℕ → Parsed ℕ
from_mebibytes mebibytes = from_units mebibytes (2 ^ 20)

unfoldable pub from_gibibytes : ℕ → Parsed ℕ
from_gibibytes gibibytes = from_units gibibytes (2 ^ 30)

-- `ByteQuantity::whole_mebibytes`.
unfoldable pub whole_mebibytes : ℕ → Option ℕ
whole_mebibytes bytes = if bytes % 2 ^ 20 == 0 then some (bytes / 2 ^ 20) else none

abbrev pub Suffixes : Type 0
Suffixes = List (ℕ × List ℕ)

-- `BINARY_SUFFIXES` and `DECIMAL_SUFFIXES`.
abbrev pub binary_suffixes : Suffixes
binary_suffixes =
    (2 ^ 60, b'E' ∷ b'i' ∷ [])
    ∷ (2 ^ 50, b'P' ∷ b'i' ∷ [])
    ∷ (2 ^ 40, b'T' ∷ b'i' ∷ [])
    ∷ (2 ^ 30, b'G' ∷ b'i' ∷ [])
    ∷ (2 ^ 20, b'M' ∷ b'i' ∷ [])
    ∷ (2 ^ 10, b'K' ∷ b'i' ∷ [])
    ∷ []

abbrev pub decimal_suffixes : Suffixes
decimal_suffixes =
    (1_000_000_000_000_000_000, b'E' ∷ [])
    ∷ (1_000_000_000_000_000, b'P' ∷ [])
    ∷ (1_000_000_000_000, b'T' ∷ [])
    ∷ (1_000_000_000, b'G' ∷ [])
    ∷ (1_000_000, b'M' ∷ [])
    ∷ (1_000, b'k' ∷ [])
    ∷ []

-- The named scales of `byte_scale`, in its order.
abbrev pub named_scales : Suffixes
named_scales =
    (1, [])
    ∷ (2 ^ 10, b'K' ∷ b'i' ∷ [])
    ∷ (2 ^ 20, b'M' ∷ b'i' ∷ [])
    ∷ (2 ^ 30, b'G' ∷ b'i' ∷ [])
    ∷ (2 ^ 40, b'T' ∷ b'i' ∷ [])
    ∷ (2 ^ 50, b'P' ∷ b'i' ∷ [])
    ∷ (2 ^ 60, b'E' ∷ b'i' ∷ [])
    ∷ (1_000, b'k' ∷ [])
    ∷ (1_000_000, b'M' ∷ [])
    ∷ (1_000_000_000, b'G' ∷ [])
    ∷ (1_000_000_000_000, b'T' ∷ [])
    ∷ (1_000_000_000_000_000, b'P' ∷ [])
    ∷ (1_000_000_000_000_000_000, b'E' ∷ [])
    ∷ []

unfoldable pub find_scale : Suffixes → List ℕ → Option ℕ
find_scale [] suffix = none
find_scale ((multiplier, name) ∷ scales) suffix =
    if text_is suffix name then some multiplier else find_scale scales suffix

abbrev pub scale_or_exponent : Option ℕ → List ℕ → Parsed (ℕ × ℤ)
scale_or_exponent (some multiplier) suffix = ok (multiplier, pos 0)
scale_or_exponent none suffix = do exponent ← decimal_exponent suffix; ok (1, exponent)

-- `byte_scale`.
unfoldable pub byte_scale : List ℕ → Parsed (ℕ × ℤ)
byte_scale suffix = scale_or_exponent (find_scale named_scales suffix) suffix

-- `ByteQuantity::from_str`.
unfoldable pub parse_bytes : List ℕ → Parsed ℕ
parse_bytes value = do
  split ← split_number_and_suffix value
  decimal ← parse_decimal split.0
  scale ← byte_scale split.1
  bytes ← to_exact_integer decimal scale.0 scale.1
  ensure (leb bytes max_quantity) overflow
  bytes' ← to_u64 bytes
  try_from_bytes bytes'

-- The loop of `Display::fmt`: a shorter form takes the place of the one so far.
unfoldable pub shortest : ℕ → Suffixes → List ℕ → List ℕ
shortest bytes [] canonical = canonical
shortest bytes ((multiplier, suffix) ∷ suffixes) canonical =
    let candidate = to_decimal (bytes / multiplier) ++ suffix in
    let better = (bytes % multiplier == 0) && ltb (length candidate) (length canonical) in
    shortest bytes suffixes (if better then candidate else canonical)

-- `ByteQuantity`'s `Display::fmt`.
unfoldable pub display_bytes : ℕ → List ℕ
display_bytes bytes = shortest bytes (binary_suffixes ++ decimal_suffixes) (to_decimal bytes)
