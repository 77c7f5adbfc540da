-- ===== src/Quantity/Exact.antt =====
-- What a decimal is worth in a unit, when that is a whole number: `Decimal::to_exact_integer` of
-- sandbox/core/src/resource.rs.
use digdir_agents.Base.{
  ltb, ◌==◌, tests, Bool-cases, ok, >>=-eq-ok, ℤ, pos, negsuc, pos_part, neg_part, ℕ, suc, ◌*◌, ◌/◌,
  ◌%◌, ◌^◌, ◌<◌, ◌≡◌, inl, inr, arith,
}
use digdir_agents.Quantity.{
  Parsed, u128_mod, checked_mul, checked_power, Decimal, scaled_up, scaled_down, exact_quotient,
  to_exact_integer,
}

checked_mul-ok : (a b c : ℕ) → checked_mul a b ≡ ok c → (c ≡ a * b) × (c < u128_mod)
unfolding checked_mul
checked_mul-ok a b c h = elim (Bool-cases (ltb (a * b) u128_mod)) [
  | inl fits ↦ ground (arith, fits)
  | inr large ↦ ground (arith, large)
]

checked_power-ok : (b e c : ℕ) → checked_power b e ≡ ok c → (c ≡ b ^ e) × (c < u128_mod)
unfolding checked_power
checked_power-ok b e c h = elim (Bool-cases (ltb (b ^ e) u128_mod)) [
  | inl fits ↦ ground (arith, fits)
  | inr large ↦ ground (arith, large)
]

scaled_up-ok :
    (e : ℤ) (n n' : ℕ)
    → n < u128_mod
    → scaled_up e n ≡ ok n'
    → (n' ≡ n * 10 ^ pos_part e) × (n' < u128_mod)
scaled_up-ok (pos e) n n' l h =
    let (power, p, q) = >>=-eq-ok (checked_power 10 e) (λ power. checked_mul n power) h in
    let (same, _) = checked_power-ok 10 e power p in
    let (product, fits) = checked_mul-ok n power n' q in (rw (← same) product, fits)
scaled_up-ok (negsuc e) n n' l h = ground arith

scaled_down-ok : (e : ℤ) (n n' : ℕ) → scaled_down e n ≡ ok n' → n' ≡ n * 10 ^ neg_part e
scaled_down-ok (pos e) n n' h = ground arith
scaled_down-ok (negsuc e) n n' h =
    let (power, p, q) = >>=-eq-ok (checked_power 10 (suc e)) (λ power. checked_mul n power) h in
    rw (← (checked_power-ok 10 (suc e) power p).0) (checked_mul-ok n power n' q).0

ok-injective : {a b : ℕ} → ◌≡◌ {A = Parsed ℕ} (ok a) (ok b) → a ≡ b
ok-injective h = ground arith

exact_quotient-ok :
    (n d v : ℕ) → n < u128_mod → exact_quotient n d ≡ ok v → (v * d ≡ n) × (0 < v) × (v < u128_mod)
exact_quotient-ok n d v l h = elim (Bool-cases (n % d == 0)) [
  | inr broken ↦ cc (rw broken at h)
  | inl whole ↦ elim (Bool-cases (n / d == 0)) [
    | inl nothing ↦ cc (rw (whole, nothing) at h)
    | inr something ↦
        let same = ok-injective (rw (whole, something) at h) in
        rw (← same) (omega (tests, whole), ground (arith, something), omega arith)
  ]
]

-- A decimal that is read in a unit gives the exact number: the mantissa times the unit, over the
-- power of ten that its scale and exponent make. It is positive and fits a `u128`.
pub to_exact_integer-ok :
    (d : Decimal) (multiplier : ℕ) (exponent : ℤ) (v : ℕ)
    → to_exact_integer d multiplier exponent ≡ ok v
    → (v * (10 ^ d.scale * 10 ^ neg_part exponent)
        ≡ d.mantissa * multiplier * 10 ^ pos_part exponent)
      × (0 < v)
      × (v < u128_mod)
unfolding to_exact_integer
to_exact_integer-ok d multiplier exponent v h =
    let (n, en, h₁) = >>=-eq-ok (checked_mul d.mantissa multiplier) _ h in
    let (m, em, h₂) = >>=-eq-ok (checked_power 10 d.scale) _ h₁ in
    let (n', en', h₃) = >>=-eq-ok (scaled_up exponent n) _ h₂ in
    let (m', em', h₄) = >>=-eq-ok (scaled_down exponent m) _ h₃ in
    let (n_is, n_fits) = checked_mul-ok d.mantissa multiplier n en in
    let (n'_is, n'_fits) = scaled_up-ok exponent n n' n_fits en' in
    let (exact, positive, fits) = exact_quotient-ok n' m' v n'_fits h₄ in
    (
      rw
          (
            ← n_is,
            ← n'_is,
            ← (checked_power-ok 10 d.scale m em).0,
            ← scaled_down-ok exponent m m' em',
          )
          exact,
      positive,
      fits,
    )
