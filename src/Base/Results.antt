-- ===== src/Base/Results.antt =====
-- Results of fallible code, and their chains.
use mathlib.Core.Path.{◌≡◌, refl}
use mathlib.Core.Logic.{◌⊎◌, inl, inr}
use mathlib.Core.Bool.{Bool, true, false}
use mathlib.Core.Option.{Option, none, some}

-- What fallible code returns: the error it stops with, or its value.
pub data Result (Failure Value : Type 0) : Type 0 where
  err : Failure → Result Failure Value
  ok : Value → Result Failure Value

-- `Result::map_err`.
abbrev pub map_err :
    {Failure Failure' Value : Type 0}
    → (Failure → Failure')
    → Result Failure Value
    → Result Failure' Value
map_err context (err failure) = err (context failure)
map_err context (ok value) = ok value

-- `Option::ok_or`.
abbrev pub ok_or : {Failure Value : Type 0} → Option Value → Failure → Result Failure Value
ok_or none failure = err failure
ok_or (some value) failure = ok value

-- An early return of an error where a test fails.
abbrev pub ensure : {Failure : Type 0} → Bool → Failure → Result Failure (Unit {0})
ensure false failure = err failure
ensure true failure = ok tt

infixl 5 ◌>>=◌ ◌>>◌
-- The `?` operator: an error ends the chain.
abbrev pub ◌>>=◌ :
    {Failure Value Value' : Type 0}
    → Result Failure Value
    → (Value → Result Failure Value')
    → Result Failure Value'
err failure >>= next = err failure
ok value >>= next = next value

abbrev pub ◌>>◌ :
    {Failure Value : Type 0}
    → Result Failure (Unit {0})
    → Result Failure Value
    → Result Failure Value
first >> second = first >>= λ _. second

pub Result-cases :
    {Failure Value : Type 0} (r : Result Failure Value)
    → ((e : Failure) × (r ≡ err e)) ⊎ ((v : Value) × (r ≡ ok v))
Result-cases (err e) = inl (e, refl)
Result-cases (ok v) = inr (v, refl)

-- What a chain that succeeded has passed through.
pub >>=-eq-ok :
    {Failure Value Value' : Type 0} (first : Result Failure Value)
    (next : Value → Result Failure Value') {result : Value'}
    → (first >>= next) ≡ ok result
    → (value : Value) × (first ≡ ok value) × (next value ≡ ok result)
>>=-eq-ok (err failure) next h = cc
>>=-eq-ok (ok value) next h = (value, refl, h)
