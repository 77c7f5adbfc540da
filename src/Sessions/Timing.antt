-- ===== src/Sessions/Timing.antt =====
-- The waits of the session reconciler: agentctl/src/sessions/reconciler.rs.
use digdir_agents.Base.{
  ltb, leb, ◌==◌, if◌then◌else◌, ℕ, zero, suc, ◌-◌, ◌*◌, ◌^◌, ◌≤◌, ◌≡◌, refl, sym, ◌∙◌, false,
  Option, none, some, arith,
}
use digdir_agents.Sessions.Activity.{Activity}

abbrev pub healthy_after_seconds : ℕ
healthy_after_seconds = 60

abbrev pub max_backoff_seconds : ℕ
max_backoff_seconds = 600

abbrev pub idle_after_seconds : ℕ
idle_after_seconds = 30 * 60

abbrev pub archive_turn_quiet_seconds : ℕ
archive_turn_quiet_seconds = 60

abbrev pub smaller : ℕ → ℕ → ℕ
smaller a b = if leb a b then a else b

abbrev idle_since : Option ℕ → ℕ → ℕ → ℕ
idle_since none runtime_idle now = runtime_idle
idle_since (some at) runtime_idle now = smaller runtime_idle (now - at)

-- `effective_idle_seconds`; a time ahead of the clock counts as now.
unfoldable pub effective_idle_seconds : Activity → ℕ → ℕ → ℕ
effective_idle_seconds activity runtime_idle now =
    idle_since activity.last_event_at runtime_idle now

abbrev pub bounded_wait : ℕ → ℕ
bounded_wait wait = if ltb max_backoff_seconds wait then max_backoff_seconds else wait

-- `backoff_seconds`.
unfoldable pub backoff_seconds : ℕ → ℕ
backoff_seconds attempts =
    if attempts == 0 then 0 else bounded_wait (10 * 2 ^ smaller (attempts - 1) 6)

-- The wait without the limit on its exponent, which doubles with each attempt.
unfoldable pub doubled : ℕ → ℕ
doubled zero = 10
doubled (suc n) = 2 * doubled n

doubled_lower : (n : ℕ) → 640 ≤ doubled (suc (suc (suc (suc (suc (suc n))))))
unfolding doubled
doubled_lower zero = omega arith
doubled_lower (suc n) = omega (arith, doubled_lower n)

long_wait : (wait : ℕ) → 640 ≤ wait → bounded_wait wait ≡ max_backoff_seconds
long_wait wait h = ground arith

many_attempts : (n : ℕ) → 7 ≤ n → backoff_seconds n ≡ max_backoff_seconds
unfolding backoff_seconds
many_attempts n h =
    let some_attempt : (n == 0) ≡ false = ground arith in
    let most : smaller (n - 1) 6 ≡ 6 = ground arith in rw (some_attempt, most) refl

-- A harness that exits again and again waits ten seconds, then twice as long each time, and never longer
-- than ten minutes.
pub backoff_lem : (n : ℕ) → backoff_seconds (suc n) ≡ bounded_wait (doubled n)
unfolding backoff_seconds doubled
backoff_lem zero = refl
backoff_lem (suc zero) = refl
backoff_lem (suc (suc zero)) = refl
backoff_lem (suc (suc (suc zero))) = refl
backoff_lem (suc (suc (suc (suc zero)))) = refl
backoff_lem (suc (suc (suc (suc (suc zero))))) = refl
backoff_lem (suc (suc (suc (suc (suc (suc n)))))) =
    let n' = suc (suc (suc (suc (suc (suc n))))) in
    many_attempts (suc n') (omega arith) ∙ sym (long_wait (doubled n') (doubled_lower n))
