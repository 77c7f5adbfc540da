-- ===== src/ControlPlane/Scheduler/Rounds.antt =====
-- How often the loop of `start_pending` goes round: agentctl/src/controller.rs.
use digdir_agents.Base.{
  ltb, Bool-cases, length, ℕ, zero, suc, ◌+◌, ◌≤◌, ◌≡◌, refl, inl, inr, false, Option, none, some,
  List, arith,
}
use digdir_agents.ControlPlane.Scheduler.{
  max_concurrent_reconciles, Entries, Scheduler, take_next, start_next, start_passes, start_pending,
}

no_room :
    (s : Scheduler)
    → max_concurrent_reconciles ≤ length s.running
    → ltb (length s.running) max_concurrent_reconciles ≡ false
no_room s h = ground (arith, h)

-- A round fills a slot, or is the last.
next_settled :
    (next : Option ((ℕ × List ℕ) × Entries)) (s : Scheduler) (f g : Scheduler → Scheduler)
    → ((s' : Scheduler) → length s'.running ≡ suc (length s.running) → f s' ≡ g s')
    → start_next next s f ≡ start_next next s g
next_settled none s f g h = refl
next_settled (some (entry, rest)) s f g h = h _ refl

rounds_settled :
    (n m : ℕ) (s : Scheduler)
    → max_concurrent_reconciles ≤ n + length s.running
    → max_concurrent_reconciles ≤ m + length s.running
    → start_passes n s ≡ start_passes m s
unfolding start_passes
rounds_settled zero zero s h k = refl
rounds_settled zero (suc m) s h k = rw (no_room s (omega (arith, h))) refl
rounds_settled (suc n) zero s h k = rw (no_room s (omega (arith, k))) refl
rounds_settled (suc n) (suc m) s h k =
    elim (Bool-cases (ltb (length s.running) max_concurrent_reconciles)) [
      | inl room ↦ rw room (
          next_settled (take_next s.running s.pending) s (start_passes n) (start_passes m)
            (λ s' e. rounds_settled n m s' (omega (arith, h, e)) (omega (arith, k, e))))
      | inr full ↦ rw full refl
    ]

-- The loop that starts pending passes ends by itself: given at least as many rounds as there are free
-- slots, it comes to what it comes to in sixteen.
pub start_passes-start_pending :
    (n : ℕ) (s : Scheduler)
    → max_concurrent_reconciles ≤ n + length s.running
    → start_passes n s ≡ start_pending s
unfolding start_pending
start_passes-start_pending n s enough =
    rounds_settled n max_concurrent_reconciles s enough (omega arith)
