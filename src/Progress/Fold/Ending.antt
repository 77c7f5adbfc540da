-- ===== src/Progress/Fold/Ending.antt =====
-- What is still open when an operation ends, ends with it: `Progress::close` of
-- sandbox/core/src/progress/fold.rs.
use digdir_agents.Base.{
  Option-cases, length, ℕ, ◌≡◌, refl, ap, ◌∙◌, inl, inr, Option, none, some, List, [], ◌∷◌, arith,
}
use digdir_agents.Progress.{StepId, Outcome}
use digdir_agents.Progress.Output.{Key}
use digdir_agents.Progress.Output.Flush.{IsListing, flush_all, flush_none}
use digdir_agents.Progress.State.{ActivePhase, Progress}
use digdir_agents.Progress.Steps.{end_step}
use digdir_agents.Progress.Fold.{take_current, open_ids, end_open, end_phase, close_current, close}
use digdir_agents.Progress.Fold.Accounting.{
  accounted_current, accounted_phases, total_steps, open_phases, total_phases,
}
use digdir_agents.Progress.Fold.Closing.{close-PhaseEnds}
use digdir_agents.Progress.Fold.Totals.{PhaseEnds-totals}

-- Every phase and step of `p` is among the finished ones of `q`.
pub record AllEnded (p q : Progress) : Type 0 where
  pub closed : q.current ≡ none
  pub phases : length q.finished ≡ total_phases p
  pub steps : accounted_phases q.finished ≡ total_steps p

module _ (order : List Key → List Key) where
  pub close-AllEnded :
      (outcome : Outcome) (now : ℕ) (p : Progress) → AllEnded p (close order outcome now p)
  unfolding close
  close-AllEnded outcome now p = elim (Option-cases p.current) [
    | inl idle ↦
        rw (idle, close_current)
          (record { closed = refl; phases = omega arith; steps = omega arith })
    | inr (c, busy) ↦
        let h = close-PhaseEnds order outcome now p c busy in
        let (steps, phases) = PhaseEnds-totals p _ c outcome _ busy h in
        record {
          closed = h.closed;
          phases = omega (arith, phases, ap open_phases h.closed);
          steps = omega (arith, steps, ap accounted_current h.closed);
        }
  ]

module _ (order : List Key → List Key) (complete : IsListing order) where
  end_open_partials :
      (ids : List StepId) (now : ℕ) (p : Progress)
      → p.output.partial ≡ []
      → (end_open order ids now p).output.partial ≡ []
  unfolding end_open end_step
  end_open_partials [] now p e = e
  end_open_partials (id ∷ ids) now p e =
      end_open_partials ids now _ (flush_none order complete (some id) p.output e)

  take_current_partials :
      (o : Option ActivePhase) (outcome : Outcome) (ms : ℕ) (p : Progress)
      → (take_current o outcome ms p).output.partial ≡ p.output.partial
  take_current_partials none outcome ms p = refl
  take_current_partials (some c) outcome ms p = refl

  close_current_partials :
      (o : Option ActivePhase) (outcome : Outcome) (now : ℕ) (p : Progress)
      → p.output.partial ≡ []
      → (close_current order o outcome now p).output.partial ≡ []
  unfolding end_phase
  close_current_partials none outcome now p e = e
  close_current_partials (some c) outcome now p e =
      take_current_partials _ outcome _ _ ∙ end_open_partials (open_ids p.current) now p e

  pub close_partials :
      (outcome : Outcome) (now : ℕ) (p : Progress) → (close order outcome now p).output.partial ≡ []
  unfolding close
  close_partials outcome now p =
      close_current_partials p.current outcome now _ (flush_all order complete p.output)
