-- ===== src/Progress/Fold/Totals.antt =====
-- No event loses a step or a phase: `Progress::apply` of sandbox/core/src/progress/fold.rs, over
-- all events and over whole runs of them.
use mathlib.Core.Option
use digdir_agents.Base.{
  Bool-cases, length, length-append, ℕ, ◌+◌, String, ◌≡◌, refl, ap, inl, inr, Option, none, some,
  List, [], ◌∷◌, ◌++◌, arith,
}
use digdir_agents.Progress.{
  Phase, phase_eq, StepId, Outcome, failed, ProgressUnit, OutputStream, ProgressEvent,
  phase_started, phase_ended, step_started, step_progress, step_output, step_ended,
}
use digdir_agents.Progress.Output.{Key, flush}
use digdir_agents.Progress.State.{FinishedPhase, ActiveStep, ActivePhase, Progress, milliseconds}
use digdir_agents.Progress.Steps.{
  find_step, end_step_in, end_step, measure, measure_step, start_step,
}
use digdir_agents.Progress.Fold.{close_unfinished, start_phase, end_matching, write_output, apply}
use digdir_agents.Progress.Fold.Accounting.{
  accounted, accounted_current, accounted_phases, total_steps, open_phases, total_phases,
  starts_step, starts_phase, accounted-end_step_in, accounted-update_step,
}
use digdir_agents.Progress.Fold.Closing.{PhaseEnds, end_phase-PhaseEnds, close-PhaseEnds}

pub accounted_phases-append :
    (fs : List FinishedPhase) (f : FinishedPhase)
    → accounted_phases (fs ++ f ∷ []) ≡ accounted_phases fs + (length f.steps + f.omitted_steps)
accounted_phases-append [] f = omega arith
accounted_phases-append (x ∷ fs) f = omega (arith, accounted_phases-append fs f)

-- A phase that ends takes its steps with it, and stays one phase.
pub PhaseEnds-totals :
    (p q : Progress) (c : ActivePhase) (outcome : Outcome) (ms : ℕ)
    → p.current ≡ some c
    → PhaseEnds p q c outcome ms
    → (total_steps q ≡ total_steps p) × (total_phases q ≡ total_phases p)
PhaseEnds-totals p q c outcome ms e h = (
  rw (e, h.closed, h.appended)
      (omega (arith, accounted_phases-append p.finished h.last, h.same_total)),
  rw (e, h.closed, h.appended) (omega (arith, length-append p.finished (h.last ∷ []))),
)

abbrev SameTotals : Progress → Progress → Type 0
SameTotals p q = (total_steps q ≡ total_steps p) × (total_phases q ≡ total_phases p)

accounted-map :
    (f : ActivePhase → ActivePhase) (o : Option ActivePhase)
    → ((c : ActivePhase) → accounted (f c) ≡ accounted c)
    → accounted_current (Option.map f o) ≡ accounted_current o
accounted-map f none h = refl
accounted-map f (some c) h = h c

open_phases-map :
    (f : ActivePhase → ActivePhase) (o : Option ActivePhase)
    → open_phases (Option.map f o) ≡ open_phases o
open_phases-map f none = refl
open_phases-map f (some c) = refl

started_steps :
    (id : StepId) (name : String) (unit : Option ProgressUnit) (total : Option ℕ) (now : ℕ)
    (o : Option ActivePhase)
    → accounted_current (Option.map (start_step id name unit total now) o)
      ≡ accounted_current o + starts_step (step_started id name unit total) o
unfolding start_step
started_steps id name unit total now none = omega arith
started_steps id name unit total now (some c) = omega (arith, length-append {0} c.steps)

module _ (order : List Key → List Key) where
  end_matching-SameTotals :
      (o : Option ActivePhase) (phase : Phase) (outcome : Outcome) (elapsed now : ℕ) (p : Progress)
      → p.current ≡ o
      → SameTotals p (end_matching order o phase outcome elapsed now p)
  end_matching-SameTotals none phase outcome elapsed now p e = (refl, refl)
  end_matching-SameTotals (some c) phase outcome elapsed now p e =
      elim (Bool-cases (phase_eq c.phase phase)) [
        | inl same ↦
            rw same
              (PhaseEnds-totals p _ c outcome _ e (end_phase-PhaseEnds order outcome _ now p c e))
        | inr other ↦ rw other (refl, refl)
      ]

  close_unfinished_totals :
      (o : Option ActivePhase) (now : ℕ) (p : Progress)
      → p.current ≡ o
      → (accounted_phases (close_unfinished order o now p).finished ≡ total_steps p)
        × (length (close_unfinished order o now p).finished ≡ total_phases p)
  close_unfinished_totals none now p e = rw e (omega arith, omega arith)
  close_unfinished_totals (some c) now p e =
      let h = close-PhaseEnds order failed now p c e in
      rw h.appended (
        omega (
          arith,
          accounted_phases-append p.finished h.last,
          h.same_total,
          ap accounted_current e,
        ),
        omega (arith, length-append p.finished (h.last ∷ []), ap open_phases e),
      )

  write_output-SameTotals :
      (o : Option ActiveStep) (id : StepId) (stream : OutputStream) (bs : List ℕ) (p : Progress)
      → SameTotals p (write_output order o id stream bs p)
  write_output-SameTotals none id stream bs p = (refl, refl)
  write_output-SameTotals (some s) id stream bs p = (refl, refl)

  -- An event adds the step and the phase that it starts, and loses none.
  pub apply_totals :
      (now : ℕ) (e : ProgressEvent) (p : Progress)
      → (total_steps (apply order now e p) ≡ total_steps p + starts_step e p.current)
        × (total_phases (apply order now e p) ≡ total_phases p + starts_phase e)
  unfolding apply start_phase end_step measure_step
  apply_totals now (phase_started phase) p =
      let (steps, phases) = close_unfinished_totals p.current now p refl in
      (omega (arith, steps), omega (arith, phases))
  apply_totals now (phase_ended phase outcome elapsed) p =
      let (steps, phases) = end_matching-SameTotals p.current phase outcome elapsed now p refl in
      (omega (arith, steps), omega (arith, phases))
  apply_totals now (step_started id name unit total) p = (
    omega (arith, started_steps id name unit total now p.current),
    omega (arith, open_phases-map (start_step id name unit total now) p.current),
  )
  apply_totals now (step_progress id done total) p = (
    omega (
      arith,
      accounted-map (measure_step id done total) p.current
          (λ c. omega (arith, accounted-update_step id (measure done total) c.steps)),
    ),
    omega (arith, open_phases-map (measure_step id done total) p.current),
  )
  apply_totals now (step_output id stream bs) p =
      let (steps, phases) =
        write_output-SameTotals (Option.bind p.current (λ c. find_step id c.steps)) id stream bs
          p in
      (omega (arith, steps), omega (arith, phases))
  apply_totals now (step_ended id outcome elapsed) p =
      let ended =
        end_step_in id outcome (some (milliseconds elapsed)) now
          (flush order (some id) p.output).next_sequence in
      (
        omega (arith, accounted-map ended p.current (accounted-end_step_in id outcome _ now _)),
        omega (arith, open_phases-map ended p.current),
      )
