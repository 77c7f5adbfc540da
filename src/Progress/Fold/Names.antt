-- ===== src/Progress/Fold/Names.antt =====
-- The phases of an operation in the order in which they start: `Progress::apply` of
-- sandbox/core/src/progress/fold.rs.

use mathlib.Core.Option
use mathlib.Core.List.{append-nil, map-append}
use digdir_agents.Base.{
  Bool-cases, Option-cases, ℕ, ◌≡◌, refl, sym, ap, ◌∙◌, inl, inr, Option, none, some, List, [], ◌∷◌,
  ◌++◌, map,
}
use digdir_agents.Progress.{
  Phase, phase_eq, StepId, Outcome, failed, OutputStream, ProgressEvent, phase_started, phase_ended,
  step_started, step_progress, step_output, step_ended,
}
use digdir_agents.Progress.Output.{Key}
use digdir_agents.Progress.State.{FinishedPhase, ActiveStep, ActivePhase, Progress, milliseconds}
use digdir_agents.Progress.Steps.{
  retain_step, end_taken, end_step_in, end_step, measure_step, start_step,
}
use digdir_agents.Progress.Fold.{
  close_current, close, close_unfinished, start_phase, end_matching, write_output, apply,
}
use digdir_agents.Progress.Fold.Closing.{PhaseEnds, end_phase-PhaseEnds, close-PhaseEnds}

abbrev pub finished_names : List FinishedPhase → List Phase
finished_names fs = map (λ f. f.phase) fs

abbrev pub open_name : Option ActivePhase → List Phase
open_name none = []
open_name (some c) = c.phase ∷ []

-- The finished phases, and the one that is open.
abbrev pub names : Progress → List Phase
names p = finished_names p.finished ++ open_name p.current

-- The phase that an event starts.
abbrev pub begun : ProgressEvent → List Phase
begun (phase_started phase) = phase ∷ []
begun _ = []

PhaseEnds-names :
    (p q : Progress) (c : ActivePhase) (outcome : Outcome) (ms : ℕ)
    → p.current ≡ some c
    → PhaseEnds p q c outcome ms
    → finished_names q.finished ≡ names p
PhaseEnds-names p q c outcome ms e h =
    rw (e, h.appended)
      (map-append (λ f. f.phase) p.finished (h.last ∷ [])
        ∙ ap (λ x. finished_names p.finished ++ x ∷ []) h.same_phase)

open_name-map :
    (f : ActivePhase → ActivePhase) (o : Option ActivePhase)
    → ((c : ActivePhase) → (f c).phase ≡ c.phase)
    → open_name (Option.map f o) ≡ open_name o
open_name-map f none h = refl
open_name-map f (some c) h = ap (λ x. x ∷ []) (h c)

end_taken_phase :
    (outcome : Outcome) (elapsed : Option ℕ) (now sequence : ℕ) (c : ActivePhase)
    (o : Option (ActiveStep × List ActiveStep))
    → (end_taken outcome elapsed now sequence c o).phase ≡ c.phase
unfolding retain_step
end_taken_phase outcome elapsed now sequence c none = refl
end_taken_phase outcome elapsed now sequence c (some (s, rest)) = refl

-- No phase begins, and those that have begun stay.
abbrev SameNames : Progress → Progress → Type 0
SameNames p q = names q ≡ names p ++ []

module _ (order : List Key → List Key) where
  pub close_names :
      (outcome : Outcome) (now : ℕ) (p : Progress)
      → finished_names (close order outcome now p).finished ≡ names p
  unfolding close
  close_names outcome now p = elim (Option-cases p.current) [
    | inl idle ↦ rw (idle, close_current) (sym (append-nil (finished_names p.finished)))
    | inr (c, busy) ↦
        PhaseEnds-names p _ c outcome _ busy (close-PhaseEnds order outcome now p c busy)
  ]

  close_unfinished_names :
      (o : Option ActivePhase) (now : ℕ) (p : Progress)
      → p.current ≡ o
      → finished_names (close_unfinished order o now p).finished ≡ names p
  close_unfinished_names none now p e = rw e (sym (append-nil (finished_names p.finished)))
  close_unfinished_names (some c) now p e = close_names failed now p

  end_matching_names :
      (o : Option ActivePhase) (phase : Phase) (outcome : Outcome) (elapsed now : ℕ) (p : Progress)
      → p.current ≡ o
      → SameNames p (end_matching order o phase outcome elapsed now p)
  end_matching_names none phase outcome elapsed now p e = sym (append-nil (names p))
  end_matching_names (some c) phase outcome elapsed now p e =
      elim (Bool-cases (phase_eq c.phase phase)) [
        | inl same ↦
            let h = end_phase-PhaseEnds order outcome (milliseconds elapsed) now p c e in
            rw (same, h.closed)
              (ap (λ x. x ++ []) (PhaseEnds-names p _ c outcome (milliseconds elapsed) e h))
        | inr other ↦ rw other (sym (append-nil (names p)))
      ]

  write_output_names :
      (o : Option ActiveStep) (id : StepId) (stream : OutputStream) (bs : List ℕ) (p : Progress)
      → SameNames p (write_output order o id stream bs p)
  write_output_names none id stream bs p = sym (append-nil (names p))
  write_output_names (some s) id stream bs p = sym (append-nil (names p))

  mapped_names :
      (f : ActivePhase → ActivePhase) (p : Progress)
      → ((c : ActivePhase) → (f c).phase ≡ c.phase)
      → finished_names p.finished ++ open_name (Option.map f p.current) ≡ names p ++ []
  mapped_names f p h =
      ap (λ x. finished_names p.finished ++ x) (open_name-map f p.current h)
      ∙ sym (append-nil (names p))

  -- An event adds the phase that it starts, behind those that have begun.
  pub apply_names :
      (now : ℕ) (e : ProgressEvent) (p : Progress)
      → names (apply order now e p) ≡ names p ++ begun e
  unfolding apply start_phase end_step measure_step start_step end_step_in
  apply_names now (phase_started phase) p =
      ap (λ x. x ++ phase ∷ []) (close_unfinished_names p.current now p refl)
  apply_names now (phase_ended phase outcome elapsed) p =
      end_matching_names p.current phase outcome elapsed now p refl
  apply_names now (step_started id name unit total) p =
      mapped_names (start_step id name unit total now) p (λ c. refl)
  apply_names now (step_progress id done total) p =
      mapped_names (measure_step id done total) p (λ c. refl)
  apply_names now (step_output id stream bs) p = write_output_names _ id stream bs p
  apply_names now (step_ended id outcome elapsed) p =
      mapped_names _ p (λ c. end_taken_phase outcome _ now _ c _)
