-- ===== src/Progress/Fold/Accounting.antt =====
-- Every step that a phase starts is accounted for, and every phase ends once:
-- sandbox/core/src/progress/fold.rs.
use digdir_agents.Base.{
  ◌==◌, tests, Bool-cases, Option-cases, length, drop, length-append, length-drop, ℕ, suc, ◌+◌, ◌≡◌,
  refl, inl, inr, Option, none, some, List, [], ◌∷◌, arith,
}
use digdir_agents.Progress.{StepId, Outcome, ProgressEvent, phase_started, step_started}
use digdir_agents.Progress.State.{
  finished_steps_limit, FinishedStep, FinishedPhase, ActiveStep, ActivePhase, Progress,
}
use digdir_agents.Progress.Steps.{
  take_step, finish_step, retain_step, end_taken, end_step_in, update_step,
}

-- The steps of a phase: open, finished and retained, finished and no longer retained.
abbrev pub accounted : ActivePhase → ℕ
accounted c = length c.steps + length c.finished_steps + c.omitted_steps

abbrev pub accounted_current : Option ActivePhase → ℕ
accounted_current none = 0
accounted_current (some c) = accounted c

abbrev pub accounted_phases : List FinishedPhase → ℕ
accounted_phases [] = 0
accounted_phases (f ∷ fs) = length f.steps + f.omitted_steps + accounted_phases fs

abbrev pub total_steps : Progress → ℕ
total_steps p = accounted_phases p.finished + accounted_current p.current

abbrev pub open_phases : Option ActivePhase → ℕ
open_phases none = 0
open_phases (some c) = 1

abbrev pub total_phases : Progress → ℕ
total_phases p = length p.finished + open_phases p.current

-- Whether an event starts a step that is shown: one within a phase.
abbrev pub starts_step : ProgressEvent → Option ActivePhase → ℕ
starts_step (step_started id name unit total) (some c) = 1
starts_step _ _ = 0

abbrev pub starts_phase : ProgressEvent → ℕ
starts_phase (phase_started phase) = 1
starts_phase _ = 0

take_step-length :
    (id : StepId) (ss : List ActiveStep) {s : ActiveStep} {rest : List ActiveStep}
    → take_step id ss ≡ some (s, rest)
    → length ss ≡ suc (length rest)
unfolding take_step
take_step-length id [] e = cc
take_step-length id (x ∷ ss) {s} {rest} e = elim (Bool-cases (x.id == id)) [
  | inl found ↦ ground arith
  | inr other ↦ elim (Option-cases (take_step id ss)) [
    | inl gone ↦ ground arith
    | inr (r, there) ↦ ground (arith, take_step-length id ss {s = r.0} {rest = r.1} there)
  ]
]

pub accounted-retain_step :
    (f : FinishedStep) (rest : List ActiveStep) (c : ActivePhase)
    → accounted (retain_step f rest c) ≡ length rest + length c.finished_steps + c.omitted_steps + 1
unfolding retain_step
accounted-retain_step f rest c =
    elim (Bool-cases (length c.finished_steps == finished_steps_limit)) [
      | inl full ↦ rw full (
          omega (
            tests,
            full,
            length-append (drop 1 c.finished_steps) (f ∷ []),
            length-drop 1 c.finished_steps,
          ))
      | inr room ↦ rw room (omega (arith, length-append c.finished_steps (f ∷ [])))
    ]

-- Ending a step moves it from the open ones to the finished ones, where it is open at all.
pub accounted-end_step_in :
    (id : StepId) (outcome : Outcome) (elapsed : Option ℕ) (now sequence : ℕ) (c : ActivePhase)
    → accounted (end_step_in id outcome elapsed now sequence c) ≡ accounted c
unfolding end_step_in
accounted-end_step_in id outcome elapsed now sequence c =
    elim (Option-cases (take_step id c.steps)) [
      | inl absent ↦ rw (absent, end_taken)
      | inr (r, there) ↦
          rw (there, end_taken)
            (omega (
              arith,
              accounted-retain_step (finish_step outcome elapsed now sequence r.0) r.1 c,
              take_step-length id c.steps {s = r.0} {rest = r.1} there,
            ))
    ]

pub take_step-head :
    (s : ActiveStep) (ss : List ActiveStep) → take_step s.id (s ∷ ss) ≡ some (s, ss)
unfolding take_step
take_step-head s ss = ground arith

pub accounted-update_step :
    (id : StepId) (f : ActiveStep → ActiveStep) (ss : List ActiveStep)
    → length (update_step id f ss) ≡ length ss
unfolding update_step
accounted-update_step id f [] = refl
accounted-update_step id f (s ∷ ss) = ground (arith, accounted-update_step id f ss)
