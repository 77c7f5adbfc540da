-- ===== src/Progress/Steps.antt =====
-- How one step of a phase starts, advances and ends: sandbox/core/src/progress/fold.rs.
use digdir_agents.Base.{
  ◌==◌, if◌then◌else◌, length, drop, ℕ, ◌+◌, String, Option, none, some, List, [], ◌∷◌, ◌++◌,
}
use digdir_agents.Progress.{StepId, Outcome, ProgressUnit}
use digdir_agents.Progress.State.{
  finished_steps_limit, Measurement, FinishedStep, ActiveStep, ActivePhase, Progress, since,
}
use mathlib.Core.Option

-- `Progress::active_step`, within the current phase.
unfoldable pub find_step : StepId → List ActiveStep → Option ActiveStep
find_step id [] = none
find_step id (s ∷ ss) = if s.id == id then some s else find_step id ss

-- The first step with an id, and the steps without it.
unfoldable pub take_step : StepId → List ActiveStep → Option (ActiveStep × List ActiveStep)
take_step id [] = none
take_step id (s ∷ ss) =
    let rest = take_step id ss in
    if s.id == id then some (s, ss) else Option.map (λ r. (r.0, s ∷ r.1)) rest

abbrev pub elapsed_or : Option ℕ → ℕ → ℕ
elapsed_or none other = other
elapsed_or (some ms) other = ms

unfoldable pub finish_step : Outcome → Option ℕ → ℕ → ℕ → ActiveStep → FinishedStep
finish_step outcome elapsed now sequence s = record {
  name = s.name;
  outcome = outcome;
  elapsed_ms = elapsed_or elapsed (since s.started_at now);
  measurement = s.measurement;
  output_sequence = sequence;
}

-- A finished step enters the phase; the oldest one leaves where there are too many.
unfoldable pub retain_step : FinishedStep → List ActiveStep → ActivePhase → ActivePhase
retain_step f rest c =
    let full = length c.finished_steps == finished_steps_limit in
    record c {
      steps = rest;
      finished_steps = (if full then drop 1 c.finished_steps else c.finished_steps) ++ f ∷ [];
      omitted_steps = if full then c.omitted_steps + 1 else c.omitted_steps;
    }

abbrev pub end_taken :
    Outcome → Option ℕ → ℕ → ℕ → ActivePhase → Option (ActiveStep × List ActiveStep) → ActivePhase
end_taken outcome elapsed now sequence c none = c
end_taken outcome elapsed now sequence c (some (s, rest)) =
    retain_step (finish_step outcome elapsed now sequence s) rest c

unfoldable pub end_step_in : StepId → Outcome → Option ℕ → ℕ → ℕ → ActivePhase → ActivePhase
end_step_in id outcome elapsed now sequence c =
    end_taken outcome elapsed now sequence c (take_step id c.steps)

-- `Progress::end_step`.
unfoldable pub end_step : StepId → Outcome → Option ℕ → ℕ → Progress → Progress
unfolding end_step_in
end_step id outcome elapsed now p = record p {
  current = Option.map (end_step_in id outcome elapsed now p.output.next_sequence) p.current;
}

-- The first step with an id, changed.
unfoldable pub update_step : StepId → (ActiveStep → ActiveStep) → List ActiveStep → List ActiveStep
update_step id f [] = []
update_step id f (s ∷ ss) = if s.id == id then f s ∷ ss else s ∷ update_step id f ss

abbrev pub or_else : Option ℕ → Option ℕ → Option ℕ
or_else (some a) other = some a
or_else none other = other

abbrev pub measured : Option ProgressUnit → ℕ → Option ℕ → ActiveStep → ActiveStep
measured none done total s = s
measured (some unit) done total s = record s {
  measurement = some (record {
    unit = unit;
    completed = done;
    total = or_else total (Option.bind s.measurement (λ m. m.total));
  });
}

-- A step's quantity advances; a step that started without a unit has none.
unfoldable pub measure : ℕ → Option ℕ → ActiveStep → ActiveStep
measure done total s = measured s.unit done total s

unfoldable pub measure_step : StepId → ℕ → Option ℕ → ActivePhase → ActivePhase
measure_step id done total c = record c { steps = update_step id (measure done total) c.steps }

abbrev pub initial_measurement : Option ProgressUnit → Option ℕ → Option Measurement
initial_measurement (some unit) (some total) =
    some (record { unit = unit; completed = 0; total = some total })
initial_measurement _ _ = none

unfoldable pub start_step :
    StepId → String → Option ProgressUnit → Option ℕ → ℕ → ActivePhase → ActivePhase
start_step id name unit total now c = record c {
  steps =
      c.steps
      ++ record {
        id = id;
        name = name;
        started_at = now;
        measurement = initial_measurement unit total;
        unit = unit;
      }
        ∷ [];
}
