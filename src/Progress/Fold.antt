-- ===== src/Progress/Fold.antt =====
-- What an operation's events mean: `Progress` of sandbox/core/src/progress/fold.rs. The time of a
-- call is an argument, `now`, where the code reads the clock: one reading for each event.
-- `order` is the order in which the map of unterminated lines lists its keys.
pub mod Accounting
pub mod Bounds
pub mod Closing
pub mod Order
pub mod Ordered
pub mod Totals
pub mod Ending
pub mod Names
use digdir_agents.Base.{
  leb, if◌then◌else◌, length, filter_by, ℕ, ◌+◌, String, Option, none, some, List, [], ◌∷◌, ◌++◌,
  map,
}
use digdir_agents.Progress.{
  Phase, phase_eq, StepId, Outcome, completed, failed, OutputStream, ProgressEvent, phase_started,
  phase_ended, step_started, step_progress, step_output, step_ended,
}
use digdir_agents.Progress.Output.{Key, tail, retained, append, flush}
use digdir_agents.Progress.State.{
  succeeded, failed_with, FinishedPhase, ActiveStep, ActivePhase, Progress, milliseconds, since,
}
use digdir_agents.Progress.Steps.{find_step, end_step, measure_step, start_step}
use mathlib.Core.Option

abbrev pub finish_phase : Outcome → ℕ → ℕ → ActivePhase → FinishedPhase
finish_phase outcome elapsed_ms sequence c = record {
  phase = c.phase;
  outcome = outcome;
  elapsed_ms = elapsed_ms;
  steps = c.finished_steps;
  omitted_steps = c.omitted_steps;
  output_sequence = sequence;
}

abbrev pub take_current : Option ActivePhase → Outcome → ℕ → Progress → Progress
take_current none outcome elapsed_ms p = p
take_current (some c) outcome elapsed_ms p = record p {
  current = none;
  finished = p.finished ++ finish_phase outcome elapsed_ms p.output.next_sequence c ∷ [];
}

abbrev pub open_ids : Option ActivePhase → List StepId
open_ids none = []
open_ids (some c) = map (λ s. s.id) c.steps

module _ (order : List Key → List Key) where
  -- Each step that is still open ends as failed, its unterminated lines first.
  unfoldable pub end_open : List StepId → ℕ → Progress → Progress
  end_open [] now p = p
  end_open (id ∷ ids) now p =
      end_open ids now
        (end_step id failed none now (record p { output = flush order (some id) p.output }))

  -- `Progress::end_phase`.
  unfoldable pub end_phase : Outcome → ℕ → ℕ → Progress → Progress
  unfolding end_open
  end_phase outcome elapsed_ms now p =
      let q = end_open (open_ids p.current) now p in take_current q.current outcome elapsed_ms q

  abbrev pub close_current : Option ActivePhase → Outcome → ℕ → Progress → Progress
  close_current none outcome now p = p
  close_current (some c) outcome now p = end_phase outcome (since c.started_at now) now p

  -- `Progress::close`.
  unfoldable pub close : Outcome → ℕ → Progress → Progress
  close outcome now p =
      close_current p.current outcome now (record p { output = flush order none p.output })

  -- `Progress::succeed` and `Progress::fail`.
  unfoldable pub succeed : ℕ → Progress → Progress
  unfolding close
  succeed now p = record (close Outcome.completed now p) { status = succeeded }

  unfoldable pub fail : String → ℕ → Progress → Progress
  unfolding close
  fail detail now p = record (close failed now p) { status = failed_with detail }

  abbrev pub close_unfinished : Option ActivePhase → ℕ → Progress → Progress
  close_unfinished none now p = p
  close_unfinished (some c) now p = close failed now p

  -- `Progress::start_phase`.
  unfoldable pub start_phase : Phase → ℕ → Progress → Progress
  start_phase phase now p = record (close_unfinished p.current now p) {
    current = some (record {
      phase = phase;
      started_at = now;
      steps = [];
      finished_steps = [];
      omitted_steps = 0;
    });
  }

  abbrev pub end_matching : Option ActivePhase → Phase → Outcome → ℕ → ℕ → Progress → Progress
  end_matching none phase outcome elapsed now p = p
  end_matching (some c) phase outcome elapsed now p =
      if phase_eq c.phase phase then end_phase outcome (milliseconds elapsed) now p else p

  abbrev pub write_output : Option ActiveStep → StepId → OutputStream → List ℕ → Progress → Progress
  write_output none id stream bs p = p
  write_output (some s) id stream bs p = record p { output = append id s.name stream bs p.output }

  -- `Progress::apply`.
  unfoldable pub apply : ℕ → ProgressEvent → Progress → Progress
  unfolding start_phase end_phase
  apply now (phase_started phase) p = start_phase phase now p
  apply now (phase_ended phase outcome elapsed) p =
      end_matching p.current phase outcome elapsed now p
  apply now (step_started id name unit total) p = record p {
    current = Option.map (start_step id name unit total now) p.current;
  }
  apply now (step_progress id done total) p = record p {
    current = Option.map (measure_step id done total) p.current;
  }
  apply now (step_output id stream bs) p =
      write_output (Option.bind p.current (λ c. find_step id c.steps)) id stream bs p
  apply now (step_ended id outcome elapsed) p =
      end_step id outcome (some (milliseconds elapsed)) now
        (record p { output = flush order (some id) p.output })

abbrev pub summary_phase : FinishedPhase → FinishedPhase
summary_phase f = record f { steps = []; omitted_steps = f.omitted_steps + length f.steps }

abbrev pub summary_current : ActivePhase → ActivePhase
summary_current c = record c {
  finished_steps = [];
  omitted_steps = c.omitted_steps + length c.finished_steps;
}

-- `Progress::summary`.
unfoldable pub summary : ℕ → Progress → Progress
summary count p = record p {
  finished = map summary_phase p.finished;
  current = Option.map summary_current p.current;
  output = retained (tail count p.output) p.output.next_sequence;
}

-- `Progress::output_from`.
unfoldable pub output_from : ℕ → Progress → Progress
output_from sequence p = record p {
  output =
      retained (filter_by (λ l. leb sequence l.sequence) p.output.lines) p.output.next_sequence;
}
