-- ===== src/Progress/Fold/Bounds.antt =====
-- What an operation's progress retains is bounded, whatever events it sees:
-- sandbox/core/src/progress/fold.rs.
use mathlib.Core.Option
use digdir_agents.Base.{
  ◌==◌, Bool-cases, length, drop, length-append, length-drop, All, All-append, ℕ, ◌≤◌, String, inl,
  inr, Option, none, some, List, [], ◌∷◌, arith,
}
use digdir_agents.Progress.{
  Phase, phase_eq, StepId, Outcome, failed, OutputStream, ProgressEvent, phase_started, phase_ended,
  step_started, step_progress, step_output, step_ended,
}
use digdir_agents.Progress.Output.{Key, flush}
use digdir_agents.Progress.State.{
  finished_steps_limit, FinishedStep, FinishedPhase, ActiveStep, ActivePhase, Progress,
}
use digdir_agents.Progress.Steps.{
  take_step, retain_step, end_taken, end_step, measure_step, start_step,
}
use digdir_agents.Progress.Fold.{
  finish_phase, take_current, open_ids, end_open, end_phase, close_current, close, succeed, fail,
  close_unfinished, start_phase, end_matching, write_output, apply,
}
use digdir_agents.Progress.Output.Bounds.{append-IsValid, flush-IsValid}
use digdir_agents.Progress.Output.Bounds

abbrev pub Fits : ActivePhase → Type 0
Fits c = length c.finished_steps ≤ finished_steps_limit

abbrev pub FitsCurrent : Option ActivePhase → Type 0
FitsCurrent none = Unit {0}
FitsCurrent (some c) = Fits c

pub record IsValid (p : Progress) : Type 0 where
  pub output : Bounds.IsValid p.output
  pub phases : All (λ f. length f.steps ≤ finished_steps_limit) p.finished
  pub current : FitsCurrent p.current

retain_step-Fits :
    (f : FinishedStep) (rest : List ActiveStep) (c : ActivePhase)
    → Fits c
    → Fits (retain_step f rest c)
unfolding retain_step
retain_step-Fits f rest c h = elim (Bool-cases (length c.finished_steps == finished_steps_limit)) [
  | inl full ↦ rw full (
      omega (
        arith,
        h,
        length-append (drop 1 c.finished_steps) (f ∷ []),
        length-drop 1 c.finished_steps,
      ))
  | inr room ↦ rw room (ground (arith, room, length-append c.finished_steps (f ∷ [])))
]

end_taken-Fits :
    (outcome : Outcome) (elapsed : Option ℕ) (now sequence : ℕ) (c : ActivePhase)
    (o : Option (ActiveStep × List ActiveStep))
    → Fits c
    → Fits (end_taken outcome elapsed now sequence c o)
end_taken-Fits outcome elapsed now sequence c none h = h
end_taken-Fits outcome elapsed now sequence c (some (s, rest)) h = retain_step-Fits _ rest c h

map-FitsCurrent :
    (f : ActivePhase → ActivePhase) (o : Option ActivePhase)
    → ((c : ActivePhase) → Fits c → Fits (f c))
    → FitsCurrent o
    → FitsCurrent (Option.map f o)
map-FitsCurrent f none h k = tt
map-FitsCurrent f (some c) h k = h c k

end_step-IsValid :
    (id : StepId) (outcome : Outcome) (elapsed : Option ℕ) (now : ℕ) (p : Progress)
    → IsValid p
    → IsValid (end_step id outcome elapsed now p)
unfolding end_step
end_step-IsValid id outcome elapsed now p v = record {
  output = v.output;
  phases = v.phases;
  current =
      map-FitsCurrent _ p.current
        (λ c h.
          end_taken-Fits outcome elapsed now p.output.next_sequence c (take_step id c.steps) h)
        v.current;
}

module _ (order : List Key → List Key) where
  flush_step-IsValid :
      (id : Option StepId) (p : Progress)
      → IsValid p
      → IsValid (record p { output = flush order id p.output })
  flush_step-IsValid id p v = record {
    output = flush-IsValid order id p.output v.output;
    phases = v.phases;
    current = v.current;
  }

  end_open-IsValid :
      (ids : List StepId) (now : ℕ) (p : Progress) → IsValid p → IsValid (end_open order ids now p)
  unfolding end_open
  end_open-IsValid [] now p v = v
  end_open-IsValid (id ∷ ids) now p v =
      end_open-IsValid ids now _
        (end_step-IsValid id failed none now _ (flush_step-IsValid (some id) p v))

  take_current-IsValid :
      (o : Option ActivePhase) (outcome : Outcome) (ms : ℕ) (p : Progress)
      → FitsCurrent o
      → IsValid p
      → IsValid (take_current o outcome ms p)
  take_current-IsValid none outcome ms p h v = v
  take_current-IsValid (some c) outcome ms p h v = record {
    output = v.output;
    phases =
        All-append (λ (f : FinishedPhase). length f.steps ≤ finished_steps_limit) p.finished
          (finish_phase outcome ms p.output.next_sequence c ∷ []) v.phases (h, tt);
    current = tt;
  }

  end_phase-IsValid :
      (outcome : Outcome) (ms now : ℕ) (p : Progress)
      → IsValid p
      → IsValid (end_phase order outcome ms now p)
  unfolding end_phase
  end_phase-IsValid outcome ms now p v =
      let w = end_open-IsValid (open_ids p.current) now p v in
      take_current-IsValid _ outcome ms _ w.current w

  close_current-IsValid :
      (o : Option ActivePhase) (outcome : Outcome) (now : ℕ) (p : Progress)
      → IsValid p
      → IsValid (close_current order o outcome now p)
  close_current-IsValid none outcome now p v = v
  close_current-IsValid (some c) outcome now p v = end_phase-IsValid outcome _ now p v

  close-IsValid :
      (outcome : Outcome) (now : ℕ) (p : Progress) → IsValid p → IsValid (close order outcome now p)
  unfolding close
  close-IsValid outcome now p v =
      close_current-IsValid p.current outcome now _ (flush_step-IsValid none p v)

  close_unfinished-IsValid :
      (o : Option ActivePhase) (now : ℕ) (p : Progress)
      → IsValid p
      → IsValid (close_unfinished order o now p)
  close_unfinished-IsValid none now p v = v
  close_unfinished-IsValid (some c) now p v = close-IsValid failed now p v

  end_matching-IsValid :
      (o : Option ActivePhase) (phase : Phase) (outcome : Outcome) (elapsed now : ℕ) (p : Progress)
      → IsValid p
      → IsValid (end_matching order o phase outcome elapsed now p)
  end_matching-IsValid none phase outcome elapsed now p v = v
  end_matching-IsValid (some c) phase outcome elapsed now p v =
      elim (Bool-cases (phase_eq c.phase phase)) [
        | inl same ↦ rw same (end_phase-IsValid outcome _ now p v)
        | inr other ↦ rw other v
      ]

  write_output-IsValid :
      (o : Option ActiveStep) (id : StepId) (stream : OutputStream) (bs : List ℕ) (p : Progress)
      → IsValid p
      → IsValid (write_output order o id stream bs p)
  write_output-IsValid none id stream bs p v = v
  write_output-IsValid (some s) id stream bs p v = record {
    output = append-IsValid id s.name stream bs p.output v.output;
    phases = v.phases;
    current = v.current;
  }

  -- Every event keeps the progress within its limits.
  pub apply-IsValid :
      (now : ℕ) (e : ProgressEvent) (p : Progress) → IsValid p → IsValid (apply order now e p)
  unfolding apply start_phase measure_step start_step
  apply-IsValid now (phase_started phase) p v =
      let w = close_unfinished-IsValid p.current now p v in
      record { output = w.output; phases = w.phases; current = omega arith }
  apply-IsValid now (phase_ended phase outcome elapsed) p v =
      end_matching-IsValid p.current phase outcome elapsed now p v
  apply-IsValid now (step_started id name unit total) p v = record {
    output = v.output;
    phases = v.phases;
    current = map-FitsCurrent _ p.current (λ c h. h) v.current;
  }
  apply-IsValid now (step_progress id done total) p v = record {
    output = v.output;
    phases = v.phases;
    current = map-FitsCurrent _ p.current (λ c h. h) v.current;
  }
  apply-IsValid now (step_output id stream bs) p v = write_output-IsValid _ id stream bs p v
  apply-IsValid now (step_ended id outcome elapsed) p v =
      end_step-IsValid id outcome _ now _ (flush_step-IsValid (some id) p v)

  pub succeed-IsValid : (now : ℕ) (p : Progress) → IsValid p → IsValid (succeed order now p)
  unfolding succeed
  succeed-IsValid now p v =
      let w = close-IsValid Outcome.completed now p v in
      record { output = w.output; phases = w.phases; current = w.current }

  pub fail-IsValid :
      (detail : String) (now : ℕ) (p : Progress) → IsValid p → IsValid (fail order detail now p)
  unfolding fail
  fail-IsValid detail now p v =
      let w = close-IsValid failed now p v in
      record { output = w.output; phases = w.phases; current = w.current }
