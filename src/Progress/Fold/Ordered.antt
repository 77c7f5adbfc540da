-- ===== src/Progress/Fold/Ordered.antt =====
-- Every event keeps what has finished in order: `Progress::apply` of
-- sandbox/core/src/progress/fold.rs.
use mathlib.Core.Option
use mathlib.Core.List.{append-nil}
use mathlib.Core.List.{append-nil}
use digdir_agents.Base.{Bool-cases, ℕ, ◌≡◌, refl, inl, inr, Option, none, some, List, [], ◌∷◌, ◌++◌}
use digdir_agents.Progress.{
  Phase, phase_eq, StepId, Outcome, failed, OutputStream, ProgressEvent, phase_started, phase_ended,
  step_started, step_progress, step_output, step_ended,
}
use digdir_agents.Progress.Output.{Key, flush}
use digdir_agents.Progress.Output.Growth.{append_next, flush_next}
use digdir_agents.Progress.State.{ActiveStep, ActivePhase, Progress, milliseconds, since}
use digdir_agents.Progress.Steps.{
  take_step, finish_step, end_taken, end_step, measure_step, start_step,
}
use digdir_agents.Progress.Fold.{
  take_current, open_ids, end_open, end_phase, close_current, close, close_unfinished, start_phase,
  end_matching, write_output, apply,
}
use digdir_agents.Progress.Fold.Order.{
  Rising, step_stamps, phase_stamps, current_stamps, stamps, IsOrdered, Rising-mono, Rising-snoc,
  phase_stamps-append, retain_step_ordered,
}
use digdir_agents.Progress.Fold.Closing.{close-PhaseEnds}

end_taken_ordered :
    (xs : List ℕ) (outcome : Outcome) (elapsed : Option ℕ) (now hi : ℕ) (c : ActivePhase)
    (o : Option (ActiveStep × List ActiveStep))
    → Rising 0 (xs ++ step_stamps c.finished_steps) hi
    → Rising 0 (xs ++ step_stamps (end_taken outcome elapsed now hi c o).finished_steps) hi
unfolding finish_step
end_taken_ordered xs outcome elapsed now hi c none r = r
end_taken_ordered xs outcome elapsed now hi c (some (s, rest)) r =
    retain_step_ordered xs (finish_step outcome elapsed now hi s) rest c hi refl r

map_ordered :
    (xs : List ℕ) (hi : ℕ) (f : ActivePhase → ActivePhase) (o : Option ActivePhase)
    → ((c : ActivePhase)
        → Rising 0 (xs ++ step_stamps c.finished_steps) hi
        → Rising 0 (xs ++ step_stamps (f c).finished_steps) hi)
    → Rising 0 (xs ++ current_stamps o) hi
    → Rising 0 (xs ++ current_stamps (Option.map f o)) hi
map_ordered xs hi f none h r = r
map_ordered xs hi f (some c) h r = h c r

end_step-IsOrdered :
    (id : StepId) (outcome : Outcome) (elapsed : Option ℕ) (now : ℕ) (p : Progress)
    → IsOrdered p
    → IsOrdered (end_step id outcome elapsed now p)
unfolding end_step
end_step-IsOrdered id outcome elapsed now p r =
    map_ordered (phase_stamps p.finished) p.output.next_sequence _ p.current
      (λ c h.
        end_taken_ordered (phase_stamps p.finished) outcome elapsed now p.output.next_sequence c
          (take_step id c.steps) h)
      r

take_current-IsOrdered :
    (o : Option ActivePhase) (outcome : Outcome) (ms : ℕ) (p : Progress)
    → p.current ≡ o
    → IsOrdered p
    → IsOrdered (take_current o outcome ms p)
take_current-IsOrdered none outcome ms p e r = r
take_current-IsOrdered (some c) outcome ms p e r =
    simp (append-nil, phase_stamps-append)
      (Rising-snoc 0 (phase_stamps p.finished ++ step_stamps c.finished_steps)
        p.output.next_sequence (rw e at r))

module _ (order : List Key → List Key) where
  flush_step-IsOrdered :
      (id : Option StepId) (p : Progress)
      → IsOrdered p
      → IsOrdered (record p { output = flush order id p.output })
  flush_step-IsOrdered id p r =
      Rising-mono 0 (stamps p) p.output.next_sequence _ (flush_next order id p.output) r

  end_open-IsOrdered :
      (ids : List StepId) (now : ℕ) (p : Progress)
      → IsOrdered p
      → IsOrdered (end_open order ids now p)
  unfolding end_open
  end_open-IsOrdered [] now p r = r
  end_open-IsOrdered (id ∷ ids) now p r =
      end_open-IsOrdered ids now _
        (end_step-IsOrdered id failed none now _ (flush_step-IsOrdered (some id) p r))

  end_phase-IsOrdered :
      (outcome : Outcome) (ms now : ℕ) (p : Progress)
      → IsOrdered p
      → IsOrdered (end_phase order outcome ms now p)
  unfolding end_phase
  end_phase-IsOrdered outcome ms now p r =
      take_current-IsOrdered _ outcome ms _ refl (end_open-IsOrdered (open_ids p.current) now p r)

  close_current-IsOrdered :
      (o : Option ActivePhase) (outcome : Outcome) (now : ℕ) (p : Progress)
      → IsOrdered p
      → IsOrdered (close_current order o outcome now p)
  close_current-IsOrdered none outcome now p r = r
  close_current-IsOrdered (some c) outcome now p r =
      end_phase-IsOrdered outcome (since c.started_at now) now p r

  pub close-IsOrdered :
      (outcome : Outcome) (now : ℕ) (p : Progress)
      → IsOrdered p
      → IsOrdered (close order outcome now p)
  unfolding close
  close-IsOrdered outcome now p r =
      close_current-IsOrdered p.current outcome now _ (flush_step-IsOrdered none p r)

  start_after :
      (o : Option ActivePhase) (now : ℕ) (p : Progress)
      → p.current ≡ o
      → IsOrdered p
      → Rising 0
          (phase_stamps (close_unfinished order o now p).finished ++ [])
          (close_unfinished order o now p).output.next_sequence
  start_after none now p e r = rw e at r
  start_after (some c) now p e r =
      rw (close-PhaseEnds order failed now p c e).closed at (close-IsOrdered failed now p r)

  end_matching-IsOrdered :
      (o : Option ActivePhase) (phase : Phase) (outcome : Outcome) (elapsed now : ℕ) (p : Progress)
      → IsOrdered p
      → IsOrdered (end_matching order o phase outcome elapsed now p)
  end_matching-IsOrdered none phase outcome elapsed now p r = r
  end_matching-IsOrdered (some c) phase outcome elapsed now p r =
      elim (Bool-cases (phase_eq c.phase phase)) [
        | inl same ↦ rw same (end_phase-IsOrdered outcome (milliseconds elapsed) now p r)
        | inr other ↦ rw other r
      ]

  write_output-IsOrdered :
      (o : Option ActiveStep) (id : StepId) (stream : OutputStream) (bs : List ℕ) (p : Progress)
      → IsOrdered p
      → IsOrdered (write_output order o id stream bs p)
  write_output-IsOrdered none id stream bs p r = r
  write_output-IsOrdered (some s) id stream bs p r =
      Rising-mono 0 (stamps p) p.output.next_sequence _ (append_next id s.name stream bs p.output).0
        r

  -- Every event keeps what has finished in the order in which it finished.
  pub apply-IsOrdered :
      (now : ℕ) (e : ProgressEvent) (p : Progress) → IsOrdered p → IsOrdered (apply order now e p)
  unfolding apply start_phase start_step measure_step
  apply-IsOrdered now (phase_started phase) p r = start_after p.current now p refl r
  apply-IsOrdered now (phase_ended phase outcome elapsed) p r =
      end_matching-IsOrdered p.current phase outcome elapsed now p r
  apply-IsOrdered now (step_started id name unit total) p r =
      map_ordered (phase_stamps p.finished) p.output.next_sequence _ p.current (λ c h. h) r
  apply-IsOrdered now (step_progress id done total) p r =
      map_ordered (phase_stamps p.finished) p.output.next_sequence _ p.current (λ c h. h) r
  apply-IsOrdered now (step_output id stream bs) p r = write_output-IsOrdered _ id stream bs p r
  apply-IsOrdered now (step_ended id outcome elapsed) p r =
      end_step-IsOrdered id outcome (some (milliseconds elapsed)) now _
        (flush_step-IsOrdered (some id) p r)
