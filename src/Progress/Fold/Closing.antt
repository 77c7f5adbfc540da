-- ===== src/Progress/Fold/Closing.antt =====
-- How the current phase ends, with the steps that are still open: `end_phase` and `close` of
-- sandbox/core/src/progress/fold.rs.
use digdir_agents.Base.{
  length, ℕ, ◌+◌, ◌≡◌, refl, ap, ◌∙◌, Option, none, some, List, [], ◌∷◌, ◌++◌, map, arith,
}
use digdir_agents.Progress.{Outcome, failed}
use digdir_agents.Progress.Output.{Key, flush}
use digdir_agents.Progress.State.{FinishedPhase, ActiveStep, ActivePhase, Progress, since}
use digdir_agents.Progress.Steps.{finish_step, retain_step, end_step}
use digdir_agents.Progress.Fold.{
  finish_phase, take_current, open_ids, end_open, end_phase, close_current, close,
}
use digdir_agents.Progress.Fold.Accounting.{accounted, accounted-retain_step, take_step-head}

end_step-head :
    (s : ActiveStep) (ss : List ActiveStep) (outcome : Outcome) (elapsed : Option ℕ) (now : ℕ)
    (p : Progress) (c : ActivePhase)
    → p.current ≡ some c
    → c.steps ≡ s ∷ ss
    → (end_step s.id outcome elapsed now p).current
      ≡ some (retain_step (finish_step outcome elapsed now p.output.next_sequence s) ss c)
unfolding end_step
end_step-head s ss outcome elapsed now p c e e' = rw (e, e', take_step-head s ss)

-- What `end_open` makes of the current phase `c`: nothing is left open, and nothing is lost.
record Ended (p q : Progress) (c : ActivePhase) : Type 0 where
  last : ActivePhase
  current : q.current ≡ some last
  none_open : last.steps ≡ []
  same_total : accounted last ≡ accounted c
  same_phase : last.phase ≡ c.phase
  same_finished : q.finished ≡ p.finished
  same_status : q.status ≡ p.status

module _ (order : List Key → List Key) where
  end_open-Ended :
      (ss : List ActiveStep) (now : ℕ) (p : Progress) (c : ActivePhase)
      → p.current ≡ some c
      → c.steps ≡ ss
      → Ended p (end_open order (map (λ s. s.id) ss) now p) c
  unfolding end_open end_step retain_step
  end_open-Ended [] now p c e e' = record {
    last = c;
    current = e;
    none_open = e';
    same_total = refl;
    same_phase = refl;
    same_finished = refl;
    same_status = refl;
  }
  end_open-Ended (s ∷ ss) now p c e e' =
      let flushed = record p { output = flush order (some s.id) p.output } in
      let f = finish_step failed none now flushed.output.next_sequence s in
      let rest =
        end_open-Ended ss now (end_step s.id failed none now flushed) (retain_step f ss c)
          (end_step-head s ss failed none now flushed c e e') refl in
      record {
        last = rest.last;
        current = rest.current;
        none_open = rest.none_open;
        same_total = omega (arith, rest.same_total, accounted-retain_step f ss c, ap length e');
        same_phase = rest.same_phase;
        same_finished = rest.same_finished;
        same_status = rest.same_status;
      }

-- The current phase `c` becomes the last finished one, with all of its steps.
pub record PhaseEnds (p q : Progress) (c : ActivePhase) (outcome : Outcome) (ms : ℕ) : Type 0 where
  pub last : FinishedPhase
  pub appended : q.finished ≡ p.finished ++ last ∷ []
  pub closed : q.current ≡ none
  pub same_phase : last.phase ≡ c.phase
  pub same_outcome : last.outcome ≡ outcome
  pub same_elapsed : last.elapsed_ms ≡ ms
  pub same_total : length last.steps + last.omitted_steps ≡ accounted c
  pub same_status : q.status ≡ p.status

module _ (order : List Key → List Key) where
  pub end_phase-PhaseEnds :
      (outcome : Outcome) (ms now : ℕ) (p : Progress) (c : ActivePhase)
      → p.current ≡ some c
      → PhaseEnds p (end_phase order outcome ms now p) c outcome ms
  unfolding end_phase
  end_phase-PhaseEnds outcome ms now p c e =
      let q = end_open order (open_ids p.current) now p in
      let ended : Ended p q c = simp e (end_open-Ended order c.steps now p c e refl) in
      record {
        last = finish_phase outcome ms q.output.next_sequence ended.last;
        appended = rw (ended.current, take_current, ended.same_finished);
        closed = rw (ended.current, take_current);
        same_phase = ended.same_phase;
        same_outcome = refl;
        same_elapsed = refl;
        same_total = omega (arith, ended.same_total, ap length ended.none_open);
        same_status = rw (ended.current, take_current) ended.same_status;
      }

  close_current-PhaseEnds :
      (outcome : Outcome) (now : ℕ) (p q : Progress) (c : ActivePhase)
      → p.current ≡ some c
      → q.current ≡ some c
      → q.finished ≡ p.finished
      → q.status ≡ p.status
      → PhaseEnds p (close_current order p.current outcome now q) c outcome (since c.started_at now)
  close_current-PhaseEnds outcome now p q c e e' f st =
      let h = end_phase-PhaseEnds outcome (since c.started_at now) now q c e' in
      simp e (record {
        last = h.last;
        appended = simp (← f) h.appended;
        closed = h.closed;
        same_phase = h.same_phase;
        same_outcome = h.same_outcome;
        same_elapsed = h.same_elapsed;
        same_total = h.same_total;
        same_status = h.same_status ∙ st;
      })

  pub close-PhaseEnds :
      (outcome : Outcome) (now : ℕ) (p : Progress) (c : ActivePhase)
      → p.current ≡ some c
      → PhaseEnds p (close order outcome now p) c outcome (since c.started_at now)
  unfolding close
  close-PhaseEnds outcome now p c e = close_current-PhaseEnds outcome now p _ c e e refl refl
