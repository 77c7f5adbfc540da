-- ===== src/Progress/Run.antt =====
-- An operation from its first event to its end, over any events at all:
-- sandbox/core/src/progress/fold.rs.
use mathlib.Core.List.{append-nil, append_assoc}
use digdir_agents.Base.{ℕ, ◌+◌, String, ◌≡◌, refl, sym, ap, ◌∙◌, none, List, [], ◌∷◌, ◌++◌, arith}
use digdir_agents.Progress.{Phase, Outcome, failed, ProgressEvent}
use digdir_agents.Progress.Output.{Key}
use digdir_agents.Progress.Output.Bounds.{empty_log-IsValid}
use digdir_agents.Progress.Output.Flush.{IsListing}
use digdir_agents.Progress.State.{succeeded, failed_with, Progress, new}
use digdir_agents.Progress.Fold.{succeed, fail, apply}
use digdir_agents.Progress.Fold.Accounting.{accounted_phases, total_steps, starts_step}
use digdir_agents.Progress.Fold.Totals.{apply_totals}
use digdir_agents.Progress.Fold.Order.{IsOrdered}
use digdir_agents.Progress.Fold.Ordered.{apply-IsOrdered}
use digdir_agents.Progress.Fold.Bounds.{apply-IsValid}
use digdir_agents.Progress.Fold.Ending.{close-AllEnded, close_partials}
use digdir_agents.Progress.Fold.Names.{finished_names, names, begun, close_names, apply_names}
use digdir_agents.Progress.Fold.Bounds

-- Events, each with the time at which it is folded.
abbrev pub Events : Type 0
Events = List (ℕ × ProgressEvent)

abbrev pub phases_started : Events → List Phase
phases_started [] = []
phases_started (e ∷ es) = begun e.1 ++ phases_started es

module _ (order : List Key → List Key) where
  unfoldable pub run_from : Events → Progress → Progress
  run_from [] p = p
  run_from (e ∷ es) p = run_from es (apply order e.0 e.1 p)

  -- What an operation's events fold into.
  unfoldable pub run : Events → Progress
  run es = run_from es new

  run_from-IsValid :
      (es : Events) (p : Progress) → Bounds.IsValid p → Bounds.IsValid (run_from es p)
  unfolding run_from
  run_from-IsValid [] p v = v
  run_from-IsValid (e ∷ es) p v =
      run_from-IsValid es (apply order e.0 e.1 p) (apply-IsValid order e.0 e.1 p v)

  -- Whatever an operation reports, its progress holds at most 1000 output lines and 512 KiB of their
  -- text, counted exactly and numbered without a gap, and at most 64 finished steps for each phase.
  pub run-IsValid : (es : Events) → Bounds.IsValid (run es)
  unfolding run
  run-IsValid es =
      run_from-IsValid es new (record { output = empty_log-IsValid; phases = tt; current = tt })

  run_from-IsOrdered : (es : Events) (p : Progress) → IsOrdered p → IsOrdered (run_from es p)
  unfolding run_from
  run_from-IsOrdered [] p r = r
  run_from-IsOrdered (e ∷ es) p r =
      run_from-IsOrdered es (apply order e.0 e.1 p) (apply-IsOrdered order e.0 e.1 p r)

  -- The output positions that finished steps and phases carry never fall, nor pass the next line's number.
  pub run-IsOrdered : (es : Events) → IsOrdered (run es)
  unfolding run
  run-IsOrdered es = run_from-IsOrdered es new (omega arith)

  run_from_phases :
      (es : Events) (p : Progress) → names (run_from es p) ≡ names p ++ phases_started es
  unfolding run_from
  run_from_phases [] p = sym (append-nil (names p))
  run_from_phases (e ∷ es) p =
      run_from_phases es (apply order e.0 e.1 p)
      ∙ ap (λ x. x ++ phases_started es) (apply_names order e.0 e.1 p)
      ∙ append_assoc (names p) (begun e.1) (phases_started es)

  -- The steps that are started within a phase.
  abbrev pub steps_started : Events → Progress → ℕ
  steps_started [] p = 0
  steps_started (e ∷ es) p = starts_step e.1 p.current + steps_started es (apply order e.0 e.1 p)

  run_from_steps :
      (es : Events) (p : Progress)
      → total_steps (run_from es p) ≡ total_steps p + steps_started es p
  unfolding run_from
  run_from_steps [] p = omega arith
  run_from_steps (e ∷ es) p =
      omega (arith, (apply_totals order e.0 e.1 p).0, run_from_steps es (apply order e.0 e.1 p))

  -- Once the operation has succeeded, the finished phases are those that were started, each as often and
  -- in that order; they account for as many steps, listed or omitted, as were started within a phase;
  -- no phase is open and no line unterminated.
  pub run-succeed :
      (es : Events) (now : ℕ)
      → IsListing order
      → let q = succeed order now (run es) in
        (finished_names q.finished ≡ phases_started es)
        × (accounted_phases q.finished ≡ steps_started es new)
        × (q.current ≡ none)
        × (q.output.partial ≡ [])
        × (q.status ≡ succeeded)
  unfolding run succeed
  run-succeed es now complete =
      let ended = close-AllEnded order Outcome.completed now (run_from es new) in
      (
        close_names order Outcome.completed now (run_from es new) ∙ run_from_phases es new,
        omega (arith, ended.steps, run_from_steps es new),
        ended.closed,
        close_partials order complete Outcome.completed now (run_from es new),
        refl,
      )

  -- The same where the operation has failed.
  pub run-fail :
      (es : Events) (detail : String) (now : ℕ)
      → IsListing order
      → let q = fail order detail now (run es) in
        (finished_names q.finished ≡ phases_started es)
        × (accounted_phases q.finished ≡ steps_started es new)
        × (q.current ≡ none)
        × (q.output.partial ≡ [])
        × (q.status ≡ failed_with detail)
  unfolding run fail
  run-fail es detail now complete =
      let ended = close-AllEnded order failed now (run_from es new) in
      (
        close_names order failed now (run_from es new) ∙ run_from_phases es new,
        omega (arith, ended.steps, run_from_steps es new),
        ended.closed,
        close_partials order complete failed now (run_from es new),
        refl,
      )
