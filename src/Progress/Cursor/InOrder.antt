-- ===== src/Progress/Cursor/InOrder.antt =====
-- What waits for a cursor is in order, and so are its updates:
-- sandbox/core/src/progress/fold.rs.
use mathlib.Core.List.{append-nil, append_assoc, map-append}
use digdir_agents.Base.{
  ltb, leb, Bool-cases, length, drop, filter_by, All, All-append, ℕ, zero, suc, ◌-◌, ◌*◌, ◌≤◌, ◌≡◌,
  refl, ap, inl, inr, Option, none, some, List, [], ◌∷◌, ◌++◌, map, arith,
}
use digdir_agents.Progress.Output.{OutputLine, first_sequence}
use digdir_agents.Progress.Output.Bounds.{Numbered}
use digdir_agents.Progress.State.{FinishedStep, FinishedPhase, ActivePhase, Progress}
use digdir_agents.Progress.Fold.Order.{
  Rising, step_stamps, phase_stamps, current_stamps, IsOrdered, Rising-lower,
}
use digdir_agents.Progress.Cursor.{
  ProgressCursor, Waiting, step_update, push_steps, phase_updates, seen_after, current_updates,
  interleave, rewound, first_unseen, new_updates, updates,
}
use digdir_agents.Progress.Cursor.Order.{
  marks, IsMarked, interleave-Rising, lines-Rising, Rising-double, Rising-suffix,
}

abbrev ends : Waiting → List ℕ
ends ws = map (λ w. w.0) ws

ends-step_update : (ss : List FinishedStep) → ends (map step_update ss) ≡ step_stamps ss
ends-step_update [] = refl
ends-step_update (s ∷ ss) = ap (◌∷◌ s.output_sequence) (ends-step_update ss)

-- A tail may be exchanged for one that rises from wherever the first one does.
Rising-tail :
    (xs ys zs : List ℕ) (lo hi : ℕ)
    → ((k : ℕ) → Rising k ys hi → Rising k zs hi)
    → Rising lo (xs ++ ys) hi
    → Rising lo (xs ++ zs) hi
Rising-tail [] ys zs lo hi f r = f lo r
Rising-tail (x ∷ xs) ys zs lo hi f r = (r.0, Rising-tail xs ys zs x hi f r.1)

drop_steps-Rising :
    (k : ℕ) (ss : List FinishedStep) (ys : List ℕ) (lo hi : ℕ)
    → Rising lo (step_stamps ss ++ ys) hi
    → Rising lo (step_stamps (drop k ss) ++ ys) hi
drop_steps-Rising zero ss ys lo hi r = r
drop_steps-Rising (suc k) [] ys lo hi r = r
drop_steps-Rising (suc k) (s ∷ ss) ys lo hi r =
    drop_steps-Rising k ss ys lo hi (Rising-lower s.output_sequence lo _ hi r.0 r.1)

drop_phases-Rising :
    (k : ℕ) (fs : List FinishedPhase) (ys : List ℕ) (lo hi : ℕ)
    → Rising lo (phase_stamps fs ++ ys) hi
    → Rising lo (phase_stamps (drop k fs) ++ ys) hi
drop_phases-Rising zero fs ys lo hi r = r
drop_phases-Rising (suc k) [] ys lo hi r = r
drop_phases-Rising (suc k) (f ∷ fs) ys lo hi r =
    let tail = Rising-suffix (step_stamps f.steps) _ lo hi (rw append_assoc at r) in
    drop_phases-Rising k fs ys lo hi (Rising-lower f.output_sequence lo _ hi tail.0 tail.1)

phase_updates-Rising :
    (fs : List FinishedPhase) (seen : ℕ) (ys : List ℕ) (lo hi : ℕ)
    → Rising lo (phase_stamps fs ++ ys) hi
    → Rising lo (ends (phase_updates fs seen) ++ ys) hi
unfolding phase_updates push_steps
phase_updates-Rising [] seen ys lo hi r = r
phase_updates-Rising (f ∷ fs) seen ys lo hi r =
    simp (map-append, append_assoc, ends-step_update)
      (drop_steps-Rising (seen - f.omitted_steps) f.steps _ lo hi (
        Rising-tail (step_stamps f.steps) (f.output_sequence ∷ (phase_stamps fs ++ ys)) _ lo hi
          (λ k t. (t.0, phase_updates-Rising fs 0 ys f.output_sequence hi t.1))
          (rw append_assoc at r)))

current_updates-Rising :
    (o : Option ActivePhase) (seen lo hi : ℕ)
    → Rising lo (current_stamps o) hi
    → Rising lo (ends (current_updates o seen)) hi
unfolding push_steps
current_updates-Rising none seen lo hi r = r
current_updates-Rising (some c) seen lo hi r =
    let all = rw (← append-nil (step_stamps c.finished_steps)) at r in
    rw (ends-step_update (drop (seen - c.omitted_steps) c.finished_steps))
      (rw append-nil at (drop_steps-Rising (seen - c.omitted_steps) c.finished_steps [] lo hi all))

steps-IsMarked : (ss : List FinishedStep) → All IsMarked (map step_update ss)
steps-IsMarked [] = tt
steps-IsMarked (s ∷ ss) = (refl, steps-IsMarked ss)

phase_updates-IsMarked : (fs : List FinishedPhase) (seen : ℕ) → All IsMarked (phase_updates fs seen)
unfolding phase_updates push_steps
phase_updates-IsMarked [] seen = tt
phase_updates-IsMarked (f ∷ fs) seen =
    All-append IsMarked (map step_update (drop (seen - f.omitted_steps) f.steps)) _
      (steps-IsMarked (drop (seen - f.omitted_steps) f.steps)) (refl, phase_updates-IsMarked fs 0)

current_updates-IsMarked :
    (o : Option ActivePhase) (seen : ℕ) → All IsMarked (current_updates o seen)
unfolding push_steps
current_updates-IsMarked none seen = tt
current_updates-IsMarked (some c) seen =
    steps-IsMarked (drop (seen - c.omitted_steps) c.finished_steps)

length-le_next : (ls : List OutputLine) (next : ℕ) → Numbered ls next → length ls ≤ next
length-le_next [] next n = omega arith
length-le_next (l ∷ ls) next n = omega (arith, n.0)

module _ (c : ProgressCursor) (p : Progress) where
  abbrev waiting : Waiting
  waiting =
      let ended = drop c.phases p.finished in
      phase_updates ended c.steps ++ current_updates p.current (seen_after ended c.steps)

  abbrev unseen : List OutputLine
  unseen =
      filter_by (λ l. leb (first_unseen c.output (first_sequence p.output)) l.sequence)
        p.output.lines

  waiting-IsMarked : All IsMarked waiting
  waiting-IsMarked =
      All-append IsMarked (phase_updates (drop c.phases p.finished) c.steps) _
        (phase_updates-IsMarked (drop c.phases p.finished) c.steps)
        (current_updates-IsMarked p.current (seen_after (drop c.phases p.finished) c.steps))

  waiting-ends-Rising : IsOrdered p → Rising 0 (ends waiting) p.output.next_sequence
  waiting-ends-Rising r =
      let ended = drop c.phases p.finished in
      rw map-append (
        Rising-tail (ends (phase_updates ended c.steps)) (current_stamps p.current) _ 0
          p.output.next_sequence
          (λ k t.
            current_updates-Rising p.current (seen_after ended c.steps) k p.output.next_sequence t)
          (phase_updates-Rising ended c.steps (current_stamps p.current) 0 p.output.next_sequence (
            drop_phases-Rising c.phases p.finished (current_stamps p.current) 0
              p.output.next_sequence r)))

  interleaved-Rising :
      Numbered p.output.lines p.output.next_sequence
      → IsOrdered p
      → Rising 0 (marks (interleave unseen waiting)) (2 * p.output.next_sequence)
  interleaved-Rising n r =
      interleave-Rising unseen waiting 0 (2 * p.output.next_sequence) waiting-IsMarked
        (Rising-double waiting 0 p.output.next_sequence (waiting-ends-Rising r))
        (lines-Rising _ p.output.lines p.output.next_sequence 0 n
          (omega (arith, length-le_next p.output.lines p.output.next_sequence n)))

  new_updates-Rising :
      Numbered p.output.lines p.output.next_sequence
      → IsOrdered p
      → Rising 0 (marks (new_updates c p)) (2 * p.output.next_sequence)
  unfolding new_updates
  new_updates-Rising n r = elim (Bool-cases (ltb c.output (first_sequence p.output))) [
    | inl behind ↦ rw behind (omega arith, rw behind at (interleaved-Rising n r))
    | inr level ↦ rw level (rw level at (interleaved-Rising n r))
  ]

-- The updates come in the order in which they happened: lines by their numbers, and what ended at
-- output position `n` behind line `n - 1` and before line `n`.
pub updates_in_order :
    (c : ProgressCursor) (p : Progress)
    → Numbered p.output.lines p.output.next_sequence
    → IsOrdered p
    → Rising 0 (marks (updates c p).1) (2 * p.output.next_sequence)
unfolding updates
updates_in_order c p n r = new_updates-Rising (rewound c p) p n r
