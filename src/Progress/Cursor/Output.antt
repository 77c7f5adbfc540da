-- ===== src/Progress/Cursor/Output.antt =====
-- Every output line reaches a cursor once, or is counted as skipped:
-- sandbox/core/src/progress/fold.rs.
use digdir_agents.Base.{
  ltb, leb, tests, Bool-cases, length, drop, filter_by, All, All-append, ℕ, suc, ◌+◌, ◌-◌, ◌≤◌, ◌≡◌,
  refl, ap, ◌∙◌, inl, inr, Option, none, some, List, [], ◌∷◌, ◌++◌, map, arith,
}
use digdir_agents.Progress.Output.{OutputLine, first_of_lines, first_sequence}
use digdir_agents.Progress.Output.Bounds.{Numbered}
use digdir_agents.Progress.State.{FinishedStep, FinishedPhase, ActivePhase, Progress}
use digdir_agents.Progress.Cursor.{
  Update, output_skipped, output_line, step_finished, phase_finished, ProgressCursor, Waiting,
  step_update, push_steps, phase_updates, seen_after, current_updates, take_ready, interleave,
  rewound, first_unseen, new_updates, updates,
}

-- The output lines among some updates, in order.
abbrev pub lines_of : List Update → List OutputLine
lines_of [] = []
lines_of (output_line l ∷ us) = l ∷ lines_of us
lines_of (_ ∷ us) = lines_of us

-- The lines that some updates account for: those returned, and those said to be skipped.
abbrev pub covered : List Update → ℕ
covered [] = 0
covered (output_skipped n ∷ us) = n + covered us
covered (output_line l ∷ us) = suc (covered us)
covered (_ ∷ us) = covered us

-- A waiting update is of a step or a phase.
abbrev IsQuiet : ℕ × Update → Type 0
IsQuiet (n, output_skipped k) = ⊥
IsQuiet (n, output_line l) = ⊥
IsQuiet (n, _) = Unit {0}

abbrev tally : List Update → List OutputLine × ℕ
tally us = (lines_of us, covered us)

push_steps-IsQuiet : (steps : List FinishedStep) → All IsQuiet (map step_update steps)
push_steps-IsQuiet [] = tt
push_steps-IsQuiet (s ∷ ss) = (tt, push_steps-IsQuiet ss)

phase_updates-IsQuiet : (fs : List FinishedPhase) (seen : ℕ) → All IsQuiet (phase_updates fs seen)
unfolding phase_updates push_steps
phase_updates-IsQuiet [] seen = tt
phase_updates-IsQuiet (f ∷ fs) seen =
    All-append IsQuiet (map step_update (drop (seen - f.omitted_steps) f.steps)) _
      (push_steps-IsQuiet (drop (seen - f.omitted_steps) f.steps)) (tt, phase_updates-IsQuiet fs 0)

current_updates-IsQuiet : (o : Option ActivePhase) (seen : ℕ) → All IsQuiet (current_updates o seen)
unfolding push_steps
current_updates-IsQuiet none seen = tt
current_updates-IsQuiet (some c) seen =
    push_steps-IsQuiet (drop (seen - c.omitted_steps) c.finished_steps)

tally_quiet : (w : ℕ × Update) (us : List Update) → IsQuiet w → tally (w.1 ∷ us) ≡ tally us
tally_quiet (n, output_skipped k) us q = absurd q
tally_quiet (n, output_line l) us q = absurd q
tally_quiet (n, step_finished s) us q = refl
tally_quiet (n, phase_finished f) us q = refl

tally_waiting : (ws : Waiting) → All IsQuiet ws → tally (map (λ w. w.1) ws) ≡ ([], 0)
tally_waiting [] q = refl
tally_waiting (w ∷ ws) q = tally_quiet w (map (λ w. w.1) ws) q.0 ∙ tally_waiting ws q.1

take_ready_rest : (n : ℕ) (ws : Waiting) → All IsQuiet ws → All IsQuiet (take_ready n ws).1
unfolding take_ready
take_ready_rest n [] q = tt
take_ready_rest n (w ∷ ws) q = elim (Bool-cases (leb w.0 n)) [
  | inl ready ↦ rw ready (take_ready_rest n ws q.1)
  | inr late ↦ rw late q
]

tally_ready :
    (n : ℕ) (ws : Waiting) (us : List Update)
    → All IsQuiet ws
    → tally ((take_ready n ws).0 ++ us) ≡ tally us
unfolding take_ready
tally_ready n [] us q = refl
tally_ready n (w ∷ ws) us q = elim (Bool-cases (leb w.0 n)) [
  | inl ready ↦ rw ready (tally_quiet w ((take_ready n ws).0 ++ us) q.0 ∙ tally_ready n ws us q.1)
  | inr late ↦ rw late refl
]

-- Whatever waits, the lines come out as they went in.
tally-interleave :
    (ls : List OutputLine) (ws : Waiting)
    → All IsQuiet ws
    → tally (interleave ls ws) ≡ (ls, length ls)
unfolding interleave
tally-interleave [] ws q = tally_waiting ws q
tally-interleave (l ∷ ls) ws q =
    let rest = (take_ready l.sequence ws).1 in
    let ih = tally-interleave ls rest (take_ready_rest l.sequence ws q) in
    tally_ready l.sequence ws (output_line l ∷ interleave ls rest) q
    ∙ ap (λ t. (l ∷ t.0, suc t.1)) ih

first_of_lines-length :
    (ls : List OutputLine) (next : ℕ) → Numbered ls next → first_of_lines ls next + length ls ≡ next
first_of_lines-length [] next n = omega arith
first_of_lines-length (l ∷ ls) next n = n.0

length-filter_all :
    (k : ℕ) (ls : List OutputLine) (next : ℕ)
    → Numbered ls next
    → length ls + k ≤ next
    → length (filter_by (λ l. leb k l.sequence) ls) ≡ length ls
length-filter_all k [] next n h = refl
length-filter_all k (l ∷ ls) next n h = ground (arith, length-filter_all k ls next n.1)

length-filter_from :
    (k : ℕ) (ls : List OutputLine) (next : ℕ)
    → Numbered ls next
    → next ≤ length ls + k
    → k ≤ next
    → length (filter_by (λ l. leb k l.sequence) ls) + k ≡ next
length-filter_from k [] next n h h' = omega arith
length-filter_from k (l ∷ ls) next n h h' =
    ground (arith, length-filter_all k ls next n.1, length-filter_from k ls next n.1)

rewound-le : (c : ProgressCursor) (p : Progress) → (rewound c p).output ≤ p.output.next_sequence
unfolding rewound
rewound-le c p = ground arith

module _ (c : ProgressCursor) (p : Progress) where
  abbrev waiting : Waiting
  waiting =
      let ended = drop c.phases p.finished in
      phase_updates ended c.steps ++ current_updates p.current (seen_after ended c.steps)

  waiting-IsQuiet : All IsQuiet waiting
  waiting-IsQuiet =
      All-append IsQuiet (phase_updates (drop c.phases p.finished) c.steps) _
        (phase_updates-IsQuiet (drop c.phases p.finished) c.steps)
        (current_updates-IsQuiet p.current (seen_after (drop c.phases p.finished) c.steps))

  abbrev unseen : List OutputLine
  unseen =
      filter_by (λ l. leb (first_unseen c.output (first_sequence p.output)) l.sequence)
        p.output.lines

  lines_of-new_updates : lines_of (new_updates c p) ≡ unseen
  unfolding new_updates
  lines_of-new_updates = elim (Bool-cases (ltb c.output (first_sequence p.output))) [
    | inl behind ↦ rw behind (ap (λ t. t.0) (tally-interleave _ waiting waiting-IsQuiet))
    | inr level ↦ rw level (ap (λ t. t.0) (tally-interleave _ waiting waiting-IsQuiet))
  ]

  covered-new_updates :
      Numbered p.output.lines p.output.next_sequence
      → c.output ≤ p.output.next_sequence
      → covered (new_updates c p) + c.output ≡ p.output.next_sequence
  unfolding new_updates first_sequence
  covered-new_updates n h =
      let first = first_of_lines-length p.output.lines p.output.next_sequence n in
      let lines = tally-interleave unseen waiting waiting-IsQuiet in
      elim (Bool-cases (ltb c.output (first_sequence p.output))) [
        | inl behind ↦ rw behind (
            omega (
              tests,
              behind,
              first,
              ap (λ t. t.1) (rw behind at lines),
              length-filter_from (first_sequence p.output) p.output.lines _ n (omega (arith, first))
                  (omega (arith, first)),
            ))
        | inr level ↦ rw level (
            omega (
              arith,
              ap (λ t. t.1) (rw level at lines),
              length-filter_from c.output p.output.lines _ n (ground (arith, first, level)) h,
            ))
      ]

-- The lines returned are the retained ones from the cursor on, in order; with the number said to be
-- skipped they make up all the output between the cursor and the end.
pub updates_output :
    (c : ProgressCursor) (p : Progress)
    → Numbered p.output.lines p.output.next_sequence
    → let from = (rewound c p).output in
      (lines_of (updates c p).1
        ≡ filter_by
            (λ l. leb (first_unseen from (first_sequence p.output)) l.sequence)
            p.output.lines)
      × (covered (updates c p).1 + from ≡ p.output.next_sequence)
      × ((updates c p).0.output ≡ p.output.next_sequence)
unfolding updates
updates_output c p n = (
  lines_of-new_updates (rewound c p) p,
  covered-new_updates (rewound c p) p n (rewound-le c p),
  refl,
)
