-- ===== src/Progress/Cursor.antt =====
-- An observer's position in an operation's progress: `ProgressCursor` of
-- sandbox/core/src/progress/fold.rs.
pub mod Output
pub mod Repeat
pub mod Order
pub mod InOrder
use digdir_agents.Base.{
  ltb, leb, if◌then◌else◌, length, drop, filter_by, ℕ, ◌+◌, ◌-◌, ◌||◌, Option, none, some, List, [],
  ◌∷◌, ◌++◌, map,
}
use digdir_agents.Progress.Output.{OutputLine, first_sequence}
use digdir_agents.Progress.State.{FinishedStep, FinishedPhase, ActivePhase, Progress}

pub data Update : Type 0 where
  output_skipped : ℕ → Update
  output_line : OutputLine → Update
  step_finished : FinishedStep → Update
  phase_finished : FinishedPhase → Update

pub record ProgressCursor : Type 0 where
  pub phases : ℕ
  pub steps : ℕ
  pub output : ℕ

-- `ProgressCursor::new`.
abbrev pub start : ProgressCursor
start = record { phases = 0; steps = 0; output = 0 }

-- Updates that wait for the output before them, each with the output position that it ended at.
abbrev pub Waiting : Type 0
Waiting = List (ℕ × Update)

abbrev pub step_update : FinishedStep → ℕ × Update
step_update s = (s.output_sequence, step_finished s)

-- `push_steps`.
unfoldable pub push_steps : List FinishedStep → ℕ → ℕ → Waiting
push_steps steps omitted seen = map step_update (drop (seen - omitted) steps)

-- The loop over the phases that ended since the cursor last looked: only the first of them was
-- seen in part.
unfoldable pub phase_updates : List FinishedPhase → ℕ → Waiting
phase_updates [] seen = []
phase_updates (f ∷ fs) seen =
    push_steps f.steps f.omitted_steps seen
    ++ (f.output_sequence, phase_finished f) ∷ phase_updates fs 0

abbrev pub seen_after : List FinishedPhase → ℕ → ℕ
seen_after [] seen = seen
seen_after (_ ∷ _) seen = 0

abbrev pub current_updates : Option ActivePhase → ℕ → Waiting
current_updates none seen = []
current_updates (some c) seen = push_steps c.finished_steps c.omitted_steps seen

abbrev pub current_seen : Option ActivePhase → ℕ → ℕ
current_seen none seen = seen
current_seen (some c) seen = c.omitted_steps + length c.finished_steps

-- The waiting updates that come before a line, and the others.
unfoldable pub take_ready : ℕ → Waiting → List Update × Waiting
take_ready sequence [] = ([], [])
take_ready sequence (w ∷ ws) =
    let (ready, rest) = take_ready sequence ws in
    if leb w.0 sequence then (w.1 ∷ ready, rest) else ([], w ∷ ws)

unfoldable pub interleave : List OutputLine → Waiting → List Update
interleave [] ws = map (λ w. w.1) ws
interleave (l ∷ ls) ws =
    let (ready, rest) = take_ready l.sequence ws in ready ++ output_line l ∷ interleave ls rest

-- A cursor that is ahead of the progress starts over.
unfoldable pub rewound : ProgressCursor → Progress → ProgressCursor
rewound c p =
    if ltb (length p.finished) c.phases || ltb p.output.next_sequence c.output then start else c

abbrev pub skipped : ℕ → ℕ → List Update
skipped seen first = if ltb seen first then output_skipped (first - seen) ∷ [] else []

abbrev pub first_unseen : ℕ → ℕ → ℕ
first_unseen seen first = if ltb seen first then first else seen

-- The updates for a cursor that is not ahead.
unfoldable pub new_updates : ProgressCursor → Progress → List Update
new_updates c p =
    let ended = drop c.phases p.finished in
    let first = first_sequence p.output in
    skipped c.output first
    ++ interleave (filter_by (λ l. leb (first_unseen c.output first) l.sequence) p.output.lines)
        (phase_updates ended c.steps ++ current_updates p.current (seen_after ended c.steps))

unfoldable pub caught_up : ProgressCursor → Progress → ProgressCursor
caught_up c p = record {
  phases = length p.finished;
  steps = current_seen p.current (seen_after (drop c.phases p.finished) c.steps);
  output = p.output.next_sequence;
}

-- `ProgressCursor::updates`.
unfoldable pub updates : ProgressCursor → Progress → ProgressCursor × List Update
unfolding rewound new_updates caught_up
updates c p = (caught_up (rewound c p) p, new_updates (rewound c p) p)
