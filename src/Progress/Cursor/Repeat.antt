-- ===== src/Progress/Cursor/Repeat.antt =====
-- A cursor that has looked sees nothing new until something happens:
-- sandbox/core/src/progress/fold.rs.
use digdir_agents.Base.{
  ltb, leb, tests, Bool-cases, length, drop, filter_by, ℕ, zero, suc, ◌+◌, ◌-◌, ◌≤◌, ◌≡◌, refl, inl,
  inr, Option, none, some, List, [], ◌∷◌, arith,
}
use digdir_agents.Progress.Output.{OutputLine, first_sequence}
use digdir_agents.Progress.Output.Bounds.{Numbered, first_sequence-le}
use digdir_agents.Progress.State.{FinishedStep, ActivePhase, Progress}
use digdir_agents.Progress.Cursor.{
  ProgressCursor, push_steps, phase_updates, current_updates, current_seen, interleave, rewound,
  new_updates, caught_up, updates,
}

drop_all {ℓ} : {A : Type ℓ} (xs : List A) (n : ℕ) → length xs ≤ n → drop n xs ≡ []
drop_all [] zero h = refl
drop_all [] (suc n) h = refl
drop_all (x ∷ xs) zero h = absurd (omega arith)
drop_all (x ∷ xs) (suc n) h = drop_all xs n (omega arith)

-- No line has the next number or a later one.
no_later_lines :
    (ls : List OutputLine) (next : ℕ)
    → Numbered ls next
    → filter_by (λ l. leb next l.sequence) ls ≡ []
no_later_lines [] next n = refl
no_later_lines (l ∷ ls) next n = ground (arith, no_later_lines ls next n.1)

caught_up-rewound : (c : ProgressCursor) (p : Progress) → rewound (caught_up c p) p ≡ caught_up c p
unfolding rewound caught_up
caught_up-rewound c p = ground arith

push_steps_none :
    (steps : List FinishedStep) (omitted : ℕ)
    → push_steps steps omitted (omitted + length steps) ≡ []
unfolding push_steps
push_steps_none steps omitted = rw (drop_all steps (omitted + length steps - omitted) (omega arith))

current_updates_none :
    (o : Option ActivePhase) (seen : ℕ) → current_updates o (current_seen o seen) ≡ []
current_updates_none none seen = refl
current_updates_none (some c) seen = push_steps_none c.finished_steps c.omitted_steps

current_seen_twice :
    (o : Option ActivePhase) (seen : ℕ) → current_seen o (current_seen o seen) ≡ current_seen o seen
current_seen_twice none seen = refl
current_seen_twice (some c) seen = refl

caught_up_twice : (c : ProgressCursor) (p : Progress) → caught_up (caught_up c p) p ≡ caught_up c p
unfolding caught_up
caught_up_twice c p =
    rw (drop_all p.finished (length p.finished) (omega arith), current_seen_twice p.current)

new_updates-caught_up :
    (c : ProgressCursor) (p : Progress)
    → Numbered p.output.lines p.output.next_sequence
    → new_updates (caught_up c p) p ≡ []
unfolding new_updates caught_up phase_updates interleave
new_updates-caught_up c p n =
    elim (Bool-cases (ltb p.output.next_sequence (first_sequence p.output))) [
      | inl ahead ↦ absurd (omega (tests, ahead, first_sequence-le p.output n))
      | inr fine ↦ rw (
        fine,
        drop_all p.finished (length p.finished) (omega arith),
        no_later_lines p.output.lines p.output.next_sequence n,
        current_updates_none p.current,
      )
    ]

-- Two looks in a row: the second one sees nothing, and moves nothing.
pub updates_repeat :
    (c : ProgressCursor) (p : Progress)
    → Numbered p.output.lines p.output.next_sequence
    → updates (updates c p).0 p ≡ ((updates c p).0, [])
unfolding updates
updates_repeat c p n = rw (
  caught_up-rewound (rewound c p) p,
  caught_up_twice (rewound c p) p,
  new_updates-caught_up (rewound c p) p n,
)
