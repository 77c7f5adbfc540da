-- ===== src/Progress/Cursor/Order.antt =====
-- A cursor returns what happened in the order in which it happened:
-- sandbox/core/src/progress/fold.rs.
use digdir_agents.Base.{
  leb, tests, Bool-cases, length, filter_by, All, ℕ, ◌+◌, ◌*◌, ◌≤◌, ◌≡◌, inl, inr, Bool, List, [],
  ◌∷◌, ◌++◌, map, arith,
}
use digdir_agents.Progress.Output.{OutputLine}
use digdir_agents.Progress.Output.Bounds.{Numbered}
use digdir_agents.Progress.Fold.Order.{Rising, Rising-le, Rising-lower}
use digdir_agents.Progress.Cursor.{
  Update, output_skipped, output_line, step_finished, phase_finished, Waiting, take_ready,
  interleave,
}

-- Where an update stands among all that happened: what ended at output position `n` stands behind
-- line `n - 1` and before line `n`.
abbrev pub mark : Update → ℕ
mark (output_skipped n) = 0
mark (output_line l) = 2 * l.sequence + 1
mark (step_finished s) = 2 * s.output_sequence
mark (phase_finished f) = 2 * f.output_sequence

abbrev pub marks : List Update → List ℕ
marks us = map mark us

abbrev pub doubles : Waiting → List ℕ
doubles ws = map (λ w. 2 * w.0) ws

abbrev pub line_marks : List OutputLine → List ℕ
line_marks ls = map (λ l. 2 * l.sequence + 1) ls

-- The position kept with a waiting update is its own.
abbrev pub IsMarked : ℕ × Update → Type 0
IsMarked w = mark w.1 ≡ 2 * w.0

ready-Rising :
    (l : OutputLine) (ws : Waiting) (us : List Update) (lo hi : ℕ)
    → All IsMarked ws
    → Rising lo (doubles ws) hi
    → lo ≤ 2 * l.sequence + 1
    → Rising (2 * l.sequence + 1) (marks us) hi
    → Rising lo (marks ((take_ready l.sequence ws).0 ++ output_line l ∷ us)) hi
unfolding take_ready
ready-Rising l [] us lo hi m r h t = (h, t)
ready-Rising l (w ∷ ws) us lo hi m r h t = elim (Bool-cases (leb w.0 l.sequence)) [
  | inl ready ↦
      rw (ready, m.0) (r.0, ready-Rising l ws us (2 * w.0) hi m.1 r.1 (omega (tests, ready)) t)
  | inr late ↦ rw late (h, t)
]

rest-Rising :
    (n : ℕ) (ws : Waiting) (lo hi : ℕ)
    → Rising lo (doubles ws) hi
    → 2 * n + 1 ≤ hi
    → Rising (2 * n + 1) (doubles (take_ready n ws).1) hi
unfolding take_ready
rest-Rising n [] lo hi r h = h
rest-Rising n (w ∷ ws) lo hi r h = elim (Bool-cases (leb w.0 n)) [
  | inl ready ↦ rw ready (rest-Rising n ws (2 * w.0) hi r.1 h)
  | inr late ↦ rw late (ground (arith, late), r.1)
]

rest-IsMarked : (n : ℕ) (ws : Waiting) → All IsMarked ws → All IsMarked (take_ready n ws).1
unfolding take_ready
rest-IsMarked n [] m = tt
rest-IsMarked n (w ∷ ws) m = elim (Bool-cases (leb w.0 n)) [
  | inl ready ↦ rw ready (rest-IsMarked n ws m.1)
  | inr late ↦ rw late m
]

waiting-Rising :
    (ws : Waiting) (lo hi : ℕ)
    → All IsMarked ws
    → Rising lo (doubles ws) hi
    → Rising lo (marks (map (λ w. w.1) ws)) hi
waiting-Rising [] lo hi m r = r
waiting-Rising (w ∷ ws) lo hi m r = rw m.0 (r.0, waiting-Rising ws (2 * w.0) hi m.1 r.1)

pub interleave-Rising :
    (ls : List OutputLine) (ws : Waiting) (lo hi : ℕ)
    → All IsMarked ws
    → Rising lo (doubles ws) hi
    → Rising lo (line_marks ls) hi
    → Rising lo (marks (interleave ls ws)) hi
unfolding interleave
interleave-Rising [] ws lo hi m r k = waiting-Rising ws lo hi m r
interleave-Rising (l ∷ ls) ws lo hi m r k = ready-Rising l ws _ lo hi m r k.0 (
    interleave-Rising ls (take_ready l.sequence ws).1 (2 * l.sequence + 1) hi
      (rest-IsMarked l.sequence ws m)
      (rest-Rising l.sequence ws lo hi r (Rising-le _ (line_marks ls) hi k.1)) k.1)

pub lines-Rising :
    (q : OutputLine → Bool) (ls : List OutputLine) (next lo : ℕ)
    → Numbered ls next
    → lo + 2 * length ls ≤ 2 * next
    → Rising lo (line_marks (filter_by q ls)) (2 * next)
lines-Rising q [] next lo n h = omega arith
lines-Rising q (l ∷ ls) next lo n h = elim (Bool-cases (q l)) [
  | inl kept ↦
      rw kept
        (omega (arith, n.0), lines-Rising q ls next (2 * l.sequence + 1) n.1 (omega (arith, n.0)))
  | inr gone ↦ rw gone (lines-Rising q ls next lo n.1 (omega arith))
]

pub Rising-double :
    (ws : Waiting) (lo hi : ℕ)
    → Rising lo (map (λ w. w.0) ws) hi
    → Rising (2 * lo) (doubles ws) (2 * hi)
Rising-double [] lo hi r = omega (arith, r)
Rising-double (w ∷ ws) lo hi r = (omega (arith, r.0), Rising-double ws w.0 hi r.1)

-- A suffix of what rises, rises.
pub Rising-suffix : (xs ys : List ℕ) (lo hi : ℕ) → Rising lo (xs ++ ys) hi → Rising lo ys hi
Rising-suffix [] ys lo hi r = r
Rising-suffix (x ∷ xs) ys lo hi r =
    Rising-suffix xs ys lo hi (Rising-lower x lo (xs ++ ys) hi r.0 r.1)
