-- ===== src/Progress/Fold/Order.antt =====
-- Finished steps and phases carry the output position that they ended at, in the order in which
-- they ended: sandbox/core/src/progress/fold.rs.
use mathlib.Core.List.{append_assoc, map-append}
use digdir_agents.Base.{
  ◌==◌, Bool-cases, length, drop, ℕ, ◌≤◌, ◌≡◌, refl, inl, inr, Option, none, some, List, [], ◌∷◌,
  ◌++◌, map, arith,
}
use digdir_agents.Progress.State.{
  finished_steps_limit, FinishedStep, FinishedPhase, ActiveStep, ActivePhase, Progress,
}
use digdir_agents.Progress.Steps.{retain_step}

-- Numbers that do not fall, between two bounds.
abbrev pub Rising : ℕ → List ℕ → ℕ → Type 0
Rising lo [] hi = lo ≤ hi
Rising lo (x ∷ xs) hi = (lo ≤ x) × Rising x xs hi

abbrev pub step_stamps : List FinishedStep → List ℕ
step_stamps ss = map (λ s. s.output_sequence) ss

abbrev pub phase_stamps : List FinishedPhase → List ℕ
phase_stamps [] = []
phase_stamps (f ∷ fs) = step_stamps f.steps ++ f.output_sequence ∷ phase_stamps fs

abbrev pub current_stamps : Option ActivePhase → List ℕ
current_stamps none = []
current_stamps (some c) = step_stamps c.finished_steps

-- The output positions of all that has finished, oldest first.
abbrev pub stamps : Progress → List ℕ
stamps p = phase_stamps p.finished ++ current_stamps p.current

abbrev pub IsOrdered : Progress → Type 0
IsOrdered p = Rising 0 (stamps p) p.output.next_sequence

pub Rising-le : (lo : ℕ) (xs : List ℕ) (hi : ℕ) → Rising lo xs hi → lo ≤ hi
Rising-le lo [] hi r = r
Rising-le lo (x ∷ xs) hi r = omega (arith, r.0, Rising-le x xs hi r.1)

pub Rising-mono :
    (lo : ℕ) (xs : List ℕ) (hi hi' : ℕ) → hi ≤ hi' → Rising lo xs hi → Rising lo xs hi'
Rising-mono lo [] hi hi' h r = omega (arith, r)
Rising-mono lo (x ∷ xs) hi hi' h r = (r.0, Rising-mono x xs hi hi' h r.1)

pub Rising-lower :
    (lo lo' : ℕ) (xs : List ℕ) (hi : ℕ) → lo' ≤ lo → Rising lo xs hi → Rising lo' xs hi
Rising-lower lo lo' [] hi h r = omega (arith, r)
Rising-lower lo lo' (x ∷ xs) hi h r = (omega (arith, r.0), r.1)

pub Rising-snoc : (lo : ℕ) (xs : List ℕ) (hi : ℕ) → Rising lo xs hi → Rising lo (xs ++ hi ∷ []) hi
Rising-snoc lo [] hi r = (r, omega arith)
Rising-snoc lo (x ∷ xs) hi r = (r.0, Rising-snoc x xs hi r.1)

Rising-remove :
    (lo : ℕ) (xs : List ℕ) (y : ℕ) (ys : List ℕ) (hi : ℕ)
    → Rising lo (xs ++ y ∷ ys) hi
    → Rising lo (xs ++ ys) hi
Rising-remove lo [] y ys hi r = Rising-lower y lo ys hi r.0 r.1
Rising-remove lo (x ∷ xs) y ys hi r = (r.0, Rising-remove x xs y ys hi r.1)

Rising-drop :
    (xs : List ℕ) (fs : List FinishedStep) (hi : ℕ)
    → Rising 0 (xs ++ step_stamps fs) hi
    → Rising 0 (xs ++ step_stamps (drop 1 fs)) hi
Rising-drop xs [] hi r = r
Rising-drop xs (f ∷ fs) hi r = Rising-remove 0 xs f.output_sequence (step_stamps fs) hi r

pub phase_stamps-append :
    (fs : List FinishedPhase) (f : FinishedPhase)
    → phase_stamps (fs ++ f ∷ [])
      ≡ (phase_stamps fs ++ step_stamps f.steps) ++ f.output_sequence ∷ []
phase_stamps-append [] f = refl
phase_stamps-append (x ∷ fs) f = simp (phase_stamps-append fs f, append_assoc)

Rising-step :
    (xs : List ℕ) (f : FinishedStep) (fs : List FinishedStep) (hi : ℕ)
    → f.output_sequence ≡ hi
    → Rising 0 (xs ++ step_stamps fs) hi
    → Rising 0 (xs ++ step_stamps (fs ++ f ∷ [])) hi
Rising-step xs f fs hi e r =
    simp (map-append, ← append_assoc, e) (Rising-snoc 0 (xs ++ step_stamps fs) hi r)

pub retain_step_ordered :
    (xs : List ℕ) (f : FinishedStep) (rest : List ActiveStep) (c : ActivePhase) (hi : ℕ)
    → f.output_sequence ≡ hi
    → Rising 0 (xs ++ step_stamps c.finished_steps) hi
    → Rising 0 (xs ++ step_stamps (retain_step f rest c).finished_steps) hi
unfolding retain_step
retain_step_ordered xs f rest c hi e r =
    elim (Bool-cases (length c.finished_steps == finished_steps_limit)) [
      | inl full ↦
          rw full
            (Rising-step xs f (drop 1 c.finished_steps) hi e (Rising-drop xs c.finished_steps hi r))
      | inr room ↦ rw room (Rising-step xs f c.finished_steps hi e r)
    ]
