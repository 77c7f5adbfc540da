-- ===== src/ControlPlane/Scheduler/Answers.antt =====
-- Who waits for a pass: agentctl/src/controller.rs.
use digdir_agents.Base.{◌==◌, if◌then◌else◌, Result, ℕ, ◌+◌, ◌≡◌, Option, none, some, List, [], ◌∷◌}
use digdir_agents.ControlPlane.Failures.{ReconcileFailure}
use digdir_agents.ControlPlane.Scheduler.{
  Request, Entries, waiters_of, Scheduler, Event, requested, ticked, ended,
}

module _ (waiter : ℕ) where
  -- How often the waiter is among them.
  abbrev pub occurrences : List ℕ → ℕ
  occurrences [] = 0
  occurrences (w ∷ ws) = (if w == waiter then 1 else 0) + occurrences ws

  abbrev pub held : Entries → ℕ
  held [] = 0
  held ((k, ws) ∷ entries) = occurrences ws + held entries

  abbrev pub answers : List (ℕ × Result ReconcileFailure (Unit {0})) → ℕ
  answers [] = 0
  answers ((w, response) ∷ sent) = (if w == waiter then 1 else 0) + answers sent

  abbrev pub asks : List Request → ℕ
  asks [] = 0
  asks (r ∷ requests) = occurrences (waiters_of r.response) + asks requests

  abbrev pub asked_in : Event → ℕ
  asked_in (requested requests) = asks requests
  asked_in (ticked keys) = 0
  asked_in (ended key result) = 0

  abbrev pub asked : List Event → ℕ
  asked [] = 0
  asked (e ∷ es) = asked_in e + asked es

  abbrev pub known : Scheduler → ℕ
  known s = held s.pending + held s.passes + answers s.sent

  abbrev IsApart : Option ((ℕ × List ℕ) × Entries) → ℕ → Type 0
  IsApart none total = Unit
  IsApart (some (entry, rest)) total = total ≡ occurrences entry.1 + held rest
