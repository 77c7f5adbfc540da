-- ===== src/Sessions/Completion.antt =====
-- The wait for a submitted prompt to be completed: agentctl/src/sessions/service.rs. What the store answers
-- to each poll is a list, and the loop's result is none where it still polls after the last.
pub mod Settled
use digdir_agents.Base.{
  ltb, leb, ◌==◌, codes, if◌then◌else◌, Str, Result, err, ok, ◌>>=◌, ℕ, Bool, true, false, ◌&&◌,
  Option, none, some, List, [], ◌∷◌, map,
}
use digdir_agents.Agents.Errors.{text, said, format, format_detail, Error, session}
use digdir_agents.Sessions.Activity.{Phase, Activity, same_phase}
use digdir_agents.Sessions.Status.{State}
use digdir_agents.Sessions.Model.{Session, detail_of}

abbrev pub same_time : Option ℕ → Option ℕ → Bool
same_time none none = true
same_time (some a) (some b) = a == b
same_time _ _ = false

-- The derived `PartialEq` of an activity.
abbrev pub same_activity : Activity → Activity → Bool
same_activity a b =
    a.turns == b.turns
    && same_phase a.phase b.phase
    && same_time a.last_event_at b.last_event_at
    && same_time a.phase_since b.phase_since

-- The `match` of `wait_for_completion`: whether the harness waits, unless the wait is over.
abbrev pub waiting_in : State → Str → Session → Result Error Bool
waiting_in State.failed name s = err (
    session (
      format_detail "Session \"{}\" failed while waiting for turn completion: {}" (text name ∷ [])
        (detail_of s.status.lifecycle.failure (said (codes "unknown error")))))
waiting_in State.idle name s = err (
    session
      (format "Session \"{}\" was stopped while waiting for turn completion" (text name ∷ [])))
waiting_in State.archived name s = err (
    session
      (format "Session \"{}\" was archived while waiting for turn completion" (text name ∷ [])))
waiting_in State.waiting_for_input name s = ok true
waiting_in State.archiving name s =
    ok (same_phase s.status.reported.activity.phase Phase.waiting_for_input)
waiting_in State.starting name s = ok false
waiting_in State.working name s = ok false

-- What a poll finds: whether the harness waits, and its activity.
abbrev pub Poll : Type 0
Poll = Result Error (Bool × Activity)

unfoldable pub polled : Str → Result Error Session → Poll
polled name answer = answer >>= λ s.
    waiting_in s.status.state name s >>= λ waiting. ok (waiting, s.status.reported.activity)

-- The loop's variables.
pub record Awaited : Type 0 where
  pub completed_before : ℕ
  pub settling : Option Activity

abbrev pub larger : ℕ → ℕ → ℕ
larger a b = if leb a b then b else a

abbrev pub is_settled : Option Activity → Activity → Bool
is_settled none a = false
is_settled (some settling) a = same_activity settling a

-- One pass of the loop, which is none when the turn is completed.
unfoldable pub settle_poll : Bool → Activity → Awaited → Option Awaited
settle_poll waiting a w =
    if ltb w.completed_before a.turns && waiting
    then if is_settled w.settling a then none else some (record w { settling = some a })
    else some (record { completed_before = larger w.completed_before a.turns; settling = none })

abbrev pub Waited : Type 0
Waited = Option (Result Error (Unit {0}))

abbrev pub or_done : Option Awaited → (Awaited → Waited) → Waited
or_done none next = some (ok tt)
or_done (some w) next = next w

abbrev pub after_poll : Poll → Awaited → (Awaited → Waited) → Waited
after_poll (err e) w next = some (err e)
after_poll (ok (waiting, a)) w next = or_done (settle_poll waiting a w) next

-- The loop.
unfoldable pub wait_polls : Awaited → List Poll → Waited
wait_polls w [] = none
wait_polls w (poll ∷ polls) = after_poll poll w (λ next. wait_polls next polls)

-- `wait_for_completion`.
unfoldable pub wait_for_completion : Str → ℕ → List (Result Error Session) → Waited
wait_for_completion name completed_before answers =
    wait_polls (record { completed_before = completed_before; settling = none })
      (map (polled name) answers)
