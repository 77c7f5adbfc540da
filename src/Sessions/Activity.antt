-- ===== src/Sessions/Activity.antt =====
-- What a running harness reports of itself: agentctl/src/sessions/activity.rs. A time is its number of
-- Unix seconds.
pub mod Folds
use digdir_agents.Base.{ltb, if◌then◌else◌, ℕ, ◌+◌, ◌-◌, ◌^◌, Bool, true, false, Option, none, some}

pub data Phase : Type 0 where
  unknown working waiting_for_input : Phase

pub data ActivityEvent : Type 0 where
  session_start turn_started turn_completed waiting_reported : ActivityEvent

pub record Activity : Type 0 where
  pub phase : Phase
  pub turns : ℕ
  pub last_event_at : Option ℕ
  pub phase_since : Option ℕ

-- `Activity::default`.
abbrev pub no_activity : Activity
no_activity = record { phase = Phase.unknown; turns = 0; last_event_at = none; phase_since = none }

abbrev pub u64_max : ℕ
u64_max = 2 ^ 64 - 1

-- `saturating_add(1)`.
abbrev pub count_up : ℕ → ℕ
count_up n = if ltb n u64_max then n + 1 else u64_max

abbrev pub same_phase : Phase → Phase → Bool
same_phase Phase.unknown Phase.unknown = true
same_phase Phase.working Phase.working = true
same_phase Phase.waiting_for_input Phase.waiting_for_input = true
same_phase _ _ = false

-- The `match` of `Activity::folded`, which a late start returns from.
unfoldable pub next_phase : ActivityEvent → Phase → Option Phase
next_phase session_start Phase.unknown = some Phase.working
next_phase session_start Phase.working = none
next_phase session_start Phase.waiting_for_input = none
next_phase turn_started _ = some Phase.working
next_phase turn_completed _ = some Phase.waiting_for_input
next_phase waiting_reported _ = some Phase.waiting_for_input

abbrev pub next_turns : ActivityEvent → ℕ → ℕ
next_turns turn_completed n = count_up n
next_turns session_start n = n
next_turns turn_started n = n
next_turns waiting_reported n = n

-- When the phase last changed: a repeated phase keeps its time.
abbrev pub since_phase : Bool → Option ℕ → ℕ → Option ℕ
since_phase true (some since) at = some since
since_phase true none at = some at
since_phase false _ at = some at

-- `Activity::folded`.
abbrev pub moved_to : Option Phase → ActivityEvent → ℕ → Activity → Activity
moved_to none event at a = a
moved_to (some phase) event at a = record {
  phase = phase;
  turns = next_turns event a.turns;
  last_event_at = some at;
  phase_since = since_phase (same_phase phase a.phase) a.phase_since at;
}

unfoldable pub folded : ActivityEvent → ℕ → Activity → Activity
folded event at a = moved_to (next_phase event a.phase) event at a
