-- ===== src/Sessions/Activity/Folds.antt =====
-- What many reports fold to: agentctl/src/sessions/activity.rs.
use digdir_agents.Base.{
  ltb, if◌then◌else◌, ℕ, ◌+◌, ◌≤◌, ◌≡◌, refl, ◌∙◌, Bool, true, false, Option, none, some, List, [],
  ◌∷◌, arith,
}
use digdir_agents.Sessions.Activity.{
  Phase, ActivityEvent, session_start, turn_started, turn_completed, waiting_reported, Activity,
  no_activity, u64_max, next_phase, folded,
}

-- A report with its time.
abbrev pub Reports : Type 0
Reports = List (ActivityEvent × ℕ)

unfoldable pub fold_from : Reports → Activity → Activity
fold_from [] a = a
fold_from ((event, at) ∷ es) a = fold_from es (folded event at a)

unfoldable pub fold_reports : Reports → Activity
fold_reports es = fold_from es no_activity

abbrev pub is_completion : ActivityEvent → Bool
is_completion turn_completed = true
is_completion session_start = false
is_completion turn_started = false
is_completion waiting_reported = false

-- How many turns the reports say to have ended.
abbrev pub completions : Reports → ℕ
completions [] = 0
completions ((event, at) ∷ es) = (if is_completion event then 1 else 0) + completions es

abbrev pub at_most : ℕ → ℕ → ℕ
at_most limit n = if ltb n limit then n else limit

turns_folded :
    (event : ActivityEvent) (at : ℕ) (a : Activity)
    → a.turns ≤ u64_max
    → (folded event at a).turns ≡ at_most u64_max (a.turns + (if is_completion event then 1 else 0))
unfolding folded next_phase
turns_folded session_start at a h = elim (a.phase) [
  | Phase.unknown ↦ ground arith
  | Phase.working ↦ ground arith
  | Phase.waiting_for_input ↦ ground arith
]
turns_folded turn_started at a h = ground arith
turns_folded turn_completed at a h = ground arith
turns_folded waiting_reported at a h = ground arith

turns_fold_from :
    (es : Reports) (a : Activity)
    → a.turns ≤ u64_max
    → (fold_from es a).turns ≡ at_most u64_max (a.turns + completions es)
unfolding fold_from
turns_fold_from [] a h = ground arith
turns_fold_from ((event, at) ∷ es) a h =
    let now = turns_folded event at a h in
    ground (arith, now, turns_fold_from es (folded event at a))

-- What decides the phase: the last report that is not of a start.
abbrev pub or_last : Option ActivityEvent → ActivityEvent → Option ActivityEvent
or_last (some later) event = some later
or_last none session_start = none
or_last none turn_started = some turn_started
or_last none turn_completed = some turn_completed
or_last none waiting_reported = some waiting_reported

abbrev pub last_signal : Reports → Option ActivityEvent
last_signal [] = none
last_signal ((event, at) ∷ es) = or_last (last_signal es) event

-- The phase that a signal means.
abbrev pub meant : ActivityEvent → Phase
meant session_start = Phase.working
meant turn_started = Phase.working
meant turn_completed = Phase.waiting_for_input
meant waiting_reported = Phase.waiting_for_input

-- Without a signal, a start is work, and no report leaves the phase as it was.
abbrev pub after_starts : Reports → Phase → Phase
after_starts [] p = p
after_starts (_ ∷ _) Phase.unknown = Phase.working
after_starts (_ ∷ _) Phase.working = Phase.working
after_starts (_ ∷ _) Phase.waiting_for_input = Phase.waiting_for_input

abbrev pub phase_meant : Option ActivityEvent → Reports → Phase → Phase
phase_meant (some signal) es p = meant signal
phase_meant none es p = after_starts es p

-- One more report in front of the others.
phase_cons :
    (event : ActivityEvent) (at : ℕ) (a : Activity) (es : Reports)
    → phase_meant (last_signal es) es (folded event at a).phase
      ≡ phase_meant (last_signal ((event, at) ∷ es)) ((event, at) ∷ es) a.phase
unfolding folded next_phase
phase_cons session_start at a [] = ground arith
phase_cons turn_started at a [] = ground arith
phase_cons turn_completed at a [] = ground arith
phase_cons waiting_reported at a [] = ground arith
phase_cons session_start at a (e ∷ es) = ground arith
phase_cons turn_started at a (e ∷ es) = ground arith
phase_cons turn_completed at a (e ∷ es) = ground arith
phase_cons waiting_reported at a (e ∷ es) = ground arith

phase_fold_from :
    (es : Reports) (a : Activity) → (fold_from es a).phase ≡ phase_meant (last_signal es) es a.phase
unfolding fold_from
phase_fold_from [] a = refl
phase_fold_from ((event, at) ∷ es) a =
    phase_fold_from es (folded event at a) ∙ phase_cons event at a es

-- From no activity, the turns are the completions that were reported, up to the largest `u64`, and the
-- phase is the one that the last report other than a start means: a start, late or repeated, never moves
-- a harness back, and it is working from its first start on.
pub fold_reports_lem :
    (es : Reports)
    → ((fold_reports es).turns ≡ at_most u64_max (completions es))
      × ((fold_reports es).phase ≡ phase_meant (last_signal es) es Phase.unknown)
unfolding fold_reports
fold_reports_lem es =
    (ground (arith, turns_fold_from es no_activity), phase_fold_from es no_activity)
