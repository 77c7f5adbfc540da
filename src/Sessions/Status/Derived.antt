-- ===== src/Sessions/Status/Derived.antt =====
-- What the state of a session says: agentctl/src/sessions/mod.rs.
use mathlib.Core.Path.{subst}
use digdir_agents.Base.{
  Option-cases, Str, ℕ, ◌≡◌, refl, sym, ◌∙◌, ◌↔◌, ◌⊎◌, inl, inr, Bool, true, false, Option, none,
  some,
}
use digdir_agents.Agents.Errors.{Message}
use digdir_agents.Sessions.Activity.{Phase}
use digdir_agents.Sessions.Status.{
  LifecycleState, Lifecycle, Reported, State, reported_state, running_state, harness_state_of,
  entered, observed,
}

-- Whether what is recorded of a harness leaves it running: it is said to run, or it could not be stopped.
abbrev pub is_alive : LifecycleState → Option Message → Bool
is_alive LifecycleState.running _ = true
is_alive LifecycleState.archived (some _) = true
is_alive LifecycleState.archived none = false
is_alive LifecycleState.starting _ = false
is_alive LifecycleState.resuming _ = false
is_alive LifecycleState.idle _ = false
is_alive LifecycleState.failed _ = false

entered_state : (s : State) (r : Reported) (since : Option ℕ) → (entered s r since).0 ≡ s
unfolding entered
entered_state State.starting r since = refl
entered_state State.working r since = refl
entered_state State.waiting_for_input r since = refl
entered_state State.idle r since = refl
entered_state State.archiving r since = refl
entered_state State.archived r since = refl
entered_state State.failed r since = refl

-- What a session is shown as: the time at which its archiving was asked for, the lifecycle with its
-- failure, and what the harness reported.
pub data Shows (archived_at : Option ℕ) (s : LifecycleState) (f : Option Message) (r : Reported)
    : State → Type 0 where
  shows_archived :
      (at : ℕ)
      → archived_at ≡ some at
      → s ≡ LifecycleState.archived
      → f ≡ none
      → Shows archived_at s f r State.archived
  shows_archiving :
      (at : ℕ)
      → archived_at ≡ some at
      → ¬ ((s ≡ LifecycleState.archived) × (f ≡ none))
      → Shows archived_at s f r State.archiving
  shows_idle :
      archived_at ≡ none
      → (s ≡ LifecycleState.idle) ⊎ ((s ≡ LifecycleState.archived) × (f ≡ none))
      → Shows archived_at s f r State.idle
  shows_failed :
      archived_at ≡ none → s ≡ LifecycleState.failed → Shows archived_at s f r State.failed
  shows_launch :
      archived_at ≡ none
      → (s ≡ LifecycleState.starting) ⊎ (s ≡ LifecycleState.resuming)
      → Shows archived_at s f r State.starting
  shows_unnamed :
      archived_at ≡ none
      → is_alive s f ≡ true
      → r.harness_session_id ≡ none
      → Shows archived_at s f r State.starting
  shows_unknown :
      archived_at ≡ none
      → is_alive s f ≡ true
      → r.activity.phase ≡ Phase.unknown
      → Shows archived_at s f r State.starting
  shows_working :
      (native : Str)
      → archived_at ≡ none
      → is_alive s f ≡ true
      → r.harness_session_id ≡ some native
      → r.activity.phase ≡ Phase.working
      → Shows archived_at s f r State.working
  shows_waiting :
      (native : Str)
      → archived_at ≡ none
      → is_alive s f ≡ true
      → r.harness_session_id ≡ some native
      → r.activity.phase ≡ Phase.waiting_for_input
      → Shows archived_at s f r State.waiting_for_input

abbrev shown : Option ℕ → LifecycleState → Option Message → Reported → Option ℕ → State
shown archived_at s f r since =
    (observed (record { state = s; failure = f }) r since archived_at).state

running_state-Shows :
    (s : LifecycleState) (f : Option Message) (r : Reported)
    → is_alive s f ≡ true
    → Shows none s f r (running_state r)
unfolding running_state
running_state-Shows s f r up = elim (Option-cases r.harness_session_id) [
  | inl unnamed ↦
      subst (λ id. Shows none s f r (reported_state id r.activity.phase)) (sym unnamed)
        (shows_unnamed refl up unnamed)
  | inr (native, named) ↦
      subst (λ id. Shows none s f r (reported_state id r.activity.phase)) (sym named)
        (by_phase native named r.activity.phase refl)
]
  where
    by_phase :
        (native : Str)
        → r.harness_session_id ≡ some native
        → (p : Phase) → r.activity.phase ≡ p
        → Shows none s f r (reported_state (some native) p)
    by_phase native named Phase.unknown e = shows_unknown refl up e
    by_phase native named Phase.working e = shows_working native refl up named e
    by_phase native named Phase.waiting_for_input e = shows_waiting native refl up named e

entered-Shows :
    (s : LifecycleState) (f : Option Message) (r : Reported) (since : Option ℕ)
    → is_alive s f ≡ true
    → Shows none s f r (entered (running_state r) r since).0
entered-Shows s f r since up =
    subst (λ x. Shows none s f r x) (sym (entered_state (running_state r) r since))
      (running_state-Shows s f r up)

shown-Shows :
    (archived_at : Option ℕ) (s : LifecycleState) (f : Option Message) (r : Reported)
    (since : Option ℕ)
    → Shows archived_at s f r (shown archived_at s f r since)
unfolding observed harness_state_of entered
shown-Shows (some at) LifecycleState.archived none r since = shows_archived at refl refl refl
shown-Shows (some at) LifecycleState.archived (some m) r since =
    shows_archiving at refl (λ h. cc h.1)
shown-Shows (some at) LifecycleState.starting f r since = shows_archiving at refl (λ h. cc h.0)
shown-Shows (some at) LifecycleState.resuming f r since = shows_archiving at refl (λ h. cc h.0)
shown-Shows (some at) LifecycleState.running f r since = shows_archiving at refl (λ h. cc h.0)
shown-Shows (some at) LifecycleState.idle f r since = shows_archiving at refl (λ h. cc h.0)
shown-Shows (some at) LifecycleState.failed f r since = shows_archiving at refl (λ h. cc h.0)
shown-Shows none LifecycleState.archived none r since = shows_idle refl (inr (refl, refl))
shown-Shows none LifecycleState.archived (some m) r since =
    entered-Shows LifecycleState.archived (some m) r since refl
shown-Shows none LifecycleState.running f r since =
    entered-Shows LifecycleState.running f r since refl
shown-Shows none LifecycleState.starting f r since = shows_launch refl (inl refl)
shown-Shows none LifecycleState.resuming f r since = shows_launch refl (inr refl)
shown-Shows none LifecycleState.idle f r since = shows_idle refl (inl refl)
shown-Shows none LifecycleState.failed f r since = shows_failed refl refl

unknown_state : (id : Option Str) → reported_state id Phase.unknown ≡ State.starting
unknown_state none = refl
unknown_state (some native) = refl

-- Of a harness that is alive the reports say what it does.
alive_shown :
    (archived_at : Option ℕ) (s : LifecycleState) (f : Option Message) (r : Reported)
    (since : Option ℕ)
    → archived_at ≡ none
    → is_alive s f ≡ true
    → shown archived_at s f r since ≡ reported_state r.harness_session_id r.activity.phase
unfolding observed harness_state_of running_state
alive_shown archived_at LifecycleState.running f r since unasked up =
    rw unasked (entered_state _ r since)
alive_shown archived_at LifecycleState.archived (some m) r since unasked up =
    rw unasked (entered_state _ r since)
alive_shown archived_at LifecycleState.archived none r since unasked up = absurd (cc up)
alive_shown archived_at LifecycleState.starting f r since unasked up = absurd (cc up)
alive_shown archived_at LifecycleState.resuming f r since unasked up = absurd (cc up)
alive_shown archived_at LifecycleState.idle f r since unasked up = absurd (cc up)
alive_shown archived_at LifecycleState.failed f r since unasked up = absurd (cc up)

-- No session is shown as two things.
Shows-unique :
    (archived_at : Option ℕ) (s : LifecycleState) (f : Option Message) (r : Reported)
    (since : Option ℕ) (state : State)
    → Shows archived_at s f r state
    → shown archived_at s f r since ≡ state
unfolding observed harness_state_of entered
Shows-unique archived_at s f r since _ (shows_archived at asked in_archive unfailed) =
    rw (asked, in_archive, unfailed) refl
Shows-unique archived_at s f r since _ (shows_archiving at asked other) =
    rw asked (unarchived s f other)
  where
    unarchived :
        (x : LifecycleState) (m : Option Message)
        → ¬ ((x ≡ LifecycleState.archived) × (m ≡ none))
        → shown (some at) x m r since ≡ State.archiving
    unarchived LifecycleState.archived none h = absurd (h (refl, refl))
    unarchived LifecycleState.archived (some _) h = refl
    unarchived LifecycleState.starting m h = refl
    unarchived LifecycleState.resuming m h = refl
    unarchived LifecycleState.running m h = refl
    unarchived LifecycleState.idle m h = refl
    unarchived LifecycleState.failed m h = refl
Shows-unique archived_at s f r since _ (shows_idle unasked (inl rests)) = rw (unasked, rests) refl
Shows-unique archived_at s f r since _ (shows_idle unasked (inr (in_archive, unfailed))) =
    rw (unasked, in_archive, unfailed) refl
Shows-unique archived_at s f r since _ (shows_failed unasked fails) = rw (unasked, fails) refl
Shows-unique archived_at s f r since _ (shows_launch unasked (inl starts)) =
    rw (unasked, starts) refl
Shows-unique archived_at s f r since _ (shows_launch unasked (inr resumes)) =
    rw (unasked, resumes) refl
Shows-unique archived_at s f r since _ (shows_unnamed unasked up unnamed) =
    alive_shown archived_at s f r since unasked up ∙ rw unnamed refl
Shows-unique archived_at s f r since _ (shows_unknown unasked up phase) =
    alive_shown archived_at s f r since unasked up ∙ rw phase (unknown_state r.harness_session_id)
Shows-unique archived_at s f r since _ (shows_working native unasked up named phase) =
    alive_shown archived_at s f r since unasked up ∙ rw (named, phase) refl
Shows-unique archived_at s f r since _ (shows_waiting native unasked up named phase) =
    alive_shown archived_at s f r since unasked up ∙ rw (named, phase) refl

-- Which of the seven states a session is seen in. One whose archiving was asked for is archived once its
-- harness's stop is recorded without a failure, and archiving until then. Of any other it is idle if
-- idle or such a stop is recorded; failed if that is recorded; starting if a start or a resumption is
-- recorded; and if the harness is recorded as running, or its stop as failed, it is starting until the
-- harness has named its conversation and reported a phase, and then working or waiting for input as
-- last reported.
pub observed-state :
    (lifecycle : Lifecycle) (reported : Reported) (since archived_at : Option ℕ) (state : State)
    → ((observed lifecycle reported since archived_at).state ≡ state)
      ↔ Shows archived_at lifecycle.state lifecycle.failure reported state
observed-state l r since at state = (
  λ e. subst (λ x. Shows at l.state l.failure r x) e (shown-Shows at l.state l.failure r since),
  Shows-unique at l.state l.failure r since state,
)
