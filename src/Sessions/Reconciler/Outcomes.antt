-- ===== src/Sessions/Reconciler/Outcomes.antt =====
-- What a pass records: agentctl/src/sessions/reconciler.rs.
use digdir_agents.Base.{
  if◌then◌else◌, Bool-cases, Option-cases, Result, err, ok, ℕ, ◌≡◌, refl, sym, ap, ◌∙◌, ◌≢◌, inl,
  inr, true, false, none, some,
}
use digdir_agents.Agents.Errors.{to_string, Error}
use digdir_agents.Sessions.Status.{LifecycleState, Lifecycle}
use digdir_agents.Sessions.Model.{Session, is_deleting, is_archived}
use digdir_agents.Sessions.Effects.{
  SessionRuntime, World, Step, and_then, ◌>>=◌, ◌>>◌, lift, attempt, read, write, with_env,
}
use digdir_agents.Sessions.Stopping.{converge_archive}
use digdir_agents.Sessions.Reconciler.{failed_as, converge, recorded, reconcile_session}
use digdir_agents.Persistence.Rows.{Db}
use digdir_agents.Persistence.Sessions.{get_session, same_lifecycle_state}
use digdir_agents.Persistence.Store.Lookups.{IsDistinct}
use digdir_agents.Persistence.Store.Recorded.{IsRecorded, update-IsRecorded}
use digdir_agents.Sessions.Blocking.{is_in}

-- What may be recorded for an outcome, of the session as it is read then: what it was converged to; or
-- the failure, with an archived session still archived, one that was resuming still resuming, and any
-- other failed.
pub data IsLifecycle (current : Session) : Result Error Lifecycle → Lifecycle → Type 0 where
  as_converged : (lifecycle : Lifecycle) → IsLifecycle current (ok lifecycle) lifecycle
  still_archived :
      (e : Error) (at : ℕ)
      → current.archived_at ≡ some at
      → IsLifecycle current
          (err e)
          (record { state = LifecycleState.archived; failure = some (to_string e) })
  still_resuming :
      (e : Error)
      → current.archived_at ≡ none
      → current.status.lifecycle.state ≡ LifecycleState.resuming
      → IsLifecycle current
          (err e)
          (record { state = LifecycleState.resuming; failure = some (to_string e) })
  has_failed :
      (e : Error)
      → current.archived_at ≡ none
      → current.status.lifecycle.state ≢ LifecycleState.resuming
      → IsLifecycle current
          (err e)
          (record { state = LifecycleState.failed; failure = some (to_string e) })

in_resuming :
    (state : LifecycleState)
    → same_lifecycle_state state LifecycleState.resuming ≡ true
    → state ≡ LifecycleState.resuming
in_resuming LifecycleState.resuming h = refl
in_resuming LifecycleState.starting h = absurd (cc h)
in_resuming LifecycleState.running h = absurd (cc h)
in_resuming LifecycleState.idle h = absurd (cc h)
in_resuming LifecycleState.archived h = absurd (cc h)
in_resuming LifecycleState.failed h = absurd (cc h)

failed_as-IsLifecycle :
    (current : Session) (e : Error) → IsLifecycle current (err e) (failed_as current e)
failed_as-IsLifecycle current e = elim (Option-cases current.archived_at) [
  | inr (at, asked) ↦ simp (asked) (still_archived e at asked)
  | inl unasked ↦ elim (Bool-cases (is_in LifecycleState.resuming current)) [
    | inl resumes ↦
        simp (unasked, resumes)
          (still_resuming e unasked (in_resuming current.status.lifecycle.state resumes))
    | inr other ↦
        simp (unasked, other)
          (has_failed e unasked
            (λ h. cc (ap (λ x. same_lifecycle_state x LifecycleState.resuming) (sym h) ∙ other)))
  ]
]

-- What is recorded then stands for the session and the activation.
abbrev pub Records : Session → Session → Result Error Lifecycle → Db → Type 0
Records s current outcome db =
    (lifecycle : Lifecycle) × IsLifecycle current outcome lifecycle
    × IsRecorded s.id lifecycle s.activation_generation db

abbrev pub answer_of : Result Error Lifecycle → Result Error (Unit {0})
answer_of (ok lifecycle) = ok tt
answer_of (err e) = err e

module _ {R : Type 0} (rt : SessionRuntime R) (polls : ℕ) where
  -- What a session that is kept is brought to.
  abbrev pub converged : Session → Step R Lifecycle
  converged s w = (if is_archived s then converge_archive rt s else converge rt polls s) w

  recorded-IsRecorded :
      (s current : Session) (outcome : Result Error Lifecycle) (w : World R)
      → get_session w.db s.id ≡ ok current
      → IsDistinct w.db.sessions
      → ((recorded rt polls s outcome w).0 ≡ answer_of outcome)
        × Records s current outcome (recorded rt polls s outcome w).1.db
  unfolding recorded ◌>>=◌ ◌>>◌ and_then with_env write read lift
  recorded-IsRecorded s current (ok lifecycle) w h d =
      let (done, seen) =
        update-IsRecorded s.id lifecycle s.activation_generation (rt.now w.env) w.db current h d in
      (done, (lifecycle, as_converged lifecycle, seen))
  recorded-IsRecorded s current (err e) w h d =
      let (done, seen) =
        update-IsRecorded s.id (failed_as current e) s.activation_generation (rt.now w.env) w.db
          current h d in
      rw (h, done) (refl, (failed_as current e, failed_as-IsLifecycle current e, seen))

  -- A pass over a session that is not being released, and that is still there once it was converged,
  -- answers as converging did and records what that came to, for the activation that the pass began with:
  -- the lifecycle that it was converged to, or the failure. A failure leaves a session archived whose
  -- archiving is asked for when it is read again, otherwise one resuming that was resuming then, and
  -- makes any other failed.
  pub reconcile_session-IsRecorded :
      (s current : Session) (w : World R)
      → is_deleting s ≡ false
      → get_session (converged s w).1.db s.id ≡ ok current
      → IsDistinct (converged s w).1.db.sessions
      → ((reconcile_session rt polls s w).0 ≡ answer_of (converged s w).0)
        × Records s current (converged s w).0 (reconcile_session rt polls s w).1.db
  unfolding reconcile_session ◌>>=◌ and_then attempt
  reconcile_session-IsRecorded s current w kept h d =
      rw kept (recorded-IsRecorded s current (converged s w).0 (converged s w).1 h d)
