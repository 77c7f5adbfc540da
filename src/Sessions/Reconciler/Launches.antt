-- ===== src/Sessions/Reconciler/Launches.antt =====
-- When the session reconciler starts a harness: agentctl/src/sessions/reconciler.rs.
use digdir_agents.Base.{
  Bool-cases, Option-cases, Result, err, ok, Result-cases, ℕ, ◌+◌, ◌≤◌, ◌≡◌, refl, ◌∙◌, ◌⊎◌, inl,
  inr, Bool, true, false, Option, none, some, arith,
}
use digdir_agents.Agents.Errors.{Message, Error, not_found}
use digdir_agents.Agents.Model.{spec_is_stopped, is_ready, status_is_stopped, AgentRecord, is_some}
use digdir_agents.Sessions.Status.{LifecycleState, in_state}
use digdir_agents.Sessions.Model.{Session, is_deleting, is_archived}
use digdir_agents.Sessions.Effects.{
  SessionRuntime, World, Step, and_then, ◌>>=◌, ◌>>◌, lift, attempt, read, write,
}
use digdir_agents.Sessions.Blocking.{
  is_in, has_harness, blocked_reason, held_in, launch_blocked, Rest, rests, settles, wakes, rest_of,
}
use digdir_agents.Sessions.Reconciler.{
  converge_held, converge_agent, converge_rest, converge, reconcile_session, reconcile_found,
  reconcile,
}
use digdir_agents.Sessions.Reconciler.Quiet.{
  IsQuiet, quiet_calls, bind-calls, lift-IsQuiet, quiet_steps,
}
use digdir_agents.Sessions.Reconciler.Passive.{
  settle_unarchived-IsQuiet, recorded-IsQuiet, release-IsQuiet, converge_archive-IsQuiet,
}
use digdir_agents.Sessions.Reconciler.Single.{
  is_start, starts, start-IsActive, single_calls, converge_in_sandbox-IsSingle,
}
use digdir_agents.Persistence.Rows.{Db}
use digdir_agents.Persistence.Agents.{get_agent}
use digdir_agents.Persistence.Sessions.{get_session, reset_session_launch_attempts}

-- An agent that can run the session: it is to run and is not recorded as stopped, it is not being
-- deleted, it is ready, and its sandbox carries the harness.
pub record CanRun (s : Session) (r : AgentRecord) : Type 0 where
  pub runs : spec_is_stopped r.agent.spec ≡ false
  pub not_stopped : status_is_stopped r.agent.status ≡ false
  pub stays : is_some r.agent.metadata.deletion_timestamp ≡ false
  pub ready : is_ready r.agent.status ≡ true
  pub carries : has_harness r.agent.status.sandbox s.harness ≡ true

-- A session that a pass may launch, as the database has it: it is not being released, not archived, and
-- not at rest, and its agent can run it.
pub record MayLaunch (db : Db) (s : Session) : Type 0 where
  pub kept : is_deleting s ≡ false
  pub unarchived : is_archived s ≡ false
  pub woken : rest_of s ≡ wakes
  pub owned : (r : AgentRecord) × (get_agent db s.agent_id ≡ ok r) × CanRun s r

-- The calls of a step: no start, or one start that has its reason.
abbrev pub Starts : {R : Type 0} → World R → World R → Type 0 → Type 0
Starts w w' P = (starts w'.calls ≡ starts w.calls) ⊎ ((starts w'.calls ≤ starts w.calls + 1) × P)

reason_map : {R P Q : Type 0} (w w' : World R) → (P → Q) → Starts w w' P → Starts w w' Q
reason_map w w' f (inl none_started) = inl none_started
reason_map w w' f (inr (one, reason)) = inr (one, f reason)

-- What holds nothing back.
unblocked :
    (r : AgentRecord) (s : Session)
    → launch_blocked r s ≡ none
    → (is_some r.agent.metadata.deletion_timestamp ≡ false)
      × (is_ready r.agent.status ≡ true)
      × (has_harness r.agent.status.sandbox s.harness ≡ true)
unfolding launch_blocked
unblocked r s h = parts (held (blocked_reason r s) (is_in LifecycleState.resuming s) h)
  where
    held : (o : Option Message) (b : Bool) → held_in o b ≡ none → o ≡ none
    held none b e = refl
    held (some reason) true e = cc
    held (some reason) false e = cc

    parts :
        blocked_reason r s ≡ none
        → (is_some r.agent.metadata.deletion_timestamp ≡ false)
          × (is_ready r.agent.status ≡ true)
          × (has_harness r.agent.status.sandbox s.harness ≡ true)
    parts e = elim (Bool-cases (is_some r.agent.metadata.deletion_timestamp)) [
      | inl deleting ↦ absurd (cc (rw deleting at e))
      | inr kept ↦ elim (Bool-cases (is_ready r.agent.status)) [
        | inr unready ↦ absurd (cc (rw (kept, unready) at e))
        | inl ready ↦ elim (Bool-cases (has_harness r.agent.status.sandbox s.harness)) [
          | inr lacking ↦ absurd (cc (rw (kept, ready, lacking) at e))
          | inl carried ↦ (kept, ready, carried)
        ]
      ]
    ]

module _ {R : Type 0} (rt : SessionRuntime R) (polls : ℕ) where
  agent-Starts :
      (s : Session) (r : AgentRecord) (w : World R)
      → Starts w (converge_agent rt polls s r w).1 (CanRun s r)
  unfolding converge_agent converge_held
  agent-Starts s r w = elim (Bool-cases (spec_is_stopped r.agent.spec)) [
    | inl stop ↦ rw stop (inl (quiet_calls w (rested_quietly s)))
    | inr runs ↦ elim (Bool-cases (status_is_stopped r.agent.status)) [
      | inl halted ↦ rw (runs, halted) (inl (quiet_calls w (rested_quietly s)))
      | inr not_stopped ↦ elim (Option-cases (launch_blocked r s)) [
        | inr (held, blocked) ↦
            rw (runs, not_stopped, blocked) (inl (quiet_calls w (lift-IsQuiet is_start (ok held))))
        | inl free ↦
            let (stays, ready, carries) = unblocked r s free in
            rw (runs, not_stopped, free)
              (inr (
                single_calls w (converge_in_sandbox-IsSingle rt polls s r),
                record {
                  runs = runs;
                  not_stopped = not_stopped;
                  stays = stays;
                  ready = ready;
                  carries = carries;
                },
              ))
      ]
    ]
  ]
    where
      rested_quietly :
          (s' : Session)
          → IsQuiet {R = R} is_start (
              write (reset_session_launch_attempts s'.id)
              >> lift (ok (in_state LifecycleState.idle)))
      rested_quietly s' = search quiet_steps

  converge-Starts :
      (s : Session) (w : World R)
      → Starts w (converge rt polls s w).1 (
          (rest_of s ≡ wakes)
          × ((r : AgentRecord) × (get_agent w.db s.agent_id ≡ ok r) × CanRun s r))
  unfolding converge converge_rest ◌>>=◌ and_then read
  converge-Starts s w = go (rest_of s) refl
    where
      go :
          (rest : Rest)
          → rest_of s ≡ rest
          → Starts w (converge_rest rt polls rest s w).1 (
              (rest_of s ≡ wakes)
              × ((r : AgentRecord) × (get_agent w.db s.agent_id ≡ ok r) × CanRun s r))
      go rests e = inl (quiet_calls w (lift-IsQuiet is_start (ok (in_state LifecycleState.idle))))
      go settles e = inl (quiet_calls w (settle_unarchived-IsQuiet rt is_start start-IsActive s))
      go wakes e = elim (Result-cases (get_agent w.db s.agent_id)) [
        | inl (failure, unknown_agent) ↦ rw unknown_agent (inl refl)
        | inr (r, known) ↦ rw known (
            reason_map w (converge_agent rt polls s r w).1
              (λ (can : CanRun s r). (e, (r, refl, can))) (agent-Starts s r w))
      ]

  behind-Starts :
      {A B P : Type 0} (m : Step R A) (f : Result Error A → Step R B) (w : World R)
      → ((a : Result Error A) → IsQuiet is_start (f a))
      → Starts w (m w).1 P
      → Starts w ((attempt m >>= f) w).1 P
  unfolding attempt
  behind-Starts m f w q (inl none_started) =
      inl (bind-calls is_start (attempt m) f q w ∙ none_started)
  behind-Starts m f w q (inr (one, reason)) =
      inr (omega (arith, bind-calls is_start (attempt m) f q w), reason)

  session-Starts :
      (s : Session) (w : World R) → Starts w (reconcile_session rt polls s w).1 (MayLaunch w.db s)
  unfolding reconcile_session
  session-Starts s w = elim (Bool-cases (is_deleting s)) [
    | inl deleting ↦
        rw deleting (inl (quiet_calls w (release-IsQuiet rt is_start start-IsActive refl s)))
    | inr kept ↦ rw kept (
        behind-Starts _ _ w (recorded-IsQuiet rt is_start start-IsActive polls s)
          (elim (Bool-cases (is_archived s)) [
            | inl asked ↦
                rw asked
                  (inl (quiet_calls w (converge_archive-IsQuiet rt is_start start-IsActive refl s)))
            | inr unarchived ↦ rw unarchived (
                reason_map w (converge rt polls s w).1
                  (λ (woken, owned). record {
                    kept = kept;
                    unarchived = unarchived;
                    woken = woken;
                    owned = owned;
                  })
                  (converge-Starts s w))
          ]))
  ]

  found-Starts :
      (r : Result Error Session) (w : World R)
      → Starts w (reconcile_found rt polls r w).1 ((s : Session) × (r ≡ ok s) × MayLaunch w.db s)
  unfolding reconcile_found lift
  found-Starts (err not_found) w = inl refl
  found-Starts (err e) w = inl refl
  found-Starts (ok s) w =
      reason_map w (reconcile_session rt polls s w).1 (λ (may : MayLaunch w.db s). (s, refl, may))
        (session-Starts s w)

  -- Whatever the runtime does, a pass starts no harness, or starts one and the database had, as the pass
  -- began, that the session was to have one: it was neither being released nor archived, it had been
  -- asked for since it last came to rest, and its agent was to run, not recorded as stopped, not being
  -- deleted, ready, and carried the harness.
  pub reconcile-Starts :
      (id : ℕ) (w : World R)
      → Starts w
          (reconcile rt polls id w).1
          ((s : Session) × (get_session w.db id ≡ ok s) × MayLaunch w.db s)
  unfolding reconcile ◌>>=◌ and_then read attempt
  reconcile-Starts id w = found-Starts (get_session w.db id) w
