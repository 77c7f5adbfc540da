-- ===== src/Sessions/Reconciler/Turns.antt =====
-- What an archive leaves to finish: agentctl/src/sessions/reconciler.rs.
use digdir_agents.Base.{
  ltb, Result, err, ok, ℕ, ◌≡◌, refl, ◌∙◌, Bool, true, false, Option, none, some, List,
}
use digdir_agents.Agents.Errors.{Error}
use digdir_agents.Sessions.Model.{Session}
use digdir_agents.Sessions.Effects.{
  alive, SandboxHandle, SessionRuntime, RuntimeCall, observed_call, ready_call, stopped_call,
  started_call, World, and_then, ◌>>=◌, lift, with_env, ask,
}
use digdir_agents.Sessions.Timing.{archive_turn_quiet_seconds, effective_idle_seconds}
use digdir_agents.Sessions.Stopping.{
  is_waiting, release_sandbox, mid_turn, stop_archived, archive_in, converge_archive,
}
use digdir_agents.Sessions.Reconciler.Quiet.{
  count_calls, IsQuiet, quiet, quiet_calls, bind-IsQuiet, lift-IsQuiet, if-IsQuiet, quiet_steps,
}
use digdir_agents.Sessions.Reconciler.Passive.{IsActive, release_sandbox-IsQuiet, mid_turn-IsQuiet}
use digdir_agents.Persistence.Rows.{Db}

abbrev pub is_stop_call : RuntimeCall → Bool
is_stop_call stopped_call = true
is_stop_call RuntimeCall.opened = false
is_stop_call observed_call = false
is_stop_call ready_call = false
is_stop_call (started_call token resume initial_prompt) = false

-- How often a harness was stopped.
abbrev pub stops : List RuntimeCall → ℕ
stops = count_calls is_stop_call

stop-IsActive : IsActive is_stop_call
stop-IsActive = record { opens = refl; observes = refl; asks = refl }

-- A runtime that sees the harness at work: there, and quiet for less than a minute by the clock.
pub record SeesTurn {R : Type 0} (rt : SessionRuntime R) (s : Session) : Type 0 where
  pub seen :
      (box : SandboxHandle) (d : Db × R)
      → (attached : Bool) × (age : ℕ) × ((rt.observe s box d).0 ≡ ok (alive attached age))
        × (ltb
              (effective_idle_seconds s.status.reported.activity age
                (rt.now (rt.observe s box d).2))
              archive_turn_quiet_seconds
            ≡ true)

module _ {R : Type 0} (rt : SessionRuntime R) (s : Session) (sees : SeesTurn rt s)
    (busy : is_waiting s ≡ false) where
  turn_seen : (box : SandboxHandle) (w : World R) → (mid_turn rt s box w).0 ≡ ok true
  unfolding mid_turn ◌>>=◌ and_then ask with_env lift
  turn_seen box w =
      let (attached, age, is_alive_there, recent) = sees.seen box (w.db, w.env) in
      rw (busy, is_alive_there, recent) refl

  waits :
      (box : SandboxHandle) (r : Result Error Bool × World R)
      → r.0 ≡ ok true
      → stops (and_then r (λ at_work. stop_archived rt at_work s box)).1.calls ≡ stops r.1.calls
  unfolding and_then stop_archived lift
  waits box (err e, w) h = refl
  waits box (ok true, w) h = refl
  waits box (ok false, w) h = absurd (cc h)

  archive_in-IsQuiet : (o : Option SandboxHandle) → IsQuiet is_stop_call (archive_in rt o s)
  unfolding archive_in ◌>>=◌
  archive_in-IsQuiet none = search quiet_steps depth 12
  archive_in-IsQuiet (some box) = quiet (λ w.
      waits box (mid_turn rt s box w) (turn_seen box w)
      ∙ quiet_calls w (mid_turn-IsQuiet rt is_stop_call stop-IsActive s box))

  -- Archiving never cuts a turn short: while the harness has not reported to wait for input, and is seen
  -- there with its terminal and transcript quiet for less than a minute, converging the archived
  -- session does not stop it.
  pub converge_archive-waits :
      (w : World R) → stops (converge_archive rt s w).1.calls ≡ stops w.calls
  unfolding converge_archive
  converge_archive-waits w = quiet_calls w (
      if-IsQuiet is_stop_call _ _ _ (lift-IsQuiet is_stop_call _) (
        bind-IsQuiet is_stop_call (release_sandbox rt s) _
          (release_sandbox-IsQuiet rt is_stop_call stop-IsActive s) archive_in-IsQuiet))
