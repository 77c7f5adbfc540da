-- ===== src/Sessions/Reconciler/Single.antt =====
-- What starts a harness, once at most: agentctl/src/sessions/reconciler.rs.
use digdir_agents.Base.{
  if◌then◌else◌, Str, Result, err, ok, ℕ, ◌+◌, ◌≤◌, refl, Bool, true, false, Option, none, some,
  List, arith,
}
use digdir_agents.Agents.Errors.{Error}
use digdir_agents.Agents.Model.{AgentRecord}
use digdir_agents.Sessions.Model.{Session, Launch}
use digdir_agents.Sessions.Effects.{
  Observation, missing, alive, SandboxHandle, SessionRuntime, RuntimeCall, observed_call,
  ready_call, stopped_call, started_call, World, Step, and_then, ◌>>=◌, ◌>>◌, ask,
}
use digdir_agents.Sessions.Reconciler.{
  mark_resuming, wait_resumed, launch_session, reset_when, resumed_launch, converge_alive,
  converge_missing, converge_seen, converge_in_sandbox,
}
use digdir_agents.Sessions.Reconciler.Quiet.{
  count_calls, IsQuiet, quiet_calls, bind-calls, then-IsQuiet, lift-IsQuiet, write-IsQuiet,
  ask-IsQuiet, if-IsQuiet, quiet_steps,
}
use digdir_agents.Sessions.Reconciler.Passive.{IsActive, wait_for_resumed_input-IsQuiet}
use digdir_agents.Persistence.Rows.{Db}
use digdir_agents.Persistence.Launches.{record_session_launch}

abbrev pub is_start : RuntimeCall → Bool
is_start (started_call token resume initial_prompt) = true
is_start RuntimeCall.opened = false
is_start observed_call = false
is_start ready_call = false
is_start stopped_call = false

-- How often a harness was started.
abbrev pub starts : List RuntimeCall → ℕ
starts = count_calls is_start

pub start-IsActive : IsActive is_start
start-IsActive = record { opens = refl; observes = refl; asks = refl }

-- A step that starts one harness at most.
pub data IsSingle {R A : Type 0} (m : Step R A) : Type 0 where
  single : ((w : World R) → starts (m w).1.calls ≤ starts w.calls + 1) → IsSingle m

pub single_calls :
    {R A : Type 0} {m : Step R A} (w : World R)
    → IsSingle m
    → starts (m w).1.calls ≤ starts w.calls + 1
single_calls w (single h) = h w

module _ {R : Type 0} where
  quiet-IsSingle : {A : Type 0} (m : Step R A) → IsQuiet is_start m → IsSingle m
  quiet-IsSingle m h = single (λ w. omega (arith, quiet_calls w h))

  and_then-single :
      {A B : Type 0} (r : Result Error A × World R) (f : A → Step R B)
      → ((a : A) → IsSingle (f a))
      → starts (and_then r f).1.calls ≤ starts r.1.calls + 1
  unfolding and_then
  and_then-single (err e, w) f h = omega arith
  and_then-single (ok a, w) f h = single_calls w (h a)

  -- Quiet steps before it, or behind it.
  before-IsSingle :
      {A B : Type 0} (m : Step R A) (f : A → Step R B)
      → IsQuiet is_start m
      → ((a : A) → IsSingle (f a))
      → IsSingle (m >>= f)
  unfolding ◌>>=◌
  before-IsSingle m f h k = single (λ w. omega (arith, quiet_calls w h, and_then-single (m w) f k))

  before_all-IsSingle :
      {B : Type 0} (m : Step R (Unit {0})) (k : Step R B)
      → IsQuiet is_start m
      → IsSingle k
      → IsSingle (m >> k)
  unfolding ◌>>◌
  before_all-IsSingle m k h j = before-IsSingle m (λ _. k) h (λ _. j)

  behind-IsSingle :
      {B : Type 0} (m : Step R (Unit {0})) (k : Step R B)
      → IsSingle m
      → IsQuiet is_start k
      → IsSingle (m >> k)
  unfolding ◌>>◌
  behind-IsSingle m k h j =
      single (λ w. omega (arith, single_calls w h, bind-calls is_start m (λ _. k) (λ _. j) w))

  ask-IsSingle :
      {A : Type 0} (call : RuntimeCall) (f : Db × R → Result Error A × Db × R)
      → IsSingle (ask call f)
  unfolding ask
  ask-IsSingle call f = single (λ w. ground arith)

  if-IsSingle :
      {A : Type 0} (b : Bool) (m k : Step R A)
      → IsSingle m
      → IsSingle k
      → IsSingle (if b then m else k)
  if-IsSingle true m k h j = h
  if-IsSingle false m k h j = j

module _ {R : Type 0} (rt : SessionRuntime R) (polls : ℕ) where
  mark_resuming-IsQuiet :
      (o : Option Str) (s : Session) → IsQuiet is_start (mark_resuming rt polls o s)
  unfolding mark_resuming
  mark_resuming-IsQuiet none s = search quiet_steps
  mark_resuming-IsQuiet (some native) s = search quiet_steps depth 12

  wait_resumed-IsQuiet :
      (o : Option Str) (s : Session) (box : SandboxHandle) (token : ℕ)
      → IsQuiet is_start (wait_resumed rt polls o s box token)
  unfolding wait_resumed
  wait_resumed-IsQuiet none s box token = search quiet_steps
  wait_resumed-IsQuiet (some native) s box token =
      wait_for_resumed_input-IsQuiet rt is_start start-IsActive refl polls s box token

  launch_session-IsSingle :
      (s : Session) (r : AgentRecord) (box : SandboxHandle) (launch : Launch) (resume : Option Str)
      → IsSingle (launch_session rt polls s r box launch resume)
  unfolding launch_session
  launch_session-IsSingle s r box launch resume =
      before-IsSingle _ _ (write-IsQuiet is_start (record_session_launch s.id launch)) λ prompt.
        before_all-IsSingle _ _ (mark_resuming-IsQuiet resume s) (
          behind-IsSingle _ _ (ask-IsSingle _ _) (
            then-IsQuiet is_start _ _ (wait_resumed-IsQuiet resume s box launch.token)
              (lift-IsQuiet is_start _)))

  reset_when-IsQuiet : (b : Bool) (s : Session) → IsQuiet is_start (reset_when rt polls b s)
  unfolding reset_when
  reset_when-IsQuiet true s = search quiet_steps
  reset_when-IsQuiet false s = search quiet_steps

  resumed_launch-IsQuiet :
      (o : Option Launch) (s : Session) (box : SandboxHandle)
      → IsQuiet is_start (resumed_launch rt polls o s box)
  unfolding resumed_launch
  resumed_launch-IsQuiet none s box = search quiet_steps
  resumed_launch-IsQuiet (some launch) s box =
      if-IsQuiet is_start _ _ _
        (wait_for_resumed_input-IsQuiet rt is_start start-IsActive refl polls s box launch.token)
        (lift-IsQuiet is_start _)

  stopping-IsQuiet :
      (s : Session) (box : SandboxHandle) → IsQuiet is_start (ask stopped_call (rt.stop s box))
  stopping-IsQuiet s box = ask-IsQuiet is_start stopped_call (rt.stop s box) refl

  pub converge_alive-IsQuiet :
      (s : Session) (box : SandboxHandle) (launch : Option Launch) (now : ℕ) (attached : Bool)
      (age : ℕ)
      → IsQuiet is_start (converge_alive rt polls s box launch now attached age)
  unfolding converge_alive
  converge_alive-IsQuiet s box launch now attached age =
      search (quiet_steps, reset_when-IsQuiet, resumed_launch-IsQuiet, stopping-IsQuiet) depth 16

  converge_missing-IsSingle :
      (s : Session) (r : AgentRecord) (box : SandboxHandle) (launch : Option Launch) (now : ℕ)
      → IsSingle (converge_missing rt polls s r box launch now)
  unfolding converge_missing
  converge_missing-IsSingle s r box none now =
      search (before-IsSingle, launch_session-IsSingle, quiet_steps)
  converge_missing-IsSingle s r box (some launch) now =
      search
        (
          before-IsSingle, before_all-IsSingle, if-IsSingle, quiet-IsSingle,
          launch_session-IsSingle, quiet_steps,
        )
        depth 16

  converge_seen-IsSingle :
      (seen : Observation) (s : Session) (r : AgentRecord) (box : SandboxHandle)
      (launch : Option Launch) (now : ℕ)
      → IsSingle (converge_seen rt polls seen s r box launch now)
  unfolding converge_seen
  converge_seen-IsSingle missing s r box launch now = converge_missing-IsSingle s r box launch now
  converge_seen-IsSingle (alive attached age) s r box launch now =
      quiet-IsSingle _ (converge_alive-IsQuiet s box launch now attached age)

  opening-IsQuiet :
      (r : AgentRecord) → IsQuiet is_start (ask RuntimeCall.opened (rt.open_sandbox r))
  opening-IsQuiet r = ask-IsQuiet is_start RuntimeCall.opened (rt.open_sandbox r) refl

  observing-IsQuiet :
      (s : Session) (box : SandboxHandle) → IsQuiet is_start (ask observed_call (rt.observe s box))
  observing-IsQuiet s box = ask-IsQuiet is_start observed_call (rt.observe s box) refl

  pub converge_in_sandbox-IsSingle :
      (s : Session) (r : AgentRecord) → IsSingle (converge_in_sandbox rt polls s r)
  unfolding converge_in_sandbox
  converge_in_sandbox-IsSingle s r =
      search
        (
          before-IsSingle, before_all-IsSingle, converge_seen-IsSingle, opening-IsQuiet,
          observing-IsQuiet, quiet_steps,
        )
        depth 16
