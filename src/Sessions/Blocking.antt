-- ===== src/Sessions/Blocking.antt =====
-- What keeps the session reconciler from launching a harness: agentctl/src/sessions/reconciler.rs.
use digdir_agents.Base.{
  ◌==◌, if◌then◌else◌, any, Str, Bool, true, false, not, Option, none, some, [], ◌∷◌,
}
use digdir_agents.Agents.Harness.{Harness, same_harness}
use digdir_agents.Agents.Errors.{text, harness, Message, said, format, format_detail}
use digdir_agents.Agents.Model.{
  Assignment, selected, materialized, Condition, find_ready, is_ready, AgentRecord, is_some,
  condition_detail,
}
use digdir_agents.Text.{trim_end}
use digdir_agents.Sessions.Status.{LifecycleState, Lifecycle, in_state_with, is_some_message}
use digdir_agents.Sessions.Model.{Session}
use digdir_agents.Persistence.Sessions.{same_lifecycle_state}

abbrev pub is_in : LifecycleState → Session → Bool
is_in state s = same_lifecycle_state s.status.lifecycle.state state

abbrev pub is_materialized : Option Assignment → Bool
is_materialized (some (materialized provider id harnesses)) = true
is_materialized (some (selected provider)) = false
is_materialized none = false

abbrev pub ready_reason : Option Condition → Str → Message
ready_reason none name = format "Agent {} is not ready" (text name ∷ [])
ready_reason (some ready) name =
    format_detail "Agent {} is not ready: {}" (text name ∷ [])
      (said (trim_end (condition_detail ready)))

abbrev pub has_harness : Option Assignment → Harness → Bool
has_harness none kind = false
has_harness (some (selected provider)) kind = false
has_harness (some (materialized provider id harnesses)) kind =
    any (λ h. same_harness h kind) harnesses

abbrev pub blocked_reason : AgentRecord → Session → Option Message
blocked_reason r s =
    let name = r.agent.metadata.name in
    if is_some r.agent.metadata.deletion_timestamp
    then some (format "Agent {} is being deleted" (text name ∷ []))
    else if not (is_ready r.agent.status)
    then some (ready_reason (find_ready r.agent.status.conditions) name)
    else if not (has_harness r.agent.status.sandbox s.harness)
    then some (
        format
          "Agent {} does not carry harness {}; sign in on the host and the next agent convergence installs it"
          (text name ∷ harness s.harness ∷ []))
    else none

abbrev pub held_in : Option Message → Bool → Option Lifecycle
held_in none resuming_now = none
held_in (some reason) true = some (in_state_with LifecycleState.resuming reason)
held_in (some reason) false = some (in_state_with LifecycleState.starting reason)

-- `launch_blocked`.
unfoldable pub launch_blocked : AgentRecord → Session → Option Lifecycle
launch_blocked r s = held_in (blocked_reason r s) (is_in LifecycleState.resuming s)

-- What `converge` does with a session that no attach has asked for since it was last observed.
pub data Rest : Type 0 where
  rests settles wakes : Rest

abbrev pub rest_in : LifecycleState → Bool → Rest
rest_in LifecycleState.idle _ = rests
rest_in LifecycleState.archived false = rests
rest_in LifecycleState.archived true = settles
rest_in LifecycleState.starting _ = wakes
rest_in LifecycleState.resuming _ = wakes
rest_in LifecycleState.running _ = wakes
rest_in LifecycleState.failed _ = wakes

unfoldable pub rest_of : Session → Rest
rest_of s =
    if s.activation_generation == s.observed_activation_generation
    then rest_in s.status.lifecycle.state (is_some_message s.status.lifecycle.failure)
    else wakes
