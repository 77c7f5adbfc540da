-- ===== src/ControlPlane/Convergence.antt =====
-- Requests that converge an agent and wait for it: agentctl/src/control_plane/convergence.rs. The
-- controller's pass and the wait for a change are an interface: other tasks run meanwhile, and may
-- change the database.
use digdir_agents.Base.{
  ◌==◌, str_eq, if◌then◌else◌, Str, Result, err, ok, ℕ, zero, suc, Bool, true, false, ◌&&◌, Option,
  none, some, List, [], ◌∷◌,
}
use digdir_agents.Agents.Errors.{said, Error, not_found, conflict, sandbox_unresponsive}
use digdir_agents.Agents.Model.{
  spec_is_stopped, find_first, fails, Condition, same_status, FailureKind, invalid_failure,
  transient_failure, AgentStatus, find_ready, is_ready, status_is_stopped, AgentRecord, is_some,
  condition_detail,
}
use digdir_agents.Persistence.Rows.{Db}
use digdir_agents.Persistence.Agents.{get_agent, get_agent_by_name}
use digdir_agents.ControlPlane.Failures.{ReconcileFailure, into_error}

abbrev is_unresponsive : Condition → Bool
is_unresponsive c = str_eq c.kind "SandboxResponsive" && same_status c.status fails

-- `Status::unresponsive`.
unfoldable pub unresponsive : AgentStatus → Option Condition
unresponsive status = find_first is_unresponsive status.conditions

abbrev first_of : List Condition → Option Condition
first_of [] = none
first_of (c ∷ cs) = some c

abbrev detail_of_any : Option Condition → Option Condition → Option Str
detail_of_any (some ready) first = some (condition_detail ready)
detail_of_any none (some first) = some (condition_detail first)
detail_of_any none none = none

abbrev invalid_detail : Option FailureKind → List Condition → Option Str
invalid_detail (some invalid_failure) conditions =
    detail_of_any (find_ready conditions) (first_of conditions)
invalid_detail (some transient_failure) conditions = none
invalid_detail none conditions = none

-- `Status::invalid`.
unfoldable pub invalid_status : AgentStatus → Option Str
invalid_status status = invalid_detail status.failure status.conditions

-- Whether the run state that the manifest asks for is recorded.
abbrev pub is_as_desired : AgentRecord → Bool
is_as_desired r =
    if spec_is_stopped r.agent.spec
    then status_is_stopped r.agent.status
    else is_ready r.agent.status

abbrev pub is_observed : AgentRecord → Bool
is_observed r = r.agent.status.observed_generation == r.agent.metadata.generation

abbrev pub failed_outcome : Option Str → Option (Result Error (Unit {0}))
failed_outcome none = none
failed_outcome (some message) =
    some (err (into_error (record { kind = invalid_failure; message = said message })))

abbrev pub stalled_outcome : Bool → Option Condition → Option (Result Error (Unit {0}))
stalled_outcome true stalled = none
stalled_outcome false none = none
stalled_outcome false (some stalled) =
    some (err (sandbox_unresponsive (said (condition_detail stalled))))

abbrev pub or_outcome :
    Option (Result Error (Unit {0}))
    → Option (Result Error (Unit {0}))
    → Option (Result Error (Unit {0}))
or_outcome (some o) _ = some o
or_outcome none o = o

abbrev observed_outcome : AgentRecord → Option (Result Error (Unit {0}))
observed_outcome r =
    if is_as_desired r then some (ok tt) else failed_outcome (invalid_status r.agent.status)

-- `outcome`.
unfoldable pub outcome : AgentRecord → Option (Result Error (Unit {0}))
outcome r =
    or_outcome (if is_observed r then observed_outcome r else none)
      (stalled_outcome (spec_is_stopped r.agent.spec) (unresponsive r.agent.status))

pub data WaitPolicy : Type 0 where
  first_pass until_converged : WaitPolicy

-- `Wakeup::reconcile`, and `Changes::changed_since`.
pub record Controller (R : Type 0) : Type 0 where
  pub reconcile : ℕ → Db × R → Result ReconcileFailure (Unit {0}) × Db × R
  pub changed_since : Db × R → Db × R

abbrev pub active_record : Result Error AgentRecord → Result Error AgentRecord
active_record (ok r) = if is_some r.agent.metadata.deletion_timestamp then err conflict else ok r
active_record (err not_found) = err conflict
active_record (err e) = err e

-- `Convergence::get`.
unfoldable pub get_active : Db → ℕ → Result Error AgentRecord
get_active db id = active_record (get_agent db id)

-- What a wait is after so many readings: none while it goes on.
abbrev pub Waiting : Type 0 → Type 0
Waiting R = Option (Result Error AgentRecord) × Db × R

abbrev pub result_of :
    AgentRecord → Option (Result Error (Unit {0})) → Option (Result Error AgentRecord)
result_of r none = none
result_of r (some (err e)) = some (err e)
result_of r (some (ok done)) = some (ok r)

abbrev pub decided : Result Error AgentRecord → Option (Result Error AgentRecord)
decided (err e) = some (err e)
decided (ok r) = result_of r (outcome r)

abbrev first_failure : Option Condition → ReconcileFailure → Error
first_failure none failure = into_error failure
first_failure (some stalled) failure = sandbox_unresponsive (said (condition_detail stalled))

abbrev pub with_result : {R : Type 0} → Option (Result Error AgentRecord) → Db × R → Waiting R
with_result o (db, env) = (o, db, env)

module _ {R : Type 0} (c : Controller R) where
  abbrev pub or_later :
      Option (Result Error AgentRecord) → Db × R → (Db × R → Waiting R) → Waiting R
  or_later (some result) d later = with_result (some result) d
  or_later none d later = later (c.changed_since d)

  -- The loop of `Convergence::converge`, which has read the agent `readings` times when it gives none.
  unfoldable pub await_outcome : (readings : ℕ) → ℕ → Db × R → Waiting R
  await_outcome zero id d = with_result none d
  await_outcome (suc n) id d = or_later (decided (get_active d.0 id)) d (await_outcome n id)

  abbrev pub woken_as :
      WaitPolicy → Result ReconcileFailure (Unit {0}) → AgentRecord → ℕ → ℕ → Db × R → Waiting R
  woken_as first_pass (ok done) r readings id d = with_result (some (ok r)) d
  woken_as first_pass (err failure) r readings id d =
      with_result (some (err (first_failure (unresponsive r.agent.status) failure))) d
  woken_as until_converged (ok done) r readings id d = await_outcome readings id d
  woken_as until_converged (err failure) r readings id d = elim failure.kind [
    | invalid_failure ↦ with_result (some (err (into_error failure))) d
    | transient_failure ↦ await_outcome readings id d
  ]

  abbrev pub read_woken :
      WaitPolicy
      → Result Error AgentRecord
      → Result ReconcileFailure (Unit {0})
      → ℕ
      → ℕ
      → Db × R
      → Waiting R
  read_woken wait (err e) woken readings id d = with_result (some (err e)) d
  read_woken wait (ok r) woken readings id d = woken_as wait woken r readings id d

  abbrev pub converge_found : WaitPolicy → Result Error AgentRecord → ℕ → Db × R → Waiting R
  converge_found wait (err e) readings d = with_result (some (err e)) d
  converge_found wait (ok r) readings d =
      if is_some r.agent.metadata.deletion_timestamp
      then with_result (some (err conflict)) d
      else let (woken, db, env) = c.reconcile r.id d in
        read_woken wait (get_active db r.id) woken readings r.id (db, env)

  -- `Convergence::converge`.
  unfoldable pub converge_named : (readings : ℕ) → Str → WaitPolicy → Db × R → Waiting R
  converge_named readings name wait d = converge_found wait (get_agent_by_name d.0 name) readings d
