-- ===== src/ControlPlane/Waits.antt =====
-- What a wait for an agent ends with: agentctl/src/control_plane/convergence.rs.
use digdir_agents.Base.{
  str_eq, if◌then◌else◌, ==→eq, Bool-cases, Option-cases, Str, Result, err, ok, ℕ, zero, suc, ◌≡◌,
  refl, sym, ap, ◌∙◌, ◌≢◌, ◌⊎◌, inl, inr, Bool, true, false, Option, none, some,
}
use digdir_agents.Agents.Errors.{Error, not_found}
use digdir_agents.Agents.Model.{
  RunState, is_stop, spec_is_stopped, find_first, ConditionStatus, holds, fails, is_unknown,
  Condition, same_status, FailureKind, invalid_failure, transient_failure, find_ready, is_ready,
  status_is_stopped, AgentRecord,
}
use digdir_agents.Persistence.Rows.{Db}
use digdir_agents.Persistence.Agents.{get_agent, get_agent_by_name}
use digdir_agents.ControlPlane.Failures.{ReconcileFailure}
use digdir_agents.ControlPlane.Convergence.{
  unresponsive, invalid_status, is_as_desired, is_observed, failed_outcome, stalled_outcome,
  or_outcome, outcome, until_converged, Controller, active_record, get_active, result_of, decided,
  await_outcome, read_woken, converge_found, converge_named,
}

-- What the manifest asks for is recorded: that the agent is stopped, or else that it is ready.
abbrev pub IsDesired : AgentRecord → Type 0
IsDesired r =
    (c : Condition) × (find_first (λ x. str_eq x.kind "Ready") r.agent.status.conditions ≡ some c)
    × ((r.agent.spec.run_state ≡ some RunState.stopped) × (str_eq c.reason "Stopped" ≡ true)
        ⊎ ((r.agent.spec.run_state ≢ some RunState.stopped) × (c.status ≡ holds)))

-- The agent as the database has it: not being deleted, with the run state that is asked for recorded for
-- its generation.
pub record IsConverged (id : ℕ) (db : Db) (r : AgentRecord) : Type 0 where
  pub read : get_agent db id ≡ ok r
  pub kept : r.agent.metadata.deletion_timestamp ≡ none
  pub observed : r.agent.status.observed_generation ≡ r.agent.metadata.generation
  pub desired : IsDesired r

get_active-read :
    (db : Db) (id : ℕ) (r : AgentRecord)
    → get_active db id ≡ ok r
    → (get_agent db id ≡ ok r) × (r.agent.metadata.deletion_timestamp ≡ none)
unfolding get_active
get_active-read db id r h = of_read (get_agent db id) h
  where
    of_read :
        (read : Result Error AgentRecord)
        → active_record read ≡ ok r
        → (read ≡ ok r) × (r.agent.metadata.deletion_timestamp ≡ none)
    of_read (err not_found) k = absurd (cc k)
    of_read (err e) k = absurd (cc k)
    of_read (ok a) k = elim (Option-cases a.agent.metadata.deletion_timestamp) [
      | inr (at, deleting) ↦ absurd (cc (rw deleting at k))
      | inl kept ↦ let same : a ≡ r = cc (rw kept at k) in (ap (λ x. ok x) same, rw (← same) kept)
    ]

same_status-holds : (s : ConditionStatus) → same_status s holds ≡ true → s ≡ holds
same_status-holds holds h = refl
same_status-holds fails h = absurd (cc h)
same_status-holds is_unknown h = absurd (cc h)

is_as_desired-IsDesired : (r : AgentRecord) → is_as_desired r ≡ true → IsDesired r
unfolding spec_is_stopped status_is_stopped is_ready find_ready
is_as_desired-IsDesired r h =
    elim (Option-cases (find_first (λ x. str_eq x.kind "Ready") r.agent.status.conditions)) [
      | inl missing ↦ absurd (missing_from r.agent.spec.run_state (rw missing at h))
      | inr (c, found) ↦ (c, found, by_state c r.agent.spec.run_state refl (rw found at h))
    ]
  where
    missing_from : (asked : Option RunState) → (if is_stop asked then false else false) ≡ true → ⊥
    missing_from (some RunState.stopped) k = cc k
    missing_from (some RunState.running) k = cc k
    missing_from none k = cc k

    by_state :
        (c : Condition) (asked : Option RunState)
        → r.agent.spec.run_state ≡ asked
        → (if is_stop asked then str_eq c.reason "Stopped" else same_status c.status holds) ≡ true
        → (r.agent.spec.run_state ≡ some RunState.stopped) × (str_eq c.reason "Stopped" ≡ true)
          ⊎ ((r.agent.spec.run_state ≢ some RunState.stopped) × (c.status ≡ holds))
    by_state c (some RunState.stopped) e k = inl (e, k)
    by_state c (some RunState.running) e k =
        inr ((λ x. cc (sym e ∙ x)), same_status-holds c.status k)
    by_state c none e k = inr ((λ x. cc (sym e ∙ x)), same_status-holds c.status k)

unstalled :
    (stopped : Bool) (stalled : Option Condition) → stalled_outcome stopped stalled ≢ some (ok tt)
unstalled true stalled h = absurd (cc h)
unstalled false none h = absurd (cc h)
unstalled false (some stalled) h = absurd (cc h)

unfailed :
    (detail : Option Str) (rest : Option (Result Error (Unit {0})))
    → rest ≢ some (ok tt)
    → or_outcome (failed_outcome detail) rest ≢ some (ok tt)
unfailed none rest k h = k h
unfailed (some detail) rest k h = absurd (cc h)

outcome-ok :
    (r : AgentRecord) → outcome r ≡ some (ok tt) → (is_observed r ≡ true) × (is_as_desired r ≡ true)
unfolding outcome
outcome-ok r h = elim (Bool-cases (is_observed r)) [
  | inr unobserved ↦
      absurd (
        unstalled (spec_is_stopped r.agent.spec) (unresponsive r.agent.status) (rw unobserved at h))
  | inl observed ↦ elim (Bool-cases (is_as_desired r)) [
    | inl desired ↦ (observed, desired)
    | inr wanting ↦ absurd (
        unfailed (invalid_status r.agent.status) _
          (unstalled (spec_is_stopped r.agent.spec) (unresponsive r.agent.status))
          (rw (observed, wanting) at h))
  ]
]

decided-ok :
    (read : Result Error AgentRecord) (r : AgentRecord)
    → decided read ≡ some (ok r)
    → (read ≡ ok r) × (is_observed r ≡ true) × (is_as_desired r ≡ true)
decided-ok (err e) r h = absurd (cc h)
decided-ok (ok a) r h =
    let (same, observed, desired) = of_outcome (outcome a) refl h in
    (ap (λ x. ok x) same, observed, desired)
  where
    of_outcome :
        (o : Option (Result Error (Unit {0})))
        → outcome a ≡ o
        → result_of a o ≡ some (ok r)
        → (a ≡ r) × (is_observed r ≡ true) × (is_as_desired r ≡ true)
    of_outcome none e k = absurd (cc k)
    of_outcome (some (err failure)) e k = absurd (cc k)
    of_outcome (some (ok done)) e k =
        let same : a ≡ r = cc k in
        let (observed, desired) = outcome-ok a e in
        (same, rw (← same) observed, rw (← same) desired)

module _ {R : Type 0} (c : Controller R) where
  await_outcome-IsConverged :
      (n id : ℕ) (d : Db × R) (r : AgentRecord)
      → (await_outcome c n id d).0 ≡ some (ok r)
      → IsConverged id (await_outcome c n id d).1 r
  unfolding await_outcome
  await_outcome-IsConverged zero id d r h = absurd (cc h)
  await_outcome-IsConverged (suc n) id d r h = elim (Option-cases (decided (get_active d.0 id))) [
    | inl undecided ↦
        rw undecided (await_outcome-IsConverged n id (c.changed_since d) r (rw undecided at h))
    | inr (result, now) ↦
        let here : result ≡ ok r = cc (rw now at h) in
        let (active, seen, desired) = decided-ok (get_active d.0 id) r (now ∙ ap some here) in
        let (read, kept) = get_active-read d.0 id r active in
        rw now (record {
          read = read;
          kept = kept;
          observed = ==→eq _ _ seen;
          desired = is_as_desired-IsDesired r desired;
        })
  ]

  woken-IsConverged :
      (read : Result Error AgentRecord) (woken : Result ReconcileFailure (Unit {0})) (n id : ℕ)
      (d : Db × R) (r : AgentRecord)
      → (read_woken c until_converged read woken n id d).0 ≡ some (ok r)
      → IsConverged id (read_woken c until_converged read woken n id d).1 r
  woken-IsConverged (err e) woken n id d r h = absurd (cc h)
  woken-IsConverged (ok a) (ok done) n id d r h = await_outcome-IsConverged n id d r h
  woken-IsConverged (ok a) (err failure) n id d r h = of_kind failure.kind refl h
    where
      of_kind :
          (kind : FailureKind)
          → failure.kind ≡ kind
          → (read_woken c until_converged (ok a) (err failure) n id d).0 ≡ some (ok r)
          → IsConverged id (read_woken c until_converged (ok a) (err failure) n id d).1 r
      of_kind invalid_failure e k = absurd (cc (rw e at k))
      of_kind transient_failure e k = rw e (await_outcome-IsConverged n id d r (rw e at k))

  -- A request that waits until its agent is converged is answered with an agent only where the name led
  -- to one that was not being deleted, and with that agent as the database then has it: not being
  -- deleted, its present generation observed, and with a Ready condition that has the reason Stopped if
  -- the manifest asks for the agent to be stopped, and that holds otherwise.
  pub converge_named-IsConverged :
      (readings : ℕ) (name : Str) (d : Db × R) (r : AgentRecord)
      → (converge_named c readings name until_converged d).0 ≡ some (ok r)
      → (named : AgentRecord) × (get_agent_by_name d.0 name ≡ ok named)
        × (named.agent.metadata.deletion_timestamp ≡ none)
        × IsConverged named.id (converge_named c readings name until_converged d).1 r
  unfolding converge_named
  converge_named-IsConverged n name d r h = of_found (get_agent_by_name d.0 name) refl h
    where
      of_found :
          (found : Result Error AgentRecord)
          → get_agent_by_name d.0 name ≡ found
          → (converge_found c until_converged found n d).0 ≡ some (ok r)
          → (named : AgentRecord) × (get_agent_by_name d.0 name ≡ ok named)
            × (named.agent.metadata.deletion_timestamp ≡ none)
            × IsConverged named.id (converge_found c until_converged found n d).1 r
      of_found (err e) is_found k = absurd (cc k)
      of_found (ok a) is_found k = elim (Option-cases a.agent.metadata.deletion_timestamp) [
        | inr (at, deleting) ↦ absurd (cc (rw deleting at k))
        | inl kept ↦
            let (woken, db, env) = c.reconcile a.id d in
            (
              a,
              is_found,
              kept,
              rw kept
                  (woken-IsConverged (get_active db a.id) woken n a.id (db, env) r (rw kept at k)),
            )
      ]
