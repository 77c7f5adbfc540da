-- ===== src/Service/Memory/Lifecycle.antt =====
-- What the calls of the in-memory provider do to a sandbox that is there: sandbox/core/src/memory.rs.
use digdir_agents.Base.{
  ◌==◌, Option-cases, filter_by, Str, same_text, get, remove, insert, err, ok, ◌≡◌, refl, sym, ap,
  ◌∙◌, ◌⊎◌, inl, inr, true, false, not, Option, none, some,
}
use digdir_agents.Service.{
  sandbox_resource, SandboxState, stopped, running, is_stopped, is_running_state,
}
use digdir_agents.Service.Errors.{by_text, not_found}
use digdir_agents.Service.Model.{SandboxId, NetworkAttachment, Sandbox}
use digdir_agents.Service.Memory.{
  same_id, BackendState, sandbox_at, inspect_memory, find_memory, change_sandbox, with_state,
  set_state, stop_memory, removed, delete_memory,
}
use digdir_agents.Service.Memory.Consistent.{IsConsistent}
use digdir_agents.Service.Checks.{network_backend_for}

-- A sandbox that a name leads to.
pub record IsNamed (name : Str) (b : Sandbox) (st : BackendState) : Type 0 where
  pub bears : b.name ≡ name
  pub stands : sandbox_at b.id st ≡ some b
  pub leads : get same_text name st.by_name ≡ some b.id
  pub found : find_memory name st ≡ (ok b, st)

abbrev pub IsMissing : Str → BackendState → Type 0
IsMissing name st = find_memory name st ≡ (err (not_found sandbox_resource (by_text name)), st)

-- A lookup by name either finds the sandbox that bears it, or there is none.
pub find_cases :
    (name : Str) (st : BackendState)
    → IsConsistent st
    → ((get same_text name st.by_name ≡ none) × IsMissing name st)
      ⊎ ((b : Sandbox) × IsNamed name b st)
unfolding find_memory inspect_memory
find_cases name st c = elim (Option-cases (get same_text name st.by_name)) [
  | inl free ↦ inl (free, rw free refl)
  | inr (id, e) ↦
      let (b, at, bears) = c.named name id e in
      let number = (c.identified id b at).0 in
      inr (
        b,
        record {
          bears = bears;
          stands = ap (λ i. sandbox_at i st) number ∙ at;
          leads = e ∙ ap some (sym number);
          found = rw (e, at) refl;
        },
      )
]

abbrev pub stopped_in : SandboxId → Sandbox → BackendState → BackendState
stopped_in id b st = record st {
  by_id = insert same_id id (with_state stopped b) st.by_id;
  executions = filter_by (λ e. not (e.0 == id)) st.executions;
  network_endpoints = remove same_id id st.network_endpoints;
}

pub stop_memory-found :
    (id : SandboxId) (b : Sandbox) (st : BackendState)
    → sandbox_at id st ≡ some b
    → stop_memory id st ≡ (ok tt, stopped_in id b st)
unfolding stop_memory set_state change_sandbox
stop_memory-found id b st e = rw e refl

pub set_state-running :
    (id : SandboxId) (b : Sandbox) (st : BackendState)
    → sandbox_at id st ≡ some b
    → set_state id running st
      ≡ (ok tt, record st { by_id = insert same_id id (with_state running b) st.by_id })
unfolding set_state change_sandbox
set_state-running id b st e = rw e refl

pub delete_memory-found :
    (id : SandboxId) (b : Sandbox) (st : BackendState)
    → sandbox_at id st ≡ some b
    → delete_memory id st ≡ (ok tt, removed id b st)
unfolding delete_memory
delete_memory-found id b st e = rw e refl

-- The tests on a state that is known.
pub tests_running :
    {x : SandboxState} → x ≡ running → (is_running_state x ≡ true) × (is_stopped x ≡ false)
unfolding is_running_state is_stopped
tests_running e = (ap is_running_state e, ap is_stopped e)

pub tests_stopped :
    {x : SandboxState} → x ≡ stopped → (is_running_state x ≡ false) × (is_stopped x ≡ true)
unfolding is_running_state is_stopped
tests_stopped e = (ap is_running_state e, ap is_stopped e)

pub no_network :
    (n : Option NetworkAttachment)
    → n ≡ none
    → network_backend_for {W = BackendState} none n ≡ ok none
unfolding network_backend_for
no_network n e = rw e refl
