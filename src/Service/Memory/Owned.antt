-- ===== src/Service/Memory/Owned.antt =====
-- A sandbox of the in-memory provider that stands under its name, and the calls that change it:
-- sandbox/core/src/memory.rs.
use digdir_agents.Base.{
  Str, same_text, get, insert, get-insert, Result, ok, ◌≡◌, refl, sym, ap, ◌∙◌, ◌⊎◌, inl, inr, true,
  none, some,
}
use digdir_agents.Service.{SandboxState, stopped, running, same_mode, is_stopped}
use digdir_agents.Service.Errors.{Error}
use digdir_agents.Service.Model.{SandboxId, SandboxResources, Environment, Sandbox}
use digdir_agents.Service.Effects.{World}
use digdir_agents.Service.Memory.{
  same_id, BackendState, sandbox_at, inspect_memory, change_found, change_sandbox,
  update_resources_memory, update_environment_memory, with_state,
}
use digdir_agents.Service.Memory.Consistent.{same_id-IsEquality}
use digdir_agents.Service.Memory.Lifecycle.{stopped_in}

-- A sandbox that stands under a name, without a network attachment.
pub record IsOwned (name : Str) (b : Sandbox) (st : BackendState) : Type 0 where
  pub bears : b.name ≡ name
  pub stands : sandbox_at b.id st ≡ some b
  pub leads : get same_text name st.by_name ≡ some b.id
  pub detached : b.network ≡ none

-- A call that succeeds, and leaves such a sandbox of which something holds.
abbrev pub Ends :
    {A : Type 0}
    → Result Error A × World BackendState
    → (A → Sandbox)
    → Str
    → (Sandbox → Type 0)
    → Type 0
Ends {A = A} r sandbox_of name P =
    (a : A) × (w : World BackendState) × (r ≡ (ok a, w))
    × IsOwned name (sandbox_of a) w.components
    × P (sandbox_of a)

-- The sandbox put in the place of another.
abbrev pub put_at : SandboxId → Sandbox → BackendState → BackendState
put_at id b st = record st { by_id = insert same_id id b st.by_id }

pub put-IsOwned :
    (name : Str) (b b' : Sandbox) (st : BackendState)
    → IsOwned name b st
    → b'.id ≡ b.id
    → b'.name ≡ b.name
    → b'.network ≡ b.network
    → IsOwned name b' (put_at b.id b' st)
put-IsOwned name b b' st o number named network = record {
  bears = named ∙ o.bears;
  stands =
      ap (λ i. sandbox_at i (put_at b.id b' st)) number
      ∙ get-insert same_id same_id-IsEquality b.id b' st.by_id;
  leads = o.leads ∙ ap some (sym number);
  detached = network ∙ o.detached;
}

-- A sandbox that was stopped.
pub stopped-IsOwned :
    (name : Str) (b : Sandbox) (st : BackendState)
    → IsOwned name b st
    → IsOwned name (with_state stopped b) (stopped_in b.id b st)
stopped-IsOwned name b st o = record {
  bears = o.bears;
  stands = get-insert same_id same_id-IsEquality b.id (with_state stopped b) st.by_id;
  leads = o.leads;
  detached = o.detached;
}

pub inspect_memory-found :
    (id : SandboxId) (b : Sandbox) (st : BackendState)
    → sandbox_at id st ≡ some b
    → inspect_memory id st ≡ (ok b, st)
unfolding inspect_memory
inspect_memory-found id b st e = rw e refl

pub update_environment_memory-found :
    (id : SandboxId) (b : Sandbox) (environment : Environment) (st : BackendState)
    → sandbox_at id st ≡ some b
    → b.state ≡ stopped
    → update_environment_memory id environment st ≡ (
      ok (record b { environment = environment }),
      put_at id (record b { environment = environment }) st,
    )
unfolding update_environment_memory change_sandbox is_stopped
update_environment_memory-found id b environment st e stops = rw (e, change_found, stops) refl

pub update_resources_memory-found :
    (id : SandboxId) (b : Sandbox) (resources : SandboxResources) (st : BackendState)
    → sandbox_at id st ≡ some b
    → same_mode b.resources.root_filesystem.mode resources.root_filesystem.mode ≡ true
    → update_resources_memory id resources st
      ≡ (ok (record b { resources = resources }), put_at id (record b { resources = resources }) st)
unfolding update_resources_memory change_sandbox
update_resources_memory-found id b resources st e mode = rw (e, change_found, mode) refl

pub State-cases : (x : SandboxState) → (x ≡ stopped) ⊎ (x ≡ running)
State-cases stopped = inl refl
State-cases running = inr refl
