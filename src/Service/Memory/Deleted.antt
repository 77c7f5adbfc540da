-- ===== src/Service/Memory/Deleted.antt =====
-- Releasing a sandbox of the in-memory provider for good: sandbox/core/src/{service,memory}.rs.
use digdir_agents.Base.{
  Str, same_text, get, get-remove, get-insert, Result, ok, ◌≡◌, refl, ◌≢◌, inl, inr, none, some,
  List,
}
use digdir_agents.Service.{SandboxState, stopped, running, delete, is_stopped}
use digdir_agents.Service.Errors.{Platform, Error, error_kind, is_not_found}
use digdir_agents.Service.Images.{ResolveRequest}
use digdir_agents.Service.Model.{SandboxId, Sandbox}
use digdir_agents.Service.Checks.{network_backend_for}
use digdir_agents.Service.Release.{
  delete_released, release_sandbox, if_found, release, delete_named,
}
use digdir_agents.Service.Memory.{
  same_id, BackendState, sandbox_at, find_memory, with_state, removed,
}
use digdir_agents.Service.Memory.Provider.{memory_service}
use digdir_agents.Service.Memory.Consistent.{
  same_id-IsEquality, IsConsistent, stop_memory-Preserves,
}
use digdir_agents.Service.Memory.Lifecycle.{
  IsNamed, IsMissing, find_cases, stopped_in, stop_memory-found, delete_memory-found,
}
use digdir_agents.Service.Interfaces.{SandboxService}
use digdir_agents.Service.Memory.Indexes.{deleted-IsConsistent}

-- A name that no sandbox has: it is found for none, and none of the sandboxes bears it.
pub record IsFree (name : Str) (st : BackendState) : Type 0 where
  pub missing : IsMissing name st
  pub unborne : (id : SandboxId) (b : Sandbox) → sandbox_at id st ≡ some b → b.name ≢ name

absent-IsFree :
    (name : Str) (st : BackendState)
    → IsConsistent st
    → get same_text name st.by_name ≡ none
    → IsFree name st
unfolding find_memory
absent-IsFree name st c absent = record {
  missing = rw absent refl;
  unborne = λ id b at bears.
      let led : get same_text name st.by_name ≡ some id = rw bears at (c.identified id b at).1 in
      cc (led, absent);
}

removed-IsFree :
    (id : SandboxId) (b : Sandbox) (st : BackendState)
    → IsConsistent st
    → sandbox_at id st ≡ some b
    → IsFree b.name (removed id b st)
removed-IsFree id b st c at =
    absent-IsFree b.name (removed id b st) (deleted-IsConsistent id b st at c)
      (get-remove same_text b.name st.by_name)

-- What a deletion ends with.
abbrev pub IsDeleted : Str → Result Error (Unit {0}) × BackendState → Type 0
IsDeleted name r = (r.0 ≡ ok tt) × IsFree name r.1

module _ (supported : List Platform) (digest : ResolveRequest → Str)
    (draw : BackendState → SandboxId) where
  abbrev s : SandboxService BackendState
  s = memory_service supported digest draw

  release_stopped :
      (b : Sandbox) (st : BackendState)
      → b.network ≡ none
      → b.state ≡ stopped
      → IsConsistent st
      → sandbox_at b.id st ≡ some b
      → IsDeleted b.name (release_sandbox s b delete st)
  unfolding release_sandbox network_backend_for is_stopped delete_released
  release_stopped b st n e c at =
      rw (n, e, delete_memory-found b.id b st at) (refl, removed-IsFree b.id b st c at)

  release_running :
      (b : Sandbox) (st : BackendState)
      → b.network ≡ none
      → b.state ≡ running
      → IsConsistent st
      → sandbox_at b.id st ≡ some b
      → IsDeleted b.name (release_sandbox s b delete st)
  unfolding release_sandbox network_backend_for is_stopped delete_released
  release_running b st n e c at =
      let here : sandbox_at b.id (stopped_in b.id b st) ≡ some (with_state stopped b) =
        get-insert same_id same_id-IsEquality b.id (with_state stopped b) st.by_id in
      let kept : IsConsistent (stopped_in b.id b st) =
        rw (stop_memory-found b.id b st at) at (stop_memory-Preserves b.id st c) in
      rw
        (
          n,
          e,
          stop_memory-found b.id b st at,
          delete_memory-found b.id (with_state stopped b) (stopped_in b.id b st) here,
        )
        (refl, removed-IsFree b.id (with_state stopped b) (stopped_in b.id b st) kept here)

  release_found :
      (b : Sandbox) (st : BackendState)
      → b.network ≡ none
      → IsConsistent st
      → sandbox_at b.id st ≡ some b
      → IsDeleted b.name (release_sandbox s b delete st)
  release_found b st n c at = by_state b.state refl
    where
      by_state : (x : SandboxState) → b.state ≡ x → IsDeleted b.name (release_sandbox s b delete st)
      by_state stopped e = release_stopped b st n e c at
      by_state running e = release_running b st n e c at

  -- On consistent in-memory state, deleting by name succeeds, for a sandbox that is not there, is
  -- stopped or is running, if it has no network attachment; afterwards no sandbox is found by the name, and none that the
  -- provider still holds bears it.
  pub delete_named-IsDeleted :
      (name : Str) (st : BackendState)
      → IsConsistent st
      → ((b : Sandbox) → IsNamed name b st → b.network ≡ none)
      → IsDeleted name (delete_named s name st)
  unfolding delete_named release if_found is_not_found error_kind
  delete_named-IsDeleted name st c h = elim (find_cases name st c) [
    | inl (absent, missing) ↦ rw missing (refl, absent-IsFree name st c absent)
    | inr (b, named) ↦
        rw named.found (rw (← named.bears) (release_found b st (h b named) c named.stands))
  ]
