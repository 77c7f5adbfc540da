-- ===== src/Service/Memory/Stopped.antt =====
-- Stopping and killing a sandbox of the in-memory provider: sandbox/core/src/{service,memory}.rs.
use digdir_agents.Base.{Str, get-insert, Result, ok, ◌≡◌, refl, none, List}
use digdir_agents.Service.{SandboxState, stopped, running, retain}
use digdir_agents.Service.Errors.{Platform, Error}
use digdir_agents.Service.Images.{ResolveRequest}
use digdir_agents.Service.Model.{SandboxId, Sandbox}
use digdir_agents.Service.Interfaces.{SandboxService}
use digdir_agents.Service.Release.{
  release_sandbox, if_found, release, stop_named, kill_found, kill_named,
}
use digdir_agents.Service.Memory.{same_id, BackendState, inspect_memory, find_memory, with_state}
use digdir_agents.Service.Memory.Provider.{memory_service}
use digdir_agents.Service.Memory.Consistent.{same_id-IsEquality}
use digdir_agents.Service.Memory.Lifecycle.{
  IsNamed, stopped_in, stop_memory-found, tests_running, tests_stopped, no_network,
}

-- What a sandbox keeps while it is stopped.
pub record IsStopped (b b' : Sandbox) : Type 0 where
  pub stops : b'.state ≡ stopped
  pub same_number : b'.id ≡ b.id
  pub same_image : b'.image ≡ b.image
  pub same_environment_as : b'.environment ≡ b.environment
  pub same_resources_as : b'.resources ≡ b.resources
  pub same_mounts_as : b'.mounts ≡ b.mounts

-- A call that succeeds and keeps the sandbox, stopped, under its name.
abbrev pub Retains : Str → Sandbox → Result Error (Unit {0}) × BackendState → Type 0
Retains name b r = (r.0 ≡ ok tt) × ((b' : Sandbox) × IsNamed name b' r.1 × IsStopped b b')

stopped_in-IsNamed :
    (name : Str) (b : Sandbox) (st : BackendState)
    → IsNamed name b st
    → IsNamed name (with_state stopped b) (stopped_in b.id b st)
unfolding find_memory inspect_memory
stopped_in-IsNamed name b st n =
    let at = get-insert same_id same_id-IsEquality b.id (with_state stopped b) st.by_id in
    record { bears = n.bears; stands = at; leads = n.leads; found = rw (n.leads, at) refl }

with_state-IsStopped : (b : Sandbox) → IsStopped b (with_state stopped b)
with_state-IsStopped b = record {
  stops = refl;
  same_number = refl;
  same_image = refl;
  same_environment_as = refl;
  same_resources_as = refl;
  same_mounts_as = refl;
}

module _ (supported : List Platform) (digest : ResolveRequest → Str)
    (draw : BackendState → SandboxId) where
  abbrev s : SandboxService BackendState
  s = memory_service supported digest draw

  retain_found :
      (name : Str) (b : Sandbox) (st : BackendState)
      → b.network ≡ none
      → IsNamed name b st
      → (x : SandboxState) → b.state ≡ x
      → Retains name b (release_sandbox s b retain st)
  unfolding release_sandbox
  retain_found name b st detached n stopped e =
      rw (no_network b.network detached, (tests_stopped e).1)
        (
          refl,
          (
            b,
            n,
            record {
              stops = e;
              same_number = refl;
              same_image = refl;
              same_environment_as = refl;
              same_resources_as = refl;
              same_mounts_as = refl;
            },
          ),
        )
  retain_found name b st detached n running e =
      rw (no_network b.network detached, (tests_running e).1, stop_memory-found b.id b st n.stands)
        (refl, (with_state stopped b, stopped_in-IsNamed name b st n, with_state-IsStopped b))

  -- Stopping a sandbox of the in-memory provider by its name, if it has no network attachment,
  -- succeeds, whether it runs or not: the name then leads to the same sandbox, stopped, with its
  -- image, environment, resources and mounts.
  pub stop_named-IsStopped :
      (name : Str) (b : Sandbox) (st : BackendState)
      → IsNamed name b st
      → b.network ≡ none
      → Retains name b (stop_named s name st)
  unfolding stop_named release if_found
  stop_named-IsStopped name b st n detached =
      rw n.found (retain_found name b st detached n b.state refl)

  -- Killing a sandbox of the in-memory provider by its name, if it has no network attachment, succeeds
  -- as stopping it does, and keeps the same.
  pub kill_named-IsStopped :
      (name : Str) (b : Sandbox) (st : BackendState)
      → IsNamed name b st
      → b.network ≡ none
      → Retains name b (kill_named s name st)
  unfolding kill_named kill_found
  kill_named-IsStopped name b st n detached =
      let (done, (b', n', k)) =
        stop_named-IsStopped name (with_state stopped b) (stopped_in b.id b st)
          (stopped_in-IsNamed name b st n) detached in
      rw (n.found, stop_memory-found b.id b st n.stands)
        (
          done,
          (
            b',
            n',
            record {
              stops = k.stops;
              same_number = k.same_number;
              same_image = k.same_image;
              same_environment_as = k.same_environment_as;
              same_resources_as = k.same_resources_as;
              same_mounts_as = k.same_mounts_as;
            },
          ),
        )
