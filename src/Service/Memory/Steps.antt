-- ===== src/Service/Memory/Steps.antt =====
-- The states that the operations of the in-memory provider lead to: sandbox/core/src/memory.rs.
use digdir_agents.Base.{get, ok_or, ◌≡◌, refl, none, []}
use digdir_agents.Service.{PacketMedium, running}
use digdir_agents.Service.Errors.{invalid}
use digdir_agents.Service.Model.{
  SandboxId, SandboxResources, Environment, NetworkAttachment, CreateSandboxRequest,
}
use digdir_agents.Service.Effects.{◌>>=◌, lift}
use digdir_agents.Service.Memory.{
  BackendState, sandbox_at, inspect_memory, create_memory, update_resources_memory,
  update_environment_memory, set_state, stop_memory, delete_memory, packet_of, persisted_medium,
  open_packet, open_attached, open_endpoint_memory,
}
use digdir_agents.Service.Memory.Consistent.{
  IsConsistent, same_indexes, Preserves, chain-Preserves, set_state-Preserves,
  stop_memory-Preserves, update_resources_memory-Preserves, update_environment_memory-Preserves,
}
use digdir_agents.Service.Memory.Indexes.{create_memory-IsConsistent, delete_memory-Preserves}

-- `BackendState::default`.
abbrev pub no_sandboxes : BackendState
no_sandboxes = record {
  by_id = [];
  by_name = [];
  executions = [];
  files = [];
  network_endpoints = [];
  network_properties = [];
}

-- One operation, whether it succeeds or fails. An id to create under is a new UUID.
pub data Step : BackendState → BackendState → Type 0 where
  create :
      (request : CreateSandboxRequest) (st : BackendState)
      → sandbox_at request.id st ≡ none
      → Step st (create_memory request st).1
  update_resources :
      (id : SandboxId) (resources : SandboxResources) (st : BackendState)
      → Step st (update_resources_memory id resources st).1
  update_environment :
      (id : SandboxId) (environment : Environment) (st : BackendState)
      → Step st (update_environment_memory id environment st).1
  start : (id : SandboxId) (st : BackendState) → Step st (set_state id running st).1
  stop : (id : SandboxId) (st : BackendState) → Step st (stop_memory id st).1
  delete : (id : SandboxId) (st : BackendState) → Step st (delete_memory id st).1
  open_endpoint : (id : SandboxId) (st : BackendState) → Step st (open_endpoint_memory id st).1

pub data Reachable : BackendState → Type 0 where
  initial : Reachable no_sandboxes
  after : (st st' : BackendState) → Reachable st → Step st st' → Reachable st'

no_sandboxes-IsConsistent : IsConsistent no_sandboxes
unfolding get
no_sandboxes-IsConsistent = record {
  named = λ name id h. absurd (cc h);
  identified = λ id b h. absurd (cc h);
}

open_packet-Preserves : (id : SandboxId) (medium : PacketMedium) → Preserves (open_packet id medium)
open_packet-Preserves id medium st c = same_indexes st _ refl refl c

open_attached-Preserves :
    (id : SandboxId) (attachment : NetworkAttachment) → Preserves (open_attached id attachment)
open_attached-Preserves id attachment =
    chain-Preserves (lift (packet_of attachment.endpoint))
      (λ _. persisted_medium id >>= open_packet id) (λ st c. c)
      (λ _.
        chain-Preserves (persisted_medium id) (open_packet id) (λ st c. c)
          (open_packet-Preserves id))

open_endpoint_memory-Preserves : (id : SandboxId) → Preserves (open_endpoint_memory id)
unfolding open_endpoint_memory inspect_memory
open_endpoint_memory-Preserves id =
    chain-Preserves (inspect_memory id) _ (λ st c. c)
      (λ b.
        chain-Preserves (lift (ok_or b.network (invalid "network" "Sandbox has no attachment")))
          (open_attached id) (λ st c. c) (open_attached-Preserves id))

Step-Preserves : (st st' : BackendState) → Step st st' → IsConsistent st → IsConsistent st'
Step-Preserves _ _ (create request st fresh) c = create_memory-IsConsistent request st fresh c
Step-Preserves _ _ (update_resources id resources st) c =
    update_resources_memory-Preserves id resources st c
Step-Preserves _ _ (update_environment id environment st) c =
    update_environment_memory-Preserves id environment st c
Step-Preserves _ _ (start id st) c = set_state-Preserves id running st c
Step-Preserves _ _ (stop id st) c = stop_memory-Preserves id st c
Step-Preserves _ _ (delete id st) c = delete_memory-Preserves id st c
Step-Preserves _ _ (open_endpoint id st) c = open_endpoint_memory-Preserves id st c

-- In every state that the provider's lifecycle operations lead to, each name leads to a sandbox that
-- bears it, and each sandbox bears its id and is found by its name.
pub Reachable-IsConsistent : (st : BackendState) → Reachable st → IsConsistent st
Reachable-IsConsistent _ initial = no_sandboxes-IsConsistent
Reachable-IsConsistent _ (after st st' r step) =
    Step-Preserves st st' step (Reachable-IsConsistent st r)
