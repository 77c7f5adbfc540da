-- ===== src/Service/Memory.antt =====
-- The in-memory provider of sandbox/core/src/memory.rs: its sandboxes, files, executions, volumes and
-- network endpoints. A live endpoint is the fact that it is open, and the events that a test queues
-- for executions are left out.
pub mod Provider
pub mod Consistent
pub mod Indexes
pub mod Steps
pub mod Lifecycle
pub mod Deleted
pub mod Stopped
pub mod Owned
pub mod Ensured
pub mod Accepted
pub mod Converged
pub mod Settled
use digdir_agents.Base.{
  ◌==◌, if◌then◌else◌, filter_by, Str, same_text, get, remove, insert, Result, err, ok, ok_or, ℕ,
  Bool, not, Option, none, some, List,
}
use digdir_agents.Service.{
  sandbox_resource, PacketMedium, NetworkEndpointSelection, packet, intercepted, control,
  SandboxState, stopped, running, same_mode, is_stopped,
}
use digdir_agents.Service.Errors.{
  by_text, by_number, Error, not_found, immutable, invalid, unsupported_network_endpoint,
  backend_error,
}
use digdir_agents.Service.Model.{
  SandboxId, SandboxResources, Environment, NetworkAttachment, Sandbox, CreateSandboxRequest,
}
use digdir_agents.Service.Effects.{Effect, ◌>>=◌, ◌>>◌, lift}

abbrev pub same_id : ℕ → ℕ → Bool
same_id a b = a == b

-- `BackendState`.
pub record BackendState : Type 0 where
  pub by_id : List (SandboxId × Sandbox)
  pub by_name : List (Str × SandboxId)
  pub executions : List (SandboxId × ℕ)
  pub files : List ((SandboxId × Str) × List ℕ)
  pub network_endpoints : List (SandboxId × PacketMedium)
  pub network_properties : List (SandboxId × PacketMedium)

abbrev pub no_sandbox : SandboxId → Error
no_sandbox id = not_found sandbox_resource (by_number id)

abbrev pub sandbox_at : SandboxId → BackendState → Option Sandbox
sandbox_at id st = get same_id id st.by_id

-- `by_id.get(id).cloned().ok_or_else(..)`, as `inspect` does.
unfoldable pub inspect_memory : SandboxId → Effect BackendState Sandbox
inspect_memory id st = (ok_or (sandbox_at id st) (no_sandbox id), st)

abbrev pub found_id : Option SandboxId → Str → Effect BackendState Sandbox
found_id none name st = (err (not_found sandbox_resource (by_text name)), st)
found_id (some id) name st = inspect_memory id st

-- `find`.
unfoldable pub find_memory : Str → Effect BackendState Sandbox
find_memory name st = found_id (get same_text name st.by_name) name st

abbrev pub packet_medium_of : Option NetworkAttachment → Option PacketMedium
packet_medium_of none = none
packet_medium_of (some a) = elim a.endpoint [ packet medium ↦ some medium | _ ↦ none ]

abbrev pub insert_medium :
    SandboxId
    → Option PacketMedium
    → List (SandboxId × PacketMedium)
    → List (SandboxId × PacketMedium)
insert_medium id none properties = properties
insert_medium id (some medium) properties = insert same_id id medium properties

abbrev pub created_sandbox : CreateSandboxRequest → Sandbox
created_sandbox request = record {
  id = request.id;
  image = request.image;
  init_system = request.init_system;
  name = request.name;
  hostname = request.hostname;
  resources = request.resources;
  state = stopped;
  guest_heartbeat = none;
  mounts = request.mounts;
  environment = request.environment;
  network = request.network;
}

abbrev pub create_unless : Option SandboxId → CreateSandboxRequest → Effect BackendState Sandbox
create_unless (some id) request st = inspect_memory id st
create_unless none request st = (
  ok (created_sandbox request),
  record st {
    by_id = insert same_id request.id (created_sandbox request) st.by_id;
    by_name = insert same_text request.name request.id st.by_name;
    network_properties =
        insert_medium request.id (packet_medium_of request.network) st.network_properties;
  },
)

-- `create`: a name that is taken gives the sandbox that has it.
unfoldable pub create_memory : CreateSandboxRequest → Effect BackendState Sandbox
create_memory request st = create_unless (get same_text request.name st.by_name) request st

-- A change of one sandbox, where it is: the new sandbox, or the refusal.
abbrev pub change_found :
    Option Sandbox → SandboxId → (Sandbox → Result Error Sandbox) → Effect BackendState Sandbox
change_found none id change st = (err (no_sandbox id), st)
change_found (some b) id change st = elim (change b) [
  | err e ↦ (err e, st)
  | ok b' ↦ (ok b', record st { by_id = insert same_id id b' st.by_id })
]

unfoldable pub change_sandbox :
    SandboxId → (Sandbox → Result Error Sandbox) → Effect BackendState Sandbox
change_sandbox id change st = change_found (sandbox_at id st) id change st

abbrev pub with_resources : SandboxResources → Sandbox → Result Error Sandbox
with_resources resources b =
    if same_mode b.resources.root_filesystem.mode resources.root_filesystem.mode
    then ok (record b { resources = resources })
    else err (immutable "resources.rootFilesystem.mode")

-- `update_resources`.
unfoldable pub update_resources_memory : SandboxId → SandboxResources → Effect BackendState Sandbox
update_resources_memory id resources = change_sandbox id (with_resources resources)

abbrev pub with_environment : Environment → Sandbox → Result Error Sandbox
with_environment environment b =
    if is_stopped b.state
    then ok (record b { environment = environment })
    else err (invalid "sandbox.state" "must be stopped")

-- `update_environment`.
unfoldable pub update_environment_memory : SandboxId → Environment → Effect BackendState Sandbox
update_environment_memory id environment = change_sandbox id (with_environment environment)

abbrev pub with_state : SandboxState → Sandbox → Sandbox
with_state stopped b = record b { state = stopped; guest_heartbeat = none }
with_state running b = record b { state = running }

-- `set_state`.
unfoldable pub set_state : SandboxId → SandboxState → Effect BackendState (Unit {0})
set_state id state = do _ ← change_sandbox id (λ b. ok (with_state state b)); lift (ok tt)

abbrev pub modify : (BackendState → BackendState) → Effect BackendState (Unit {0})
modify f st = (ok tt, f st)

-- `stop`, and `kill`, which is the same.
unfoldable pub stop_memory : SandboxId → Effect BackendState (Unit {0})
stop_memory id = do
  set_state id stopped
  modify (λ st. record st {
    executions = filter_by (λ e. not (e.0 == id)) st.executions;
    network_endpoints = remove same_id id st.network_endpoints;
  })

abbrev pub removed : SandboxId → Sandbox → BackendState → BackendState
removed id b st = record st {
  by_id = remove same_id id st.by_id;
  by_name = remove same_text b.name st.by_name;
  executions = filter_by (λ e. not (e.0 == id)) st.executions;
  files = filter_by (λ f. not (f.0.0 == id)) st.files;
  network_endpoints = remove same_id id st.network_endpoints;
  network_properties = remove same_id id st.network_properties;
}

abbrev pub delete_found : Option Sandbox → SandboxId → Effect BackendState (Unit {0})
delete_found none id st = (err (no_sandbox id), st)
delete_found (some b) id st = (ok tt, removed id b st)

-- `delete`.
unfoldable pub delete_memory : SandboxId → Effect BackendState (Unit {0})
delete_memory id st = delete_found (sandbox_at id st) id st

abbrev pub packet_of : NetworkEndpointSelection → Result Error PacketMedium
packet_of (packet medium) = ok medium
packet_of intercepted = err (unsupported_network_endpoint intercepted)
packet_of (control protocol) = err (unsupported_network_endpoint (control protocol))

abbrev pub persisted_medium : SandboxId → Effect BackendState PacketMedium
persisted_medium id st = (
  ok_or (get same_id id st.network_properties)
      (backend_error "missing persisted memory Network interface configuration"),
  st,
)

abbrev pub open_packet : SandboxId → PacketMedium → Effect BackendState NetworkEndpointSelection
open_packet id medium = do
  modify (λ st. record st { network_endpoints = insert same_id id medium st.network_endpoints })
  lift (ok (packet medium))

abbrev pub open_attached :
    SandboxId → NetworkAttachment → Effect BackendState NetworkEndpointSelection
open_attached id attachment = do
  _ ← lift (packet_of attachment.endpoint)
  medium ← persisted_medium id
  open_packet id medium

-- `open_network_endpoint`.
unfoldable pub open_endpoint_memory : SandboxId → Effect BackendState NetworkEndpointSelection
open_endpoint_memory id = do
  b ← inspect_memory id
  attachment ← lift (ok_or b.network (invalid "network" "Sandbox has no attachment"))
  open_attached id attachment
