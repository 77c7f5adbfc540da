-- ===== src/Lib.antt =====
-- The verification library of digdir-agents, a system that runs coding agents in sandboxes. What is
-- modelled is the core of its sandbox SDK, the crate sandbox/core, and of agentctl the manifests of
-- agents, the authorization policies, the session reconciler, the tables of its control plane, and the
-- waits on them.
--
-- The parts and how they interact. A caller asks the sandbox service to ensure a named sandbox. The
-- service checks the request, looks the name up, and adopts the sandbox or creates one through a
-- provider, reporting phases and steps as it goes. Observers fold these reports into a progress, and
-- read it through a cursor. Names and resource quantities come from the user's text. What a running
-- sandbox may reach is decided by the policy of its agent.
--
-- * Name is sandbox/core/src/name.rs: `validate_name` is `validate`, which `SandboxName::new` and
--   `Hostname::new` share. A name is the list of its bytes.
-- * Quantity is sandbox/core/src/resource.rs: `parse_cpu` and `parse_bytes` are the `FromStr` of
--   `CpuQuantity` and `ByteQuantity`, `display_cpu` and `display_bytes` their `Display`. The checks of
--   `u128`, `u64` and `u32` arithmetic are written out. `digits_of` has fuel `n + 1` for the digits of
--   `n`, each of which divides it by ten. `from_bytes` and
--   `from_millicpus` take any number, so a quantity may be beyond the largest one that is read.
-- * Progress is sandbox/core/src/progress: Progress.Output is `OutputLog`, Progress.Steps and
--   Progress.Fold are `Progress::apply`, `succeed` and `fail`, and Progress.Cursor is `ProgressCursor`.
--   Progress.Run folds a list of timed events. The fold reads the clock once for each event, as the
--   parameter `now`; the order in which a `HashMap` lists its keys is the parameter `order`; sequence
--   numbers are unbounded, where the code has `u64`. Text has the standard library's decoding, splitting and
--   trimming, on code points.
-- * Service is sandbox/core/src/service.rs with the types it stands on: Service.Platform, Images and
--   Model are platform.rs, image.rs, mount.rs, root_filesystem.rs, network.rs, feature.rs, init.rs and
--   backend.rs; Service.Interfaces has `SandboxBackend`, `ImageBackend` and `NetworkBackend` as records
--   of operations; Service.Checks and Discovery are the checks between calls; Service.Ensure is
--   `ensure_sandbox` and what it calls, Service.Release is `release`, `delete`, `stop` and `kill`. A
--   call is a function from the components' world to a result and a new world (Service.Effects), so a
--   call that fails may have changed the world; paths are the same if their components are
--   (Text.Paths); `World` adds the service's own reports. `async`
--   calls are taken one after the other, as each operation awaits them.
-- * Service.Memory is the in-memory provider, sandbox/core/src/memory.rs, with its maps as lists of
--   entries (Base.Maps). Drawn UUIDs and image digests are parameters.
-- * Authorization is agentctl/src/authorization/agent_policy.rs on the requests of
--   sandbox/authorization/src/lib.rs: `evaluate_request` decides what a sandbox may reach, and
--   `host_matches` is how a policy names hosts. How the standard library reads a socket address is the
--   parameter `parse_address`.
-- * Agents is what agent records are made of: Agents.Harness is agentctl/src/harness/mod.rs, Agents.Errors
--   the `Error` of agentctl/src/lib.rs, Agents.Logins agentctl/src/harness/login.rs, and Agents.Manifest,
--   Agents.Model and Agents.Validation are agentctl/src/manifest.rs: what a manifest declares, what the
--   tables keep of an agent, and `Agent::validate` with all that it calls, so with what
--   agentctl/src/harness/skills.rs and the adapters in agentctl/src/harness/claude_code/mod.rs and
--   agentctl/src/harness/codex/mod.rs reserve. Agents.Model has also what sessions and tables read of
--   agentctl/src/sandbox/mod.rs and agentctl/src/control_plane/resource.rs. Paths are read as on Unix, and a
--   set that a loop fills is the list of what was put in. A manifest's resources and init system, which
--   are not validated, are left out.
-- * Sessions is agentctl/src/sessions: Sessions.Activity is activity.rs, Sessions.Status and
--   Sessions.Model are mod.rs, and Sessions.Timing, Blocking, Stopping, Resuming and Reconciler are
--   reconciler.rs. Sessions.Completion is the wait of service.rs for a prompt's completion, on the list of
--   the store's answers, one for each poll. `SessionRuntime` (Sessions.Effects) has the calls of the trait of that name, the opening
--   of an agent's sandbox, the clock and drawn UUIDs. A step is a function from the database, the
--   runtime's world and the calls so far to a result and new ones. A call of the runtime may change the
--   database, since other tasks run while it is awaited. `wait_for_resumed_input` polls at most `polls`
--   times, a parameter, where the code has fifteen seconds: running out is the timeout, not a fault of
--   the model. Times are Unix seconds, and UUIDs numbers.
-- * Persistence is agentctl/src/persistence: Persistence.Rows has the tables as lists of rows,
--   Persistence.Agents is agents.rs, Persistence.Sessions and Persistence.Launches are sessions.rs, and
--   Persistence.Store performs the calls one after the other, as the thread that owns the connection
--   does. A transaction that fails leaves the tables as they were. SQLite and the encoding of columns
--   are trusted: a row is read back as it was written. Persistence.Store.Streams is `accept_report` of
--   agentctl/src/platform_api/mod.rs, which sends the reports of harnesses on to these calls. Generations and attempts are unbounded, where
--   the code has `u64` and `u32`; the turns of an activity saturate as in the code.
-- * ControlPlane is how an agent is converged on request: ControlPlane.Failures is the classification in
--   agentctl/src/controller.rs, and ControlPlane.Convergence is agentctl/src/control_plane/convergence.rs.
--   The controller's pass and the wait for a change are `Controller`, calls that may change the database.
--   The loop reads the agent at most `readings` times, and gives none while the request still waits.
--   ControlPlane.Scheduler is the loop of that controller on the events that it wakes up for, where
--   `start_pending` has as much fuel as there are slots: each time round it fills one.
--
-- Not modelled: times in the service's reports, and what components report themselves, since no
-- decision depends on them; the channels and futures that carry events; executions, terminals,
-- files, volumes and secrets; network.rs beyond endpoint selection; and of agentctl
-- what is built on these parts: reading manifests and merging their variants, the reconciler of agents, the services and their APIs but for the acceptance of reports, the tmux runtime,
-- migrations and secrets, the lists of agents and sessions, upgrades, and the command line.
mod Base
pub mod Text
pub mod Progress
pub mod Quantity
pub mod Name
pub mod Service
pub mod Authorization
pub mod Agents
pub mod Sessions
pub mod Persistence
pub mod ControlPlane
