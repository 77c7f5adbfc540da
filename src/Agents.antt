-- ===== src/Agents.antt =====
-- The agents of agentctl, as its control plane stores them: agentctl/src/manifest.rs,
-- agentctl/src/harness/mod.rs, agentctl/src/sandbox/mod.rs and agentctl/src/control_plane/resource.rs.
pub mod Harness
pub mod Errors
pub mod Logins
pub mod Manifest
pub mod Model
pub mod Validation
pub mod Examples
mod Tests
