-- ===== src/Persistence.antt =====
-- The database of agentctl's control plane: agentctl/src/persistence. A table is the list of its rows, and
-- a statement what it does to them; that a column holds what it was written is SQLite's and serde's part.
pub mod Tables
pub mod Rows
pub mod Agents
pub mod Sessions
pub mod Launches
pub mod Store
pub mod Tests
