-- ===== src/Agents/Errors.antt =====
-- The errors of agentctl: agentctl/src/lib.rs. A message is its template with what it is filled with.
use digdir_agents.Base.{Str, ℕ, String, List}
use digdir_agents.Agents.Harness.{Harness, HarnessAuthMode, SelectionConflict}
use digdir_agents.Name.{InvalidSandboxName}
use digdir_agents.Service.Errors

pub data Argument : Type 0 where
  text : Str → Argument
  number : ℕ → Argument
  harness : Harness → Argument
  auth_mode_text : HarnessAuthMode → Argument
  conflict_clause : SelectionConflict → Argument

mutual
  pub data Message : Type 0 where
    -- A text that is there already.
    said : Str → Message
    format : (template : String) (arguments : List Argument) → Message
    -- A message that ends in another.
    format_detail : (template : String) (arguments : List Argument) (detail : Message) → Message
    -- An error's `Display`.
    to_string : Error → Message
    -- The `Display` of an error of the sandbox SDK, or of a refused name.
    sandbox_text : Errors.Error → Message
    name_text : InvalidSandboxName → Message

  pub data Error : Type 0 where
    invalid : Message → Error
    not_found : Error
    immutable : (field : String) → Error
    conflict : Error
    database : Message → Error
    sandbox_setup : Message → Error
    sandbox_unresponsive : Message → Error
    agent_stopped : (agent : Str) → Error
    sandbox : Errors.Error → Error
    session : Message → Error
    io : Message → Error
    daemon : Message → Error
    json : Message → Error
    yaml : Message → Error
    rpc : Message → Error
