-- ===== src/Persistence/Rows.antt =====
-- The rows of the control plane's tables, and how they are read: agentctl/src/persistence/schema.rs,
-- agentctl/src/persistence/agents.rs and agentctl/src/persistence/sessions.rs.
use digdir_agents.Base.{
  codes, if◌then◌else◌, Str, same_text, Result, err, ok, ℕ, Option, none, some, List,
}
use digdir_agents.Agents.Harness.{Harness, ModelSelection}
use digdir_agents.Agents.Errors.{Message, said, Error, database}
use digdir_agents.Agents.Model.{AgentStatus, Agent, AgentRecord}
use digdir_agents.Sessions.Activity.{Activity}
use digdir_agents.Sessions.Status.{LifecycleState, observed}
use digdir_agents.Sessions.Model.{Session}

pub record AgentRow : Type 0 where
  pub id : ℕ
  pub active_name : Option Str
  pub source_directory : Str
  pub desired : Agent
  pub deletion_timestamp : Option ℕ
  pub status : AgentStatus

pub record LifecycleRow : Type 0 where
  pub state : LifecycleState
  pub failure : Option Message
  pub observed_activation_generation : ℕ
  pub since : Option ℕ

pub record SessionRow : Type 0 where
  pub id : ℕ
  pub agent_id : ℕ
  pub name : Str
  pub harness : Harness
  pub created_at : ℕ
  pub activation_generation : ℕ
  pub lifecycle : LifecycleRow
  pub harness_native_id : Option Str
  pub harness_transcript_path : Option Str
  pub activity : Activity
  pub model_selection : ModelSelection
  pub deletion_timestamp : Option ℕ
  pub archived_at : Option ℕ
  pub initial_prompt : Option Str
  pub launch_token : Option ℕ
  pub launch_sandbox : Option ℕ
  pub launched_at : Option ℕ
  pub launch_attempts : ℕ

-- A row of `session_activity_reports`.
pub record ReportRow : Type 0 where
  pub session_id : ℕ
  pub launch_token : ℕ
  pub event_id : ℕ

pub record Db : Type 0 where
  pub agents : List AgentRow
  pub sessions : List SessionRow
  pub reports : List ReportRow

-- A call, and the body of a transaction, which an error rolls back.
abbrev pub Call : Type 0 → Type 0
Call A = Db → Result Error A × Db

unfoldable pub committed : {A : Type 0} → Result Error (A × Db) → Db → Result Error A × Db
committed (err e) db = (err e, db)
committed (ok (a, db')) db = (ok a, db')

-- `decode_row` of an agent.
abbrev pub decoded_agent : AgentRow → Str → AgentRecord
decoded_agent r name = record {
  id = r.id;
  source_directory = r.source_directory;
  agent = record r.desired {
    metadata = record r.desired.metadata { deletion_timestamp = r.deletion_timestamp };
    status = r.status;
  };
}

abbrev pub decode_named : AgentRow → Option Str → Result Error AgentRecord
decode_named r none = err (database (said (codes "Query is not read-only")))
decode_named r (some name) =
    if same_text r.desired.metadata.name name
    then ok (decoded_agent r name)
    else err (database (said (codes "Query is not read-only")))

unfoldable pub decode_agent : AgentRow → Result Error AgentRecord
decode_agent r = decode_named r r.active_name

-- `decode_row` of a session, beside the active name of its agent.
unfoldable pub decode_session : Str → SessionRow → Session
decode_session agent r = record {
  id = r.id;
  agent_id = r.agent_id;
  agent = agent;
  name = r.name;
  harness = r.harness;
  model_selection = r.model_selection;
  created_at = r.created_at;
  deletion_timestamp = r.deletion_timestamp;
  archived_at = r.archived_at;
  status =
      observed (record { state = r.lifecycle.state; failure = r.lifecycle.failure })
        (record {
          harness_session_id = r.harness_native_id;
          harness_transcript_path = r.harness_transcript_path;
          activity = r.activity;
        })
        r.lifecycle.since r.archived_at;
  activation_generation = r.activation_generation;
  observed_activation_generation = r.lifecycle.observed_activation_generation;
}
