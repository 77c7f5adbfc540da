-- ===== src/Persistence/Agents.antt =====
-- The agents' table: agentctl/src/persistence/agents.rs. The secrets that go with a deleted agent are not
-- among the tables.
use digdir_agents.Base.{
  ◌==◌, codes, if◌then◌else◌, any, Str, same_text, Result, err, ok, ensure, ◌>>=◌, ℕ, Bool, false,
  not, ◌&&◌, ◌||◌, Option, none, some, [], ◌∷◌, ◌++◌,
}
use digdir_agents.Agents.Errors.{said, Error, not_found, conflict, database}
use digdir_agents.Agents.Model.{
  find_first, AgentStatus, no_status, stamp_transitions, Agent, AgentRecord, is_some,
}
use digdir_agents.Persistence.Tables.{count, update_where}
use digdir_agents.Persistence.Rows.{AgentRow, Db, Call, committed, decode_agent}

abbrev pub is_active : AgentRow → Bool
is_active r = is_some r.active_name

abbrev pub has_name : Str → Option Str → Bool
has_name name none = false
has_name name (some active) = same_text active name

abbrev pub decode_found : Option AgentRow → Result Error AgentRecord
decode_found none = err not_found
decode_found (some r) = decode_agent r

-- `get`.
unfoldable pub get_agent : Db → ℕ → Result Error AgentRecord
get_agent db id = decode_found (find_first (λ r. r.id == id && is_active r) db.agents)

-- `get_by_name`.
unfoldable pub get_agent_by_name : Db → Str → Result Error AgentRecord
get_agent_by_name db name =
    decode_found (find_first (λ r. has_name name r.active_name) db.agents) >>= λ found.
    if same_text found.agent.metadata.name name
    then ok found
    else err (database (said (codes "stored agent name does not match its active-name index")))

-- `encode_desired`.
unfoldable pub encode_desired : Agent → Agent
encode_desired agent = record agent {
  metadata = record agent.metadata { deletion_timestamp = none };
  status = no_status;
}

-- `INSERT OR IGNORE`: a row of the same id or active name keeps the new one out.
abbrev pub is_taken : AgentRecord → AgentRow → Bool
is_taken r row = row.id == r.id || has_name r.agent.metadata.name row.active_name

abbrev pub new_agent_row : AgentRecord → AgentRow
new_agent_row r = record {
  id = r.id;
  active_name = some r.agent.metadata.name;
  source_directory = r.source_directory;
  desired = encode_desired r.agent;
  deletion_timestamp = r.agent.metadata.deletion_timestamp;
  status = r.agent.status;
}

abbrev pub insert_agent : AgentRecord → Db → Result Error (Unit {0} × Db)
insert_agent r db =
    if any (λ row. is_taken r row) db.agents
    then err conflict
    else ok (tt, record db { agents = db.agents ++ new_agent_row r ∷ [] })

abbrev pub is_updated : AgentRecord → AgentRow → Bool
is_updated r row =
    row.id == r.id
    && has_name r.agent.metadata.name row.active_name
    && not (is_some row.deletion_timestamp)

abbrev pub replace_agent : AgentRecord → ℕ → Db → Result Error (Unit {0} × Db)
replace_agent r expected db = get_agent db r.id >>= λ current.
    ensure
      (current.agent.metadata.generation == expected
        && same_text current.agent.metadata.name r.agent.metadata.name
        && not (is_some current.agent.metadata.deletion_timestamp))
      conflict
    >>= λ _. ensure (count (λ row. is_updated r row) db.agents == 1) conflict >>= λ _. ok (
      tt,
      record db {
        agents =
            update_where (λ row. is_updated r row)
              (λ row. record row {
                source_directory = r.source_directory;
                desired = encode_desired r.agent;
              })
              db.agents;
      },
    )

-- `put`, which expects no agent where the generation that it expects is 0.
unfoldable pub put_agent : AgentRecord → ℕ → Call (Unit {0})
put_agent r expected db =
    committed (if expected == 0 then insert_agent r db else replace_agent r expected db) db

-- `update_status`.
unfoldable pub update_status : ℕ → ℕ → AgentStatus → ℕ → Call AgentStatus
update_status id generation status now db =
    committed
      (get_agent db id >>= λ r.
        ensure
          (r.agent.metadata.generation == generation
            && not (is_some r.agent.metadata.deletion_timestamp))
          conflict
        >>= λ _.
            ensure (count (λ row. row.id == id && is_active row) db.agents == 1) conflict >>= λ _.
            let stamped = stamp_transitions r.agent.status now status in
            ok (
              stamped,
              record db {
                agents =
                    update_where (λ row. row.id == id && is_active row)
                      (λ row. record row { status = stamped }) db.agents;
              },
            ))
      db

abbrev pub mark_agent : Str → ℕ → AgentRecord → Db → Result Error (AgentRecord × Db)
mark_agent name now r db =
    ensure (count (λ row. row.id == r.id && has_name name row.active_name) db.agents == 1) conflict
    >>= λ _. ok (
      record r {
        agent = record r.agent {
          metadata = record r.agent.metadata { deletion_timestamp = some now };
        };
      },
      record db {
        agents =
            update_where (λ row. row.id == r.id && has_name name row.active_name)
              (λ row. record row { deletion_timestamp = some now }) db.agents;
      },
    )

-- `mark_deleting`.
unfoldable pub mark_agent_deleting : Str → ℕ → Call AgentRecord
mark_agent_deleting name now db =
    committed
      (get_agent_by_name db name >>= λ r.
        if is_some r.agent.metadata.deletion_timestamp
        then ok (r, db)
        else mark_agent name now r db)
      db

-- `finalize_deletion`.
unfoldable pub finalize_agent_deletion : ℕ → ℕ → Call (Unit {0})
finalize_agent_deletion id generation db =
    committed
      (get_agent db id >>= λ r.
        ensure
          (r.agent.metadata.generation == generation && is_some r.agent.metadata.deletion_timestamp)
          conflict
        >>= λ _.
            ensure (count (λ row. row.id == id && is_active row) db.agents == 1) conflict >>= λ _.
            ok (
              tt,
              record db {
                agents =
                    update_where (λ row. row.id == id && is_active row)
                      (λ row. record row { active_name = none }) db.agents;
              },
            ))
      db
