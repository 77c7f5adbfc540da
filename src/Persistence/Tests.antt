-- ===== src/Persistence/Tests.antt =====
-- Concrete tables and calls: agentctl/src/persistence/sessions.rs.
use digdir_agents.Base.{codes, Str, same_text, ok, ℕ, ◌≡◌, refl, none, some, List, [], ◌∷◌}
use digdir_agents.Agents.Harness.{codex, ModelSelection}
use digdir_agents.Agents.Model.{Spec, no_status, AgentRecord}
use digdir_agents.Sessions.Activity.{
  session_start, turn_started, turn_completed, next_phase, folded,
}
use digdir_agents.Sessions.Model.{Session, NewSession, Launch}
use digdir_agents.Persistence.Rows.{Db, committed, decode_agent}
use digdir_agents.Persistence.Agents.{get_agent_by_name, encode_desired, put_agent}
use digdir_agents.Persistence.Sessions.{active_name_of, get_session, query_named, ensure_session}
use digdir_agents.Persistence.Launches.{record_session_launch}
use digdir_agents.Persistence.Store.{
  StoreCall, put_agent_call, ensure_call, launch_call, activity_call, perform,
}
use digdir_agents.Persistence.Store.Lookups.{part_of}
use digdir_agents.Persistence.Store.Invariant.{token_part, IsConsistent}
use digdir_agents.Persistence.Store.Steps.{
  empty_tables, perform_all, perform_all-IsConsistent, prompt_once,
}
use digdir_agents.Persistence.Store.Streams.{Delivery, deliver_all, take, take_all, nothing_counted}
use digdir_agents.Persistence.Store.Streams.Counting.{deliver_all-take_all}
use digdir_agents.Agents.Examples.{worker_spec}

abbrev worker : Str
worker = codes "w"

abbrev review : Str
review = codes "s1"

abbrev spec : Spec
spec = record worker_spec { harnesses = [] }

abbrev agent_of : Str → AgentRecord
agent_of name = record {
  id = 1;
  source_directory = [];
  agent = record {
    api_version = codes "agents.platform/v1alpha1";
    kind = codes "Agent";
    metadata = record {
      name = name;
      generation = 1;
      deletion_timestamp = none;
      restart_timestamp = none;
    };
    spec = spec;
    status = no_status;
  };
}

abbrev none_selected : ModelSelection
none_selected = record { model = none; effort = none }

abbrev greeting : Str
greeting = codes "hi"

abbrev new_session : NewSession
new_session = record {
  harness = codex;
  model_selection = none_selected;
  requested = none_selected;
  initial_prompt = some greeting;
}

abbrev created : List StoreCall
created = put_agent_call (agent_of worker) 0 ∷ ensure_call worker review new_session 7 100 ∷ []

abbrev launch_with : ℕ → Launch
launch_with token = record { token = token; sandbox = 5; launched_at = 120; attempts = 1 }

abbrev reporting : List StoreCall
reporting =
    put_agent_call (agent_of worker) 0
    ∷ ensure_call worker review new_session 7 100
    ∷ launch_call 7 (launch_with 11)
    ∷ activity_call 7 11 3 turn_started 130
    ∷ []

-- The tables with one agent and its session, which waits for its first launch.
abbrev pub tables : Db
tables = perform_all created empty_tables

perform_all-IsConsistent_example : IsConsistent (perform_all reporting empty_tables)
perform_all-IsConsistent_example = perform_all-IsConsistent reporting

prompt_once_example : part_of token_part 7 (perform_all created empty_tables).sessions ≡ some none
unfolding perform_all perform put_agent ensure_session record_session_launch committed
    get_agent_by_name same_text decode_agent encode_desired query_named active_name_of
prompt_once_example = prompt_once created 7 (launch_with 11) greeting refl

abbrev launched_tables : Db
launched_tables = (record_session_launch 7 (launch_with 11) tables).1

-- A start and a turn that is reported twice over, with a late report of another launch, one of another
-- session, and a start that names no conversation.
abbrev deliveries : List Delivery
deliveries =
    record {
      session = 7;
      token = 11;
      event_id = 9;
      event = session_start;
      native_session_id = codes "c";
      transcript_path = some (codes "/t");
      at = 125;
    }
    ∷ record {
      session = 7;
      token = 11;
      event_id = 1;
      event = turn_started;
      native_session_id = [];
      transcript_path = none;
      at = 130;
    }
    ∷ record {
      session = 7;
      token = 10;
      event_id = 2;
      event = turn_completed;
      native_session_id = [];
      transcript_path = none;
      at = 131;
    }
    ∷ record {
      session = 7;
      token = 11;
      event_id = 3;
      event = turn_completed;
      native_session_id = [];
      transcript_path = none;
      at = 140;
    }
    ∷ record {
      session = 7;
      token = 11;
      event_id = 3;
      event = turn_completed;
      native_session_id = [];
      transcript_path = none;
      at = 141;
    }
    ∷ record {
      session = 8;
      token = 11;
      event_id = 4;
      event = turn_started;
      native_session_id = [];
      transcript_path = none;
      at = 150;
    }
    ∷ record {
      session = 7;
      token = 11;
      event_id = 5;
      event = session_start;
      native_session_id = [];
      transcript_path = none;
      at = 160;
    }
    ∷ []

one_turn : (take_all 7 11 deliveries nothing_counted).1.turns ≡ 1
unfolding take_all take folded next_phase digdir_agents.Text.text_len digdir_agents.Text.utf8_len
one_turn = refl

deliver_all-take_all_example :
    (s' : Session) × (get_session (deliver_all deliveries launched_tables) 7 ≡ ok s')
    × (s'.status.reported.activity ≡ (take_all 7 11 deliveries nothing_counted).1)
unfolding get_session perform_all perform ensure_session committed get_agent_by_name put_agent
    same_text decode_agent encode_desired query_named active_name_of record_session_launch
deliver_all-take_all_example =
    deliver_all-take_all 7 (launch_with 11) deliveries tables _ (some greeting) refl
      (perform_all-IsConsistent created).distinct refl
