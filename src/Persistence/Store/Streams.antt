-- ===== src/Persistence/Store/Streams.antt =====
-- The stream of reports that reaches a launch: accept_report of agentctl/src/platform_api/mod.rs, with the
-- calls of agentctl/src/persistence/sessions.rs that it makes. Beside what the tables do with it stands
-- what is to be counted of it.
pub mod Views
pub mod Counting
use digdir_agents.Base.{
  leb, ◌==◌, if◌then◌else◌, any, Str, list_is_empty, Result, err, ok, ℕ, Bool, true, false, not,
  ◌&&◌, ◌||◌, Option, none, some, List, [], ◌∷◌, ◌++◌,
}
use digdir_agents.Agents.Errors.{Error, not_found}
use digdir_agents.Sessions.Activity.{
  ActivityEvent, session_start, turn_started, turn_completed, waiting_reported, Activity,
  no_activity, folded,
}
use digdir_agents.Persistence.Rows.{Db}
use digdir_agents.Persistence.Launches.{applied, apply_activity_for_launch, record_start_for_launch}
use digdir_agents.Text.{text_len}

-- `SessionReport`, with the token that bears it and the time at which it is accepted.
pub record Delivery : Type 0 where
  pub session : ℕ
  pub token : ℕ
  pub event_id : ℕ
  pub event : ActivityEvent
  pub native_session_id : Str
  pub transcript_path : Option Str
  pub at : ℕ

abbrev max_native_session_id_bytes : ℕ
max_native_session_id_bytes = 1024

abbrev max_transcript_path_bytes : ℕ
max_transcript_path_bytes = 4096

abbrev is_native_session_id : Str → Bool
is_native_session_id native =
    not (list_is_empty native) && leb (text_len native) max_native_session_id_bytes

-- A path that is there and not empty.
abbrev pub given : Option Str → Option Str
given (some (c ∷ cs)) = some (c ∷ cs)
given (some []) = none
given none = none

abbrev is_absolute : Str → Bool
is_absolute [] = false
is_absolute (c ∷ cs) = c == b'/'

abbrev is_transcript_path : Option Str → Bool
is_transcript_path none = true
is_transcript_path (some path) = is_absolute path && leb (text_len path) max_transcript_path_bytes

abbrev pub is_session_start : ActivityEvent → Bool
is_session_start session_start = true
is_session_start turn_started = false
is_session_start turn_completed = false
is_session_start waiting_reported = false

abbrev status_of : Result Error (Option Activity) → ℕ
status_of (ok activity) = 204
status_of (err not_found) = 401
status_of (err e) = 500

abbrev pub answered : Result Error (Option Activity) × Db → ℕ × Db
answered (applied, db) = (status_of applied, db)

-- A start names the conversation, and its transcript by an absolute path if at all.
abbrev pub is_start_well_formed : Delivery → Bool
is_start_well_formed m =
    is_native_session_id m.native_session_id && is_transcript_path (given m.transcript_path)

-- `accept_report`: the status that it answers with, and what it leaves of the tables.
unfoldable pub accept_report : Delivery → Db → ℕ × Db
accept_report m db =
    if is_session_start m.event
    then (if is_start_well_formed m
        then answered (
            record_start_for_launch m.session m.token m.event_id m.native_session_id
              (given m.transcript_path) m.at db)
        else (400, db))
    else answered (apply_activity_for_launch m.session m.token m.event_id m.event m.at db)

unfoldable pub deliver : Delivery → Db → Db
deliver m db = (accept_report m db).1

unfoldable pub deliver_all : List Delivery → Db → Db
deliver_all [] db = db
deliver_all (m ∷ ms) db = deliver_all ms (deliver m db)

-- What a launch has to be known of: the events that were counted, and their activity.
abbrev pub Counted : Type 0
Counted = List ℕ × Activity

abbrev pub is_counted : ℕ → List ℕ → Bool
is_counted event_id seen = any (λ x. event_id == x) seen

abbrev pub take_new : Bool → Delivery → Counted → Counted
take_new true m v = v
take_new false m (seen, a) = (seen ++ m.event_id ∷ [], folded m.event m.at a)

module _ (id token : ℕ) where
  abbrev pub is_mine : Delivery → Bool
  is_mine m = m.session == id && m.token == token

  abbrev pub count_in : Delivery → Counted → Counted
  count_in m v = if is_mine m then take_new (is_counted m.event_id v.0) m v else v

  -- A report of another session or launch is left aside, and so are an event that was counted and a
  -- start that is not well formed.
  unfoldable pub take : Delivery → Counted → Counted
  take m v = if not (is_session_start m.event) || is_start_well_formed m then count_in m v else v

  unfoldable pub take_all : List Delivery → Counted → Counted
  take_all [] v = v
  take_all (m ∷ ms) v = take_all ms (take m v)

-- What was counted of a new launch.
abbrev pub nothing_counted : Counted
nothing_counted = ([], no_activity)
