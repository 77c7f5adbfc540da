-- ===== src/Sessions/Model.antt =====
-- Sessions, and what creates and launches them: agentctl/src/sessions/mod.rs.
use digdir_agents.Base.{
  leb, ◌==◌, codes, if◌then◌else◌, length, every, Str, list_is_empty, ℕ, Bool, not, ◌&&◌, ◌||◌,
  Option, none, some, [], ◌∷◌,
}
use digdir_agents.Agents.Harness.{Harness, ModelSelection, or_defaults}
use digdir_agents.Agents.Errors.{text, Message, said, format, format_detail, Error, invalid}
use digdir_agents.Agents.Model.{Assignment, is_some}
use digdir_agents.Sessions.Status.{LifecycleState, Status}

abbrev is_name_byte : ℕ → Bool
is_name_byte b =
    (leb b'0' b && leb b b'9')
    || (leb b'A' b && leb b b'Z')
    || (leb b'a' b && leb b b'z')
    || (b == b'-')
    || (b == b'_')

-- `SessionName::new`: whether a name is accepted.
unfoldable pub is_session_name : Str → Bool
is_session_name name = not (list_is_empty name) && leb (length name) 64 && every is_name_byte name

pub record Session : Type 0 where
  pub id : ℕ
  pub agent_id : ℕ
  pub agent : Str
  pub name : Str
  pub harness : Harness
  pub model_selection : ModelSelection
  pub created_at : ℕ
  pub deletion_timestamp : Option ℕ
  pub archived_at : Option ℕ
  pub status : Status
  pub activation_generation : ℕ
  pub observed_activation_generation : ℕ

-- `Session::is_deleting` and `Session::is_archived`.
abbrev pub is_deleting : Session → Bool
is_deleting s = is_some s.deletion_timestamp

abbrev pub is_archived : Session → Bool
is_archived s = is_some s.archived_at

-- `Session::archived_error`.
unfoldable pub archived_error : Session → Error
archived_error s = invalid (format "Session \"{}\" is archived" (text s.name ∷ []))

abbrev state_detail : LifecycleState → Message
state_detail LifecycleState.starting = said (codes "its lifecycle is starting")
state_detail LifecycleState.resuming = said (codes "its harness is resuming")
state_detail LifecycleState.idle = said (codes "its lifecycle is idle")
state_detail LifecycleState.archived = said (codes "its harness was stopped when it was archived")
state_detail LifecycleState.failed = said (codes "its lifecycle failed without a recorded reason")
state_detail LifecycleState.running = said (codes "its harness has not reported readiness")

abbrev pub detail_of : Option Message → Message → Message
detail_of (some failure) _ = failure
detail_of none detail = detail

-- `Session::not_running_error`.
unfoldable pub not_running_error : Session → Error
not_running_error s =
    if is_archived s
    then archived_error s
    else invalid (
        format_detail "Session \"{}\" is not running: {}" (text s.name ∷ [])
          (detail_of s.status.lifecycle.failure (state_detail s.status.lifecycle.state)))

pub record SessionRequest : Type 0 where
  pub harness : Option Harness
  pub model_selection : ModelSelection
  pub initial_prompt : Option Str

pub record NewSession : Type 0 where
  pub harness : Harness
  pub model_selection : ModelSelection
  pub requested : ModelSelection
  pub initial_prompt : Option Str

-- `NewSession::resolved`.
unfoldable pub resolved : Harness → ModelSelection → ModelSelection → NewSession
resolved harness requested defaults = record {
  harness = harness;
  model_selection = or_defaults requested defaults;
  requested = requested;
  initial_prompt = none;
}

-- `LaunchState` and `LaunchRecord`; a token is the number that its UUID is.
pub record Launch : Type 0 where
  pub token : ℕ
  pub sandbox : ℕ
  pub launched_at : ℕ
  pub attempts : ℕ

pub record AttachTarget : Type 0 where
  pub session : Session
  pub sandbox : Assignment
