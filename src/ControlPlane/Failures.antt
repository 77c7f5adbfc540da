-- ===== src/ControlPlane/Failures.antt =====
-- What a failed pass of a reconciler is taken for: agentctl/src/controller.rs.
use digdir_agents.Base.{if◌then◌else◌, ◌≡◌, refl, Bool, true, false}
use digdir_agents.Agents.Errors.{Message, to_string, Error, sandbox, daemon}
use digdir_agents.Agents.Model.{FailureKind, invalid_failure, transient_failure}
use digdir_agents.Service.Errors.{error_kind}
use digdir_agents.Service.{
  ErrorKind, not_found_kind, invalid_request_kind, immutable_kind, unsupported_kind, execution_kind,
  io_kind, backend_kind,
}
use digdir_agents.Agents.Errors

pub record ReconcileFailure : Type 0 where
  pub kind : FailureKind
  pub message : Message

abbrev is_permanent_kind : ErrorKind → Bool
is_permanent_kind invalid_request_kind = true
is_permanent_kind immutable_kind = true
is_permanent_kind unsupported_kind = true
is_permanent_kind not_found_kind = false
is_permanent_kind execution_kind = false
is_permanent_kind io_kind = false
is_permanent_kind backend_kind = false

abbrev is_permanent : Errors.Error → Bool
is_permanent (Errors.invalid message) = true
is_permanent (Errors.immutable field) = true
is_permanent (sandbox e) = is_permanent_kind (error_kind e)
is_permanent _ = false

abbrev message_of : Errors.Error → Message
message_of (Errors.invalid message) = message
message_of e = to_string e

-- `ReconcileFailure::classify`.
unfoldable pub classify : Errors.Error → ReconcileFailure
classify e = record {
  kind = if is_permanent e then invalid_failure else transient_failure;
  message = message_of e;
}

abbrev error_as : FailureKind → Message → Errors.Error
error_as invalid_failure message = Errors.invalid message
error_as transient_failure message = daemon message

-- `From<ReconcileFailure>` of an error.
unfoldable pub into_error : ReconcileFailure → Errors.Error
into_error failure = error_as failure.kind failure.message

-- A failure that is passed on as an error is taken for what it was: it keeps its kind, and one that needs
-- the desired state changed keeps its message too.
pub classify-into_error :
    (failure : ReconcileFailure)
    → ((classify (into_error failure)).kind ≡ failure.kind)
      × (failure.kind ≡ invalid_failure → classify (into_error failure) ≡ failure)
unfolding classify into_error
classify-into_error f = of_kind f.kind f.message
  where
    of_kind :
        (kind : FailureKind) (message : Message)
        → ((classify (error_as kind message)).kind ≡ kind)
          × (kind ≡ invalid_failure
              → classify (error_as kind message) ≡ record { kind = kind; message = message })
    of_kind invalid_failure message = (refl, λ h. refl)
    of_kind transient_failure message = (refl, λ h. absurd (cc h))
