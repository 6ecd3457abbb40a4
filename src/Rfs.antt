-- ===== src/Rfs.antt =====
-- rfs/replicate.go and the types of rfs. The Mirror and the Replicator are the parameter
-- `Peers`, over the state W of the peer and its disk.
pub mod Root
pub mod Handlers
pub mod Server
mod Errnos
pub mod Agreement
pub mod Local
pub mod Samples
mod Tests
use replicated_file_system.Common.{ℕ, Option, none, some, Outcome, returns, ◌>>=◌, deref}
use replicated_file_system.Errors.{
  Cause, canceled, deadline_exceeded, peer_is_down, Err, plain, multi,
}
use replicated_file_system.Protobuf.{
  Request, Response, ResponseError, err_unknown, err_already_exists, err_does_not_exist,
  err_transaction_conflict, err_not_a_directory, err_not_a_file, err_invalid_mode, other_error,
  nack, ResponseType,
}

-- syscall.Errno: NoError and fs.OK, the numbers that the source names, and any other.
pub data Errno : Type 0 where
  no_error eperm eexist enoent enotdir ebadf einval ecanceled etimedout ehostdown : Errno
  other_errno : ℕ → Errno

-- PermissionDenied
abbrev pub permission_denied : Errno
permission_denied = eperm

pub record Peers (W : Type 0) : Type 0 where
  -- Mirror.Consult, nil is none.
  pub consult : W → Request → Outcome (Option Response)
  -- Replicator.Replicate
  pub replicate : W → Request → Outcome (W × Option Err)

-- errnoFromProtobufError
unfoldable pub errno_from_protobuf_error : ResponseError → Errno
errno_from_protobuf_error err_unknown = permission_denied
errno_from_protobuf_error err_already_exists = eexist
errno_from_protobuf_error err_does_not_exist = enoent
errno_from_protobuf_error err_transaction_conflict = permission_denied
errno_from_protobuf_error err_not_a_directory = enotdir
errno_from_protobuf_error err_not_a_file = ebadf
errno_from_protobuf_error err_invalid_mode = einval
errno_from_protobuf_error (other_error n) = permission_denied

-- The switch on errors.Cause: a MultiErr is its own cause.
unfoldable pub errno_from_cause : Err → Errno
errno_from_cause (plain canceled) = ecanceled
errno_from_cause (plain deadline_exceeded) = etimedout
errno_from_cause (plain peer_is_down) = ehostdown
errno_from_cause (plain _) = permission_denied
errno_from_cause (multi errs) = permission_denied

unfoldable pub errno_of_replication : Option Err → Errno
unfolding errno_from_cause
errno_of_replication none = no_error
errno_of_replication (some e) = errno_from_cause e

-- `resp.GetType() == NACK`, and then `*resp.Error`, which panics on nil.
unfoldable pub refuse : ResponseType → Option ResponseError → Outcome (Option Errno)
unfolding errno_from_protobuf_error
refuse nack error = deref error >>= λ e. returns (some (errno_from_protobuf_error e))
refuse _ error = returns none

unfoldable pub refusal : Option Response → Outcome (Option Errno)
unfolding refuse
refusal none = returns none
refusal (some r) = refuse r.type r.error

module _ {W : Type 0} (peers : Peers W) where
  -- replicate, once Consult has answered.
  unfoldable pub unless_refused : W → Request → Option Errno → Outcome (W × Errno)
  unfolding errno_of_replication
  unless_refused w req (some e) = returns (w, e)
  unless_refused w req none =
      peers.replicate w req >>= λ result. returns (result.0, errno_of_replication result.1)

  unfoldable pub replicate : W → Request → Outcome (W × Errno)
  unfolding refusal unless_refused
  replicate w req =
      peers.consult w req >>= λ resp. refusal resp >>= λ refused. unless_refused w req refused
