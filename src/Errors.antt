-- ===== src/Errors.antt =====
-- The errors that cross package borders. `errors.Wrap` adds text and a trace and keeps the cause,
-- and every reader of a wrapped error asks for its cause (or only logs it), so a wrapped error is
-- its cause.
pub mod Messages
use replicated_file_system.Common.{ℕ, List, Text}
use replicated_file_system.Protobuf.Wire.{WireError}

-- connection/errors.go: streamErr and connErr. A number that the source does not name is kept.
pub data StreamError : Type 0 where
  timeout cancelled invalid_size_header read_header read_body write : StreamError
  other_stream : ℕ → StreamError

pub data ConnError : Type 0 where
  unspecified already_established closed conn_cancelled not_resolved : ConnError
  other_conn : ℕ → ConnError

-- context.Canceled, context.DeadlineExceeded, connection.ErrPeerIsDown, errPoolClosed,
-- p2p.ErrNotPermitted, p2p.ErrTransactionConflict, and what other code returns.
pub data Cause : Type 0 where
  canceled deadline_exceeded peer_is_down pool_closed not_permitted transaction_conflict : Cause
  marshal_failed : Cause
  wire : WireError → Cause
  stream : StreamError → Cause
  conn : ConnError → Cause
  other : Text → Cause

-- A MultiErr keeps one error for each peer name.
pub data Err : Type 0 where
  plain : Cause → Err
  multi : List (Text × Cause) → Err
