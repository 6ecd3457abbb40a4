-- ===== src/Connection/Link.antt =====
-- connection/connection.go: the state of one connection, and what its operations conclude from the
-- errors of the network. closeConn is of connection/net_op.go.
use replicated_file_system.Common.{
  ℕ, ◌+◌, Bool, true, false, not, ◌&&◌, Option, none, some, List, [], ◌==◌, if◌then◌else◌,
}
use replicated_file_system.Errors.{
  Cause, canceled, stream, conn, other, ConnError, unspecified, already_established, closed,
}
use replicated_file_system.Errors.Messages.{conn_of, conn_number, stream_of}
use replicated_file_system.Connection.Perspective.{unknown}

pub data Status : Type 0 where
  dead alive shutdown : Status

-- The fields of Connection that change; of the perspectiveResolver its counter.
pub record Link : Type 0 where
  pub status : Status
  pub perspective : ℕ
  pub counter : ℕ  -- uint32
  -- Goroutines that wait to send on openNotify.
  pub notices : ℕ

unfoldable pub is_alive : Status → Bool
is_alive alive = true
is_alive _ = false

unfoldable pub is_dead : Status → Bool
is_dead dead = true
is_dead _ = false

-- NewConnection
unfoldable pub new_link : Link
new_link = record { status = dead; perspective = unknown; counter = 0; notices = 0 }

-- The fast path of Establish, before Resolve.
unfoldable pub establish_check : Link → Option Cause
unfolding is_alive
establish_check c =
    if is_alive c.status && not (c.perspective == unknown)
    then some (conn already_established)
    else none

-- The link that Establish leaves. openNotify is sent on by a goroutine of its own.
unfoldable pub opened : ℕ → Link → Link
opened perspective c = record c {
  status = alive;
  perspective = perspective;
  notices = c.notices + 1;
}

-- The link that Close leaves; Reset is of the perspectiveResolver.
unfoldable pub ended : Link → Link
ended c = record c { status = dead; perspective = unknown; counter = 0 }

-- The code with which closeConn closes: errors.As finds a connErr as the cause.
unfoldable pub close_code : Cause → ConnError
close_code (conn e) = e
close_code _ = unspecified

-- closeConn, on nil or on a connection, with CloseWithError.
unfoldable pub close_conn : Option (ℕ → Option Cause) → Cause → Option Cause
unfolding close_code
close_conn none err = none
close_conn (some close_with_error) err = close_with_error (conn_number (close_code err))

-- What Close returns: the error that it was called with if the QUIC connection's context is done.
unfoldable pub close_result : Bool → Option (ℕ → Option Cause) → Cause → Option Cause
unfolding close_conn
close_result context_done quic err = if context_done then some err else close_conn quic err

-- The errors of the network, as handleErrors tells them apart: io.EOF, context.Canceled, a
-- net.OpError and whether it is temporary, the two errors of QUIC with their numbers, any other.
pub data Failure : Type 0 where
  eof context_canceled : Failure
  op_error : Bool → Failure
  stream_error application_error : ℕ → Failure
  other_failure : Cause → Failure

-- The verdict of handleErrors: nil, the error to return, or that and the connection is closed first.
pub data Judgement : Type 0 where
  ignores : Judgement
  keeps closes : Cause → Judgement

-- The texts of the errors that only get logged are left out.
unfoldable pub judge_conn : ConnError → Judgement
judge_conn already_established = ignores
judge_conn closed = closes (conn closed)
judge_conn e = keeps (conn e)

unfoldable pub judge_failure : Failure → Judgement
unfolding judge_conn
judge_failure eof = closes (other [])
judge_failure context_canceled = closes canceled
judge_failure (op_error temporary) = if temporary then keeps (other []) else closes (other [])
judge_failure (stream_error code) = keeps (stream (stream_of code))
judge_failure (application_error code) = judge_conn (conn_of code)
judge_failure (other_failure e) = keeps e

-- handleErrors, up to its call of Close.
unfoldable pub judge : Option Failure → Judgement
unfolding judge_failure
judge none = ignores
judge (some f) = judge_failure f

unfoldable pub judged : Judgement → Option Cause
judged ignores = none
judged (keeps e) = some e
judged (closes e) = some e

-- What Recv returns: the bytes, nil with an error; and nil bytes without an error on a failure that
-- handleErrors ignores.
pub data Taken : Type 0 where
  bytes : List ℕ → Taken
  error : Cause → Taken

-- What the network has for Recv.
pub data Incoming : Type 0 where
  arrives : List ℕ → Incoming
  fails : Failure → Incoming

unfoldable pub incoming_judgement : Incoming → Judgement
unfolding judge
incoming_judgement (arrives b) = ignores
incoming_judgement (fails f) = judge (some f)

unfoldable pub taken : Incoming → Judgement → Taken
taken incoming (keeps e) = error e
taken incoming (closes e) = error e
taken (arrives b) ignores = bytes b
taken (fails f) ignores = bytes []
