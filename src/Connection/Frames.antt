-- ===== src/Connection/Frames.antt =====
-- connection/net_op.go: the frame of a message, and how recv takes it from the bytes that arrive
-- on a stream before it ends. A length header is eight bytes, the highest first.
pub mod Roundtrip
mod Tests
use replicated_file_system.Common.{
  ℕ, zero, suc, ◌+◌, ◌*◌, ◌-◌, ◌/◌, ◌%◌, ◌^◌, ◌<◌, ◌≤◌, ◌≡◌, refl, ◌∙◌, ap, Bool, true, false, ltb,
  Option, none, some, List, [], ◌∷◌, ◌++◌, lt→ltb, ltb→lt, length-append, take-append, Bool-cases,
  inl, inr, length, take, drop, arith, if◌then◌else◌,
}
use replicated_file_system.Errors.{
  Cause, stream, timeout, cancelled, invalid_size_header, read_header, read_body, StreamError,
  write,
}
use replicated_file_system.Connection.Perspective.{Received, data_is, err_is}

-- ctx.Err of a context that is done: one of the two values that the context package documents.
pub data Done : Type 0 where
  context_canceled context_deadline_exceeded : Done

-- What the select of selectResult takes: the context, the error, or the end.
pub data Selected : Type 0 where
  ctx_done : Done → Selected
  failed : Cause → Selected
  finished : Selected

-- streamContextDone
unfoldable pub stream_context_done : Done → Cause
stream_context_done context_canceled = stream cancelled
stream_context_done context_deadline_exceeded = stream timeout

unfoldable pub select_result : Selected → Option Cause
unfolding stream_context_done
select_result (ctx_done e) = some (stream_context_done e)
select_result (failed e) = some e
select_result finished = none

-- binary.BigEndian.PutUint64, and binary.Read of an int64 as its 64-bit pattern.
unfoldable pub big_endian : ℕ → ℕ → List ℕ
big_endian zero n = []
big_endian (suc k) n = n / 2 ^ (8 * k) % 2 ^ 8 ∷ big_endian k n

unfoldable pub from_big_endian : List ℕ → ℕ → ℕ
from_big_endian [] acc = acc
from_big_endian (b ∷ bytes) acc = from_big_endian bytes (acc * 2 ^ 8 + b)

-- What send writes.
unfoldable pub frame : List ℕ → List ℕ
unfolding big_endian
frame bytes = big_endian 8 (length bytes) ++ bytes

-- The select of a goroutine's result against the context.
unfoldable pub select_from : Option Done → Option Cause → Selected
select_from (some e) result = ctx_done e
select_from none (some e) = failed e
select_from none none = finished

-- recv behind the header: io.ReadFull into a buffer of that size, unless the context is done first.
-- The allocation of the buffer is taken to succeed; make panics on a size that no memory holds.
unfoldable pub recv_body : ℕ → Option Done → List ℕ → Received
unfolding select_result select_from
recv_body size ctx rest =
    let short = if ltb (length rest) size then some (stream read_body) else none in
    elim (select_result (select_from ctx short)) [
      | some e ↦ err_is e
      | none ↦ data_is (take size rest)
    ]

unfoldable pub recv_size : ℕ → Option Done → List ℕ → Received
unfolding recv_body
recv_size size ctx rest =
    if ltb size (2 ^ 63) then recv_body size ctx rest else err_is (stream invalid_size_header)

-- recv: the error of AcceptUniStream, the context's end if it comes first, and the bytes of the stream.
unfoldable pub recv : Option Cause → Option Done → List ℕ → Received
unfolding recv_size from_big_endian
recv (some e) ctx bytes = err_is e
recv none ctx bytes =
    if ltb (length bytes) 8
    then err_is (stream read_header)
    else recv_size (from_big_endian (take 8 bytes) 0) ctx (drop 8 bytes)

-- The error of send's goroutine.
unfoldable pub send_error : Option Cause → Bool → Option Cause
send_error (some e) write_fails = some e
send_error none write_fails = if write_fails then some (stream write) else none

-- send: the error of OpenUniStreamSync, the context's end, whether the write fails, and the data.
-- The result is what a stream that is not cancelled carries, and the error.
unfoldable pub send : Option Cause → Option Done → Bool → List ℕ → List ℕ × Option Cause
unfolding frame select_result select_from send_error
send opened ctx write_fails bytes =
    elim (select_result (select_from ctx (send_error opened write_fails))) [
      | some e ↦ ([], some e)
      | none ↦ (frame bytes, none)
    ]
