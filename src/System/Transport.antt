-- ===== src/System/Transport.antt =====
-- protobuf/message.go, connection/net_op.go and p2p/host.go: a message on its way from the peer that
-- broadcasts it to listen on another.
mod Tests
use replicated_file_system.Common.{
  ℕ, ◌^◌, ◌<◌, ◌≡◌, refl, false, Option, none, some, List, ◌++◌, Text, length, inl, inr,
}
use replicated_file_system.Protobuf.{
  Request, Response, Message, request_msg, new_message, new_response_message,
}
use replicated_file_system.Protobuf.Gzip.{Gzip, GzipLaws, Level}
use replicated_file_system.Protobuf.Wire.{
  WireResult, WireResult-cases, ok, err, ProtoLaws, new_request_message, read_message, Proto,
}
use replicated_file_system.Protobuf.Roundtrip.{read-new_request, read-new_response}
use replicated_file_system.Connection.Perspective.{Received, data_is, err_is}
use replicated_file_system.Connection.Frames.{send, recv}
use replicated_file_system.Connection.Frames.Roundtrip.{recv-send}
use replicated_file_system.P2p.Host.{Env, Host, ready, Output}
use replicated_file_system.P2p.Host.Machine.{deliver, listen, listen_round}

-- What Replicate and handleTransaction broadcast.
pub data Broadcast : Type 0 where
  asks : Request → Broadcast
  answers : Response → Broadcast

-- The message that a Broadcast stands for.
unfoldable pub meant : Text → Text → Broadcast → Message
meant tid name (asks request) = new_message tid name (request_msg request)
meant tid name (answers response) = new_response_message tid name response

unfoldable pub marshalled : Proto → WireResult Message → Option (List ℕ)
marshalled p (ok message) = p.marshal message
marshalled p (err e) = none

-- Its bytes: NewRequestMessage or NewResponseMessage, and then Marshal.
unfoldable pub wire_bytes : Gzip → Proto → Level → Text → Text → Broadcast → Option (List ℕ)
unfolding marshalled
wire_bytes z p level tid name (asks request) =
    marshalled p (new_request_message z level tid name request)
wire_bytes z p level tid name (answers response) =
    p.marshal (new_response_message tid name response)

-- What listen reads from the connection.
unfoldable pub packet : Received → Option (List ℕ)
packet (data_is bytes) = some bytes
packet (err_is e) = none

module _ (z : Gzip) (p : Proto) (gzip_laws : GzipLaws z) (proto_laws : ProtoLaws p) where
  read-wire_bytes :
      (level : Level) (tid name : Text) (b : Broadcast) {raw : List ℕ}
      → wire_bytes z p level tid name b ≡ some raw
      → read_message z p raw ≡ ok (meant tid name b)
  unfolding wire_bytes meant marshalled
  read-wire_bytes level tid name (asks request) e =
      elim (WireResult-cases (new_request_message z level tid name request)) [
        | inl (m, f) ↦
            read-new_request z p gzip_laws proto_laws level tid name request f
              (rw (f, marshalled) at e)
        | inr (x, f) ↦ absurd cc
      ]
  read-wire_bytes level tid name (answers response) e =
      read-new_response z p gzip_laws proto_laws tid name response e

-- Where gzip and protobuf read back what they have written: a request or a response that a peer
-- encodes, at any compression level, into fewer than 2^63 bytes,
-- and sends on a stream, comes out of recv and of listen on a host whose listener is free as the
-- message that was meant, with its content as before the compression, whatever follows on the stream.
pub listen-wire_bytes :
    {W : Type 0} (env : Env W) (h : Host W) (level : Level) (tid name : Text) (b : Broadcast)
    (raw rest : List ℕ)
    → GzipLaws env.gzip
    → ProtoLaws env.proto
    → wire_bytes env.gzip env.proto level tid name b ≡ some raw
    → length raw < 2 ^ 63
    → listen env ready (packet (recv none none ((send none none false raw).0 ++ rest))) h
      ≡ deliver env (meant tid name b) h
unfolding listen listen_round packet
listen-wire_bytes env h level tid name b raw rest gzip_laws proto_laws e short =
    rw
      (
        recv-send raw rest short,
        read-wire_bytes env.gzip env.proto gzip_laws proto_laws level tid name b e,
        listen_round,
      )
      refl
