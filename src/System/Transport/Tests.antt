-- ===== src/System/Transport/Tests.antt =====
-- A WRITE request of two bytes, through a gzip that stores its content.
use replicated_file_system.Common.{ℕ, ◌≡◌, codes, none, some, false, [], ◌∷◌, ◌++◌, arith}
use replicated_file_system.Protobuf.{Request, Message, request_msg, new_message}
use replicated_file_system.Protobuf.Gzip.{default_compression, compress}
use replicated_file_system.Protobuf.Wire.{new_request_message}
use replicated_file_system.Connection.Frames.{send, recv}
use replicated_file_system.P2p.Host.{Env, ready}
use replicated_file_system.P2p.Host.Machine.{deliver, listen}
use replicated_file_system.P2p.Host.Samples.{
  env, host_b, stored-GzipLaws, only, only-marshals, only-ProtoLaws, a_request, tid,
}
use replicated_file_system.System.Transport.{
  asks, wire_bytes, marshalled, meant, packet, listen-wire_bytes,
}

abbrev writing : Request
writing = record a_request { content = some (104 ∷ 105 ∷ []) }

abbrev sent : Message
sent = record { tid = tid; peer_name = codes "a"; type = request_msg writing }

abbrev env_of_sent : Env ℕ
env_of_sent = record env { proto = only sent }

listen-wire_bytes_example :
    listen env_of_sent ready
      (packet (recv none none ((send none none false (7 ∷ [])).0 ++ (9 ∷ []))))
      host_b
    ≡ deliver env_of_sent (meant tid (codes "a") (asks writing)) host_b
unfolding wire_bytes marshalled new_request_message new_message compress
listen-wire_bytes_example =
    listen-wire_bytes env_of_sent host_b default_compression tid (codes "a") (asks writing) (7 ∷ [])
      (9 ∷ []) stored-GzipLaws (only-ProtoLaws sent) (only-marshals sent) (omega arith)
