-- ===== src/Protobuf/Roundtrip.antt =====
-- protobuf/message.go: from NewRequestMessage and NewResponseMessage to ReadMessage.
use replicated_file_system.Common.{ℕ, ◌≡◌, refl, Option, none, some, List, Text, arith, inl, inr}
use replicated_file_system.Protobuf.{
  Request, Response, Message, request_msg, new_message, new_response_message,
}
use replicated_file_system.Protobuf.Gzip.{
  Gzip, GzipLaws, Level, compress, decompress-compress, GzipResult-cases,
}
use replicated_file_system.Protobuf.Wire.{Proto, ProtoLaws, ok, new_request_message, read_message}

module _ (z : Gzip) (p : Proto) (gzip_laws : GzipLaws z) (proto_laws : ProtoLaws p) where
  read-request_cases :
      (level : Level) (tid peer_name : Text) (request : Request) (content : Option (List ℕ))
      → request.content ≡ content
      → {sent : Message} {raw : List ℕ}
      → new_request_message z level tid peer_name request ≡ ok sent
      → p.marshal sent ≡ some raw
      → read_message z p raw ≡ ok (new_message tid peer_name (request_msg request))
  unfolding new_request_message read_message new_message
  read-request_cases level tid peer_name request none e h m = ground (arith, proto_laws.decodes _ m)
  read-request_cases level tid peer_name request (some content) e h m =
      elim (GzipResult-cases (compress z level content)) [
        | inl (out, c) ↦
            ground (arith, proto_laws.decodes _ m, decompress-compress z gzip_laws level content c)
        | inr (x, c) ↦ ground arith
      ]

  -- A request that NewRequestMessage accepts and Marshal encodes is read back by ReadMessage as it
  -- was before its content was compressed, at every compression level.
  pub read-new_request :
      (level : Level) (tid peer_name : Text) (request : Request) {sent : Message} {raw : List ℕ}
      → new_request_message z level tid peer_name request ≡ ok sent
      → p.marshal sent ≡ some raw
      → read_message z p raw ≡ ok (new_message tid peer_name (request_msg request))
  read-new_request level tid peer_name request h m =
      read-request_cases level tid peer_name request request.content refl h m

  -- A response is read back unchanged.
  pub read-new_response :
      (tid peer_name : Text) (response : Response) {raw : List ℕ}
      → p.marshal (new_response_message tid peer_name response) ≡ some raw
      → read_message z p raw ≡ ok (new_response_message tid peer_name response)
  unfolding read_message new_response_message
  read-new_response tid peer_name response m = ground (arith, proto_laws.decodes _ m)
