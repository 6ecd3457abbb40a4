-- ===== src/Protobuf/Wire.antt =====
-- NewRequestMessage and ReadMessage of protobuf/message.go. proto.Marshal and proto.Unmarshal are
-- the parameter `Proto`.
use replicated_file_system.Common.{
  ℕ, ◌≡◌, refl, ap, ◌∙◌, arith, ◌⊎◌, inl, inr, Option, none, some, List, Text,
}
use replicated_file_system.Protobuf.{Request, Message, MessageType, request_msg, new_message}
use replicated_file_system.Protobuf.Gzip.{
  Gzip, GzipError, Level, bytes, failed, compress, decompress, GzipResult-cases,
}

pub record Proto : Type 0 where
  pub marshal : Message → Option (List ℕ)
  pub unmarshal : List ℕ → Option Message

-- What the protobuf library documents: decoding an encoded message gives the message back.
pub record ProtoLaws (p : Proto) : Type 0 where
  pub decodes : (m : Message) {raw : List ℕ} → p.marshal m ≡ some raw → p.unmarshal raw ≡ some m

pub data WireError : Type 0 where
  compress_failed decompress_failed : GzipError → WireError
  unmarshal_failed : WireError

pub data WireResult {ℓ} (A : Type ℓ) : Type ℓ where
  ok : A → WireResult A
  err : WireError → WireResult A

pub WireResult-cases {ℓ} :
    {A : Type ℓ} (r : WireResult A) → ((a : A) × (r ≡ ok a)) ⊎ ((e : WireError) × (r ≡ err e))
WireResult-cases (ok a) = inl (a, refl)
WireResult-cases (err e) = inr (e, refl)

-- The request with its content replaced, as the source assigns `request.Content` in place.
compress_content : Gzip → Level → Option (List ℕ) → Request → WireResult Request
compress_content z level none request = ok request
compress_content z level (some content) request = elim (compress z level content) [
  | bytes out ↦ ok (record request { content = some out })
  | failed e ↦ err (compress_failed e)
]

with_request : Text → Text → WireResult Request → WireResult Message
with_request tid peer_name (ok request) = ok (new_message tid peer_name (request_msg request))
with_request tid peer_name (err e) = err e

unfoldable pub new_request_message : Gzip → Level → Text → Text → Request → WireResult Message
unfolding compress_content with_request
new_request_message z level tid peer_name request =
    with_request tid peer_name (compress_content z level request.content request)

decompress_content : Gzip → Option (List ℕ) → Request → Message → WireResult Message
decompress_content z none request msg = ok msg
decompress_content z (some content) request msg = elim (decompress z content) [
  | bytes out ↦ ok (record msg { type = request_msg (record request { content = some out }) })
  | failed e ↦ err (decompress_failed e)
]

decode : Gzip → MessageType → Message → WireResult Message
unfolding decompress_content
decode z (request_msg request) msg = decompress_content z request.content request msg
decode z _ msg = ok msg

unfoldable pub read_message : Gzip → Proto → List ℕ → WireResult Message
unfolding decode
read_message z p raw = elim (p.unmarshal raw) [
  | none ↦ err unmarshal_failed
  | some msg ↦ decode z msg.type msg
]

-- The request that is sent differs from the caller's in its content only.
compress_content_lem :
    (z : Gzip) (level : Level) (content : Option (List ℕ)) (request : Request) {sent : Request}
    → request.content ≡ content
    → compress_content z level content request ≡ ok sent
    → (c : Option (List ℕ)) × (sent ≡ record request { content = c })
unfolding compress_content
compress_content_lem z level none request {sent} e h = (none, ground arith)
compress_content_lem z level (some content) request {sent} e h =
    elim (GzipResult-cases (compress z level content)) [
      | inl (out, c) ↦ (some out, ground arith)
      | inr (x, c) ↦ cc (h, c)
    ]

with_request_lem :
    (tid peer_name : Text) (r : WireResult Request) {m : Message}
    → with_request tid peer_name r ≡ ok m
    → (sent : Request) × (r ≡ ok sent) × (m ≡ new_message tid peer_name (request_msg sent))
unfolding with_request
with_request_lem tid peer_name (ok sent) h = (sent, refl, ground arith)
with_request_lem tid peer_name (err e) h = cc

pub new_request_message_lem :
    (z : Gzip) (level : Level) (tid peer_name : Text) (request : Request) {m : Message}
    → new_request_message z level tid peer_name request ≡ ok m
    → (c : Option (List ℕ)) × (m
        ≡ new_message tid peer_name (request_msg (record request { content = c })))
unfolding new_request_message
new_request_message_lem z level tid peer_name request h =
    let (sent, r, e) = with_request_lem tid peer_name _ h in
    let (c, f) = compress_content_lem z level request.content request refl r in
    (c, e ∙ ap (λ s. new_message tid peer_name (request_msg s)) f)
