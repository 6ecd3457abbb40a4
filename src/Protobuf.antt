-- ===== src/Protobuf.antt =====
-- protobuf/message.pb.go (the generated types and getters) and protobuf/message.go (the
-- constructors). An int64 field is kept as its 64-bit pattern, so a cast between int64, uint64 and
-- int leaves the number alone. proto3 enums are open: a number that the schema does not name is kept.
pub mod Gzip
pub mod Wire
pub mod Roundtrip
use replicated_file_system.Common.{
  ℕ, Bool, true, false, Option, none, some, Text, Outcome, returns, panics, ◌>>=◌, deref, List,
}

pub data RequestType : Type 0 where
  create link mkdir rename rmdir setattr symlink unlink write copy_file_range : RequestType
  other_request : ℕ → RequestType

pub data ResponseType : Type 0 where
  ack nack : ResponseType
  other_response : ℕ → ResponseType

pub data ResponseError : Type 0 where
  err_unknown err_already_exists err_does_not_exist err_transaction_conflict : ResponseError
  err_not_a_directory err_not_a_file err_invalid_mode : ResponseError
  other_error : ℕ → ResponseError

pub record Metadata : Type 0 where
  pub relative_path : Text
  pub new_relative_path : Text
  pub mode : ℕ  -- uint32
  pub write_offset : ℕ  -- int64
  pub read_offset : ℕ  -- int64
  pub write_len : ℕ  -- int64

pub record Request : Type 0 where
  pub type : RequestType
  pub metadata : Option Metadata
  pub clock : ℕ  -- uint64
  pub content : Option (List ℕ)

pub record Response : Type 0 where
  pub type : ResponseType
  pub error : Option ResponseError
  pub error_msg : Option Text

-- The oneof: a request, a response, or nothing.
pub data MessageType : Type 0 where
  request_msg : Request → MessageType
  response_msg : Response → MessageType
  unset : MessageType

pub record Message : Type 0 where
  pub tid : Text
  pub peer_name : Text
  pub type : MessageType

request_of : MessageType → Option Request
request_of (request_msg r) = some r
request_of _ = none

response_of : MessageType → Option Response
response_of (response_msg r) = some r
response_of _ = none

unfoldable pub get_request : Message → Option Request
unfolding request_of
get_request m = request_of m.type

unfoldable pub get_response : Message → Option Response
unfolding response_of
get_response m = response_of m.type

-- `GetType` of a nil response is the default, ACK.
unfoldable pub get_type : Option Response → ResponseType
get_type none = ack
get_type (some r) = r.type

unfoldable pub is_nack : Response → Bool
is_nack r = elim r.type [ nack ↦ true | _ ↦ false ]

unfoldable pub is_ack : ResponseType → Bool
is_ack t = elim t [ ack ↦ true | _ ↦ false ]

unfoldable pub ack_response : Response
ack_response = record { type = ack; error = none; error_msg = none }

-- `err.Error()` of a nil error panics.
unfoldable pub nack_response : ResponseError → Option Text → Outcome Response
nack_response resp_err err = deref err >>= λ msg.
    returns (record { type = nack; error = some resp_err; error_msg = some msg })

unfoldable pub new_message : Text → Text → MessageType → Message
new_message tid peer_name type = record { tid = tid; peer_name = peer_name; type = type }

unfoldable pub new_response_message : Text → Text → Response → Message
unfolding new_message
new_response_message tid peer_name r = new_message tid peer_name (response_msg r)
