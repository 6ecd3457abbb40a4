-- ===== src/P2p/Transactions.antt =====
-- p2p/transaction.go. NotifyChan is modelled by the host's processes (P2p/Host): an unbuffered
-- channel holds nothing between two steps. The mutex makes Put and Delete single steps.
pub mod Laws
use replicated_file_system.Common.{Bool, true, false, Option, none, some, List, [], ◌∷◌, ◌++◌, Text}
use replicated_file_system.Common.Dict
use replicated_file_system.Protobuf.{
  Request, Response, Message, MessageType, request_msg, response_msg, unset,
}

pub record Transaction : Type 0 where
  pub tid : Text
  pub initiator_name : Text
  pub request : Option Request
  pub responses : List Response

abbrev pub Transactions : Type 0
Transactions = List (Text × Transaction)

-- &transaction{Tid: tid}
unfoldable pub new_transaction : Text → Transaction
new_transaction tid = record { tid = tid; initiator_name = []; request = none; responses = [] }

-- The type switch of Put.
unfoldable pub record_message : MessageType → Text → Transaction → Transaction
record_message (request_msg r) peer_name t = record t {
  request = some r;
  initiator_name = peer_name;
}
record_message (response_msg r) peer_name t = record t { responses = t.responses ++ (r ∷ []) }
record_message unset peer_name t = t

unfoldable pub is_created : Option Transaction → Bool
is_created none = true
is_created (some t) = false

unfoldable pub found_or_new : Text → Option Transaction → Transaction
unfolding new_transaction
found_or_new tid none = new_transaction tid
found_or_new tid (some t) = t

-- Put gives the map, and whether the transaction was created.
unfoldable pub put : Message → Transactions → Transactions × Bool
unfolding record_message is_created found_or_new
put m ts =
    let found = Dict.lookup m.tid ts in
    (
      Dict.insert m.tid (record_message m.type m.peer_name (found_or_new m.tid found)) ts,
      is_created found,
    )

unfoldable pub delete : Text → Transactions → Transactions
delete tid ts = Dict.delete tid ts
