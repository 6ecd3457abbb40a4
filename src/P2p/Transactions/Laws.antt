-- ===== src/P2p/Transactions/Laws.antt =====
-- p2p/transaction.go: Put and Delete on the transactions of the map.
use replicated_file_system.Common.{◌≡◌, none, some, Text, text_eq, if◌then◌else◌}
use replicated_file_system.Common.Dict
use replicated_file_system.Protobuf.{Message}
use replicated_file_system.P2p.Transactions.{
  Transactions, put, delete, record_message, found_or_new,
}

pub lookup-put :
    (tid : Text) (m : Message) (ts : Transactions)
    → Dict.lookup tid (put m ts).0 ≡ (
        if text_eq m.tid tid
        then some (record_message m.type m.peer_name (found_or_new m.tid (Dict.lookup m.tid ts)))
        else Dict.lookup tid ts)
unfolding put
lookup-put tid m ts = Dict.lookup-insert tid m.tid _ ts

pub lookup-delete :
    (tid k : Text) (ts : Transactions)
    → Dict.lookup k (delete tid ts) ≡ (if text_eq tid k then none else Dict.lookup k ts)
unfolding delete
lookup-delete tid k ts = Dict.lookup-delete k tid ts
