-- ===== src/P2p/Host/Heard/Tests.antt =====
-- The replicator b hears the request of a and the answer of c, and ends the transaction.
use replicated_file_system.Common.{
  ℕ, ◌≤◌, ◌≡◌, refl, some, List, [], ◌∷◌, Text, codes, length, ◌⊎◌, returns, text_eq,
}
use replicated_file_system.Common.Dict
use replicated_file_system.Protobuf.{
  Message, get_request, is_ack, is_nack, ack_response, response_msg,
}
use replicated_file_system.Protobuf.Gzip.{default_compression}
use replicated_file_system.Protobuf.Wire.{read_message}
use replicated_file_system.P2p.Transactions.{put}
use replicated_file_system.P2p.Conflicts.{detect_and_resolve_conflict, check_transaction}
use replicated_file_system.P2p.Host.{Env, Host, Output, receives, leaves}
use replicated_file_system.P2p.Host.Steps.{new_host, permitted, is_waiting, received}
use replicated_file_system.P2p.Host.Machine.{step}
use replicated_file_system.P2p.Host.Samples.{stored, agreeing, a_message, tid, peer, host_b}
use replicated_file_system.P2p.Host.Changes.{Commits}
use replicated_file_system.P2p.Host.Heard.Complete.{Hears, here, next, heard_after, Hears-Commits}

-- The network carries the request as 7, and the answer of c as nothing.
abbrev decoded : List ℕ → Message
decoded [] = record { tid = tid; peer_name = codes "c"; type = response_msg ack_response }
decoded (b ∷ bytes) = a_message

abbrev env : Env ℕ
env = record {
  disk_api = agreeing;
  gzip = stored;
  level = default_compression;
  proto = record { marshal = λ m. some []; unmarshal = λ raw. some (decoded raw) };
}

abbrev asked :
    (h : Host ℕ) × (out : List Output) × (step env (receives (some (7 ∷ []))) host_b
      ≡ returns (h, out))
unfolding step new_host read_message put Dict.lookup text_eq is_waiting get_request is_ack
    ack_response detect_and_resolve_conflict Dict.insert check_transaction
asked = (_, _, refl)

abbrev answered :
    (h : Host ℕ) × (out : List Output) × (step env (receives (some [])) asked.0 ≡ returns (h, out))
unfolding step new_host read_message put Dict.lookup text_eq is_waiting get_request is_ack
    ack_response detect_and_resolve_conflict Dict.insert check_transaction received
answered = (_, _, refl)

abbrev ended :
    (h : Host ℕ) × (out : List Output) × (step env (leaves tid) answered.0 ≡ returns (h, out))
unfolding step new_host read_message put Dict.lookup text_eq is_waiting get_request is_ack
    ack_response detect_and_resolve_conflict Dict.insert check_transaction received permitted
    is_nack
ended = (_, _, refl)

abbrev heard_twice : Text → ℕ
heard_twice =
    heard_after env (receives (some [])) asked.0
      (heard_after env (receives (some (7 ∷ []))) host_b (λ t. 0))

answered-Hears : Hears env host_b heard_twice answered.0
answered-Hears =
    next (receives (some [])) answered.1 (next (receives (some (7 ∷ []))) asked.1 here tt asked.2)
      tt answered.2

Hears-Commits_example :
    (ended.0.disk ≡ answered.0.disk)
    ⊎ ((t : Text) × (leaves tid ≡ leaves t)
        × Commits env t answered.0 ended.0
        × (length answered.0.peers ≤ heard_twice t))
Hears-Commits_example =
    Hears-Commits env (peer (codes "b")) (peer (codes "a") ∷ peer (codes "c") ∷ []) 0 0 heard_twice
      (leaves tid) answered.0 ended.0 ended.1 answered-Hears ended.2
