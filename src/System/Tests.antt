-- ===== src/System/Tests.antt =====
-- The peer a makes an entry, and both its replicas agree.
use replicated_file_system.Common.{ℕ, returns, ◌≡◌, refl, none, some, [], ◌∷◌, codes, All, text_eq}
use replicated_file_system.Common.Dict
use replicated_file_system.Protobuf.{ack_response, new_message, get_request}
use replicated_file_system.Protobuf.Wire.{new_request_message}
use replicated_file_system.FilePaths.{join}
use replicated_file_system.Connection.Pool.{broadcast}
use replicated_file_system.Connection.Shutdown.Samples.{
  wire, one, shut, shut-Running, last_link, a_peer,
}
use replicated_file_system.P2p.Host.{Host}
use replicated_file_system.System.Closed.{operation_after_close}
use replicated_file_system.P2p.Transactions.{put}
use replicated_file_system.P2p.Conflicts.{detect_and_resolve_conflict, check_transaction}
use replicated_file_system.P2p.Host.Steps.{new_host}
use replicated_file_system.P2p.Host.Samples.{a_message, tid, only-marshals, env, host_a}
use replicated_file_system.P2p.Network.{all_agree, Follows}
use replicated_file_system.P2p.Network.Atomic.{votes_of}
use replicated_file_system.P2p.Network.Samples.{
  replicas, answers, two-HasErrors, same, replicas-IsReplica,
}
use replicated_file_system.Rfs.{refusal, ehostdown}
use replicated_file_system.Rfs.Root.{create_request, request, relative_path}
use replicated_file_system.Rfs.Samples.{counting, at_root}
use replicated_file_system.Rfs.Agreement.{Operation, creates, asked, failed, perform}
use replicated_file_system.System.{peers_of, on_host}
use replicated_file_system.System.Operations.{on_disk, agreed_operation, operation_commits}

-- creat, with mode 0644.
abbrev new_file : Operation
new_file = creates at_root (codes "notes") 65 420

operation_commits_example :
    (on_disk (perform (peers_of env tid none answers) (on_host counting) new_file host_a)
      ≡ agreed_operation (all_agree (votes_of replicas)) counting new_file host_a.disk)
    × All (Follows tid host_a.name (asked new_file) (all_agree (votes_of replicas))) replicas
unfolding new_host new_request_message new_message detect_and_resolve_conflict put get_request
    Dict.lookup Dict.insert text_eq check_transaction refusal ack_response create_request request
    relative_path join
operation_commits_example =
    operation_commits tid new_file counting env host_a a_message answers replicas (7 ∷ [])
      (some ack_response) refl refl tt refl refl (only-marshals a_message) refl refl two-HasErrors
      same replicas-IsReplica

operation_after_close_example :
    (h' : Host ℕ) × (h'.disk ≡ host_a.disk)
    × (perform (peers_of env tid (broadcast wire shut.pool).1 []) (on_host counting) new_file host_a
        ≡ returns (h', failed new_file ehostdown))
unfolding new_host new_request_message new_message detect_and_resolve_conflict put get_request
    Dict.lookup Dict.insert text_eq check_transaction refusal ack_response create_request request
    relative_path join
operation_after_close_example =
    operation_after_close tid new_file counting env host_a a_message [] (7 ∷ []) (some ack_response)
      one wire shut none refl refl refl (only-marshals a_message) refl shut-Running refl
      (a_peer last_link [])
