-- ===== src/P2p/Network/Tests.antt =====
-- The host a, whose replicators b and c both agree.
use replicated_file_system.Common.{◌≡◌, refl, [], ◌∷◌, All, returns, text_eq}
use replicated_file_system.Common.Dict
use replicated_file_system.Protobuf.{get_request, new_message}
use replicated_file_system.Protobuf.Wire.{new_request_message}
use replicated_file_system.P2p.Transactions.{put}
use replicated_file_system.P2p.Conflicts.{detect_and_resolve_conflict, check_transaction}
use replicated_file_system.P2p.Host.{replicated}
use replicated_file_system.P2p.Host.Steps.{new_host}
use replicated_file_system.P2p.Host.Samples.{a_request, a_message, tid, only-marshals, env, host_a}
use replicated_file_system.P2p.Network.{all_agree, commit_result, Follows, initiator_output}
use replicated_file_system.P2p.Network.Atomic.{votes_of, atomic_commit}
use replicated_file_system.P2p.Network.Samples.{
  replicas, answers, two-HasErrors, same, replicas-IsReplica,
}

atomic_commit_example :
    (initiator_output tid host_a.name a_request env host_a answers
      ≡ returns (replicated tid (commit_result (all_agree (votes_of replicas))) ∷ []))
    × All (Follows tid host_a.name a_request (all_agree (votes_of replicas))) replicas
unfolding new_host new_request_message new_message detect_and_resolve_conflict put get_request
    Dict.lookup Dict.insert text_eq check_transaction
atomic_commit_example =
    atomic_commit tid a_request env host_a a_message answers replicas (7 ∷ []) tt refl refl
      (only-marshals a_message) refl refl two-HasErrors same replicas-IsReplica
