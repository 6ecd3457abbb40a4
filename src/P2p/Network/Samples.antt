-- ===== src/P2p/Network/Samples.antt =====
-- Concrete values for the tests of a network: the replicators b and c of the host a, which agree.
use mathlib.Core.List.{Permᴰ}
use replicated_file_system.Common.{ℕ, refl, List, [], ◌∷◌, Text, codes, All, Perm, text_eq}
use replicated_file_system.Common.Dict
use replicated_file_system.Protobuf.{
  Response, ack_response, is_ack, is_nack, get_request, new_message,
}
use replicated_file_system.P2p.Transactions.{put}
use replicated_file_system.P2p.Conflicts.{detect_and_resolve_conflict, check_transaction}
use replicated_file_system.P2p.Responses.Verdict.{HasErrors}
use replicated_file_system.P2p.Host.{Host}
use replicated_file_system.P2p.Host.Steps.{new_host, check_conflict}
use replicated_file_system.P2p.Host.Samples.{a_request, tid, env, peer, host_b}
use replicated_file_system.P2p.Network.{Replica, IsReplica}
use replicated_file_system.P2p.Network.Atomic.{votes_of}

abbrev pub host_c : Host ℕ
host_c = new_host (peer (codes "c")) (peer (codes "a") ∷ peer (codes "b") ∷ []) 0 0

-- b hears c before the request, and c hears b after it.
abbrev pub replica_b : Replica ℕ
replica_b = record {
  env = env;
  host = host_b;
  opinion = ack_response;
  ours = ack_response;
  early = (codes "c", ack_response) ∷ [];
  late = [];
}

abbrev pub replica_c : Replica ℕ
replica_c = record {
  env = env;
  host = host_c;
  opinion = ack_response;
  ours = ack_response;
  early = [];
  late = (codes "b", ack_response) ∷ [];
}

abbrev pub replicas : List (Replica ℕ)
replicas = replica_b ∷ replica_c ∷ []

abbrev pub answers : List (Text × Response)
answers = (codes "b", ack_response) ∷ (codes "c", ack_response) ∷ []

pub two-HasErrors : HasErrors (ack_response ∷ ack_response ∷ [])
unfolding is_nack ack_response
two-HasErrors = ((λ h. cc), ((λ h. cc), tt))

pub same : Perm (ack_response ∷ ack_response ∷ []) (ack_response ∷ ack_response ∷ [])
same = ∣ Permᴰ.cons refl (Permᴰ.cons refl Permᴰ.nil) ∣₁

pub replicas-IsReplica : All (IsReplica tid (codes "a") a_request (votes_of replicas)) replicas
unfolding new_host ack_response is_ack is_nack check_conflict detect_and_resolve_conflict put
    new_message get_request Dict.lookup Dict.insert text_eq check_transaction
replicas-IsReplica =
    ((tt, refl, refl, refl, refl, refl, same), ((tt, refl, refl, refl, refl, refl, same), tt))
