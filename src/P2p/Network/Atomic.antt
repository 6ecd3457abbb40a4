-- ===== src/P2p/Network/Atomic.antt =====
-- p2p/host.go: a replicated operation is an atomic commit.
use replicated_file_system.Common.{
  ℕ, ◌≡◌, false, none, some, List, [], ◌∷◌, Text, length, map, All, Perm, returns,
}
use replicated_file_system.Common.Dict
use replicated_file_system.Protobuf.{Request, Response, Message}
use replicated_file_system.Protobuf.Wire.{ok, new_request_message}
use replicated_file_system.P2p.Transactions.{put}
use replicated_file_system.P2p.Conflicts.{detect_and_resolve_conflict}
use replicated_file_system.P2p.Responses.Verdict.{HasErrors}
use replicated_file_system.P2p.Host.{Env, Host, replicated}
use replicated_file_system.P2p.Host.Collect.{NoProcess}
use replicated_file_system.P2p.Host.Commit.{responses_of}
use replicated_file_system.P2p.Network.{
  Replica, IsReplica, all_agree, commit_result, Follows, initiator_output, replicas_commit,
  initiator_commit,
}

abbrev pub votes_of : {W : Type 0} → List (Replica W) → List Response
votes_of rs = map (λ r. r.ours) rs

-- A request under an identifier that no peer knows yet, that the initiator encodes, that meets no
-- conflict there and reaches every peer, and replicas that each answer it and hear all the others'
-- answers, every answer an ACK or a NACK that names its error, in any order everywhere: each replica
-- broadcasts its answer, once, and Replicate and every handler conclude the same. Either every answer is an ACK, Replicate returns nil, and each
-- replica's disk is what mirroring the request leaves; or one is a NACK, Replicate returns
-- ErrNotPermitted, and no replica's disk changes.
pub atomic_commit :
    {W : Type 0} (tid : Text) (request : Request) (env : Env W) (h : Host W) (message : Message)
    (answers : List (Text × Response)) (replicas : List (Replica W)) (raw : List ℕ)
    → NoProcess tid h.processes
    → Dict.lookup tid h.transactions ≡ none
    → new_request_message env.gzip env.level tid h.name request ≡ ok message
    → env.proto.marshal message ≡ some raw
    → detect_and_resolve_conflict (put message h.transactions).0 message ≡ returns false
    → length answers ≡ length h.peers
    → HasErrors (responses_of answers)
    → Perm (responses_of answers) (votes_of replicas)
    → All (IsReplica tid h.name request (votes_of replicas)) replicas
    → (initiator_output tid h.name request env h answers
        ≡ returns (replicated tid (commit_result (all_agree (votes_of replicas))) ∷ []))
      × All (Follows tid h.name request (all_agree (votes_of replicas))) replicas
atomic_commit tid request env h message answers replicas raw alone fresh made encoded calm count
      errors perm all =
    (
      initiator_commit tid h.name request env h message answers (votes_of replicas) alone fresh made
          encoded calm count errors perm,
      replicas_commit tid h.name request (votes_of replicas) replicas all,
    )
