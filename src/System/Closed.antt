-- ===== src/System/Closed.antt =====
-- The operations of the file system between Close of the host and the unmounting (main.go).
use replicated_file_system.Common.{
  ℕ, ◌≡◌, ◌≢◌, refl, ◌∙◌, false, Option, none, some, List, [], Text, returns,
}
use replicated_file_system.Errors.{Cause, Err, plain, peer_is_down}
use replicated_file_system.Protobuf.{Request, Response, Message}
use replicated_file_system.Protobuf.Wire.{ok, new_request_message}
use replicated_file_system.Connection.Link.{Failure}
use replicated_file_system.Connection.Pool.{broadcast}
use replicated_file_system.Connection.Shutdown.{Node, ended}
use replicated_file_system.Connection.Shutdown.Running.{Running}
use replicated_file_system.Connection.Shutdown.Refusal.{closed-peer_is_down}
use replicated_file_system.P2p.Transactions.{put, delete}
use replicated_file_system.P2p.Conflicts.{detect_and_resolve_conflict}
use replicated_file_system.P2p.Host.{Env, Host}
use replicated_file_system.P2p.Host.Steps.{
  begin_replicate, begin_message, send_request, after_broadcast, return_from,
}
use replicated_file_system.Rfs.{
  ehostdown, refusal, errno_of_replication, errno_from_cause, replicate, unless_refused,
}
use replicated_file_system.Rfs.Root.{Loopback}
use replicated_file_system.Rfs.Handlers.{after}
use replicated_file_system.Rfs.Agreement.{Operation, asked, failed, perform}
use replicated_file_system.Rfs.Local.{perform-guarded}
use replicated_file_system.System.{call, await, peers_of, on_host, returned}

-- The host once Replicate has returned.
abbrev pub dropped : {W : Type 0} → Message → Host W → Host W
dropped message h = record h { transactions = delete message.tid (put message h.transactions).0 }

module _ {W : Type 0} (env : Env W) (tid : Text) (request : Request) (h : Host W)
    (message : Message) where
  call-refused :
      (c : Cause) (answers : List (Text × Response)) {raw : List ℕ}
      → new_request_message env.gzip env.level tid h.name request ≡ ok message
      → env.proto.marshal message ≡ some raw
      → detect_and_resolve_conflict (put message h.transactions).0 message ≡ returns false
      → call env tid (some (plain c)) answers h request
        ≡ returns (dropped message h, some (plain c))
  unfolding call await returned begin_replicate begin_message send_request after_broadcast
      return_from
  call-refused c answers made encoded calm =
      rw (made, begin_replicate, calm, begin_message, encoded, send_request) refl

-- Once Close has returned on a pool that has a peer, a replicated operation that this peer's own Mirror
-- agrees to, that is encoded and meets no conflict, returns EHOSTDOWN and leaves the disk as it is,
-- whatever the network does.
pub operation_after_close :
    {W : Type 0} (tid : Text) (op : Operation) (sys : Loopback W) (env : Env W) (h : Host W)
    (message : Message) (answers : List (Text × Response)) (raw : List ℕ)
    (opinion : Option Response) (names : List Text) (wire : Text → Option Failure) (n : Node)
    (e : Option Err)
    → env.disk_api.consult h.disk (asked op) ≡ returns opinion
    → refusal opinion ≡ returns none
    → new_request_message env.gzip env.level tid h.name (asked op) ≡ ok message
    → env.proto.marshal message ≡ some raw
    → detect_and_resolve_conflict (put message h.transactions).0 message ≡ returns false
    → Running names n
    → n.closing ≡ ended e
    → n.pool.links ≢ []
    → (h' : Host W) × (h'.disk ≡ h.disk)
      × (perform (peers_of env tid (broadcast wire n.pool).1 answers) (on_host sys) op h
          ≡ returns (h', failed op ehostdown))
unfolding replicate unless_refused peers_of after errno_of_replication errno_from_cause
operation_after_close tid op sys env h message answers raw opinion names wire n e consulted willing
      made encoded calm running over some_peer =
    (
      dropped message h,
      refl,
      perform-guarded (peers_of env tid (broadcast wire n.pool).1 answers) (on_host sys) op h
          ∙ rw
              (
                consulted,
                willing,
                closed-peer_is_down names wire n e running over some_peer,
                call-refused env tid (asked op) h message peer_is_down answers made encoded calm,
              )
              refl,
    )
