-- ===== src/System/Operations.antt =====
-- A replicated operation of the file system, on the peer that performs it and on all its replicas.
use replicated_file_system.Common.{
  ℕ, ◌≡◌, refl, ap, ◌∙◌, Bool, true, false, not, ◌&&◌, Option, none, some, List, Text, length, any,
  All, Perm, if◌then◌else◌, Outcome, returns, panics, ◌>>=◌, Bool-cases, inl, inr,
}
use replicated_file_system.Common.Dict
use replicated_file_system.Protobuf.{Request, Response, Message, is_nack}
use replicated_file_system.Protobuf.Wire.{ok, new_request_message}
use replicated_file_system.P2p.Transactions.{put}
use replicated_file_system.P2p.Conflicts.{increment_clock, detect_and_resolve_conflict}
use replicated_file_system.P2p.Responses.Verdict.{HasErrors, is_conflict_nack, is_other_nack}
use replicated_file_system.P2p.Host.{Env, Host}
use replicated_file_system.P2p.Host.Collect.{NoProcess, put_all, response_messages}
use replicated_file_system.P2p.Host.Ending.{closed}
use replicated_file_system.P2p.Host.Commit.{responses_of}
use replicated_file_system.P2p.Host.Verdicts.{replicate_decides}
use replicated_file_system.P2p.Network.{
  Replica, IsReplica, all_agree, commit_result, Follows, any-perm, replicas_commit,
}
use replicated_file_system.P2p.Network.Atomic.{votes_of}
use replicated_file_system.Rfs.{
  eperm, refusal, errno_of_replication, errno_from_cause, replicate, unless_refused,
}
use replicated_file_system.Rfs.Root.{Reply, Loopback}
use replicated_file_system.Rfs.Handlers.{after}
use replicated_file_system.Rfs.Agreement.{Operation, asked, failed, perform}
use replicated_file_system.Rfs.Local.{local, perform-guarded}
use replicated_file_system.System.{call, await, peers_of, on_host, returned, with_disk}
use replicated_file_system.System.Disk.{lifted, local-on_host}

-- What an operation leaves on the disk, and what it returns.
abbrev pub on_disk : {W : Type 0} → Outcome (Host W × Reply) → Outcome (W × Reply)
on_disk m = m >>= λ (h, reply). returns (h.disk, reply)

-- The specification: the local operation exactly if nobody refuses.
abbrev pub agreed_operation : {W : Type 0} → Bool → Loopback W → Operation → W → Outcome (W × Reply)
agreed_operation true sys op disk = local sys op disk
agreed_operation false sys op disk = returns (disk, failed op eperm)

module _ {W : Type 0} (tid : Text) (env : Env W) (h : Host W) where
  call-commit :
      (request : Request) (message : Message) (answers : List (Text × Response))
      (votes : List Response) {raw : List ℕ}
      → NoProcess tid h.processes
      → Dict.lookup tid h.transactions ≡ none
      → new_request_message env.gzip env.level tid h.name request ≡ ok message
      → env.proto.marshal message ≡ some raw
      → detect_and_resolve_conflict (put message h.transactions).0 message ≡ returns false
      → length answers ≡ length h.peers
      → HasErrors (responses_of answers)
      → Perm (responses_of answers) votes
      → (left : Host W) × (left.disk ≡ h.disk)
        × (call env tid none answers h request ≡ returns (left, commit_result (all_agree votes)))
  unfolding call await returned
  call-commit request message answers votes alone fresh made encoded calm count errors perm =
      let (waiting, done, began, gathered, left) =
        replicate_decides env h tid alone request message answers fresh made encoded calm count
          errors in
      let end =
        record (closed h tid
          (put_all (response_messages tid answers) (put message h.transactions).0)) {
            clock =
                if any is_conflict_nack (responses_of answers)
                  && not (any is_other_nack (responses_of answers))
                then increment_clock h.clock
                else h.clock;
          } in
      (
        end,
        refl,
        rw (began, gathered, left, any-perm is_nack (responses_of answers) votes perm)
            (elim (Bool-cases (any is_nack votes)) [ inl e ↦ rw e refl | inr e ↦ rw e refl ]),
      )

module _ {W : Type 0} (env : Env W) (sys : Loopback W) (op : Operation) where
  on_disk-lifted : (h : Host W) (m : Outcome (W × Reply)) → on_disk (lifted sys h m) ≡ m
  unfolding with_disk
  on_disk-lifted h (returns r) = refl
  on_disk-lifted h panics = refl

  -- Behind Replicate, by its verdict.
  after-commit :
      (agree : Bool) (h : Host W)
      → on_disk (
          after
            (failed op)
            (local (on_host sys) op)
            (h, errno_of_replication (commit_result agree)))
        ≡ agreed_operation agree sys op h.disk
  unfolding after errno_of_replication errno_from_cause
  after-commit true h = ap on_disk (local-on_host sys op h) ∙ on_disk-lifted h (local sys op h.disk)
  after-commit false h = refl

-- A replicated operation, under an identifier that no peer knows yet, whose request is agreed to by
-- this peer's own Mirror, is encoded, meets no conflict here and reaches every peer, and replicas that
-- each answer it and hear all the others' answers, every answer an ACK or a NACK that names its
-- error, in any order everywhere: if every answer is an ACK, the handler does its local operation on this peer's disk and returns what that
-- returns, and each replica's disk is what mirroring the request leaves; if one is a NACK, the handler
-- returns EPERM, and neither this peer's disk nor a replica's changes.
pub operation_commits :
    {W : Type 0} (tid : Text) (op : Operation) (sys : Loopback W) (env : Env W) (h : Host W)
    (message : Message) (answers : List (Text × Response)) (replicas : List (Replica W))
    (raw : List ℕ) (opinion : Option Response)
    → env.disk_api.consult h.disk (asked op) ≡ returns opinion
    → refusal opinion ≡ returns none
    → NoProcess tid h.processes
    → Dict.lookup tid h.transactions ≡ none
    → new_request_message env.gzip env.level tid h.name (asked op) ≡ ok message
    → env.proto.marshal message ≡ some raw
    → detect_and_resolve_conflict (put message h.transactions).0 message ≡ returns false
    → length answers ≡ length h.peers
    → HasErrors (responses_of answers)
    → Perm (responses_of answers) (votes_of replicas)
    → All (IsReplica tid h.name (asked op) (votes_of replicas)) replicas
    → (on_disk (perform (peers_of env tid none answers) (on_host sys) op h)
        ≡ agreed_operation (all_agree (votes_of replicas)) sys op h.disk)
      × All (Follows tid h.name (asked op) (all_agree (votes_of replicas))) replicas
unfolding replicate unless_refused peers_of
operation_commits tid op sys env h message answers replicas raw opinion consulted willing alone
      fresh made encoded calm count errors perm all =
    let (left, same, called) =
      call-commit tid env h (asked op) message answers (votes_of replicas) alone fresh made encoded
        calm count errors perm in
    let agree = all_agree (votes_of replicas) in
    (
      ap on_disk (perform-guarded (peers_of env tid none answers) (on_host sys) op h)
          ∙ rw (consulted, willing, called)
              (after-commit env sys op agree left ∙ ap (agreed_operation agree sys op) same),
      replicas_commit tid h.name (asked op) (votes_of replicas) replicas all,
    )
