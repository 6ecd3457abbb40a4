-- ===== src/P2p/Network.antt =====
-- p2p/host.go on all hosts of a network: one call of Replicate and the handlers of its request on the
-- other peers, against the atomic commit that they are to implement.
pub mod Atomic
pub mod Crossing
pub mod Samples
mod Tests
use mathlib.Core.List.{Permᴰ}
use mathlib.Core.Logic.{∥∥₁_elim}
use replicated_file_system.Common.{
  ℕ, suc, ◌+◌, ◌≡◌, refl, sym, ◌∙◌, ap, Bool, true, false, not, ◌&&◌, ◌||◌, Option, none, some,
  List, [], ◌∷◌, ◌++◌, Text, length, map, any, any-append, All, Perm, if◌then◌else◌, Outcome,
  returns, ◌>>=◌, Outcome-cases, arith, Bool-cases, inl, inr,
}
use replicated_file_system.Common.Dict
use replicated_file_system.Errors.{Cause, Err, plain, not_permitted}
use replicated_file_system.Protobuf.{Request, Response, Message, is_nack, new_response_message}
use replicated_file_system.Protobuf.Wire.{ok, new_request_message}
use replicated_file_system.P2p.Transactions.{put}
use replicated_file_system.P2p.Conflicts.{detect_and_resolve_conflict}
use replicated_file_system.P2p.Responses.Verdict.{HasErrors}
use replicated_file_system.P2p.Host.{Env, Host, Output, broadcasts, replicated}
use replicated_file_system.P2p.Host.Steps.{check_conflict, permitted, begin_replicate}
use replicated_file_system.P2p.Host.Machine.{deliver_all, leave}
use replicated_file_system.P2p.Host.Collect.{NoProcess, put_all, response_messages}
use replicated_file_system.P2p.Host.Commit.{responses_of, gathered_messages}
use replicated_file_system.P2p.Host.Ending.{request_message}
use replicated_file_system.P2p.Host.Verdicts.{
  IsVote, permitted_lem, handler_decides, replicate_decides,
}

-- The specification: all go ahead exactly if nobody refuses.
abbrev pub all_agree : List Response → Bool
all_agree votes = not (any is_nack votes)

abbrev pub commit_disk : {W : Type 0} → Bool → Env W → Request → W → Outcome W
commit_disk true env request disk = env.disk_api.mirror disk request >>= λ result. returns result.0
commit_disk false env request disk = returns disk

abbrev pub commit_result : Bool → Option Err
commit_result true = none
commit_result false = some (plain not_permitted)

-- A peer that replicates: its host, what Consult says there, its checked answer, and the other
-- answers that arrive before and after the request.
pub record Replica (W : Type 0) : Type 1 where
  pub env : Env W
  pub host : Host W
  pub opinion : Response
  pub ours : Response
  pub early : List (Text × Response)
  pub late : List (Text × Response)

swap_or : (a b c : Bool) → (a || (b || c)) ≡ (b || (a || c))
swap_or a b c = ground arith

any-permᴰ : (p : Response → Bool) {xs ys : List Response} → Permᴰ xs ys → any p xs ≡ any p ys
any-permᴰ p Permᴰ.nil = refl
any-permᴰ p (Permᴰ.cons {a} {b} e r) = rw (e, any-permᴰ p r) refl
any-permᴰ p (Permᴰ.swap {a} {b} {a'} {b'} {l} e f) = rw (e, f) (swap_or (p b') (p a') (any p l))
any-permᴰ p (Permᴰ.trans r s) = any-permᴰ p r ∙ any-permᴰ p s

Bool-set : IsSet Bool
Bool-set = hlevel

pub any-perm : (p : Response → Bool) (xs ys : List Response) → Perm xs ys → any p xs ≡ any p ys
any-perm p xs ys perm = ∥∥₁_elim perm (Bool-set _ _) λ r. any-permᴰ p r

any-middle :
    (p : Response → Bool) (xs : List Response) (y : Response) (zs : List Response)
    → any p (xs ++ (y ∷ zs)) ≡ any p (y ∷ (xs ++ zs))
any-middle p xs y zs = ground (arith, any-append p xs (y ∷ zs), any-append p xs zs)

module _ {W : Type 0} (tid name : Text) (request : Request) where
  -- The disk of a replica after it has handled the request and the answers.
  abbrev pub replica_disk : Replica W → Outcome W
  replica_disk r =
      deliver_all r.env (gathered_messages tid r.early (request_message tid name request) r.late)
        r.host
      >>= λ (done, out). leave r.env tid done >>= λ (left, out'). returns left.disk

  -- What it broadcasts on the way.
  abbrev pub replica_answers : Replica W → Outcome (List Output)
  replica_answers r =
      deliver_all r.env (gathered_messages tid r.early (request_message tid name request) r.late)
        r.host
      >>= λ (done, out). returns out

  -- It broadcasts its answer, once, and its disk is that of the commit.
  abbrev pub Follows : Bool → Replica W → Type 0
  Follows commit r =
      (replica_answers r ≡ returns (broadcasts (new_response_message tid r.host.name r.ours) ∷ []))
      × (replica_disk r ≡ commit_disk commit r.env request r.host.disk)

  -- A replica that does not know the transaction, answers it, and hears the answers of all the
  -- others, in any order.
  abbrev pub IsReplica : List Response → Replica W → Type 0
  IsReplica votes r =
      NoProcess tid r.host.processes
      × (Dict.lookup tid r.host.transactions ≡ none)
      × (length r.early + suc (length r.late) ≡ length r.host.peers)
      × (r.env.disk_api.consult r.host.disk request ≡ returns (some r.opinion))
      × (check_conflict
            (put_all (response_messages tid r.early ++ (request_message tid name request ∷ []))
              r.host.transactions)
            (request_message tid name request) r.opinion
          ≡ returns r.ours)
      × IsVote r.ours
      × Perm (r.ours ∷ (responses_of r.early ++ responses_of r.late)) votes

  -- What Replicate returns, after the answers.
  abbrev pub initiator_output : Env W → Host W → List (Text × Response) → Outcome (List Output)
  initiator_output env h answers = begin_replicate env tid request none h >>= λ (waiting, out).
      deliver_all env (response_messages tid answers) waiting >>= λ (done, out').
      leave env tid done >>= λ (left, out''). returns out''

  permitted-all_agree :
      (votes : List Response) (r : Replica W)
      → IsVote r.ours
      → Perm (r.ours ∷ (responses_of r.early ++ responses_of r.late)) votes
      → permitted r.ours.type (responses_of r.early ++ responses_of r.late) ≡ all_agree votes
  permitted-all_agree votes r v perm =
      permitted_lem (responses_of r.early) (responses_of r.late) r.ours v
      ∙ ap not (
          any-middle is_nack (responses_of r.early) r.ours (responses_of r.late)
          ∙ any-perm is_nack _ votes perm)

  replica-commit :
      (votes : List Response) (r : Replica W) → IsReplica votes r → Follows (all_agree votes) r
  replica-commit votes r (alone, fresh, count, consulted, checked, v, perm) =
      let (done, delivered, left) =
        handler_decides r.env r.host tid alone r.early r.late name request r.opinion r.ours fresh
          count consulted checked in
      let verdict = permitted-all_agree votes r v perm in
      (
        rw delivered refl,
        elim (Bool-cases (all_agree votes)) [
          | inl e ↦
              rw (delivered, left, verdict, e)
                (elim (Outcome-cases (r.env.disk_api.mirror r.host.disk request)) [
                  | inl f ↦ rw f refl
                  | inr (result, f) ↦ rw f refl
                ])
          | inr e ↦ rw (delivered, left, verdict, e) refl
        ],
      )

  pub replicas_commit :
      (votes : List Response) (rs : List (Replica W))
      → All (IsReplica votes) rs
      → All (Follows (all_agree votes)) rs
  replicas_commit votes [] h = tt
  replicas_commit votes (r ∷ rs) (v, h) = (replica-commit votes r v, replicas_commit votes rs h)

  pub initiator_commit :
      (env : Env W) (h : Host W) (message : Message) (answers : List (Text × Response))
      (votes : List Response) {raw : List ℕ}
      → NoProcess tid h.processes
      → Dict.lookup tid h.transactions ≡ none
      → new_request_message env.gzip env.level tid h.name request ≡ ok message
      → env.proto.marshal message ≡ some raw
      → detect_and_resolve_conflict (put message h.transactions).0 message ≡ returns false
      → length answers ≡ length h.peers
      → HasErrors (responses_of answers)
      → Perm (responses_of answers) votes
      → initiator_output env h answers
        ≡ returns (replicated tid (commit_result (all_agree votes)) ∷ [])
  initiator_commit env h message answers votes alone fresh made encoded calm count errors perm =
      let (waiting, done, began, gathered, left) =
        replicate_decides env h tid alone request message answers fresh made encoded calm count
          errors in
      rw (began, gathered, left, any-perm is_nack (responses_of answers) votes perm)
        (elim (Bool-cases (any is_nack votes)) [ inl e ↦ rw e refl | inr e ↦ rw e refl ])
