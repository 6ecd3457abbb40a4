-- ===== src/P2p/Host/Verdicts.antt =====
-- p2p/host.go: what handleTransaction and Replicate conclude once all messages have come.
use replicated_file_system.Common.{
  ℕ, suc, ◌+◌, ◌≡◌, ap, ◌∙◌, Bool, false, not, ◌&&◌, Option, none, some, List, [], ◌∷◌, ◌++◌, Text,
  length, any, any-append, if◌then◌else◌, returns, ◌>>=◌, arith,
}
use replicated_file_system.Common.Dict
use replicated_file_system.Errors.{Cause, not_permitted, plain}
use replicated_file_system.Protobuf.{
  Request, Response, Message, is_nack, is_ack, request_msg, new_response_message,
}
use replicated_file_system.Protobuf.Wire.{ok, new_request_message, new_request_message_lem}
use replicated_file_system.P2p.Transactions.{Transaction, put, record_message}
use replicated_file_system.P2p.Conflicts.{increment_clock, detect_and_resolve_conflict}
use replicated_file_system.P2p.Responses.{process_responses}
use replicated_file_system.P2p.Responses.Verdict.{
  HasErrors, is_conflict_nack, is_other_nack, process_responses_lem,
}
use replicated_file_system.P2p.Host.{Env, initiator, handler, Host, broadcasts, handled, replicated}
use replicated_file_system.P2p.Host.Steps.{
  transaction_of, check_conflict, permitted, begin_replicate,
}
use replicated_file_system.P2p.Host.Machine.{deliver_all, leave}
use replicated_file_system.P2p.Host.Collect.{
  NoProcess, put_all, response_messages, gathering, deliver-responses, tid-new_message,
  lookup-put_self,
}
use replicated_file_system.P2p.Host.Commit.{
  responses_of, gathered_messages, transaction_of-put, transaction_of-put_all, transaction_of-fresh,
  leave-gathered, deliver-gathered,
}
use replicated_file_system.P2p.Host.Ending.{
  transaction_of-gathered, closed, request_message, gathered_transactions, end_handler-gathered,
  end_replicate-gathered, no_responses, begin-gathering,
}

-- A vote is an ACK or a NACK.
abbrev pub IsVote : Response → Type 0
IsVote r = is_ack r.type ≡ not (is_nack r)

pub permitted_lem :
    (before after : List Response) (vote : Response)
    → IsVote vote
    → permitted vote.type (before ++ after) ≡ not (any is_nack (before ++ (vote ∷ after)))
unfolding permitted
permitted_lem before after vote v =
    ground (arith, any-append is_nack before after, any-append is_nack before (vote ∷ after))

verdict_flip :
    (a b : Bool)
    → a ≡ not b
    → ◌≡◌ {A = Option Cause}
        (if b then some not_permitted else none)
        (if a then none else some not_permitted)
verdict_flip a b e = ground arith

-- The initiator's verdict on the votes of all replicators is that of each replicator on its own
-- vote and the others': either every vote is an ACK and all go ahead, or all refuse.
agreement :
    (clock : ℕ) (before after : List Response) (vote : Response)
    → IsVote vote
    → HasErrors (before ++ (vote ∷ after))
    → (clock' : ℕ) × (process_responses clock (before ++ (vote ∷ after))
        ≡ returns
            (clock', if permitted vote.type (before ++ after) then none else some not_permitted))
      × (permitted vote.type (before ++ after) ≡ not (any is_nack (before ++ (vote ∷ after))))
agreement clock before after vote v errors =
    let votes = before ++ (vote ∷ after) in
    let same = permitted_lem before after vote v in
    (
      if any is_conflict_nack votes && not (any is_other_nack votes)
          then increment_clock clock
          else clock,
      rw (process_responses_lem clock votes errors)
          (rw (verdict_flip (permitted vote.type (before ++ after)) (any is_nack votes) same)),
      same,
    )

module _ {W : Type 0} (env : Env W) (h : Host W) (tid : Text)
    (alone : NoProcess tid h.processes) where
  -- The handler of a new transaction, with the request and a response of each other replicator
  -- arriving in any order, where Consult returns an opinion and the check for conflicts an answer,
  -- broadcasts that answer, once. At the end it applies the request to the disk if the answer is an
  -- ACK and no response is a NACK, and otherwise returns ErrNotPermitted and leaves the disk alone.
  -- Either way the transaction is deleted, unless applying the request panics.
  pub handler_decides :
      (before after : List (Text × Response)) (name : Text) (request : Request)
      (opinion ours : Response)
      → Dict.lookup tid h.transactions ≡ none
      → length before + suc (length after) ≡ length h.peers
      → env.disk_api.consult h.disk request ≡ returns (some opinion)
      → check_conflict
          (put_all
            (response_messages tid before ++ (request_message tid name request ∷ []))
            h.transactions)
          (request_message tid name request)
          opinion
        ≡ returns ours
      → (h' : Host W) × (deliver_all env
            (gathered_messages tid before (request_message tid name request) after)
            h
          ≡ returns (h', broadcasts (new_response_message tid h.name ours) ∷ []))
        × (leave env tid h' ≡ (
            if permitted ours.type (responses_of before ++ responses_of after)
            then (env.disk_api.mirror h.disk request >>= λ result. returns (
              record (closed h tid
                  (gathered_transactions tid before name request after h.transactions)) {
                    disk = result.0;
                  },
              handled tid result.1 ∷ [],
            ))
            else returns (
              closed h tid (gathered_transactions tid before name request after h.transactions),
              handled tid (some not_permitted) ∷ [],
            )))
  handler_decides before after name request opinion ours fresh count c k =
      let ts = gathered_transactions tid before name request after h.transactions in
      let (asked, said) =
        transaction_of-gathered tid name request before after h.transactions fresh in
      (
        gathering h tid ts (handler ours.type) 0,
        deliver-gathered env h tid alone before after name request opinion ours fresh count c k,
        leave-gathered env h tid alone ts (handler ours.type)
            ∙ end_handler-gathered env h tid alone ts ours.type request
                (responses_of before ++ responses_of after) asked said,
      )

  -- Replicate of a request that NewRequestMessage and Marshal accept, that meets no conflict and is
  -- broadcast to every peer: it waits; the responses, one for each peer, arrive in any order, every
  -- NACK with its error; then it returns nil if none is a NACK and ErrNotPermitted if one is. Its
  -- transaction is deleted, and the conflicts clock goes up by one exactly when it is refused for
  -- conflicts alone.
  pub replicate_decides :
      (request : Request) (message : Message) (rs : List (Text × Response)) {raw : List ℕ}
      → Dict.lookup tid h.transactions ≡ none
      → new_request_message env.gzip env.level tid h.name request ≡ ok message
      → env.proto.marshal message ≡ some raw
      → detect_and_resolve_conflict (put message h.transactions).0 message ≡ returns false
      → length rs ≡ length h.peers
      → HasErrors (responses_of rs)
      → (waiting : Host W) × (done : Host W) × (begin_replicate env tid request none h
          ≡ returns (waiting, broadcasts message ∷ []))
        × (deliver_all env (response_messages tid rs) waiting ≡ returns (done, []))
        × (leave env tid done
            ≡ returns (
              record (closed h tid
                  (put_all (response_messages tid rs) (put message h.transactions).0)) {
                    clock =
                        if any is_conflict_nack (responses_of rs)
                          && not (any is_other_nack (responses_of rs))
                        then increment_clock h.clock
                        else h.clock;
                  },
              replicated tid
                    (if any is_nack (responses_of rs) then some (plain not_permitted) else none)
                  ∷ [],
            ))
  replicate_decides request message rs fresh made encoded calm count errors =
      let (c, e) = new_request_message_lem env.gzip env.level tid h.name request made in
      let sent = record request { content = c } in
      let ts = (put message h.transactions).0 in
      let at : message.tid ≡ tid = ap (λ (m : Message). m.tid) e ∙ tid-new_message tid h.name _ in
      let (_, found) = lookup-put_self tid message h.transactions at in
      let after = put_all (response_messages tid rs) ts in
      let said : (transaction_of tid after).responses ≡ responses_of rs =
        ap (λ (t : Transaction). t.responses) (transaction_of-put_all tid rs ts)
        ∙ ap (λ (t : Transaction). t.responses ++ responses_of rs)
            (ap (λ m. transaction_of tid (put m h.transactions).0) e
              ∙ transaction_of-put tid h.name (request_msg sent) h.transactions
              ∙ ap (record_message (request_msg sent) h.name)
                  (transaction_of-fresh tid h.transactions fresh))
        ∙ no_responses env h tid alone sent (responses_of rs) in
      (
        gathering h tid ts (initiator none) (length h.peers),
        gathering h tid after (initiator none) 0,
        begin-gathering env h tid alone request message made encoded calm
            ∙ ap
                (λ k.
                  returns
                    (gathering h k ts (initiator none) (length h.peers), broadcasts message ∷ []))
                at,
        deliver-responses env h tid alone rs ts (initiator none) 0 (length h.peers) found
            (omega (arith, count)),
        leave-gathered env h tid alone after (initiator none)
            ∙ end_replicate-gathered env h tid alone after (responses_of rs) said errors,
      )
