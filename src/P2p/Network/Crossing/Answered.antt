-- ===== src/P2p/Network/Crossing/Answered.antt =====
-- p2p/host.go: Replicate, once the answer to its own request has come.
use replicated_file_system.Common.{
  ℕ, ◌≡◌, refl, ap, ◌∙◌, false, not, Option, none, List, [], ◌∷◌, ◌++◌, Text, text_eq, returns,
  Bool-cases, inl, inr,
}
use replicated_file_system.Common.Dict
use replicated_file_system.Config.{Peer}
use replicated_file_system.Protobuf.{
  Request, Response, is_nack, new_message, request_msg, new_response_message,
}
use replicated_file_system.P2p.Transactions.{Transaction, put, found_or_new, record_message}
use replicated_file_system.P2p.Transactions.Laws.{lookup-put, lookup-delete}
use replicated_file_system.P2p.Responses.Verdict.{HasErrors}
use replicated_file_system.P2p.Host.{Env, Host, initiator, replicated}
use replicated_file_system.P2p.Host.Steps.{transaction_of}
use replicated_file_system.P2p.Host.Collect.{
  put_all, response_messages, deliver-responses, lookup-put_self,
}
use replicated_file_system.P2p.Host.Commit.{
  leave-gathered, responses_of, transaction_of-put, transaction_of-put_all, transaction_of-fresh,
}
use replicated_file_system.P2p.Host.Ending.{request_message, end_replicate-gathered, no_responses}
use replicated_file_system.P2p.Network.{commit_result}
use replicated_file_system.P2p.Network.Crossing.{idle, conclude, own, behind_handler, awaiting}

module _ {W : Type 0} (env : Env W) (h : Host W) (peer : Peer) (tid tid' name' : Text)
    (request request' : Request) (content : Option (List ℕ)) where
  -- The handler of the other's request has left the own transaction as it was.
  lookup-behind_handler :
      text_eq tid' tid ≡ false
      → Dict.lookup tid (behind_handler tid h.name request content tid' name' request')
        ≡ Dict.lookup tid (put (own tid h.name request content) []).0
  unfolding new_message
  lookup-behind_handler apart =
      let ts = (put (own tid h.name request content) []).0 in
      lookup-delete tid' tid (put (request_message tid' name' request') ts).0
      ∙ rw apart (lookup-put tid (request_message tid' name' request') ts ∙ rw apart refl)

  responses-behind_handler :
      (rs : List (Text × Response))
      → text_eq tid' tid ≡ false
      → (transaction_of tid (
          put_all
            (response_messages tid rs)
            (behind_handler tid h.name request content tid' name' request'))).responses
        ≡ responses_of rs
  unfolding transaction_of Dict.lookup
  responses-behind_handler rs apart =
      let ts = behind_handler tid h.name request content tid' name' request' in
      let sent = record request { content = content } in
      ap (λ (t : Transaction). t.responses) (transaction_of-put_all tid rs ts)
      ∙ ap (λ (t : Transaction). t.responses ++ responses_of rs)
          (ap (found_or_new tid) (lookup-behind_handler apart)
            ∙ transaction_of-put tid h.name (request_msg sent) []
            ∙ ap (record_message (request_msg sent) h.name) (transaction_of-fresh tid [] refl))
      ∙ no_responses env (idle h peer) tid tt sent (responses_of rs)

  pub conclude_lem :
      (disk : W) (r : Response)
      → text_eq tid' tid ≡ false
      → HasErrors (r ∷ [])
      → conclude env tid
          (new_response_message tid name' r ∷ [])
          (awaiting env h peer tid tid' name' request request' content disk)
        ≡ returns (disk, replicated tid (commit_result (not (is_nack r))) ∷ [])
  unfolding new_message new_response_message
  conclude_lem disk r apart errors =
      let k = record (idle h peer) { disk = disk } in
      let ts = behind_handler tid h.name request content tid' name' request' in
      let (t, found) = lookup-put_self tid (own tid h.name request content) [] refl in
      let ts' = put_all (response_messages tid ((name', r) ∷ [])) ts in
      rw
        (
          deliver-responses env k tid tt ((name', r) ∷ []) ts (initiator none) 0 1
              (lookup-behind_handler apart ∙ found) refl,
          leave-gathered env k tid tt ts' (initiator none),
          end_replicate-gathered env k tid tt ts' (r ∷ [])
              (responses-behind_handler ((name', r) ∷ []) apart) errors,
        )
        (elim (Bool-cases (is_nack r)) [ inl e ↦ rw e refl | inr e ↦ rw e refl ])
