-- ===== src/P2p/Host/Stray.antt =====
-- p2p/host.go: responses to a transaction that the host does not have, and requests on which
-- Consult returns nil.
use replicated_file_system.Common.{
  ℕ, suc, ◌≡◌, refl, sym, subst, ap, ◌∙◌, true, false, none, List, [], ◌∷◌, ◌++◌, Text, length, any,
  returns, panics, arith,
}
use replicated_file_system.Common.Dict
use replicated_file_system.Protobuf.{
  Request, Response, ResponseType, Message, ack, is_ack, is_nack, get_request, new_message,
  request_msg, response_msg,
}
use replicated_file_system.P2p.Transactions.{Transaction, Transactions, put, new_transaction}
use replicated_file_system.P2p.Host.{Env, Role, handler, gathered, Host}
use replicated_file_system.P2p.Host.Steps.{
  wait_for, is_waiting, transaction_of, permitted, answer, take_message, end_process, end_handler,
}
use replicated_file_system.P2p.Host.Machine.{notify, deliver, deliver_all, leave}
use replicated_file_system.P2p.Host.Collect.{
  NoProcess, response_messages, gathering, put_all, deliver-fresh, deliver-responses, take-response,
  tid-new_message, lookup-put_self, take-append_last, put_and_spawn-fresh,
}
use replicated_file_system.P2p.Host.Commit.{
  responses_of, transaction_of-put_all, transaction_of-fresh, leave-gathered,
}
use replicated_file_system.P2p.Host.Ending.{request_message}

stray_fields :
    (tid : Text) (rs : List Response) (t : Transaction)
    → t ≡ record (new_transaction tid) { responses = (new_transaction tid).responses ++ rs }
    → any is_nack rs ≡ false
    → (t.request ≡ none) × (any is_nack t.responses ≡ false)
unfolding new_transaction
stray_fields tid rs t e n =
    (ap (λ (u : Transaction). u.request) e, ap (λ (u : Transaction). any is_nack u.responses) e ∙ n)

module _ {W : Type 0} (env : Env W) (h : Host W) (tid : Text)
    (alone : NoProcess tid h.processes) where
  end_handler-stray :
      (ts : Transactions)
      → (transaction_of tid ts).request ≡ none
      → any is_nack (transaction_of tid ts).responses ≡ false
      → end_process env
          (record { tid = tid; role = handler ack; stage = gathered })
          (record h { transactions = ts })
        ≡ panics
  unfolding end_process end_handler permitted is_ack
  end_handler-stray ts unasked said = rw (said, unasked)

  -- Responses without their request, one for each peer and none a NACK, come for a transaction that
  -- the host does not have (one that it initiated, and dropped when its context ended). It takes
  -- them for a new transaction, whose handler finds itself permitted and calls Mirror on a nil
  -- request: the process panics.
  pub stray_responses_panic :
      (first : Text) (r : Response) (rs : List (Text × Response))
      → Dict.lookup tid h.transactions ≡ none
      → suc (length rs) ≡ length h.peers
      → any is_nack (r ∷ responses_of rs) ≡ false
      → (h' : Host W) × (deliver_all env (response_messages tid ((first, r) ∷ rs)) h
          ≡ returns (h', []))
        × (leave env tid h' ≡ panics)
  unfolding deliver_all
  stray_responses_panic first r rs fresh count none_nack =
      let m = new_message tid first (response_msg r) in
      let at = tid-new_message tid first (response_msg r) in
      let ts = (put m h.transactions).0 in
      let after = put_all (response_messages tid rs) ts in
      let (_, found) = lookup-put_self tid m h.transactions at in
      let said =
        transaction_of-put_all tid ((first, r) ∷ rs) h.transactions
        ∙ ap (λ (t : Transaction). record t { responses = t.responses ++ (r ∷ responses_of rs) })
            (transaction_of-fresh tid h.transactions fresh) in
      let fields = stray_fields tid (r ∷ responses_of rs) _ said none_nack in
      (
        gathering h tid after (handler ack) 0,
        rw
            (deliver-fresh env h tid alone m (handler ack) (length rs) [] at fresh
              (omega (arith, count)) (take-response env h tid alone first r _ (handler ack)))
            (rw (
              deliver-responses env h tid alone rs ts (handler ack) 0 (length rs) found
                (omega arith))),
        leave-gathered env h tid alone after (handler ack)
            ∙ end_handler-stray after fields.0 fields.1,
      )

  take-nil_opinion :
      (name : Text) (request : Request) (k : Host W) (ours : ResponseType)
      → env.disk_api.consult k.disk request ≡ returns none
      → take_message env (request_message tid name request) k (handler ours) ≡ panics
  unfolding take_message answer new_message get_request
  take-nil_opinion name request k ours e = rw e

  notify-panics :
      (m : Message) (ts : Transactions) (role : Role) (n : ℕ)
      → m.tid ≡ tid
      → take_message env m (gathering h tid ts role (suc n)) role ≡ panics
      → notify env m (gathering h tid ts role (suc n)) ≡ panics
  unfolding notify is_waiting wait_for
  notify-panics m ts role n e t = ground (
    arith,
    take-append_last m.tid true h.processes
        (record { tid = tid; role = role; stage = wait_for (suc n) })
        (subst (λ x. NoProcess x h.processes) (sym e) alone) (sym e) refl,
    t,
  )

  -- A new request on which Consult returns nil panics in its handler, on every host with a peer.
  pub nil_opinion_panics :
      (name : Text) (request : Request) (n : ℕ)
      → Dict.lookup tid h.transactions ≡ none
      → length h.peers ≡ suc n
      → env.disk_api.consult h.disk request ≡ returns none
      → deliver env (request_message tid name request) h ≡ panics
  unfolding deliver
  nil_opinion_panics name request n fresh count e =
      let m = request_message tid name request in
      let at = tid-new_message tid name (request_msg request) in
      let ts = (put m h.transactions).0 in
      rw (put_and_spawn-fresh env h tid alone m at fresh, count)
        (notify-panics m ts (handler ack) n at
          (take-nil_opinion name request (gathering h tid ts (handler ack) (suc n)) ack e))
