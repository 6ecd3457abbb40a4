-- ===== src/P2p/Host/Commit.antt =====
-- p2p/host.go: handleTransaction once the request and the other peers' responses have come.
use mathlib.Core.List.{append-nil, append_assoc}
use replicated_file_system.Common.{
  ℕ, suc, ◌+◌, ◌≡◌, refl, subst, ap, ◌∙◌, false, none, some, List, [], ◌∷◌, ◌++◌, map, Text, length,
  text_eq_refl, returns, arith,
}
use replicated_file_system.Common.Dict
use replicated_file_system.Protobuf.{
  Request, Response, ResponseType, Message, MessageType, ack, new_message, request_msg,
  response_msg, new_response_message,
}
use replicated_file_system.P2p.Transactions.{
  Transaction, Transactions, new_transaction, put, record_message, found_or_new,
}
use replicated_file_system.P2p.Transactions.Laws.{lookup-put}
use replicated_file_system.P2p.Host.{Env, Role, handler, gathered, Process, Host, broadcasts}
use replicated_file_system.P2p.Host.Steps.{
  wait_for, is_waiting, transaction_of, check_conflict, answer, end_process,
}
use replicated_file_system.P2p.Host.Machine.{deliver_all, leave}
use replicated_file_system.P2p.Host.Collect.{
  NoProcess, put_all, response_messages, gathering, deliver-fresh, deliver-open, deliver-responses,
  take-response, deliver_all-append, take-request, take-append_last, tid-new_message,
  lookup-put_self,
}

pub transaction_of-put :
    (tid name : Text) (type : MessageType) (ts : Transactions)
    → transaction_of tid (put (new_message tid name type) ts).0
      ≡ record_message type name (transaction_of tid ts)
unfolding transaction_of new_message found_or_new
transaction_of-put tid name type ts =
    rw (lookup-put tid (record { tid = tid; peer_name = name; type = type }) ts)
      (rw (text_eq_refl tid))

abbrev pub responses_of : List (Text × Response) → List Response
responses_of = map λ (x : Text × Response). x.1

-- A transaction with more responses.
abbrev pub extend : Transaction → List Response → Transaction
extend t rs = record t { responses = t.responses ++ rs }

extend-nil : (t : Transaction) → t ≡ extend t []
extend-nil t = simp append-nil

extend-cons :
    (t : Transaction) (name : Text) (r : Response) (rs : List Response)
    → extend (record_message (response_msg r) name t) rs ≡ extend t (r ∷ rs)
unfolding record_message
extend-cons t name r rs = simp append_assoc

pub put_all-append :
    (ms ns : List Message) (ts : Transactions) → put_all (ms ++ ns) ts ≡ put_all ns (put_all ms ts)
put_all-append [] ns ts = refl
put_all-append (m ∷ ms) ns ts = put_all-append ms ns (put m ts).0

lookup-put_all :
    (tid : Text) (rs : List (Text × Response)) (ts : Transactions) {t : Transaction}
    → Dict.lookup tid ts ≡ some t
    → (u : Transaction) × (Dict.lookup tid (put_all (response_messages tid rs) ts) ≡ some u)
lookup-put_all tid [] ts {t} e = (t, e)
lookup-put_all tid ((name, r) ∷ rs) ts e =
    let m = new_message tid name (response_msg r) in
    let (_, found) = lookup-put_self tid m ts (tid-new_message tid name (response_msg r)) in
    lookup-put_all tid rs (put m ts).0 found

pub transaction_of-put_all :
    (tid : Text) (rs : List (Text × Response)) (ts : Transactions)
    → transaction_of tid (put_all (response_messages tid rs) ts)
      ≡ extend (transaction_of tid ts) (responses_of rs)
transaction_of-put_all tid [] ts = extend-nil (transaction_of tid ts)
transaction_of-put_all tid ((name, r) ∷ rs) ts =
    transaction_of-put_all tid rs (put (new_message tid name (response_msg r)) ts).0
    ∙ rw (transaction_of-put tid name (response_msg r) ts)
        (extend-cons (transaction_of tid ts) name r (responses_of rs))

pub transaction_of-fresh :
    (tid : Text) (ts : Transactions)
    → Dict.lookup tid ts ≡ none
    → transaction_of tid ts ≡ new_transaction tid
unfolding transaction_of found_or_new
transaction_of-fresh tid ts e = rw e

-- What the map holds once a transaction's request has come between two batches of responses.
abbrev pub gathered_messages :
    Text → List (Text × Response) → Message → List (Text × Response) → List Message
gathered_messages tid before msg after =
    response_messages tid before ++ (msg ∷ response_messages tid after)

module _ {W : Type 0} (env : Env W) (h : Host W) (tid : Text)
    (alone : NoProcess tid h.processes) where
  -- A process whose loop is over runs to its end with the other processes as they were.
  pub leave-gathered :
      (ts : Transactions) (role : Role)
      → leave env tid (gathering h tid ts role 0)
        ≡ end_process env
            (record { tid = tid; role = role; stage = gathered })
            (record h { transactions = ts })
  unfolding leave wait_for is_waiting
  leave-gathered ts role =
      let p : Process = record { tid = tid; role = role; stage = gathered } in
      rw (take-append_last tid false h.processes p alone refl refl, leave)
        (ap (λ ps. end_process env p (record h { transactions = ts; processes = ps }))
          (append-nil h.processes))

  -- The handler's answer to the request, from its opinion and the conflicts.
  answer_lem :
      (ts : Transactions) (role : Role) (n : ℕ) (msg : Message) (request : Request)
      (opinion : Response) {ours : Response}
      → env.disk_api.consult h.disk request ≡ returns (some opinion)
      → check_conflict ts msg opinion ≡ returns ours
      → answer env msg request (gathering h tid ts role n) ≡ returns ours
  unfolding answer
  answer_lem ts role n msg request opinion c k = rw c k

  -- The request, and then the rest of the responses.
  deliver-request :
      (ts : Transactions) (after : List (Text × Response)) (before_it : ResponseType) (name : Text)
      (request : Request) (opinion ours : Response) {t : Transaction}
      → Dict.lookup tid ts ≡ some t
      → let msg = new_message tid name (request_msg request) in
        env.disk_api.consult h.disk request ≡ returns (some opinion)
        → check_conflict (put msg ts).0 msg opinion ≡ returns ours
        → deliver_all env
            (msg ∷ response_messages tid after)
            (gathering h tid ts (handler before_it) (suc (length after)))
          ≡ returns (
            gathering h tid (put_all (msg ∷ response_messages tid after) ts) (handler ours.type) 0,
            broadcasts (new_response_message tid h.name ours) ∷ [],
          )
  unfolding deliver_all
  deliver-request ts after before_it name request opinion ours found c k =
      let msg = new_message tid name (request_msg request) in
      let at = tid-new_message tid name (request_msg request) in
      let (_, found') = lookup-put_self tid msg ts at in
      let told =
        take-request env h tid alone name request
          (gathering h tid (put msg ts).0 (handler before_it) (suc (length after))) before_it
          (answer_lem (put msg ts).0 (handler before_it) (suc (length after)) msg request opinion c
            k) in
      rw
        (deliver-open env h tid alone msg ts (handler before_it) (handler ours.type) (length after)
          _ at found told)
        (rw (
          deliver-responses env h tid alone after (put msg ts).0 (handler ours.type) 0
            (length after) found' (omega arith)))

  -- Everything that a new transaction's handler waits for arrives, in any order: some responses,
  -- the request, the other responses.
  pub deliver-gathered :
      (before after : List (Text × Response)) (name : Text) (request : Request)
      (opinion ours : Response)
      → Dict.lookup tid h.transactions ≡ none
      → length before + suc (length after) ≡ length h.peers
      → let msg = new_message tid name (request_msg request) in
        env.disk_api.consult h.disk request ≡ returns (some opinion)
        → check_conflict
            (put_all (response_messages tid before ++ (msg ∷ [])) h.transactions)
            msg
            opinion
          ≡ returns ours
        → deliver_all env (gathered_messages tid before msg after) h
          ≡ returns (
            gathering h tid
                (put_all (gathered_messages tid before msg after) h.transactions)
                (handler ours.type)
                0,
            broadcasts (new_response_message tid h.name ours) ∷ [],
          )
  unfolding deliver_all
  deliver-gathered [] after name request opinion ours fresh count c k =
      let msg = new_message tid name (request_msg request) in
      let at = tid-new_message tid name (request_msg request) in
      let ts = (put msg h.transactions).0 in
      let (_, found) = lookup-put_self tid msg h.transactions at in
      let told =
        take-request env h tid alone name request
          (gathering h tid ts (handler ack) (suc (length after))) ack
          (answer_lem ts (handler ack) (suc (length after)) msg request opinion c k) in
      rw
        (deliver-fresh env h tid alone msg (handler ours.type) (length after) _ at fresh
          (omega (arith, count)) told)
        (rw (
          deliver-responses env h tid alone after ts (handler ours.type) 0 (length after) found
            (omega arith)))
  deliver-gathered ((first, r) ∷ before) after name request opinion ours fresh count c k =
      let m = new_message tid first (response_msg r) in
      let at = tid-new_message tid first (response_msg r) in
      let ts = (put m h.transactions).0 in
      let (_, found) = lookup-put_self tid m h.transactions at in
      let (_, found') = lookup-put_all tid before ts found in
      let msg = new_message tid name (request_msg request) in
      let rest = response_messages tid after in
      let earlier = response_messages tid before in
      rw
        (deliver-fresh env h tid alone m (handler ack) (length before + suc (length after)) [] at
          fresh (omega (arith, count)) (take-response env h tid alone first r _ (handler ack)))
        (rw
          (deliver_all-append env earlier (msg ∷ rest)
            (gathering h tid ts (handler ack) (length before + suc (length after))))
          (rw
            (deliver-responses env h tid alone before ts (handler ack) (suc (length after)) _ found
              refl)
            (rw
              (deliver-request (put_all earlier ts) after ack name request opinion ours found' c (
                subst (λ us. check_conflict us msg opinion ≡ returns ours)
                  (put_all-append earlier (msg ∷ []) ts) k))
              (rw (put_all-append earlier (msg ∷ rest) ts)))))
