-- ===== src/P2p/Host/Ending.antt =====
-- p2p/host.go: the ends of handleTransaction and of Replicate, and the beginning of the latter.
use replicated_file_system.Common.{
  ℕ, ◌≡◌, refl, false, not, ◌&&◌, none, some, List, [], ◌∷◌, ◌++◌, Text, length, any, if◌then◌else◌,
  returns, ◌>>=◌, Bool-cases, inl, inr,
}
use replicated_file_system.Common.Dict
use replicated_file_system.Errors.{not_permitted, plain}
use replicated_file_system.Protobuf.{
  Request, Response, ResponseType, Message, is_nack, new_message, request_msg,
}
use replicated_file_system.Protobuf.Wire.{ok, new_request_message}
use replicated_file_system.P2p.Transactions.{
  Transactions, new_transaction, put, delete, record_message,
}
use replicated_file_system.P2p.Conflicts.{increment_clock, detect_and_resolve_conflict}
use replicated_file_system.P2p.Responses.Verdict.{
  HasErrors, is_conflict_nack, is_other_nack, process_responses_lem,
}
use replicated_file_system.P2p.Host.{
  Env, initiator, handler, gathered, Host, broadcasts, handled, replicated,
}
use replicated_file_system.P2p.Host.Steps.{
  transaction_of, permitted, end_handler, end_replicate, end_process, return_from, send_request,
  begin_replicate,
}
use replicated_file_system.P2p.Host.Collect.{NoProcess, put_all, response_messages, gathering}
use replicated_file_system.P2p.Host.Commit.{
  responses_of, gathered_messages, transaction_of-put, transaction_of-put_all, transaction_of-fresh,
  put_all-append,
}

-- The transaction once everything has come.
pub transaction_of-gathered :
    (tid name : Text) (request : Request) (before after : List (Text × Response))
    (ts : Transactions)
    → Dict.lookup tid ts ≡ none
    → let msg = new_message tid name (request_msg request) in
      let t = transaction_of tid (put_all (gathered_messages tid before msg after) ts) in
      (t.request ≡ some request) × (t.responses ≡ responses_of before ++ responses_of after)
unfolding record_message new_transaction
transaction_of-gathered tid name request before after ts fresh =
    let msg = new_message tid name (request_msg request) in
    rw (put_all-append (response_messages tid before) (msg ∷ response_messages tid after) ts) (
      rw (transaction_of-put_all tid after (put msg (put_all (response_messages tid before) ts)).0)
        (rw
          (transaction_of-put tid name (request_msg request)
            (put_all (response_messages tid before) ts))
          (rw (transaction_of-put_all tid before ts)
            (rw (transaction_of-fresh tid ts fresh) (refl, refl)))))

-- The host without the process and the transaction.
abbrev pub closed : {W : Type 0} → Host W → Text → Transactions → Host W
closed h tid ts = record h { transactions = delete tid ts }

abbrev pub request_message : Text → Text → Request → Message
request_message tid name request = new_message tid name (request_msg request)

-- The map once everything has come.
abbrev pub gathered_transactions :
    Text
    → List (Text × Response)
    → Text
    → Request
    → List (Text × Response)
    → Transactions
    → Transactions
gathered_transactions tid before name request after =
    put_all (gathered_messages tid before (request_message tid name request) after)

module _ {W : Type 0} (env : Env W) (h : Host W) (tid : Text)
    (alone : NoProcess tid h.processes) where
  pub end_handler-gathered :
      (ts : Transactions) (ours : ResponseType) (request : Request) (rs : List Response)
      → (transaction_of tid ts).request ≡ some request
      → (transaction_of tid ts).responses ≡ rs
      → end_process env
          (record { tid = tid; role = handler ours; stage = gathered })
          (record h { transactions = ts })
        ≡ (if permitted ours rs
            then (env.disk_api.mirror h.disk request >>= λ result.
                returns (record (closed h tid ts) { disk = result.0 }, handled tid result.1 ∷ []))
            else returns (closed h tid ts, handled tid (some not_permitted) ∷ []))
  unfolding end_process end_handler
  end_handler-gathered ts ours request rs asked said = rw (said, asked)

  pub end_replicate-gathered :
      (ts : Transactions) (rs : List Response)
      → (transaction_of tid ts).responses ≡ rs
      → HasErrors rs
      → end_process env
          (record { tid = tid; role = initiator none; stage = gathered })
          (record h { transactions = ts })
        ≡ returns (
          record (closed h tid ts) {
            clock =
                if any is_conflict_nack rs && not (any is_other_nack rs)
                then increment_clock h.clock
                else h.clock;
          },
          replicated tid (if any is_nack rs then some (plain not_permitted) else none) ∷ [],
        )
  unfolding end_process end_replicate return_from
  end_replicate-gathered ts rs said errors =
      rw (said, process_responses_lem h.clock rs errors)
        (elim (Bool-cases (any is_nack rs)) [ inl e ↦ rw e | inr e ↦ rw e ])

  pub no_responses :
      (sent : Request) (rs : List Response)
      → (record_message (request_msg sent) h.name (new_transaction tid)).responses ++ rs ≡ rs
  unfolding record_message new_transaction
  no_responses sent rs = refl

  pub begin-gathering :
      (request : Request) (message : Message) {raw : List ℕ}
      → new_request_message env.gzip env.level tid h.name request ≡ ok message
      → env.proto.marshal message ≡ some raw
      → detect_and_resolve_conflict (put message h.transactions).0 message ≡ returns false
      → begin_replicate env tid request none h
        ≡ returns (
          gathering h message.tid (put message h.transactions).0 (initiator none) (length h.peers),
          broadcasts message ∷ [],
        )
  unfolding begin_replicate
  begin-gathering request message made encoded calm =
      rw (made, begin_replicate) (rw calm (rw (encoded, send_request)))
