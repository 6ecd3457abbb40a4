-- ===== src/P2p/Host/Steps.antt =====
-- The pieces of p2p/host.go, each up to its next wait.
use replicated_file_system.Common.{
  ℕ, zero, suc, ◌*◌, ◌-◌, Bool, true, false, not, ◌&&◌, Option, none, some, List, [], ◌∷◌, ◌++◌,
  Text, codes, length, any, ◌==◌, if◌then◌else◌, Outcome, returns, ◌>>=◌, deref,
}
use replicated_file_system.Common.Dict
use replicated_file_system.Errors.{
  not_permitted, transaction_conflict, marshal_failed, wire, Err, plain, multi,
}
use replicated_file_system.Config.{Peer}
use replicated_file_system.Protobuf.{
  Request, Response, ResponseType, Message, err_transaction_conflict, is_ack, is_nack, get_request,
  nack_response, new_response_message,
}
use replicated_file_system.Protobuf.Wire.{ok, err, new_request_message}
use replicated_file_system.P2p.Transactions.{Transaction, Transactions, put, delete, found_or_new}
use replicated_file_system.P2p.Conflicts.{increment_clock, detect_and_resolve_conflict}
use replicated_file_system.P2p.Responses.{process_responses}
use replicated_file_system.P2p.Host.{
  Env, Role, initiator, handler, Stage, waits, gathered, expired, Process, ready, Host, Output,
  broadcasts, replicated, handled,
}

-- defaultReplicationTimeout: five minutes, in nanoseconds.
abbrev pub default_replication_timeout : ℕ
default_replication_timeout = 5 * 60 * 1000000000

-- The message of ErrTransactionConflict.
abbrev pub conflict_message : Text
conflict_message = codes "transaction conflict detected and resolved in favor of other peer"

-- A loop of n rounds that has just begun.
unfoldable pub wait_for : ℕ → Stage
wait_for zero = gathered
wait_for (suc n) = waits (suc n)

unfoldable pub is_waiting : Stage → Bool
is_waiting (waits n) = true
is_waiting _ = false

-- One round less.
unfoldable pub received : Stage → Stage
received (waits (suc n)) = wait_for n
received _ = gathered

-- The transaction that a process points to.
unfoldable pub transaction_of : Text → Transactions → Transaction
transaction_of tid ts = found_or_new tid (Dict.lookup tid ts)

-- A consulted ACK is checked for conflicts.
unfoldable pub check_conflict : Transactions → Message → Response → Outcome Response
check_conflict ts msg response =
    if is_ack response.type
    then (detect_and_resolve_conflict ts msg >>= λ conflict.
        if conflict
        then nack_response err_transaction_conflict (some conflict_message)
        else returns response)
    else returns response

unfoldable pub permitted : ResponseType → List Response → Bool
permitted ours responses = is_ack ours && not (any is_nack responses)

module _ {W : Type 0} where
  unfoldable pub new_host : Peer → List Peer → W → ℕ → Host W
  new_host host peers disk timeout = record {
    name = host.name;
    peers = peers;
    transactions = [];
    clock = 0;
    replication_timeout = if timeout == 0 then default_replication_timeout else timeout;
    processes = [];
    listener = ready;
    disk = disk;
  }

  -- SetConflictsClock and LoadConflictsClock, on a uint64.
  unfoldable pub set_conflicts_clock : ℕ → Host W → Host W
  set_conflicts_clock v h = record h { clock = v }

  unfoldable pub load_conflicts_clock : Host W → ℕ
  load_conflicts_clock h = h.clock

  unfoldable pub spawn : Text → Role → ℕ → Host W → Host W
  unfolding wait_for
  spawn tid role rounds h = record h {
    processes = h.processes ++ (record { tid = tid; role = role; stage = wait_for rounds } ∷ []);
  }

  -- The deferred Delete, and the return of Replicate.
  unfoldable pub return_from : Text → Option Err → Host W → Host W × List Output
  return_from tid e h =
      (record h { transactions = delete tid h.transactions }, replicated tid e ∷ [])

  -- What Replicate does with the result of the broadcast.
  unfoldable pub after_broadcast : Text → Option Err → Host W → Host W × List Output
  unfolding spawn return_from
  after_broadcast tid none h = (spawn tid (initiator none) (length h.peers) h, [])
  after_broadcast tid (some (plain c)) h = return_from tid (some (plain c)) h
  after_broadcast tid (some (multi errs)) h =
      if length errs == length h.peers
      then return_from tid (some (multi errs)) h
      else (spawn tid (initiator (some (multi errs))) (length h.peers - length errs) h, [])

  -- broadcast, with proto.Marshal's own failure.
  unfoldable pub send_request : Env W → Message → Option Err → Host W → Host W × List Output
  unfolding after_broadcast
  send_request env message sent h = elim (env.proto.marshal message) [
    | none ↦ after_broadcast message.tid (some (plain marshal_failed)) h
    | some raw ↦
        let (h', out) = after_broadcast message.tid sent h in (h', broadcasts message ∷ out)
  ]

  unfoldable pub begin_message :
      Env W → Message → Option Err → Host W → Outcome (Host W × List Output)
  unfolding send_request
  begin_message env message sent h =
      let h' = record h { transactions = (put message h.transactions).0 } in
      detect_and_resolve_conflict h'.transactions message >>= λ conflict. returns (
        if conflict
        then return_from message.tid (some (plain transaction_conflict))
            (record h' { clock = increment_clock h.clock })
        else send_request env message sent h')

  -- Replicate up to its wait loop.
  unfoldable pub begin_replicate :
      Env W → Text → Request → Option Err → Host W → Outcome (Host W × List Output)
  unfolding begin_message
  begin_replicate env tid request sent h =
      elim (new_request_message env.gzip env.level tid h.name request) [
        | err e ↦ returns (h, replicated tid (some (plain (wire e))) ∷ [])
        | ok message ↦ begin_message env message sent h
      ]

  -- Replicate after its wait loop: the error of a partial broadcast, or the verdict.
  unfoldable pub end_replicate : Text → Option Err → Host W → Outcome (Host W × List Output)
  unfolding return_from transaction_of
  end_replicate tid (some e) h = returns (return_from tid (some e) h)
  end_replicate tid none h =
      process_responses h.clock (transaction_of tid h.transactions).responses >>= λ result.
      returns (
        return_from tid (elim result.1 [ none ↦ none | some c ↦ some (plain c) ])
          (record h { clock = result.0 }))

  -- The body of handleTransaction's loop on a request: consult, check, answer.
  unfoldable pub answer : Env W → Message → Request → Host W → Outcome Response
  unfolding check_conflict
  answer env msg request h = env.disk_api.consult h.disk request >>= λ consulted.
      deref consulted >>= λ response. check_conflict h.transactions msg response

  -- A process takes a message: its new role, and what it broadcasts. The error of that broadcast
  -- is only logged.
  unfoldable pub take_message : Env W → Message → Host W → Role → Outcome (Role × List Output)
  unfolding answer
  take_message env msg h (initiator e) = returns (initiator e, [])
  take_message env msg h (handler ours) = elim (get_request msg) [
    | none ↦ returns (handler ours, [])
    | some request ↦ answer env msg request h >>= λ response.
        returns
          (handler response.type, broadcasts (new_response_message msg.tid h.name response) ∷ [])
  ]

  -- handleTransaction after its loop, and the Delete behind it. Mirror on a nil request panics.
  unfoldable pub end_handler : Env W → Text → ResponseType → Host W → Outcome (Host W × List Output)
  unfolding permitted transaction_of
  end_handler env tid ours h =
      let t = transaction_of tid h.transactions in
      let h' = record h { transactions = delete tid h.transactions } in
      if permitted ours t.responses
      then (deref t.request >>= λ request. env.disk_api.mirror h.disk request >>= λ result.
          returns (record h' { disk = result.0 }, handled tid result.1 ∷ []))
      else returns (h', handled tid (some not_permitted) ∷ [])

  -- The end of a process, by its role and stage.
  unfoldable pub end_process : Env W → Process → Host W → Outcome (Host W × List Output)
  unfolding end_replicate end_handler
  end_process env p h = elim p.stage [
    | expired c ↦ elim p.role [
      | initiator e ↦ returns (return_from p.tid (some (plain c)) h)
      | handler ours ↦
          returns
            (record h { transactions = delete p.tid h.transactions }, handled p.tid (some c) ∷ [])
    ]
    | _ ↦ elim p.role [
      | initiator e ↦ end_replicate p.tid e h
      | handler ours ↦ end_handler env p.tid ours h
    ]
  ]
