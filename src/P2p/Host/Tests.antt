-- ===== src/P2p/Host/Tests.antt =====
-- Runs of the theorems on concrete hosts.
use replicated_file_system.Common.{
  ℕ, ◌≡◌, refl, ◌&&◌, not, any, none, some, [], ◌∷◌, codes, if◌then◌else◌, returns, panics, text_eq,
}
use replicated_file_system.Common.Dict
use replicated_file_system.Errors.{not_permitted, plain}
use replicated_file_system.Protobuf.{
  Message, ack, ack_response, is_nack, is_ack, new_message, new_response_message, get_request,
}
use replicated_file_system.Protobuf.Wire.{new_request_message}
use replicated_file_system.P2p.Transactions.{put, new_transaction}
use replicated_file_system.P2p.Conflicts.{
  increment_clock, detect_and_resolve_conflict, check_transaction,
}
use replicated_file_system.P2p.Responses.Verdict.{is_conflict_nack, is_other_nack}
use replicated_file_system.P2p.Host.Counting.{count, present}
use replicated_file_system.P2p.Host.Reach.{here, next, one_process_each, close_waits_for_all}
use replicated_file_system.P2p.Host.Stray.{stray_responses_panic}
use replicated_file_system.P2p.Host.Blocked.{overrun_blocks}
use replicated_file_system.P2p.Host.{
  Host, initiator, gathered, broadcasts, handled, replicated, calls, receives, blocked,
}
use replicated_file_system.P2p.Host.Steps.{
  new_host, permitted, is_waiting, begin_replicate, check_conflict,
}
use replicated_file_system.P2p.Host.Machine.{
  deliver, deliver_all, leave, run, step, may_close, fits, listen, listen_round,
}
use replicated_file_system.P2p.Host.Collect.{put_all, response_messages}
use replicated_file_system.P2p.Host.Commit.{gathered_messages}
use replicated_file_system.P2p.Host.Ending.{closed, gathered_transactions, request_message}
use replicated_file_system.P2p.Host.Verdicts.{handler_decides, replicate_decides}
use replicated_file_system.P2p.Host.Samples.{
  env, tid, a_request, a_message, host_a, host_b, peer, two_peers, only-marshals, missing,
  missing-HasErrors,
}

-- The response of c comes before the request of a.
handler_decides_example :
    (h' : Host ℕ) × (deliver_all env
        (gathered_messages tid
          ((codes "c", ack_response) ∷ [])
          (request_message tid (codes "a") a_request)
          [])
        host_b
      ≡ returns (h', broadcasts (new_response_message tid (codes "b") ack_response) ∷ []))
    × (leave env tid h' ≡ (
        if permitted ack (ack_response ∷ [])
        then returns (
          record (closed host_b tid (
              gathered_transactions tid
                ((codes "c", ack_response) ∷ [])
                (codes "a")
                a_request
                []
                [])) { disk = 1 },
          handled tid none ∷ [],
        )
        else returns (
          closed host_b tid (
              gathered_transactions tid
                ((codes "c", ack_response) ∷ [])
                (codes "a")
                a_request
                []
                []),
          handled tid (some not_permitted) ∷ [],
        )))
unfolding new_host ack_response is_ack is_nack check_conflict detect_and_resolve_conflict put
    new_message get_request Dict.lookup Dict.insert text_eq check_transaction
handler_decides_example =
    handler_decides env host_b tid tt ((codes "c", ack_response) ∷ []) [] (codes "a") a_request
      ack_response ack_response refl refl refl refl

-- One of the two replicators refuses.
replicate_decides_example :
    (waiting : Host ℕ) × (done : Host ℕ) × (begin_replicate env tid a_request none host_a
      ≡ returns (waiting, broadcasts a_message ∷ []))
    × (deliver_all env
          (response_messages tid ((codes "c", missing) ∷ (codes "b", ack_response) ∷ []))
          waiting
        ≡ returns (done, []))
    × (leave env tid done
        ≡ returns (
          record (closed host_a tid (
              put_all
                (response_messages tid ((codes "c", missing) ∷ (codes "b", ack_response) ∷ []))
                (put a_message []).0)) {
                  clock =
                      if any is_conflict_nack (missing ∷ ack_response ∷ [])
                        && not (any is_other_nack (missing ∷ ack_response ∷ []))
                      then increment_clock 0
                      else 0;
                },
          replicated tid (
                if any is_nack (missing ∷ ack_response ∷ [])
                then some (plain not_permitted)
                else none)
              ∷ [],
        ))
unfolding new_host ack_response is_nack new_request_message new_message detect_and_resolve_conflict
    put get_request Dict.lookup Dict.insert text_eq check_transaction
replicate_decides_example =
    replicate_decides env host_a tid tt a_request a_message
      ((codes "c", missing) ∷ (codes "b", ack_response) ∷ []) refl refl (only-marshals a_message)
      refl refl missing-HasErrors

-- The responses of both peers come to a host that does not know the transaction.
stray_responses_panic_example :
    (h' : Host ℕ) × (deliver_all env
        (response_messages tid ((codes "b", ack_response) ∷ (codes "c", ack_response) ∷ []))
        host_a
      ≡ returns (h', []))
    × (leave env tid h' ≡ panics)
unfolding new_host Dict.lookup is_nack ack_response
stray_responses_panic_example =
    stray_responses_panic env host_a tid tt (codes "b") ack_response
      ((codes "c", ack_response) ∷ []) refl refl refl

-- A transaction whose process is past its loop.
abbrev late : Host ℕ
late = record host_a {
  transactions = (tid, new_transaction tid) ∷ [];
  processes = record { tid = tid; role = initiator none; stage = gathered } ∷ [];
}

abbrev stray : Message
stray = new_response_message tid (codes "b") ack_response

overrun_blocks_example :
    (deliver env stray late
      ≡ returns (
        record late { transactions = (put stray late.transactions).0; listener = blocked tid },
        [],
      ))
    × ((record late {
      transactions = (put stray late.transactions).0;
      listener = blocked tid;
    }).listener
        ≡ blocked tid)
    × (step env
          (receives none)
          (record late { transactions = (put stray late.transactions).0; listener = blocked tid })
        ≡ returns (
          record late { transactions = (put stray late.transactions).0; listener = blocked tid },
          [],
        ))
unfolding new_response_message new_message run Dict.lookup fits is_waiting text_eq
overrun_blocks_example = overrun_blocks env stray late _ [] [] none refl (refl, tt) refl

-- A call of Replicate that waits.
begun :
    (h : Host ℕ) × (begin_replicate env tid a_request none host_a
      ≡ returns (h, broadcasts a_message ∷ []))
unfolding new_host new_request_message new_message detect_and_resolve_conflict put get_request
    Dict.lookup Dict.insert check_transaction text_eq
begun =
    let (waiting, done, begins, _, _) =
      replicate_decides env host_a tid tt a_request a_message
        ((codes "c", missing) ∷ (codes "b", ack_response) ∷ []) refl refl (only-marshals a_message)
        refl refl missing-HasErrors in
    (waiting, begins)

one_process_each_example :
    count tid begun.0.processes ≡ present (Dict.lookup tid begun.0.transactions)
unfolding step new_host Dict.lookup
one_process_each_example =
    one_process_each env (peer (codes "a")) two_peers 0 0 begun.0
      (next (calls tid a_request none) _ here refl begun.1) tid

close_waits_for_all_example : host_a.processes ≡ []
unfolding step listen listen_round new_host may_close
close_waits_for_all_example =
    close_waits_for_all env (peer (codes "a")) two_peers 0 0 host_a
      (next (receives none) [] here tt refl) refl
