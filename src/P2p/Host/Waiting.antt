-- ===== src/P2p/Host/Waiting.antt =====
-- A call of Replicate that waits, and whose context ends.
use replicated_file_system.Common.{ℕ, List, codes, ◌≡◌, refl, none, true, returns, [], ◌∷◌, text_eq}
use replicated_file_system.Common.Dict
use replicated_file_system.Errors.{deadline_exceeded}
use replicated_file_system.Protobuf.{get_request, new_message}
use replicated_file_system.Protobuf.Wire.{new_request_message}
use replicated_file_system.P2p.Transactions.{put}
use replicated_file_system.P2p.Conflicts.{detect_and_resolve_conflict, check_transaction}
use replicated_file_system.P2p.Host.{Host, Output, initiator, calls, broadcasts}
use replicated_file_system.P2p.Host.Steps.{new_host, begin_replicate, is_waiting, wait_for}
use replicated_file_system.P2p.Host.Machine.{step, run, may_close}
use replicated_file_system.P2p.Host.Collect.{gathering}
use replicated_file_system.P2p.Host.Ending.{begin-gathering}
use replicated_file_system.P2p.Host.Reach.{Reach, here, next}
use replicated_file_system.P2p.Host.Drain.{drain, drain-may_close}
use replicated_file_system.P2p.Host.Samples.{
  a_request, a_message, tid, only-marshals, env, peer, two_peers, host_a,
}

abbrev waiting : Host ℕ
waiting = gathering host_a tid (put a_message host_a.transactions).0 (initiator none) 2

waits_for_two :
    begin_replicate env tid a_request none host_a ≡ returns (waiting, broadcasts a_message ∷ [])
unfolding new_host new_request_message new_message detect_and_resolve_conflict put get_request
    Dict.lookup Dict.insert check_transaction text_eq
waits_for_two =
    begin-gathering env host_a tid tt a_request a_message refl (only-marshals a_message) refl

waiting-Reach : Reach env host_a waiting
unfolding step Dict.lookup new_host
waiting-Reach = next (calls tid a_request none) (broadcasts a_message ∷ []) here refl waits_for_two

drain-may_close_example :
    (h' : Host ℕ) × (out : List Output) × (run env
        (drain deadline_exceeded waiting.processes)
        waiting
      ≡ returns (h', out))
    × (may_close h' ≡ true)
    × (h'.disk ≡ waiting.disk)
unfolding new_host is_waiting wait_for
drain-may_close_example =
    drain-may_close env deadline_exceeded (peer (codes "a")) two_peers 0 0 waiting waiting-Reach
      (refl, tt)
