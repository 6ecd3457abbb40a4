-- ===== src/System/Receiving/Tests.antt =====
-- The replicator b hears the request of a, while its dead connection to c sends an error.
use replicated_file_system.Common.{ℕ, ◌≡◌, refl, List, [], ◌∷◌, codes, returns, text_eq}
use replicated_file_system.Common.Dict
use replicated_file_system.Connection.Link.{alive, arrives, new_link, is_dead}
use replicated_file_system.Connection.Pool.{recv}
use replicated_file_system.Protobuf.{get_request, is_ack, ack_response}
use replicated_file_system.Protobuf.Wire.{read_message}
use replicated_file_system.P2p.Transactions.{put}
use replicated_file_system.P2p.Conflicts.{detect_and_resolve_conflict, check_transaction}
use replicated_file_system.P2p.Host.{Output}
use replicated_file_system.P2p.Host.Steps.{new_host, is_waiting}
use replicated_file_system.P2p.Host.Machine.{listen_round}
use replicated_file_system.P2p.Host.Samples.{env, host_b}
use replicated_file_system.System.Receiving.{
  Passed, Receiver, Activity, hears, puts, takes, act_all,
}
use replicated_file_system.System.Receiving.Schedule.{Passes}
use replicated_file_system.System.Receiving.Order.{act_all-Passes}

abbrev receiver : Receiver ℕ
receiver = record {
  pool = record {
    whitelist = codes "a" ∷ codes "c" ∷ [];
    links =
        (codes "a", record new_link { status = alive })
        ∷ (codes "c", record new_link { notices = 1 })
        ∷ [];
    active = 1;
  };
  held = [];
  message_buffer_size = 1;
  msgs = [];
  host = host_b;
}

-- The buffer has one place: the message of a is put only when the host has taken the error.
abbrev seven : List Activity
seven =
    hears (codes "a") (arrives (7 ∷ []))
    ∷ hears (codes "c") (arrives [])
    ∷ puts (codes "c")
    ∷ puts (codes "a")
    ∷ takes
    ∷ puts (codes "a")
    ∷ takes
    ∷ []

ran :
    (r : Receiver ℕ) × (out : List Output) × (heard : List Passed) × (sunk : List Passed) × (act_all
        env seven receiver
      ≡ returns (r, out, heard, sunk))
unfolding act_all Dict.lookup Dict.insert Dict.delete text_eq is_dead recv new_link new_host
    listen_round read_message put is_waiting get_request is_ack ack_response
    detect_and_resolve_conflict check_transaction
ran = (_, _, _, _, refl)

act_all-Passes_example : Passes env receiver ran.0 ran.1 ran.2 ran.3
act_all-Passes_example = act_all-Passes env seven receiver ran.0 ran.1 ran.2 ran.3 ran.4
