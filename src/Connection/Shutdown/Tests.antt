-- ===== src/Connection/Shutdown/Tests.antt =====
-- The theorems on a pool of one peer, b, that is closed, and on one whose peer is dialed.
use replicated_file_system.Common.{
  suc, ◌+◌, ◌≡◌, refl, true, false, Option, none, [], ◌∷◌, codes, length, text_eq, returns,
}
use replicated_file_system.Common.Dict
use replicated_file_system.Errors.{Err}
use replicated_file_system.Connection.Perspective.{
  client, data_is, resolve_with, resolve, compare, verdict, decode,
}
use replicated_file_system.Connection.Link.{alive, new_link, establish_check, is_alive, opened}
use replicated_file_system.Connection.Pool.{
  new_pool, new_links, establish, begin_establish, and_commit, resolve_link, unless_established,
  commit_establish, commit_link, adjust,
}
use replicated_file_system.Connection.Shutdown.{
  Closing, Node, new_node, add_handler, load_closed, remove_working, begin_close, dial_once, work,
  add, dials, poll,
}
use replicated_file_system.Connection.Shutdown.Running.{
  Running, starts, closed_for_good, polled, poll-Running,
}
use replicated_file_system.Connection.Shutdown.Handlers.{SameHandlers, dial_once-Running}
use replicated_file_system.Connection.Shutdown.Rounds.{close_rounds, close_rounds-ended}
use replicated_file_system.Connection.Shutdown.Samples.{
  b, quic, one, connected, connected-Running, left, left-Running, shut, shut-Running, last_link,
}

closed_for_good_example :
    (shut.is_closed ≡ true) × (shut.working ≡ 0) × (is_alive last_link.status ≡ false)
unfolding Dict.lookup text_eq
closed_for_good_example = closed_for_good one shut none b last_link shut-Running refl refl

poll-Running_example :
    (connected.handlers ≡ connected.checking + connected.working + connected.refused)
    × ((poll none left).closing ≡ polled none left)
unfolding remove_working begin_close load_closed add_handler new_node
poll-Running_example = poll-Running one connected left none connected-Running left-Running refl

close_rounds-ended_example :
    (n' : Node) × (e : Option Err) × (close_rounds quic
        (suc (length left.pool.links))
        (poll none left)
      ≡ returns n')
    × (n'.closing ≡ Closing.ended e)
unfolding new_node new_pool add_handler load_closed remove_working begin_close
close_rounds-ended_example = close_rounds-ended quic none left refl refl

-- The node once b has been dialed: its counter is the same as ours.
abbrev dialed_b : Node
dialed_b = record (new_node one) {
  pool = record {
    whitelist = one;
    links = (b, record { status = alive; perspective = client; counter = 1; notices = 1 }) ∷ [];
    active = 1;
  };
}

dial_once-Running_example : Running one dialed_b × SameHandlers (new_node one) dialed_b
unfolding new_node new_pool new_links new_link dial_once add_handler load_closed work remove_working
    add establish begin_establish and_commit commit_establish commit_link establish_check
    resolve_link unless_established resolve_with resolve compare verdict decode opened is_alive
    adjust Dict.lookup Dict.insert text_eq
dial_once-Running_example =
    dial_once-Running one (codes "a") (dials b none (data_is (65 ∷ [])) none) (new_node one)
      dialed_b none starts refl
