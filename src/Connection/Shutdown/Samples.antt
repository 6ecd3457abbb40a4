-- ===== src/Connection/Shutdown/Samples.antt =====
-- Concrete values for the tests of the shutdown: a pool of one peer, b, that is closed while b's handler
-- is at work.
use replicated_file_system.Common.{
  ◌≢◌, refl, true, false, Option, none, List, [], ◌∷◌, Text, codes, text_eq,
}
use replicated_file_system.Common.Dict
use replicated_file_system.Connection.Perspective.{client}
use replicated_file_system.Connection.Link
use replicated_file_system.Connection.Link.{
  Link, dead, alive, Failure, new_link, establish_check, is_alive, is_dead, opened, close_result,
}
use replicated_file_system.Connection.Pool.{
  Quic, new_pool, new_links, commit_establish, commit_link, adjust, close, close_link, multi_error,
}
use replicated_file_system.Connection.Shutdown.{
  Closing, closing_links, Node, new_node, add_handler, load_closed, remove_working, begin_close,
  listener_error, poll, close_next, add_error,
}
use replicated_file_system.Connection.Shutdown.Running.{
  Running, starts, adds, loads, leaves, commits, begins_close, polls, closes_next,
}

abbrev pub b : Text
b = codes "b"

abbrev pub quic : Text → Quic
quic name = record { context_done = false; close_with_error = none }

abbrev pub wire : Text → Option Failure
wire name = none

abbrev pub one : List Text
one = b ∷ []

abbrev pub at_work : Node
at_work = load_closed (add_handler (new_node one))

abbrev pub connected : Node
connected = record at_work {
  pool = record { whitelist = one; links = (b, opened client new_link) ∷ []; active = 1 };
}

pub connected-Running : Running one connected
unfolding new_node new_pool new_links new_link commit_establish commit_link opened Dict.lookup
    Dict.insert adjust is_alive text_eq add_handler load_closed
connected-Running = commits b client {e = none} (loads (adds starts)) refl refl

abbrev pub left : Node
left = remove_working (begin_close connected)

pub left-Running : Running one left
unfolding new_node new_pool add_handler load_closed
left-Running = leaves (begins_close connected-Running refl)

abbrev pub shut : Node
shut = record {
  pool = record {
    whitelist = one;
    links = (b, record { status = dead; perspective = 0; counter = 0; notices = 1 }) ∷ [];
    active = 0;
  };
  is_closed = true;
  handlers = 0;
  checking = 0;
  working = 0;
  refused = 0;
  closing = Closing.ended none;
}

pub shut-Running : Running one shut
unfolding new_node new_pool new_links new_link opened add_handler load_closed remove_working
    begin_close poll listener_error close_next add_error close close_link multi_error adjust is_dead
    Link.ended close_result Dict.lookup Dict.insert text_eq
shut-Running =
    closes_next quic
      (closes_next {n' = record shut { closing = closing_links [] [] }} quic
        (polls none left-Running) refl)
      refl

abbrev pub last_link : Link
last_link = record { status = dead; perspective = 0; counter = 0; notices = 1 }

pub a_peer : (c : Link) (ps : List (Text × Link)) → (b, c) ∷ ps ≢ []
a_peer c ps e = cc
