-- ===== src/Connection/Shutdown.antt =====
-- connection/pool.go: the handlers of accepted and dialed connections, and Close. The goroutines
-- interleave: Add and Load of addConnectionHandler are steps of their own, and so are the Store, the
-- polls and the rounds of Close. A handler is in one of three places: between Add and Load, at work
-- on its connection, or on its way out with errPoolClosed.
pub mod Silence
pub mod Moves
pub mod Guarded
pub mod Running
pub mod Rounds
pub mod Handlers
pub mod Refusal
pub mod Samples
mod Tests
use replicated_file_system.Common.{
  ℕ, zero, suc, ◌+◌, ◌-◌, Bool, true, false, Option, none, some, List, [], ◌∷◌, ◌==◌, Text, codes,
  map, if◌then◌else◌, Outcome, returns, panics, ◌>>=◌,
}
use replicated_file_system.Errors.{Cause, conn, closed, pool_closed, Err}
use replicated_file_system.Errors.Messages.{MultiErr, append_err}
use replicated_file_system.Connection.Perspective.{Received, client, server}
use replicated_file_system.Connection.Link.{Link, close_conn}
use replicated_file_system.Connection.Pool.{Pool, Quic, new_pool, establish, close, multi_error}

-- Close: not called, in its polling loop, in its loop over the connections, returned.
pub data Closing : Type 0 where
  running polling : Closing
  closing_links : List Text → MultiErr → Closing
  ended : Option Err → Closing

pub record Node : Type 0 where
  pub pool : Pool
  pub is_closed : Bool
  pub handlers : ℕ  -- activeConnectionHandlers
  pub checking : ℕ
  pub working : ℕ
  pub refused : ℕ
  pub closing : Closing

unfoldable pub new_node : List Text → Node
new_node names = record {
  pool = new_pool names;
  is_closed = false;
  handlers = 0;
  checking = 0;
  working = 0;
  refused = 0;
  closing = running;
}

-- addConnectionHandler: the Add, and the Load of a handler that has added itself.
unfoldable pub add_handler : Node → Node
add_handler n = record n { handlers = n.handlers + 1; checking = n.checking + 1 }

unfoldable pub load_closed : Node → Node
load_closed n =
    if n.checking == 0
    then n
    else if n.is_closed
    then record n { checking = n.checking - 1; refused = n.refused + 1 }
    else record n { checking = n.checking - 1; working = n.working + 1 }

-- removeConnectionHandler, of a handler whose work is over and of a refused one.
unfoldable pub remove_working : Node → Node
remove_working n =
    if n.working == 0 then n else record n { handlers = n.handlers - 1; working = n.working - 1 }

unfoldable pub remove_refused : Node → Node
remove_refused n =
    if n.refused == 0 then n else record n { handlers = n.handlers - 1; refused = n.refused - 1 }

-- Close up to its loop.
unfoldable pub begin_close : Node → Node
begin_close n = record n { is_closed = true; closing = polling }

unfoldable pub listener_error : Option Cause → MultiErr
listener_error none = []
listener_error (some e) = append_err (codes "QUIC listener") e []

-- One tick of the polling loop, with the result of closing the listener.
unfoldable pub poll : Option Cause → Node → Node
unfolding listener_error
poll listener n = elim n.closing [
  | polling ↦
      if n.handlers == 0
      then record n {
        closing =
            closing_links (map (λ (x : Text × Link). x.0) n.pool.links) (listener_error listener);
      }
      else n
  | _ ↦ n
]

unfoldable pub add_error : Text → Option Cause → MultiErr → MultiErr
add_error name none errs = errs
add_error name (some e) errs = append_err name e errs

-- One round of the loop over the connections, and the end of Close.
unfoldable pub close_next : (Text → Quic) → Node → Outcome Node
unfolding add_error
close_next quic n = elim n.closing [
  | closing_links [] errs ↦ returns (record n { closing = ended (multi_error errs) })
  | closing_links (name ∷ names) errs ↦ close name (quic name) (conn closed) n.pool >>= λ (p, e).
      returns (record n { pool = p; closing = closing_links names (add_error name e errs) })
  | _ ↦ returns n
]

-- add, with what closeConn returns on an error of Establish (it is only logged).
unfoldable pub add :
    Text
    → Text
    → ℕ
    → Option Cause
    → Received
    → Option (ℕ → Option Cause)
    → Pool
    → Outcome (Pool × Option Cause × Option Cause)
add host name perspective sent msg quic p =
    establish host name perspective sent msg p >>= λ (p', e).
    returns (p', e, elim e [ none ↦ none | some x ↦ close_conn quic x ])

-- What the dial gave: an error, or a connection to the peer of that name.
pub data Dialed : Type 0 where
  dial_fails : Cause → Dialed
  dials : Text → Option Cause → Received → Option (ℕ → Option Cause) → Dialed

unfoldable pub work : Text → ℕ → Dialed → Node → Outcome (Node × Option Cause)
unfolding add
work host perspective (dial_fails e) n = returns (n, some e)
work host perspective (dials name sent msg quic) n =
    add host name perspective sent msg quic n.pool >>= λ (p, e, logged).
    returns (record n { pool = p }, e)

-- dialOnce, where no other goroutine steps in.
unfoldable pub dial_once : Text → Dialed → Node → Outcome (Node × Option Cause)
unfolding add_handler load_closed work remove_working remove_refused
dial_once host dialed n =
    let added = load_closed (add_handler n) in
    if n.is_closed
    then returns (remove_refused added, some pool_closed)
    else (work host client dialed added >>= λ (n', e). returns (remove_working n', e))

-- One round of acceptConnections, and the goroutine that it starts: true if the loop goes on.
unfoldable pub accept_once : Text → Dialed → Node → Outcome (Node × Bool)
unfolding add_handler load_closed work remove_working remove_refused
accept_once host accepted n =
    let added = load_closed (add_handler n) in
    if n.is_closed
    then returns (remove_refused added, false)
    else (work host server accepted added >>= λ (n', e). returns (remove_working n', true))
