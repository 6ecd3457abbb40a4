-- ===== src/System/Receiving.antt =====
-- connection/pool.go and p2p/host.go: the channel of received messages, from Listen of each
-- connection (connection/connection.go) to listen of the host.
pub mod Schedule
pub mod Flow
pub mod Order
mod Tests
use replicated_file_system.Common.{
  ℕ, Option, none, some, List, [], ◌∷◌, ◌++◌, Text, length, ltb, if◌then◌else◌, Outcome, returns,
  ◌>>=◌,
}
use replicated_file_system.Common.Dict
use replicated_file_system.Connection.Link.{Incoming, Taken, bytes, error}
use replicated_file_system.Connection.Pool.{Pool}
use replicated_file_system.Connection.Listening.{Heard, waits, sinks, listen_conn_round}
use replicated_file_system.P2p.Host.{
  Env, Listener, ready, blocked, Host, Event, calls, receives, expires, leaves, Output,
}
use replicated_file_system.P2p.Host.Machine.{listen_round, step}

-- A message with the name of the connection that it has come from.
abbrev pub Passed : Type 0
Passed = Text × Taken

-- A peer. `held` are the messages that the goroutines of Listen wait to send on the channel, by the
-- name of their connection; `msgs` is what its buffer of MessageBufferSize places holds. A message
-- is the bytes, or the error, that Recv has returned.
-- The size is above 0, as the configuration asks; a channel without a buffer would hand over directly.
pub record Receiver (W : Type 0) : Type 0 where
  pub pool : Pool
  pub held : List Passed
  pub message_buffer_size : ℕ
  pub msgs : List Taken
  pub host : Host W

-- A step of one goroutine: a round of Listen, up to its send; that send; the host's receipt; or
-- anything else that the host does.
pub data Activity : Type 0 where
  hears : Text → Incoming → Activity
  puts : Text → Activity
  takes : Activity
  works : Event → Activity

-- Message.Data and Message.Err, as listen looks at them.
unfoldable pub data_of : Taken → Option (List ℕ)
data_of (bytes b) = some b
data_of (error e) = none

module _ {W : Type 0} where
  -- With what has been heard.
  unfoldable pub hold : Text → Pool → Heard → Receiver W → Receiver W × List Passed
  hold name p waits r = (record r { pool = p }, [])
  hold name p (sinks t) r = (record r { pool = p; held = (name, t) ∷ r.held }, (name, t) ∷ [])

  -- `sink <- Message{...}`, when the buffer has room; with what is put.
  unfoldable pub put_held : Text → Option Taken → Receiver W → Receiver W × List Passed
  put_held name none r = (r, [])
  put_held name (some t) r =
      if ltb (length r.msgs) r.message_buffer_size
      then (record r { held = Dict.delete name r.held; msgs = r.msgs ++ (t ∷ []) }, (name, t) ∷ [])
      else (r, [])

module _ {W : Type 0} (env : Env W) where
  -- A round of Listen, unless the goroutine still waits to send.
  unfoldable pub hear :
      Text → Incoming → Option Taken → Receiver W → Outcome (Receiver W × List Passed)
  unfolding hold listen_conn_round
  hear name incoming (some t) r = returns (r, [])
  hear name incoming none r =
      listen_conn_round name incoming r.pool >>= λ (p, heard). returns (hold name p heard r)

  -- One round of the host's listen, unless it waits for a message or for a process.
  unfoldable pub receive_next :
      List Taken → Listener → Receiver W → Outcome (Receiver W × List Output)
  unfolding data_of
  receive_next (t ∷ ts) ready r = listen_round env (data_of t) r.host >>= λ (h, out).
      returns (record r { msgs = ts; host = h }, out)
  receive_next _ _ r = returns (r, [])

  -- Messages come from the channel only.
  unfoldable pub host_act : Event → Receiver W → Outcome (Receiver W × List Output)
  host_act (receives packet) r = returns (r, [])
  host_act e r = step env e r.host >>= λ (h, out). returns (record r { host = h }, out)

  -- One step, with what the host puts out, what Listen has heard and what is put on the channel.
  unfoldable pub act :
      Activity → Receiver W → Outcome (Receiver W × List Output × List Passed × List Passed)
  unfolding hear put_held receive_next host_act
  act (hears name incoming) r =
      hear name incoming (Dict.lookup name r.held) r >>= λ (r', heard). returns (r', [], heard, [])
  act (puts name) r =
      let (r', put) = put_held name (Dict.lookup name r.held) r in returns (r', [], [], put)
  act takes r = receive_next r.msgs r.host.listener r >>= λ (r', out). returns (r', out, [], [])
  act (works e) r = host_act e r >>= λ (r', out). returns (r', out, [], [])

  unfoldable pub act_all :
      List Activity → Receiver W → Outcome (Receiver W × List Output × List Passed × List Passed)
  unfolding act
  act_all [] r = returns (r, [], [], [])
  act_all (t ∷ ts) r = act t r >>= λ (r', out, heard, put).
      act_all ts r' >>= λ (r'', out', heard', put').
      returns (r'', out ++ out', heard ++ heard', put ++ put')
