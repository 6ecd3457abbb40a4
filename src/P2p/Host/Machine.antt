-- ===== src/P2p/Host/Machine.antt =====
-- The machine of a host: which process an event reaches, and runs of events.
use replicated_file_system.Common.{
  ℕ, Bool, true, false, not, ◌&&◌, Option, none, some, List, [], ◌∷◌, ◌++◌, Text, length, text_eq,
  ◌==◌, if◌then◌else◌, Outcome, returns, ◌>>=◌,
}
use replicated_file_system.Errors.{Cause}
use replicated_file_system.Protobuf.{Message, ack}
use replicated_file_system.Protobuf.Wire.{ok, err, read_message}
use replicated_file_system.P2p.Transactions.{put}
use replicated_file_system.P2p.Host.{
  Env, handler, expired, Process, Listener, ready, blocked, Host, Event, calls, receives, expires,
  leaves, Output,
}
use replicated_file_system.P2p.Host.Steps.{
  is_waiting, received, spawn, begin_replicate, take_message, end_process,
}

-- A process with those before it and those behind it.
abbrev pub Split : Type 0
Split = Process × List Process × List Process

unfoldable pub behind : Process → Option Split → Option Split
behind p none = none
behind p (some (q, before, after)) = some (q, p ∷ before, after)

unfoldable pub fits : Text → Bool → Process → Bool
fits tid waiting p =
    text_eq p.tid tid && (if waiting then is_waiting p.stage else not (is_waiting p.stage))

-- The first process of the transaction that waits, or that does not.
unfoldable pub take_process : Text → Bool → List Process → Option Split
unfolding behind fits
take_process tid waiting [] = none
take_process tid waiting (p ∷ ps) =
    let later = behind p (take_process tid waiting ps) in
    if fits tid waiting p then some (p, [], ps) else later

module _ {W : Type 0} (env : Env W) where
  -- `trans.NotifyChan <- msg`.
  unfoldable pub notify : Message → Host W → Outcome (Host W × List Output)
  unfolding take_process take_message
  notify msg h = elim (take_process msg.tid true h.processes) [
    | none ↦ returns (record h { listener = blocked msg.tid }, [])
    | some (p, before, after) ↦ take_message env msg h p.role >>= λ taken. returns (
      record h {
        processes = before ++ (record p { role = taken.0; stage = received p.stage } ∷ after);
      },
      taken.1,
    )
  ]

  -- Put, and the handler of a new transaction.
  unfoldable pub put_and_spawn : Message → Host W → Host W
  unfolding spawn
  put_and_spawn msg h =
      let (ts, created) = put msg h.transactions in
      let h' = record h { transactions = ts } in
      if created then spawn msg.tid (handler ack) (length h.peers) h' else h'

  -- A message that listen has read.
  unfoldable pub deliver : Message → Host W → Outcome (Host W × List Output)
  unfolding notify put_and_spawn
  deliver msg h = notify msg (put_and_spawn msg h)

  -- One round of listen: an error of the connection or of ReadMessage is logged and skipped.
  unfoldable pub listen_round : Option (List ℕ) → Host W → Outcome (Host W × List Output)
  unfolding deliver
  listen_round none h = returns (h, [])
  listen_round (some raw) h = elim (read_message env.gzip env.proto raw) [
    | err e ↦ returns (h, [])
    | ok msg ↦ deliver msg h
  ]

  -- Several messages, one after the other.
  unfoldable pub deliver_all : List Message → Host W → Outcome (Host W × List Output)
  deliver_all [] h = returns (h, [])
  deliver_all (m ∷ ms) h =
      deliver m h >>= λ (h', out). deliver_all ms h' >>= λ (h'', rest). returns (h'', out ++ rest)

  -- A blocked listener takes nothing more.
  unfoldable pub listen : Listener → Option (List ℕ) → Host W → Outcome (Host W × List Output)
  unfolding listen_round
  listen ready packet h = listen_round packet h
  listen (blocked tid) packet h = returns (h, [])

  -- A waiting process selects ctx.Done.
  unfoldable pub expire : Text → Cause → Host W → Host W
  unfolding take_process
  expire tid cause h = elim (take_process tid true h.processes) [
    | none ↦ h
    | some (p, before, after) ↦ record h {
      processes = before ++ (record p { stage = expired cause } ∷ after);
    }
  ]

  unfoldable pub leave : Text → Host W → Outcome (Host W × List Output)
  unfolding take_process end_process
  leave tid h = elim (take_process tid false h.processes) [
    | none ↦ returns (h, [])
    | some (p, before, after) ↦ end_process env p (record h { processes = before ++ after })
  ]

  -- One event.
  unfoldable pub step : Event → Host W → Outcome (Host W × List Output)
  unfolding listen expire leave
  step (calls tid request sent) h = begin_replicate env tid request sent h
  step (receives packet) h = listen h.listener packet h
  step (expires tid cause) h = returns (expire tid cause h, [])
  step (leaves tid) h = leave tid h

  -- A run of events, with all that it puts out. A panic in any goroutine ends the process.
  unfoldable pub run : List Event → Host W → Outcome (Host W × List Output)
  run [] h = returns (h, [])
  run (e ∷ es) h = step e h >>= λ (h', out). run es h' >>= λ (h'', rest). returns (h'', out ++ rest)

-- Close waits until no transaction is open.
unfoldable pub may_close : {W : Type 0} → Host W → Bool
may_close h = length h.transactions == 0
