-- ===== src/P2p/Host.antt =====
-- p2p/host.go as a machine of events. The goroutines that wait on a NotifyChan (a call of
-- Replicate, or handleTransaction) are the processes. An event is one step of a goroutine:
--   calls     Replicate runs up to its wait loop; the event holds the result of conn.Broadcast
--   receives  listen takes one message from the connection, Puts it, spawns a handler for a new
--             transaction, and hands the message over on NotifyChan; the receiving process handles it
--   expires   a waiting process takes ctx.Done
--   leaves    a process whose loop is over runs to its end and its transaction is deleted
-- A hand-over that nobody waits for blocks listen for good: NotifyChan is unbuffered.
-- Mirror, gzip and protobuf are parameters; W is the state of the disk.
pub mod Steps
pub mod Machine
pub mod Collect
pub mod Commit
pub mod Ending
pub mod Verdicts
pub mod Blocked
pub mod Stray
mod Counting
pub mod Paired
pub mod Keeps
pub mod Changes
pub mod Heard
pub mod Reach
pub mod Drain
pub mod Samples
pub mod Tests
mod Waiting
use replicated_file_system.Common.{
  ℕ, zero, suc, ◌+◌, ◌-◌, Bool, true, false, Option, none, some, List, Text, length, Outcome,
}
use replicated_file_system.Errors.{Cause, Err}
use replicated_file_system.Config.{Peer}
use replicated_file_system.Protobuf.{Request, Response, ResponseType, Message}
use replicated_file_system.Protobuf.Gzip.{Gzip, Level}
use replicated_file_system.Protobuf.Wire.{Proto}
use replicated_file_system.P2p.Transactions.{Transactions}

-- The interface Mirror. A nil response is none.
pub record Mirror (W : Type 0) : Type 0 where
  pub consult : W → Request → Outcome (Option Response)
  pub mirror : W → Request → Outcome (W × Option Cause)

pub record Env (W : Type 0) : Type 1 where
  pub disk_api : Mirror W
  pub gzip : Gzip
  pub level : Level
  pub proto : Proto

-- Replicate after a broadcast (the error of a partial one), or handleTransaction (ourResponse).
pub data Role : Type 0 where
  initiator : Option Err → Role
  handler : ResponseType → Role

-- How many messages the loop still waits for; its end; or the error of the context.
pub data Stage : Type 0 where
  waits : ℕ → Stage
  gathered : Stage
  expired : Cause → Stage

pub record Process : Type 0 where
  pub tid : Text
  pub role : Role
  pub stage : Stage

pub data Listener : Type 0 where
  ready : Listener
  blocked : Text → Listener

pub record Host (W : Type 0) : Type 0 where
  pub name : Text
  pub peers : List Peer
  pub transactions : Transactions
  pub clock : ℕ  -- conflicts.clock, uint64
  pub replication_timeout : ℕ
  pub processes : List Process
  pub listener : Listener
  pub disk : W

pub data Event : Type 0 where
  calls : Text → Request → Option Err → Event
  receives : Option (List ℕ) → Event
  expires : Text → Cause → Event
  leaves : Text → Event

-- What the world sees: a broadcast, the return of Replicate, the return of handleTransaction.
pub data Output : Type 0 where
  broadcasts : Message → Output
  replicated : Text → Option Err → Output
  handled : Text → Option Cause → Output
