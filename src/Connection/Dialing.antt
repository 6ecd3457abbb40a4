-- ===== src/Connection/Dialing.antt =====
-- connection/pool.go: dial, the loop that dials one peer. What it reads of the connection's status,
-- and what dialOnce gives, are events.
pub mod Stuck
mod Tests
use replicated_file_system.Common.{
  ℕ, Bool, Option, none, some, List, [], ◌∷◌, Outcome, returns, panics, ◌>>=◌,
}
use replicated_file_system.Errors.{Cause, pool_closed}
use replicated_file_system.Config
use replicated_file_system.Config.{Backoff}
use replicated_file_system.Connection.Link.{Status, dead, alive}
use replicated_file_system.Connection.Backoff.{Floats, State, new_backoff, next, reset}

-- At the head of the loop, in the loop over the status ticks, in dialOnce, blocked in Reset,
-- returned.
pub data Phase : Type 0 where
  checking ticking dialing blocked returned : Phase

pub record Dialer : Type 0 where
  pub backoff : State
  pub phase : Phase

unfoldable pub new_dialer : Backoff → Dialer
unfolding new_backoff
new_dialer conf = record { backoff = new_backoff conf; phase = checking }

-- The status that is read, at the head of the loop or on a tick, and the end of dialOnce with the
-- number that rand gives if it is asked.
pub data Turn : Type 0 where
  sees : Status → Turn
  dials : Option Cause → ℕ → Turn

unfoldable pub see : Status → Dialer → Dialer
see status d = elim d.phase [
  | checking ↦ elim status [
    | alive ↦ record d { phase = ticking }
    | _ ↦ record d { phase = dialing }
  ]
  | ticking ↦ elim status [ dead ↦ record d { phase = dialing } | _ ↦ d ]
  | _ ↦ d
]

-- The next round of the loop.
unfoldable pub restart : State → Dialer
restart b = record { backoff = b; phase = checking }

unfoldable pub dialed : Floats → Option Cause → ℕ → Dialer → Outcome Dialer
unfolding restart
dialed floats (some pool_closed) drawn d = returns (record d { phase = returned })
dialed floats (some e) drawn d =
    next floats (λ n. drawn) d.backoff >>= λ (waited, b). returns (restart b)
dialed floats none drawn d = elim (reset d.backoff) [
  | none ↦ returns (record d { phase = blocked })
  | some b ↦ returns (restart b)
]

unfoldable pub advance : Floats → Turn → Dialer → Outcome Dialer
unfolding see dialed
advance floats (sees status) d = returns (see status d)
advance floats (dials result drawn) d = elim d.phase [
  | dialing ↦ dialed floats result drawn d
  | _ ↦ returns d
]

unfoldable pub advance_all : Floats → List Turn → Dialer → Outcome Dialer
unfolding advance
advance_all floats [] d = returns d
advance_all floats (e ∷ es) d = advance floats e d >>= advance_all floats es
