-- ===== src/Connection/Listening.antt =====
-- connection/connection.go: Listen, the loop that reads from one connection, with WaitForOpen, and
-- watchConnection. A round of the loop is one step; openNotify holds the goroutines that wait to
-- send on it.
mod Tests
use replicated_file_system.Common.{
  ℕ, zero, suc, ◌-◌, ◌≡◌, refl, ◌∙◌, ap, Bool, true, false, Option, none, some, List, [], ◌∷◌, ◌==◌,
  Text, text_eq, text_eq_refl, if◌then◌else◌, Outcome, returns, panics, ◌>>=◌, deref, arith,
  Bool-cases, inl, inr,
}
use replicated_file_system.Common.Dict
use replicated_file_system.Errors.{Cause, conn, closed}
use replicated_file_system.Connection.Link.{Status, Link, is_dead, Incoming, Taken, error}
use replicated_file_system.Connection.Pool.{Pool, Quic, adjust, close, recv, take_notice}

-- watchConnection, when the context of the connection is done with that error.
unfoldable pub watch_connection : Text → Quic → Cause → Pool → Outcome (Pool × Option Cause)
watch_connection name quic err p = close name quic err p

-- WaitForOpen that takes a notice; none if it waits, until its context ends it and Listen with it.
unfoldable pub wait_for_open : Text → Link → Pool → Option Pool
unfolding take_notice
wait_for_open name c p = if c.notices == 0 then none else some (take_notice name c p)

-- A round of Listen: it waits for the connection to be open, or it sends on the sink.
pub data Heard : Type 0 where
  waits : Heard
  sinks : Taken → Heard

unfoldable pub receive : Text → Incoming → Pool → Outcome (Pool × Heard)
receive name incoming p = recv name incoming p >>= λ (p', t). returns (p', sinks t)

-- Recv after WaitForOpen has come back.
unfoldable pub receive_after : Text → Incoming → Option Pool → Pool → Outcome (Pool × Heard)
unfolding receive
receive_after name incoming none p = returns (p, waits)
receive_after name incoming (some p') p = receive name incoming p'

unfoldable pub listen_conn_round : Text → Incoming → Pool → Outcome (Pool × Heard)
unfolding receive receive_after wait_for_open
listen_conn_round name incoming p = deref (Dict.lookup name p.links) >>= λ c.
    if is_dead c.status
    then receive_after name incoming (wait_for_open name c p) p
    else receive name incoming p

-- Rounds until it waits, with what was sent on the sink, on no more than the given rounds.
unfoldable pub listen_conn : ℕ → Text → Incoming → Pool → Outcome (Pool × List Taken × Bool)
unfolding listen_conn_round
listen_conn zero name incoming p = returns (p, [], false)
listen_conn (suc fuel) name incoming p = listen_conn_round name incoming p >>= λ (p', heard).
    elim heard [
      | waits ↦ returns (p', [], true)
      | sinks t ↦
          listen_conn fuel name incoming p' >>= λ (p'', ts, ends). returns (p'', t ∷ ts, ends)
    ]

lookup-adjust_self :
    (name : Text) (c d : Link) (ps : List (Text × Link))
    → Dict.lookup name ps ≡ some c
    → Dict.lookup name (adjust name d ps) ≡ some d
unfolding Dict.lookup adjust
lookup-adjust_self name c d [] e = cc
lookup-adjust_self name c d ((j, x) ∷ ps) e = elim (Bool-cases (text_eq j name)) [
  | inl f ↦ rw f (rw f refl)
  | inr f ↦ rw f (rw f (lookup-adjust_self name c d ps (rw f at e)))
]

-- One error for each notice.
abbrev pub stale : ℕ → List Taken
stale zero = []
stale (suc n) = error (conn closed) ∷ stale n

recv-dead :
    (name : Text) (incoming : Incoming) (c : Link) (p : Pool)
    → Dict.lookup name p.links ≡ some c
    → is_dead c.status ≡ true
    → recv name incoming p ≡ returns (p, error (conn closed))
unfolding recv
recv-dead name incoming c p found dead = rw (found, dead, recv) refl

round_waits :
    (name : Text) (incoming : Incoming) (c : Link) (p : Pool)
    → Dict.lookup name p.links ≡ some c
    → is_dead c.status ≡ true
    → c.notices ≡ 0
    → listen_conn_round name incoming p ≡ returns (p, waits)
unfolding listen_conn_round wait_for_open receive_after
round_waits name incoming c p found dead e =
    rw (found, dead, listen_conn_round) (rw (ap (λ n. n == 0) e, wait_for_open) refl)

-- The link and the pool after a notice has been taken.
abbrev taken_notice : ℕ → Link → Link
taken_notice n c = record c { notices = n }

abbrev pool_with : Text → Link → Pool → Pool
pool_with name c p = record p { links = adjust name c p.links }

suc_nonzero : (n : ℕ) → (suc n == 0) ≡ false
suc_nonzero n = ground arith

suc_pred : (n : ℕ) → suc n - 1 ≡ n
suc_pred n = omega arith

takes_one :
    (n : ℕ) (name : Text) (c : Link) (p : Pool)
    → c.notices ≡ suc n
    → wait_for_open name c p ≡ some (pool_with name (taken_notice n c) p)
unfolding wait_for_open take_notice
takes_one n name c p e = rw (e, suc_nonzero n, suc_pred n, wait_for_open, take_notice) refl

round_stale :
    (n : ℕ) (name : Text) (incoming : Incoming) (c : Link) (p : Pool)
    → Dict.lookup name p.links ≡ some c
    → is_dead c.status ≡ true
    → c.notices ≡ suc n
    → listen_conn_round name incoming p
      ≡ returns (pool_with name (taken_notice n c) p, sinks (error (conn closed)))
unfolding listen_conn_round receive_after receive
round_stale n name incoming c p found dead e =
    rw (found, dead, takes_one n name c p e, listen_conn_round, receive_after, receive)
      (rw
        (recv-dead name incoming (taken_notice n c) (pool_with name (taken_notice n c) p)
          (lookup-adjust_self name c (taken_notice n c) p.links found) dead)
        refl)

-- On a dead connection, Listen sends an error for each notice of an opening that nobody has taken,
-- and then it waits to be opened: it never spins, and it neither panics nor reads from the network.
pub listen_conn-stale :
    (n : ℕ) (name : Text) (incoming : Incoming) (c : Link) (p : Pool)
    → Dict.lookup name p.links ≡ some c
    → is_dead c.status ≡ true
    → c.notices ≡ n
    → (p' : Pool) × (listen_conn (suc n) name incoming p ≡ returns (p', stale n, true))
      × (Dict.lookup name p'.links ≡ some (record c { notices = 0 }))
unfolding listen_conn listen_conn_round wait_for_open receive_after receive
listen_conn-stale zero name incoming c p found dead e = (
  p,
  rw (round_waits name incoming c p found dead e, listen_conn) refl,
  found ∙ ap (λ k. some (taken_notice k c)) e,
)
listen_conn-stale (suc n) name incoming c p found dead e =
    let (p', run, at) =
      listen_conn-stale n name incoming (taken_notice n c) (pool_with name (taken_notice n c) p)
        (lookup-adjust_self name c (taken_notice n c) p.links found) dead refl in
    (p', rw (round_stale n name incoming c p found dead e, listen_conn) (rw run refl), at)
