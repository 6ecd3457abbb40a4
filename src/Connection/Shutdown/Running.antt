-- ===== src/Connection/Shutdown/Running.antt =====
-- connection/pool.go: the shutdown, over all the ways in which the goroutines interleave.
use replicated_file_system.Common.{
  ℕ, ◌+◌, ◌≡◌, refl, subst, inl, inr, true, false, Option, some, List, Text, ◌==◌, returns, arith,
  Bool-cases, sym, map, if◌then◌else◌,
}
use replicated_file_system.Common.Dict
use replicated_file_system.Errors.{Cause, Err}
use replicated_file_system.Connection.Link.{Link, Status, is_alive}
use replicated_file_system.Connection.Pool.{Pool, Quic, commit_establish}
use replicated_file_system.Connection.Shutdown.{
  running, polling, closing_links, ended, Closing, listener_error, Node, new_node, add_handler,
  load_closed, remove_working, remove_refused, begin_close, poll, close_next,
}
use replicated_file_system.Connection.Shutdown.Moves.{Moves, Moves-Duller}
use replicated_file_system.Connection.Shutdown.Guarded.{
  StageHolds, IsGuarded, moves-StageHolds, commit-StageHolds, handler-StageHolds, load-IsGuarded,
  remove_working-IsGuarded, remove_refused-IsGuarded, poll-IsGuarded, close_next-IsGuarded,
}

-- The steps of the handlers, of Close and of everyone else on the pool, in any order. Only a handler
-- at work establishes a connection.
pub data Running (names : List Text) : Node → Type 0 where
  starts : Running names (new_node names)
  adds : {n : Node} → Running names n → Running names (add_handler n)
  loads : {n : Node} → Running names n → Running names (load_closed n)
  leaves : {n : Node} → Running names n → Running names (remove_working n)
  turns_away : {n : Node} → Running names n → Running names (remove_refused n)
  moves :
      {n : Node} {p : Pool}
      → Running names n
      → Moves n.pool p
      → Running names (record n { pool = p })
  commits :
      {n : Node} {p : Pool} (name : Text) (perspective : ℕ) {e : Option Cause}
      → Running names n
      → (n.working == 0) ≡ false
      → commit_establish name perspective n.pool ≡ returns (p, e)
      → Running names (record n { pool = p })
  begins_close : {n : Node} → Running names n → n.closing ≡ running → Running names (begin_close n)
  polls : {n : Node} (listener : Option Cause) → Running names n → Running names (poll listener n)
  closes_next :
      {n n' : Node} (quic : Text → Quic)
      → Running names n
      → close_next quic n ≡ returns n'
      → Running names n'

pub Running-IsGuarded : (names : List Text) {n : Node} → Running names n → IsGuarded n
unfolding new_node add_handler begin_close
Running-IsGuarded names starts = (refl, tt)
Running-IsGuarded names (adds {n} r) =
    let (v, w) = Running-IsGuarded names r in
    (omega (arith, v), handler-StageHolds n.closing n _ refl refl (λ a b. b) w)
Running-IsGuarded names (loads {n} r) = load-IsGuarded n (Running-IsGuarded names r)
Running-IsGuarded names (leaves {n} r) = remove_working-IsGuarded n (Running-IsGuarded names r)
Running-IsGuarded names (turns_away {n} r) = remove_refused-IsGuarded n (Running-IsGuarded names r)
Running-IsGuarded names (moves {n} {p} r m) =
    let (v, w) = Running-IsGuarded names r in (v, moves-StageHolds n.closing n p w (Moves-Duller m))
Running-IsGuarded names (commits {n} {p} name perspective r busy h) =
    let (v, w) = Running-IsGuarded names r in (v, commit-StageHolds n.closing n p w busy)
Running-IsGuarded names (begins_close {n} r h) = ((Running-IsGuarded names r).0, refl)
Running-IsGuarded names (polls {n} listener r) =
    poll-IsGuarded listener n (Running-IsGuarded names r)
Running-IsGuarded names (closes_next {n} {n'} quic r h) =
    close_next-IsGuarded quic n n' (Running-IsGuarded names r) h

none_alive : (s : Status) → (is_alive s ≡ true → false ≡ true) → is_alive s ≡ false
none_alive s h = elim (Bool-cases (is_alive s)) [ inl e ↦ absurd (cc (h e)) | inr e ↦ e ]

-- However the goroutines interleave, once Close has returned the pool is closed, no handler works
-- on a connection and no connection of the pool is alive, and it stays so.
pub closed_for_good :
    (names : List Text) (n : Node) (e : Option Err) (k : Text) (c : Link)
    → Running names n
    → n.closing ≡ ended e
    → Dict.lookup k n.pool.links ≡ some c
    → (n.is_closed ≡ true) × (n.working ≡ 0) × (is_alive c.status ≡ false)
closed_for_good names n e k c r h found =
    let (a, b, q) : StageHolds (ended e) n =
      subst (λ c. StageHolds c n) h (Running-IsGuarded names r).1 in
    (a, b, none_alive c.status (q k c found))

-- The poll of Close in its loop: it goes on while a handler is between its Add of 1 and its Add of
-- -1, and otherwise begins the loop over the connections.
abbrev pub polled : Option Cause → Node → Closing
polled listener n =
    if n.checking + n.working + n.refused == 0
    then closing_links (map (λ (x : Text × Link). x.0) n.pool.links) (listener_error listener)
    else polling

-- However the goroutines interleave, the counter of the handlers is the number of those between
-- their Add of 1 and their Add of -1, whether Close has been called or not; and a poll in the loop of
-- Close goes on if there is such a handler, and otherwise begins the loop over the connections.
pub poll-Running :
    (names : List Text) (n m : Node) (listener : Option Cause)
    → Running names n
    → Running names m
    → m.closing ≡ polling
    → (n.handlers ≡ n.checking + n.working + n.refused)
      × ((poll listener m).closing ≡ polled listener m)
unfolding poll
poll-Running names n m listener r s at_poll =
    let v = (Running-IsGuarded names s).0 in
    (
      (Running-IsGuarded names r).0,
      elim (Bool-cases (m.handlers == 0)) [
        | inl f ↦ rw (at_poll, f, sym v, f, poll) refl
        | inr f ↦ rw (at_poll, f, sym v, f, poll) at_poll
      ],
    )
