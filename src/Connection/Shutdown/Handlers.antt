-- ===== src/Connection/Shutdown/Handlers.antt =====
-- connection/pool.go: dialOnce and a round of acceptConnections, as steps of the handlers.
use replicated_file_system.Common.{
  ℕ, ◌+◌, ◌≡◌, refl, subst, ap, Bool, true, false, Option, none, some, Text, List, ◌==◌,
  if◌then◌else◌, inl, inr, returns, ◌>>=◌, >>=-eq-returns, returns-injective, Bool-cases, arith,
}
use replicated_file_system.Errors.{Cause, pool_closed}
use replicated_file_system.Connection.Perspective.{Received, client, server}
use replicated_file_system.Connection.Pool.{Pool, begin_establish, and_commit, establish}
use replicated_file_system.Connection.Shutdown.{
  Node, add_handler, load_closed, remove_working, remove_refused, add, Dialed, dial_fails, dials,
  work, dial_once, accept_once,
}
use replicated_file_system.Connection.Shutdown.Moves.{Moves}
use replicated_file_system.Connection.Shutdown.Running.{
  Running, adds, loads, leaves, turns_away, moves, commits,
}

and_commit-Running :
    (names : List Text) (n : Node) (name : Text) (perspective : ℕ) (r q : Pool × Option Cause)
    → Running names (record n { pool = r.0 })
    → (n.working == 0) ≡ false
    → and_commit name perspective r ≡ returns q
    → Running names (record n { pool = q.0 })
unfolding and_commit
and_commit-Running names n name perspective (p, some e) q r busy h =
    subst (λ (x : Pool × Option Cause). Running names (record n { pool = x.0 }))
      (returns-injective (p, some e) q h) r
and_commit-Running names n name perspective (p, none) (p', e) r busy h =
    commits name perspective r busy h

establish-Running :
    (names : List Text) (n : Node) (host name : Text) (perspective : ℕ) (sent : Option Cause)
    (msg : Received) (q : Pool × Option Cause)
    → Running names n
    → (n.working == 0) ≡ false
    → establish host name perspective sent msg n.pool ≡ returns q
    → Running names (record n { pool = q.0 })
unfolding establish
establish-Running names n host name perspective sent msg q r busy h =
    let ((p, e), began, rest) =
      >>=-eq-returns (begin_establish host name perspective sent msg n.pool)
        (and_commit name perspective) h in
    and_commit-Running names n name perspective (p, e) q
      (moves r (Moves.begins host name perspective sent msg began)) busy rest

work-Running :
    (names : List Text) (n : Node) (host : Text) (perspective : ℕ) (dialed : Dialed)
    (q : Node × Option Cause)
    → Running names n
    → (n.working == 0) ≡ false
    → work host perspective dialed n ≡ returns q
    → Running names q.0
unfolding work add
work-Running names n host perspective (dial_fails e) q r busy h =
    subst (λ (x : Node × Option Cause). Running names x.0) (returns-injective (n, some e) q h) r
work-Running names n host perspective (dials name sent msg quic) q r busy h =
    let ((p, e, logged), added, rest) = >>=-eq-returns _ _ h in
    let ((p', e'), established, same) = >>=-eq-returns _ _ added in
    let same_pool =
      ap (λ (x : Pool × Option Cause × Option Cause). x.0)
        (returns-injective _ (p, e, logged) same) in
    subst (λ (x : Node × Option Cause). Running names x.0) (returns-injective _ q rest)
      (subst (λ (x : Pool). Running names (record n { pool = x })) same_pool
        (establish-Running names n host name perspective sent msg (p', e') r busy established))

busy_lem : (n : Node) → n.is_closed ≡ false → ((load_closed (add_handler n)).working == 0) ≡ false
unfolding load_closed add_handler
busy_lem n still_open = elim (Bool-cases (n.checking + 1 == 0)) [
  | inl f ↦ absurd (ground (arith, f))
  | inr f ↦ rw (f, still_open, load_closed) (ground arith)
]

-- The work of a handler changes the pool only.
work-fields :
    (host : Text) (perspective : ℕ) (dialed : Dialed) (n : Node) (q : Node × Option Cause)
    → work host perspective dialed n ≡ returns q
    → record n { pool = q.0.pool } ≡ q.0
unfolding work
work-fields host perspective (dial_fails e) n q h =
    subst (λ (x : Node × Option Cause). record n { pool = x.0.pool } ≡ x.0)
      (returns-injective (n, some e) q h) refl
work-fields host perspective (dials name sent msg quic) n q h =
    let ((p, e, logged), added, rest) =
      >>=-eq-returns (add host name perspective sent msg quic n.pool) _ h in
    subst (λ (x : Node × Option Cause). record n { pool = x.0.pool } ≡ x.0)
      (returns-injective (record n { pool = p }, e) q rest) refl

-- The same number of handlers, and as many of them in each place.
abbrev pub SameHandlers : Node → Node → Type 0
SameHandlers n m =
    (m.handlers ≡ n.handlers)
    × (m.checking ≡ n.checking)
    × (m.working ≡ n.working)
    × (m.refused ≡ n.refused)

refused-SameHandlers :
    (n : Node) → n.is_closed ≡ true → SameHandlers n (remove_refused (load_closed (add_handler n)))
unfolding remove_refused load_closed add_handler
refused-SameHandlers n shut = ground arith

worked-SameHandlers :
    (n : Node) (p : Pool)
    → n.is_closed ≡ false
    → SameHandlers n (remove_working (record (load_closed (add_handler n)) { pool = p }))
unfolding remove_working load_closed add_handler
worked-SameHandlers n p still_open = ground arith

-- A handler that is turned away, or that works and leaves.
handler-Running :
    {R : Type 0} (names : List Text) (host : Text) (perspective : ℕ) (dialed : Dialed) (n : Node)
    (refusal : R) (result : Option Cause → R) (is_shut : Bool) (q : Node × R)
    → Running names n
    → n.is_closed ≡ is_shut
    → (if is_shut
        then returns (remove_refused (load_closed (add_handler n)), refusal)
        else (work host perspective dialed (load_closed (add_handler n)) >>= λ (m, e).
            returns (remove_working m, result e)))
      ≡ returns q
    → Running names q.0 × SameHandlers n q.0
handler-Running {R} names host perspective dialed n refusal result true q r shut h =
    subst (λ (x : Node × R). Running names x.0 × SameHandlers n x.0) (returns-injective _ q h)
      (turns_away (loads (adds r)), refused-SameHandlers n shut)
handler-Running {R} names host perspective dialed n refusal result false q r shut h =
    let ((m, e), worked, rest) = >>=-eq-returns _ _ h in
    let kept = work-fields host perspective dialed (load_closed (add_handler n)) (m, e) worked in
    subst (λ (x : Node × R). Running names x.0 × SameHandlers n x.0) (returns-injective _ q rest)
      (
        leaves (
            work-Running names (load_closed (add_handler n)) host perspective dialed (m, e)
              (loads (adds r)) (busy_lem n shut) worked),
        subst (λ (x : Node). SameHandlers n (remove_working x)) kept
            (worked-SameHandlers n m.pool shut),
      )

-- A dialOnce that no other goroutine interrupts, from any node of the shutdown's interleavings and
-- whatever the dial gives, that does not panic: it leads to a node that they reach too, and it leaves
-- no handler behind: the counter, and the handlers in each of the three places, are as many as before.
pub dial_once-Running :
    (names : List Text) (host : Text) (dialed : Dialed) (n n' : Node) (e : Option Cause)
    → Running names n
    → dial_once host dialed n ≡ returns (n', e)
    → Running names n' × SameHandlers n n'
unfolding dial_once
dial_once-Running names host dialed n n' e r h =
    handler-Running names host client dialed n (some pool_closed) (λ e'. e') n.is_closed (n', e) r
      refl h

-- The same for a round of acceptConnections, with the goroutine that it starts.
pub accept_once-Running :
    (names : List Text) (host : Text) (accepted : Dialed) (n n' : Node) (goes_on : Bool)
    → Running names n
    → accept_once host accepted n ≡ returns (n', goes_on)
    → Running names n' × SameHandlers n n'
unfolding accept_once
accept_once-Running names host accepted n n' goes_on r h =
    handler-Running names host server accepted n false (λ e'. true) n.is_closed (n', goes_on) r refl
      h
