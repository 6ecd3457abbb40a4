-- ===== src/Connection/Shutdown/Refusal.antt =====
-- connection/pool.go: Broadcast on a pool that has been closed.
use replicated_file_system.Common.{
  ◌≡◌, ◌≢◌, refl, false, true, length, Option, none, some, List, [], ◌∷◌, Text, text_eq_refl, All,
  inl, inr, subst, sym, Bool-cases, ◌==◌, returns, >>=-eq-returns, returns-injective, arith,
}
use replicated_file_system.Common.Dict
use replicated_file_system.Errors.{Err, Cause, plain, peer_is_down, conn, closed}
use replicated_file_system.Connection.Link.{Link, alive, is_alive, Failure, judge, ignores}
use replicated_file_system.Connection.Pool.{Pool, broadcast, Quic}
use replicated_file_system.Connection.Pool.Reach.{
  Reached, fresh, begins, commits, closes, receives, hears, sends, broadcast_complete,
  Reached-IsSound,
}
use replicated_file_system.Connection.Pool.Count.{every_link_alive}
use replicated_file_system.Connection.Shutdown.{
  Closing, closing_links, ended, running, polling, Node, new_node, add_handler, load_closed,
  remove_working, remove_refused, begin_close, poll, close_next,
}
use replicated_file_system.Connection.Shutdown.Silence.{Links}
use replicated_file_system.Connection.Shutdown.Moves.{Moves}
use replicated_file_system.Connection.Shutdown.Running.{Running, starts, closed_for_good}

Moves-Reached : (names : List Text) {p q : Pool} → Reached names p → Moves p q → Reached names q
Moves-Reached names r (Moves.begins host name perspective sent msg h) =
    begins host name perspective sent msg r h
Moves-Reached names r (Moves.shuts name quic err h) = closes name quic err r h
Moves-Reached names r (Moves.receives name incoming h) = receives name incoming r h
Moves-Reached names r (Moves.hears name c found) = hears name c r found
Moves-Reached names r (Moves.sends wire) = sends wire r

nothing_alive :
    (P : Text × Link → Type 0) (ps : Links)
    → All (λ x. (x.1.status ≡ alive) × P x) ps
    → ((k : Text) (c : Link) → Dict.lookup k ps ≡ some c → is_alive c.status ≡ false)
    → ps ≡ []
unfolding Dict.lookup is_alive
nothing_alive P [] h off = refl
nothing_alive P ((k, c) ∷ ps) ((up, _), _) off =
    absurd (cc (off k c (rw (text_eq_refl k) refl), up))

load-pool : (n : Node) → (load_closed n).pool ≡ n.pool
unfolding load_closed
load-pool n = ground arith

remove_working-pool : (n : Node) → (remove_working n).pool ≡ n.pool
unfolding remove_working
remove_working-pool n = ground arith

remove_refused-pool : (n : Node) → (remove_refused n).pool ≡ n.pool
unfolding remove_refused
remove_refused-pool n = ground arith

poll-pool :
    (listener : Option Cause) (n : Node) (c : Closing)
    → n.closing ≡ c
    → (poll listener n).pool ≡ n.pool
unfolding poll
poll-pool listener n running e = rw (e, poll) refl
poll-pool listener n polling e = elim (Bool-cases (n.handlers == 0)) [
  | inl f ↦ rw (e, f, poll) refl
  | inr f ↦ rw (e, f, poll) refl
]
poll-pool listener n (closing_links names errs) e = rw (e, poll) refl
poll-pool listener n (ended x) e = rw (e, poll) refl

close_next-Reached :
    (names : List Text) (quic : Text → Quic) (n n' : Node) (c : Closing)
    → Reached names n.pool
    → n.closing ≡ c
    → close_next quic n ≡ returns n'
    → Reached names n'.pool
unfolding close_next
close_next-Reached names quic n n' running r e h =
    subst (λ (m : Node). Reached names m.pool) (returns-injective n n' (rw (e, close_next) at h)) r
close_next-Reached names quic n n' polling r e h =
    subst (λ (m : Node). Reached names m.pool) (returns-injective n n' (rw (e, close_next) at h)) r
close_next-Reached names quic n n' (ended x) r e h =
    subst (λ (m : Node). Reached names m.pool) (returns-injective n n' (rw (e, close_next) at h)) r
close_next-Reached names quic n n' (closing_links [] errs) r e h =
    subst (λ (m : Node). Reached names m.pool) (returns-injective _ n' (rw (e, close_next) at h)) r
close_next-Reached names quic n n' (closing_links (k ∷ ks) errs) r e h =
    let ((p, x), shut, rest) = >>=-eq-returns _ _ (rw (e, close_next) at h) in
    subst (λ (m : Node). Reached names m.pool) (returns-injective _ n' rest)
      (closes k (quic k) (conn closed) r shut)

Running-Reached : (names : List Text) {n : Node} → Running names n → Reached names n.pool
unfolding new_node add_handler begin_close
Running-Reached names starts = fresh
Running-Reached names (Running.adds r) = Running-Reached names r
Running-Reached names (Running.loads {n} r) =
    subst (Reached names) (sym (load-pool n)) (Running-Reached names r)
Running-Reached names (Running.leaves {n} r) =
    subst (Reached names) (sym (remove_working-pool n)) (Running-Reached names r)
Running-Reached names (Running.turns_away {n} r) =
    subst (Reached names) (sym (remove_refused-pool n)) (Running-Reached names r)
Running-Reached names (Running.moves r m) = Moves-Reached names (Running-Reached names r) m
Running-Reached names (Running.commits name perspective r busy h) =
    commits name perspective (Running-Reached names r) h
Running-Reached names (Running.begins_close r h) = Running-Reached names r
Running-Reached names (Running.polls {n} listener r) =
    subst (Reached names) (sym (poll-pool listener n n.closing refl)) (Running-Reached names r)
Running-Reached names (Running.closes_next {n} {n'} quic r h) =
    close_next-Reached names quic n n' n.closing (Running-Reached names r) refl h

-- Once Close has returned, Broadcast on a pool that has a peer returns an error, whatever the
-- network does.
closed-broadcast :
    (names : List Text) (wire : Text → Option Failure) (n : Node) (e : Option Err)
    → Running names n
    → n.closing ≡ ended e
    → n.pool.links ≢ []
    → (broadcast wire n.pool).1 ≢ none
closed-broadcast names wire n e r h some_peer sent =
    let all_up = (broadcast_complete names wire n.pool (Running-Reached names r) sent).1 in
    some_peer (
      nothing_alive (λ x. judge (wire x.0) ≡ ignores) n.pool.links all_up
        (λ k c found. (closed_for_good names n e k c r h found).2))

no_link_alive :
    (ps : Links)
    → All (λ x. is_alive x.1.status ≡ true) ps
    → ((k : Text) (c : Link) → Dict.lookup k ps ≡ some c → is_alive c.status ≡ false)
    → ps ≡ []
unfolding Dict.lookup
no_link_alive [] h off = refl
no_link_alive ((k, c) ∷ ps) (up, _) off = absurd (cc (off k c (rw (text_eq_refl k) refl), up))

-- Its error is ErrPeerIsDown.
pub closed-peer_is_down :
    (names : List Text) (wire : Text → Option Failure) (n : Node) (e : Option Err)
    → Running names n
    → n.closing ≡ ended e
    → n.pool.links ≢ []
    → (broadcast wire n.pool).1 ≡ some (plain peer_is_down)
unfolding broadcast
closed-peer_is_down names wire n e r h some_peer =
    elim (Bool-cases (n.pool.active == length n.pool.links)) [
      | inr f ↦ rw f refl
      | inl f ↦ absurd (
          some_peer (
            no_link_alive n.pool.links
              (every_link_alive n.pool.links
                (ground (arith, (Reached-IsSound names (Running-Reached names r)).0.0)))
              (λ k c found. (closed_for_good names n e k c r h found).2)))
    ]
