-- ===== src/Connection/Pool.antt =====
-- connection/pool.go with the operations of connection/connection.go that change the counter of the
-- live connections. A step under a connection's mutex is one operation. What happens on the wire,
-- and how a QUIC connection closes, are arguments of the operations.
pub mod Count
pub mod Sends
pub mod Sound
pub mod Reach
mod Tests
use replicated_file_system.Common.{
  ℕ, ◌+◌, ◌-◌, Bool, true, false, not, ◌&&◌, Option, none, some, List, [], ◌∷◌, ◌==◌, Text, text_eq,
  length, if◌then◌else◌, Outcome, returns, panics, ◌>>=◌, deref, any,
}
use replicated_file_system.Common.Dict
use replicated_file_system.Errors.{
  Cause, conn, already_established, closed, peer_is_down, pool_closed, Err, plain, multi,
}
use replicated_file_system.Errors.Messages.{MultiErr, is_empty}
use replicated_file_system.Connection.Perspective.{unknown, Received, resolve_with}
use replicated_file_system.Connection.Link.{
  Link, new_link, is_alive, is_dead, establish_check, opened, ended, close_result, Failure,
  Judgement, ignores, keeps, closes, judge, judged, Incoming, incoming_judgement, Taken, error,
  bytes, taken,
}

pub record Pool : Type 0 where
  pub whitelist : List Text
  pub links : List (Text × Link)
  pub active : ℕ

-- A QUIC connection: whether its context is done, and CloseWithError (none for a nil connection).
pub record Quic : Type 0 where
  pub context_done : Bool
  pub close_with_error : Option (ℕ → Option Cause)

unfoldable pub new_links : List Text → List (Text × Link)
unfolding new_link
new_links [] = []
new_links (name ∷ names) = Dict.insert name new_link (new_links names)

-- NewPool, from the names of the peers.
unfoldable pub new_pool : List Text → Pool
unfolding new_links
new_pool names = record { whitelist = names; links = new_links names; active = 0 }

-- VerifyConnection, on the common names of the peer's certificates: true is nil.
unfoldable pub verify_connection : Pool → List Text → Bool
verify_connection p (name ∷ []) = any (λ known. text_eq known name) p.whitelist
verify_connection p _ = false

-- A change of the connection that a name points to.
unfoldable pub adjust : Text → Link → List (Text × Link) → List (Text × Link)
adjust name c [] = []
adjust name c ((k, d) ∷ rest) =
    let later = adjust name c rest in if text_eq k name then (k, c) ∷ rest else (k, d) ∷ later

-- Resolve, on the resolver of a connection.
unfoldable pub resolve_link :
    Text → Text → ℕ → Option Cause → Received → Link → Pool → Pool × Option Cause
unfolding adjust
resolve_link host name perspective sent msg c p =
    let (counter, e) = resolve_with c.counter perspective host name sent msg in
    (record p { links = adjust name (record c { counter = counter }) p.links }, e)

unfoldable pub unless_established : Option Cause → Pool × Option Cause → Pool → Pool × Option Cause
unless_established (some e) resolved p = (p, some e)
unless_established none resolved p = resolved

-- Establish before it takes the mutex. An unknown name is a nil pointer.
unfoldable pub begin_establish :
    Text → Text → ℕ → Option Cause → Received → Pool → Outcome (Pool × Option Cause)
unfolding establish_check resolve_link unless_established
begin_establish host name perspective sent msg p = deref (Dict.lookup name p.links) >>= λ c.
    returns
      (unless_established (establish_check c) (resolve_link host name perspective sent msg c p) p)

-- Establish under the mutex.
unfoldable pub commit_link : Text → ℕ → Link → Pool → Pool × Option Cause
unfolding is_alive adjust opened
commit_link name perspective c p =
    if is_alive c.status then (p, some (conn already_established)) else (
      record p { links = adjust name (opened perspective c) p.links; active = p.active + 1 },
      none,
    )

unfoldable pub commit_establish : Text → ℕ → Pool → Outcome (Pool × Option Cause)
unfolding commit_link
commit_establish name perspective p =
    deref (Dict.lookup name p.links) >>= λ c. returns (commit_link name perspective c p)

unfoldable pub and_commit : Text → ℕ → Pool × Option Cause → Outcome (Pool × Option Cause)
unfolding commit_establish
and_commit name perspective (p, some e) = returns (p, some e)
and_commit name perspective (p, none) = commit_establish name perspective p

-- Establish, and add around it; add closes the QUIC connection on an error.
unfoldable pub establish :
    Text → Text → ℕ → Option Cause → Received → Pool → Outcome (Pool × Option Cause)
unfolding begin_establish and_commit
establish host name perspective sent msg p =
    begin_establish host name perspective sent msg p >>= and_commit name perspective

-- Close of one connection, called with an error.
unfoldable pub close_link : Text → Quic → Cause → Link → Pool → Pool × Option Cause
unfolding is_dead adjust ended close_result
close_link name quic err c p = if is_dead c.status then (p, none) else (
  record p { links = adjust name (ended c) p.links; active = p.active - 1 },
  close_result quic.context_done quic.close_with_error err,
)

unfoldable pub close : Text → Quic → Cause → Pool → Outcome (Pool × Option Cause)
unfolding close_link
close name quic err p =
    deref (Dict.lookup name p.links) >>= λ c. returns (close_link name quic err c p)

-- A connection, and the live ones that are lost, after handleErrors.
unfoldable pub after_judgement : Judgement → Link → Link
unfolding ended
after_judgement (closes e) c = ended c
after_judgement _ c = c

unfoldable pub lost : Judgement → ℕ
lost (closes e) = 1
lost _ = 0

-- Recv of a connection that is not dead.
unfoldable pub recv_link : Text → Incoming → Link → Pool → Pool × Taken
unfolding after_judgement lost adjust incoming_judgement taken
recv_link name incoming c p =
    let j = incoming_judgement incoming in
    (
      record p { links = adjust name (after_judgement j c) p.links; active = p.active - lost j },
      taken incoming j,
    )

-- Recv
unfoldable pub recv : Text → Incoming → Pool → Outcome (Pool × Taken)
unfolding recv_link is_dead
recv name incoming p = deref (Dict.lookup name p.links) >>= λ c.
    returns (if is_dead c.status then (p, error (conn closed)) else recv_link name incoming c p)

-- WaitForOpen, when it receives from openNotify.
unfoldable pub take_notice : Text → Link → Pool → Pool
unfolding adjust
take_notice name c p = record p {
  links = adjust name (record c { notices = c.notices - 1 }) p.links;
}

-- Send to one connection, with the failure of send: what is left of it, how many live ones are
-- lost, and the error.
unfoldable pub send_to : Option Failure → Link → Link × ℕ × Option Cause
unfolding is_dead after_judgement lost judge judged
send_to failure c =
    if is_dead c.status
    then (c, 0, some (conn closed))
    else (after_judgement (judge failure) c, lost (judge failure), judged (judge failure))

-- Broadcast's goroutines, one for each connection.
unfoldable pub send_all :
    (Text → Option Failure) → List (Text × Link) → List (Text × Link) × ℕ × MultiErr
unfolding send_to
send_all wire [] = ([], 0, [])
send_all wire ((name, c) ∷ rest) =
    let (c', n, e) = send_to (wire name) c in
    let (rest', m, errs) = send_all wire rest in
    ((name, c') ∷ rest', n + m, elim e [ none ↦ errs | some x ↦ (name, x) ∷ errs ])

unfoldable pub multi_error : MultiErr → Option Err
multi_error [] = none
multi_error (e ∷ errs) = some (multi (e ∷ errs))

-- Broadcast
unfoldable pub broadcast : (Text → Option Failure) → Pool → Pool × Option Err
unfolding send_all multi_error
broadcast wire p =
    if p.active == length p.links
    then (let (links, n, errs) = send_all wire p.links in
        (record p { links = links; active = p.active - n }, multi_error errs))
    else (p, some (plain peer_is_down))
