-- ===== src/P2p/Conflicts.antt =====
-- p2p/conflicts_resolver.go. The loop runs over the map in some iteration order, here the list's.
pub mod Priority
pub mod Decision
pub mod Order
mod Tests
use replicated_file_system.Common.{
  ℕ, ◌+◌, ◌%◌, ◌^◌, Bool, true, false, ◌&&◌, Option, none, some, List, [], ◌∷◌, Text, text_eq,
  text_lt, ltb, ◌==◌, if◌then◌else◌, Outcome, returns, panics, ◌>>=◌, deref,
}
use replicated_file_system.Protobuf.{Request, Metadata, Message, get_request}
use replicated_file_system.P2p.Transactions.{Transaction, Transactions}

-- clock.Add(1) on a uint64.
unfoldable pub increment_clock : ℕ → ℕ
increment_clock clock = (clock + 1) % 2 ^ 64

unfoldable pub same_paths : Metadata → Metadata → Bool
same_paths m n =
    text_eq m.relative_path n.relative_path && text_eq m.new_relative_path n.new_relative_path

-- The tests on one transaction that holds a request: true is the return of ErrTransactionConflict.
unfoldable pub beaten_by : Request → Text → Text → Request → Outcome Bool
unfolding same_paths
beaten_by held initiator peer_name req =
    if text_eq initiator peer_name
    then returns false
    else deref held.metadata >>= λ theirs. deref req.metadata >>= λ ours. returns (
        if same_paths theirs ours
        then (if ltb req.clock held.clock
            then true
            else (req.clock == held.clock) && text_lt peer_name initiator)
        else false)

-- One round of the loop.
unfoldable pub check_transaction : Transaction → Text → Request → Outcome Bool
unfolding beaten_by
check_transaction t peer_name req = elim t.request [
  | none ↦ returns false
  | some held ↦ beaten_by held t.initiator_name peer_name req
]

unfoldable pub detect_loop : Transactions → Text → Request → Outcome Bool
detect_loop [] peer_name req = returns false
detect_loop ((k, t) ∷ rest) peer_name req =
    let later = detect_loop rest peer_name req in
    check_transaction t peer_name req >>= λ hit. if hit then returns true else later

-- DetectAndResolveConflict: true is ErrTransactionConflict. A message that is no request panics.
unfoldable pub detect_and_resolve_conflict : Transactions → Message → Outcome Bool
unfolding detect_loop
detect_and_resolve_conflict ts msg =
    deref (get_request msg) >>= λ req. detect_loop ts msg.peer_name req
