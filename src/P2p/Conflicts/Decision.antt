-- ===== src/P2p/Conflicts/Decision.antt =====
-- p2p/conflicts_resolver.go: the decision against its description in Priority.
use replicated_file_system.Common.{
  ◌≡◌, refl, ◌⊎◌, inl, inr, Bool, true, false, some, none, Text, text_eq_iff, [], ◌∷◌, Outcome,
  returns, arith, Option-cases,
}
use replicated_file_system.Protobuf.{Request, Metadata, Message, get_request}
use replicated_file_system.P2p.Transactions.{Transaction, Transactions}
use replicated_file_system.P2p.Conflicts.{
  beaten_by, check_transaction, detect_loop, detect_and_resolve_conflict,
}
use replicated_file_system.P2p.Conflicts.Priority.{
  Beats, HasMetadata, SomeTransaction, EveryTransaction,
}

-- Either the call says "conflict" and the first part holds, or it says "none" and the second does.
abbrev pub Decides : Outcome Bool → Type 0 → Type 0 → Type 0
Decides r P Q = ((r ≡ returns true) × P) ⊎ ((r ≡ returns false) × Q)

module _ (peer_name : Text) (req : Request) (ours : Metadata) (has : req.metadata ≡ some ours) where
  beaten_by-Decides :
      (t : Transaction) (held : Request) (theirs : Metadata)
      → t.request ≡ some held
      → held.metadata ≡ some theirs
      → Decides
          (beaten_by held t.initiator_name peer_name req)
          (Beats peer_name req ours t)
          (¬ Beats peer_name req ours t)
  unfolding beaten_by
  beaten_by-Decides t held theirs e m = ground (
    arith,
    text_eq_iff t.initiator_name peer_name,
    text_eq_iff theirs.relative_path ours.relative_path,
    text_eq_iff theirs.new_relative_path ours.new_relative_path,
  )

  check-held :
      (t : Transaction) (held : Request)
      → t.request ≡ some held
      → check_transaction t peer_name req ≡ beaten_by held t.initiator_name peer_name req
  unfolding check_transaction
  check-held t held e = ground arith

  check-empty :
      (t : Transaction) → t.request ≡ none → check_transaction t peer_name req ≡ returns false
  unfolding check_transaction
  check-empty t e = ground arith

  pub check-Decides :
      (t : Transaction)
      → HasMetadata t
      → Decides
          (check_transaction t peer_name req)
          (Beats peer_name req ours t)
          (¬ Beats peer_name req ours t)
  check-Decides t h = elim (Option-cases t.request) [
    | inl e ↦ inr (check-empty t e, λ b. cc (b.2, e))
    | inr (held, e) ↦
        let (theirs, m) = h held e in rw (check-held t held e) (beaten_by-Decides t held theirs e m)
  ]

  detect_loop-Decides :
      (ts : Transactions)
      → EveryTransaction HasMetadata ts
      → Decides
          (detect_loop ts peer_name req)
          (SomeTransaction (Beats peer_name req ours) ts)
          (EveryTransaction (λ t. ¬ Beats peer_name req ours t) ts)
  unfolding detect_loop
  detect_loop-Decides [] h = inr (refl, tt)
  detect_loop-Decides ((k, t) ∷ ts) h = elim (check-Decides t h.0) [
    | inl (e, b) ↦ inl (rw e, inl b)
    | inr (e, n) ↦ elim (detect_loop-Decides ts h.1) [
      | inl (e', b) ↦ inl (rw e e', inr b)
      | inr (e', ns) ↦ inr (rw e e', (n, ns))
    ]
  ]

-- Where every open request has its metadata, the call on a request returns, with a conflict if
-- some open transaction of another peer on the same two paths comes before it in the order by
-- clock and name, and with no error if none does.
pub detect-Decides :
    (ts : Transactions) (msg : Message) (req : Request) (ours : Metadata)
    → get_request msg ≡ some req
    → req.metadata ≡ some ours
    → EveryTransaction HasMetadata ts
    → Decides
        (detect_and_resolve_conflict ts msg)
        (SomeTransaction (Beats msg.peer_name req ours) ts)
        (EveryTransaction (λ t. ¬ Beats msg.peer_name req ours t) ts)
unfolding detect_and_resolve_conflict
detect-Decides ts msg req ours g has h = rw g (detect_loop-Decides msg.peer_name req ours has ts h)
