-- ===== src/P2p/Conflicts/Priority.antt =====
-- Who gives way: the order of requests by clock, then by the name of the initiator, and what a
-- conflict is.
use replicated_file_system.Common.{ℕ, ◌<◌, ◌≡◌, ◌≢◌, ◌⊎◌, true, some, Text, text_lt, [], ◌∷◌}
use replicated_file_system.Protobuf.{Request, Metadata}
use replicated_file_system.P2p.Transactions.{Transaction, Transactions}

-- (clock, name) of the first is lexicographically below that of the second.
abbrev pub Yields : ℕ → Text → ℕ → Text → Type 0
Yields c s d t = (c < d) ⊎ ((c ≡ d) × (text_lt s t ≡ true))

-- The transaction holds another peer's request on the same two paths, and ours yields to it.
abbrev pub Beats : Text → Request → Metadata → Transaction → Type 0
Beats peer_name req ours t =
    (held : Request) × (theirs : Metadata) × (t.request ≡ some held)
    × (held.metadata ≡ some theirs)
    × (t.initiator_name ≢ peer_name)
    × (theirs.relative_path ≡ ours.relative_path)
    × (theirs.new_relative_path ≡ ours.new_relative_path)
    × Yields req.clock peer_name held.clock t.initiator_name

-- Every request that a transaction holds has its metadata.
abbrev pub HasMetadata : Transaction → Type 0
HasMetadata t = (held : Request) → t.request ≡ some held → (m : Metadata) × (held.metadata ≡ some m)

abbrev pub SomeTransaction : (Transaction → Type 0) → Transactions → Type 0
SomeTransaction P [] = ⊥
SomeTransaction P ((k, t) ∷ ts) = P t ⊎ SomeTransaction P ts

abbrev pub EveryTransaction : (Transaction → Type 0) → Transactions → Type 0
EveryTransaction P [] = Unit {0}
EveryTransaction P ((k, t) ∷ ts) = P t × EveryTransaction P ts
