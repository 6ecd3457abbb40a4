-- ===== src/P2p/Conflicts/Tests.antt =====
-- Two peers, a and b, on one path.
use mathlib.Core.List.Permᴰ
use replicated_file_system.Common.{ℕ, ◌≡◌, refl, none, some, [], ◌∷◌, Text, codes}
use replicated_file_system.Protobuf.{Request, Metadata, Message, create, request_msg, get_request}
use replicated_file_system.P2p.Transactions.{Transaction, Transactions}
use replicated_file_system.P2p.Conflicts.{detect_and_resolve_conflict}
use replicated_file_system.P2p.Conflicts.Priority.{
  Beats, HasMetadata, SomeTransaction, EveryTransaction,
}
use replicated_file_system.P2p.Conflicts.Decision.{Decides, detect-Decides}
use replicated_file_system.P2p.Conflicts.Order.{detect-perm}

abbrev notes : Metadata
notes = record {
  relative_path = codes "notes";
  new_relative_path = [];
  mode = 420;
  write_offset = 0;
  read_offset = 0;
  write_len = 0;
}

abbrev making : ℕ → Request
making clock = record { type = create; metadata = some notes; clock = clock; content = none }

abbrev from : Text → ℕ → Message
from name clock = record { tid = name; peer_name = name; type = request_msg (making clock) }

-- The request of b is open with a higher clock, and a transaction without request.
abbrev held : Transaction
held = record {
  tid = codes "b";
  initiator_name = codes "b";
  request = some (making 1);
  responses = [];
}

abbrev empty : Transaction
empty = record { tid = codes "e"; initiator_name = []; request = none; responses = [] }

abbrev open_ones : Transactions
open_ones = (codes "b", held) ∷ (codes "e", empty) ∷ []

abbrev reordered : Transactions
reordered = (codes "e", empty) ∷ (codes "b", held) ∷ []

held-HasMetadata : HasMetadata held
held-HasMetadata r e = (notes, cc)

empty-HasMetadata : HasMetadata empty
empty-HasMetadata r e = absurd cc

detect-Decides_example :
    Decides
      (detect_and_resolve_conflict open_ones (from (codes "a") 0))
      (SomeTransaction (Beats (codes "a") (making 0) notes) open_ones)
      (EveryTransaction (λ t. ¬ Beats (codes "a") (making 0) notes t) open_ones)
unfolding get_request
detect-Decides_example =
    detect-Decides open_ones (from (codes "a") 0) (making 0) notes refl refl
      (held-HasMetadata, (empty-HasMetadata, tt))

detect-perm_example :
    detect_and_resolve_conflict open_ones (from (codes "a") 0)
    ≡ detect_and_resolve_conflict reordered (from (codes "a") 0)
unfolding get_request
detect-perm_example =
    detect-perm open_ones reordered (from (codes "a") 0) (making 0) notes refl refl
      (held-HasMetadata, (empty-HasMetadata, tt)) ∣ Permᴰ.swap refl refl ∣₁
