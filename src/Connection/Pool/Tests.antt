-- ===== src/Connection/Pool/Tests.antt =====
-- A pool of one peer, b, whose connection is established.
use replicated_file_system.Common.{◌≡◌, refl, Option, none, [], ◌∷◌, Text, codes, All, text_eq}
use replicated_file_system.Common.Dict
use replicated_file_system.Connection.Perspective.{client}
use replicated_file_system.Connection.Link.{
  alive, new_link, is_alive, opened, Failure, ignores, judge,
}
use replicated_file_system.Connection.Pool.{
  Pool, new_links, new_pool, adjust, commit_link, commit_establish, broadcast,
}
use replicated_file_system.Connection.Pool.Count.{count_alive}
use replicated_file_system.Connection.Pool.Reach.{Reached, fresh, commits, broadcast_complete}

abbrev b : Text
b = codes "b"

abbrev connected : Pool
connected = record {
  whitelist = b ∷ [];
  links = (b, record { status = alive; perspective = client; counter = 0; notices = 1 }) ∷ [];
  active = 1;
}

connected-Reached : Reached (b ∷ []) connected
unfolding new_pool new_links new_link commit_establish commit_link opened Dict.lookup Dict.insert
    adjust is_alive text_eq
connected-Reached = commits b client {e = none} fresh refl

abbrev wire : Text → Option Failure
wire name = none

broadcast_complete_example :
    (connected.active ≡ count_alive connected.links)
    × All (λ x. (x.1.status ≡ alive) × (judge (wire x.0) ≡ ignores)) connected.links
unfolding broadcast
broadcast_complete_example = broadcast_complete (b ∷ []) wire connected connected-Reached refl
