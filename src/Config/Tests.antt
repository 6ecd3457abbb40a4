-- ===== src/Config/Tests.antt =====
-- A list of three peers, and the paths of a configuration.
use replicated_file_system.Common.{
  ◌≡◌, ◌≢◌, refl, none, some, [], ◌∷◌, Text, codes, text_eq, returns,
}
use replicated_file_system.Config.{Config, Peer, Paths, goes_on, pop, must_unmarshal_config}
use replicated_file_system.Config.Pop.{pop_listed}
use replicated_file_system.Config.Expanded.{Means, must_unmarshal_config-Means}

abbrev peer : Text → Peer
peer name = record { name = name; address = codes "10.0.0.1:9000" }

abbrev a : Peer
a = peer (codes "a")

abbrev b : Peer
b = peer (codes "b")

abbrev c : Peer
c = peer (codes "c")

pop_listed_example :
    pop (codes "b") (a ∷ b ∷ c ∷ [])
    ≡ returns (record { peer = b; sliced = a ∷ c ∷ []; receiver = a ∷ c ∷ c ∷ [] })
unfolding text_eq
pop_listed_example = pop_listed (codes "b") (a ∷ []) b (c ∷ []) (refl, tt) refl

abbrev paths : Paths
paths = record { fuse_dir = codes "~/rfs"; mirror_dir = codes "/var/mirror" }

abbrev decoded : Config
decoded = record {
  host_name = [];
  connection = none;
  peers = [];
  paths = some paths;
  logging = none;
  replication_timeout = 0;
}

fuse_is_below : codes "~/rfs" ≢ codes "~"
fuse_is_below e = cc

mirror_is_below : codes "/var/mirror" ≢ codes "~"
mirror_is_below e = cc

must_unmarshal_config-Means_example :
    (q : Paths) × (must_unmarshal_config (λ raw. some decoded) (some (codes "/home")) []
      ≡ goes_on (record decoded { paths = some q }))
    × Means (codes "/home") paths.fuse_dir q.fuse_dir
    × Means (codes "/home") paths.mirror_dir q.mirror_dir
must_unmarshal_config-Means_example =
    must_unmarshal_config-Means (λ raw. some decoded) (codes "/home") [] decoded paths refl refl
      fuse_is_below mirror_is_below
