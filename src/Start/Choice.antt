-- ===== src/Start/Choice.antt =====
-- main.go: the host that the program runs.
use replicated_file_system.Common.{
  ◌≡◌, ◌≢◌, refl, false, List, [], ◌∷◌, ◌++◌, Text, inr, length, ◌==◌, returns, arith, ap, ◌∙◌,
}
use replicated_file_system.Protobuf.Gzip.{Level}
use replicated_file_system.Config.{Config, Peer, Popped, pop, goes_on}
use replicated_file_system.Config.Pop.{IsUnlisted, pop_listed, pop_unlisted}
use replicated_file_system.Start.{FlagValues, World, setup, choose_host, start}

named : (name : Text) → name ≢ [] → (length name == 0) ≡ false
named [] h = absurd (h refl)
named (c ∷ name) h = ground arith

start_popped :
    (w : World) (flags : FlagValues) (conf : Config) (level : Level) (p : Popped)
    → setup w flags ≡ goes_on (inr (conf, level))
    → pop flags.name conf.peers ≡ returns p
    → p.peer.name ≢ []
    → start w flags ≡ goes_on p
unfolding start choose_host
start_popped w flags conf level p ready popped h =
    rw (ready, popped, named p.peer.name h, start, choose_host) refl

-- With a configuration that setup accepts and that lists a peer of the flag's name, the program
-- runs the host of that peer, with the others as its peers.
pub start_listed :
    (w : World) (flags : FlagValues) (conf : Config) (level : Level) (before : List Peer)
    (peer : Peer) (rest : List Peer)
    → setup w flags ≡ goes_on (inr (conf, level))
    → conf.peers ≡ before ++ (peer ∷ rest)
    → IsUnlisted flags.name before
    → peer.name ≡ flags.name
    → flags.name ≢ []
    → (p : Popped) × (start w flags ≡ goes_on p) × (p.peer ≡ peer) × (p.sliced ≡ before ++ rest)
start_listed w flags conf level before peer rest ready peers before_is_not same given = (
  _,
  start_popped w flags conf level _ ready
      (ap (pop flags.name) peers ∙ pop_listed flags.name before peer rest before_is_not same)
      (rw same given),
  refl,
  refl,
)

-- With a configuration that setup accepts and that lists no peer of the flag's name, the program
-- does not end: it runs the host of the first peer, if that has a name.
pub start_unlisted :
    (w : World) (flags : FlagValues) (conf : Config) (level : Level) (peer : Peer)
    (rest : List Peer)
    → setup w flags ≡ goes_on (inr (conf, level))
    → conf.peers ≡ peer ∷ rest
    → IsUnlisted flags.name (peer ∷ rest)
    → peer.name ≢ []
    → (p : Popped) × (start w flags ≡ goes_on p) × (p.peer ≡ peer) × (p.sliced ≡ rest)
start_unlisted w flags conf level peer rest ready peers h has_name =
    let (p, popped, same, others) = pop_unlisted flags.name peer rest h in
    (
      p,
      start_popped w flags conf level p ready (ap (pop flags.name) peers ∙ popped)
          (rw same has_name),
      same,
      others,
    )
