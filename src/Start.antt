-- ===== src/Start.antt =====
-- main.go: from the flags to the host and back. The flags are parsed by a library.
pub mod Choice
pub mod Run
mod Tests
use replicated_file_system.Common.{
  ℕ, Bool, true, false, Option, none, some, List, [], ◌∷◌, Text, ◌⊎◌, inl, inr, length, ◌==◌,
  if◌then◌else◌, Outcome, returns, panics, ◌>>=◌, ◌++◌,
}
use replicated_file_system.Errors.{Cause}
use replicated_file_system.Protobuf.Gzip.{Level, set_compression}
use replicated_file_system.Config.{
  Config, Connection, Logging, Tls, Peer, Popped, pop, Started, goes_on, exits, crashes, ◌>>>◌,
  fatal_if_none, must_unmarshal_config, read,
}

pub record FlagValues : Type 0 where
  pub name : Text
  pub path : Text
  pub ca_path : Text
  pub cert_path : Text
  pub key_path : Text

-- What the program asks of other code: encoding/json, user.Current, os.Open with io.ReadAll, the
-- embedded config.json, and the validator.
pub record World : Type 0 where
  pub unmarshal : List ℕ → Option Config
  pub home : Option Text
  pub read_file : Text → Option (List ℕ)
  pub default_config : List ℕ
  pub validate : Config → Option Cause

unfoldable pub must_read_config : World → FlagValues → Started Config
must_read_config w flags = elim flags.path [
  | [] ↦ must_unmarshal_config w.unmarshal w.home w.default_config
  | ◌∷◌ c path ↦ read w.read_file w.unmarshal w.home flags.path
]

-- A path of a flag that is given, in the TLS paths of a connection that may be nil.
unfoldable pub override : (Tls → Tls) → Text → Option Connection → Started (Option Connection)
override f [] connection = goes_on connection
override f (c ∷ flag) none = crashes
override f (c ∷ flag) (some connection) =
    goes_on (some (record connection { tls = f connection.tls }))

unfoldable pub override_paths : FlagValues → Option Connection → Started (Option Connection)
unfolding override
override_paths flags connection =
    override (λ t. record t { ca_path = flags.ca_path }) flags.ca_path connection
    >>> override (λ t. record t { cert_path = flags.cert_path }) flags.cert_path
    >>> override (λ t. record t { key_path = flags.key_path }) flags.key_path

unfoldable pub override_name : Text → Config → Config
override_name [] conf = conf
override_name (c ∷ name) conf = record conf { host_name = c ∷ name }

-- SetCompression of a connection that may be nil.
unfoldable pub start_compression : Config → Started (Config × Level)
start_compression conf = elim conf.connection [
  | none ↦ crashes
  | some connection ↦
      fatal_if_none (set_compression connection.compression) >>> λ level. goes_on (conf, level)
]

-- logging.Configure reads the level through a pointer; what it sets is left out.
unfoldable pub configure_logging : Option Logging → Config → Started Config
configure_logging none conf = crashes
configure_logging (some logging) conf = goes_on conf

unfoldable pub unless_invalid : Option Cause → Config → Started (Cause ⊎ (Config × Level))
unfolding configure_logging start_compression
unless_invalid (some e) conf = goes_on (inl e)
unless_invalid none conf =
    configure_logging conf.logging conf >>> start_compression >>> λ ready. goes_on (inr ready)

unfoldable pub setup : World → FlagValues → Started (Cause ⊎ (Config × Level))
unfolding must_read_config override_paths override_name unless_invalid
setup w flags = must_read_config w flags >>> λ conf.
    override_paths flags conf.connection >>> λ connection.
    let conf' = override_name flags.name (record conf { connection = connection }) in
    unless_invalid (w.validate conf') conf'

-- run up to its host: Pop, and the test of the name.
unfoldable pub choose_host : FlagValues → Config → Started Popped
choose_host flags conf = elim (pop flags.name conf.peers) [
  | panics ↦ crashes
  | returns p ↦ if length p.peer.name == 0 then exits else goes_on p
]

-- The host that main runs, with its peers. main ends the process on an error of setup.
unfoldable pub start : World → FlagValues → Started Popped
unfolding setup choose_host
start w flags =
    setup w flags >>> λ r. elim r [ inl e ↦ exits | inr (conf, level) ↦ choose_host flags conf ]

-- log.Err of an error that is not nil.
unfoldable pub logged : Option Cause → List Cause
logged none = []
logged (some e) = e ∷ []

-- closeOnSignal, once the signal is there: the closers in their order, an error is logged.
module _ {S : Type 0} where
  unfoldable pub close_each : List (S → Outcome (S × Option Cause)) → S → Outcome (S × List Cause)
  unfolding logged
  close_each [] s = returns (s, [])
  close_each (closer ∷ closers) s = closer s >>= λ (s', e).
      close_each closers s' >>= λ (last, errs). returns (last, logged e ++ errs)
