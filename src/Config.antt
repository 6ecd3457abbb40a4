-- ===== src/Config.antt =====
-- config/config.go. A float64 and a time.Duration are kept as their 64 bits, and the pointers of a
-- Config are Options: encoding/json leaves one nil that the file does not set. The peers of a list
-- are not nil. encoding/json, os, os/user are parameters; log.Fatal exits.
pub mod Pop
pub mod Expanded
mod Tests
use replicated_file_system.Common.{
  ℕ, suc, ◌+◌, ◌-◌, Bool, true, false, ◌&&◌, Option, none, some, List, [], ◌∷◌, ◌++◌, ◌==◌, Text,
  codes, text_eq, length, take, drop, if◌then◌else◌, Outcome, returns, panics, ◌>>=◌, deref,
}
use replicated_file_system.Common.Dict
use replicated_file_system.FilePaths.{join}

pub record Peer : Type 0 where
  pub name : Text
  pub address : Text

pub record Paths : Type 0 where
  pub fuse_dir : Text
  pub mirror_dir : Text

pub record Backoff : Type 0 where
  pub factor : ℕ
  pub max_factor_jitter : ℕ
  pub initial : ℕ
  pub max : ℕ

pub record Tls : Type 0 where
  pub version : Text
  pub ca_path : Text
  pub cert_path : Text
  pub key_path : Text

pub record Connection : Type 0 where
  pub dial_backoff : Backoff
  pub message_buffer_size : ℕ
  pub send_recv_timeout : ℕ
  pub handshake_timeout : ℕ
  pub network : Text
  pub compression : Text
  pub tls : Tls

pub record Logging : Type 0 where
  pub level : Text

pub record Config : Type 0 where
  pub host_name : Text
  pub connection : Option Connection
  pub peers : List Peer
  pub paths : Option Paths
  pub logging : Option Logging
  pub replication_timeout : ℕ

-- A step of the start: it goes on, ends the process by log.Fatal, or panics.
pub data Started {ℓ} (A : Type ℓ) : Type ℓ where
  goes_on : A → Started A
  exits crashes : Started A

infixl 5 ◌>>>◌
abbrev pub ◌>>>◌ {ℓ κ} : {A : Type ℓ} {B : Type κ} → Started A → (A → Started B) → Started B
goes_on a >>> f = f a
exits >>> f = exits
crashes >>> f = crashes

-- Pop's loop from index j on: the index of the first peer of that name, or 0.
unfoldable pub index_from : ℕ → Text → List Peer → ℕ
index_from j name [] = 0
index_from j name (peer ∷ peers) =
    if text_eq peer.name name then j else index_from (suc j) name peers

unfoldable pub get_elem? {ℓ} : {A : Type ℓ} → List A → ℕ → Option A
get_elem? xs i = elim (drop i xs) [ [] ↦ none | ◌∷◌ x rest ↦ some x ]

-- What Pop returns, and the receiver afterwards.
pub record Popped : Type 0 where
  pub peer : Peer
  pub sliced : List Peer
  pub receiver : List Peer

-- append writes into the receiver's array: the later peers move down, the last place keeps its peer.
unfoldable pub pop : Text → List Peer → Outcome Popped
unfolding index_from get_elem?
pop name peers =
    let i = index_from 0 name peers in
    let sliced = take i peers ++ drop (i + 1) peers in
    deref (get_elem? peers i) >>= λ peer.
    returns
      (record { peer = peer; sliced = sliced; receiver = sliced ++ drop (length peers - 1) peers })

unfoldable pub tls_versions : List (Text × ℕ)
tls_versions =
    (codes "1.0", 769) ∷ (codes "1.1", 770) ∷ (codes "1.2", 771) ∷ (codes "1.3", 772) ∷ []

-- GetTLSVersion
unfoldable pub get_tls_version : Tls → ℕ
unfolding tls_versions Dict.lookup
get_tls_version t = elim (Dict.lookup t.version tls_versions) [ none ↦ 0 | some v ↦ v ]

-- What is left of a string after a prefix.
unfoldable pub after_prefix : Text → Text → Option Text
after_prefix [] s = some s
after_prefix (x ∷ prefix) [] = none
after_prefix (x ∷ prefix) (y ∷ s) =
    let rest = after_prefix prefix s in if x == y then rest else none

-- The home directory of the user, if user.Current finds one, and the path; none is an error.
unfoldable pub expand_home : Option Text → Text → Option Text
unfolding after_prefix
expand_home none path = none
expand_home (some home) path =
    if text_eq path (codes "~") then none else elim (after_prefix (codes "~/") path) [
      | none ↦ some path
      | some rest ↦ some (join home rest)
    ]

unfoldable pub fatal_if_none {ℓ} : {A : Type ℓ} → Option A → Started A
fatal_if_none none = exits
fatal_if_none (some a) = goes_on a

-- The loop of MustUnmarshalConfig over the two paths.
unfoldable pub expand_paths : Option Text → Paths → Started Paths
unfolding expand_home fatal_if_none
expand_paths home p = fatal_if_none (expand_home home p.fuse_dir) >>> λ fuse_dir.
    fatal_if_none (expand_home home p.mirror_dir) >>> λ mirror_dir.
    goes_on (record { fuse_dir = fuse_dir; mirror_dir = mirror_dir })

unfoldable pub must_unmarshal_config :
    (List ℕ → Option Config) → Option Text → List ℕ → Started Config
unfolding expand_paths fatal_if_none
must_unmarshal_config unmarshal home raw = fatal_if_none (unmarshal raw) >>> λ conf.
    elim conf.paths [
      | none ↦ crashes
      | some p ↦ expand_paths home p >>> λ q. goes_on (record conf { paths = some q })
    ]

-- Read, where os.Open and io.ReadAll give the contents of a file.
unfoldable pub read :
    (Text → Option (List ℕ)) → (List ℕ → Option Config) → Option Text → Text → Started Config
unfolding must_unmarshal_config fatal_if_none
read read_file unmarshal home path =
    fatal_if_none (read_file path) >>> must_unmarshal_config unmarshal home
