-- ===== src/Start/Tests.antt =====
-- Two peers, and a configuration without a name for the host's own.
use replicated_file_system.Common.{
  ℕ, suc, true, Option, Outcome, returns, ◌≡◌, ◌≢◌, refl, none, some, [], ◌∷◌, ◌++◌, Text, codes,
  text_eq, inr,
}
use replicated_file_system.Protobuf.Gzip.{best_speed, set_compression}
use replicated_file_system.Config.{
  Config, Peer, Paths, Popped, get_tls_version, tls_versions, goes_on, expand_home, expand_paths,
  fatal_if_none, after_prefix, must_unmarshal_config,
}
use replicated_file_system.Common.Dict
use replicated_file_system.Errors.{Cause, other, pool_closed}
use replicated_file_system.Connection.Secure.{
  Pki, TlsConfig, require_and_verify_client_cert, default_tls, certificate, ca_pool,
}
use replicated_file_system.Rfs.Server.{Fuse}
use replicated_file_system.Start.Run.{Program, main, shut_down, started, main_listed}
use replicated_file_system.Start.{
  logged, FlagValues, World, must_read_config, override, override_paths, override_name,
  configure_logging, start_compression, unless_invalid, setup, start,
}
use replicated_file_system.Start.Choice.{start_unlisted}

abbrev a : Peer
a = record { name = codes "a"; address = codes "10.0.0.1:9000" }

abbrev b : Peer
b = record { name = codes "b"; address = codes "10.0.0.2:9000" }

abbrev conf : Text → Config
conf host_name = record {
  host_name = host_name;
  connection = some (record {
    dial_backoff = record { factor = 2; max_factor_jitter = 0; initial = 1; max = 9 };
    message_buffer_size = 16;
    send_recv_timeout = 5;
    handshake_timeout = 5;
    network = codes "quic";
    compression = codes "BestSpeed";
    tls = record { version = codes "1.3"; ca_path = []; cert_path = []; key_path = [] };
  });
  peers = a ∷ b ∷ [];
  paths = some (record { fuse_dir = codes "/f"; mirror_dir = codes "/m" });
  logging = some (record { level = codes "info" });
  replication_timeout = 0;
}

abbrev world : World
world = record {
  unmarshal = λ raw. some (conf (codes "b"));
  home = some (codes "/home");
  read_file = λ path. none;
  default_config = [];
  validate = λ c. none;
}

abbrev flags : Text → FlagValues
flags name = record { name = name; path = []; ca_path = []; cert_path = []; key_path = [] }

named_b : setup world (flags (codes "b")) ≡ goes_on (inr (conf (codes "b"), best_speed))
unfolding setup must_read_config override_paths override override_name unless_invalid
    configure_logging start_compression must_unmarshal_config expand_paths expand_home after_prefix
    fatal_if_none set_compression text_eq
named_b = refl

unnamed : setup world (flags []) ≡ goes_on (inr (conf (codes "b"), best_speed))
unfolding setup must_read_config override_paths override override_name unless_invalid
    configure_logging start_compression must_unmarshal_config expand_paths expand_home after_prefix
    fatal_if_none set_compression text_eq
unnamed = refl

a_is_named : a.name ≢ []
a_is_named e = cc

b_is_given : codes "b" ≢ []
b_is_given e = cc

abbrev certs : Pki
certs = record {
  Certificate = ℕ;
  CertPool = ℕ;
  read_file = λ path. some [];
  x509_key_pair = λ cert key. some 1;
  append_certs = λ pem. some 2;
}

-- A system that counts the calls, and cannot unmount.
abbrev busy : Fuse ℕ
busy = record {
  mkdir_all = λ s path. (suc s, none);
  mount = λ s path root. (suc s, none);
  unmount = λ s. (suc s, some (other (codes "busy")));
}

abbrev listens : ℕ → Text → ℕ × Option Cause
listens s address = (suc s, none)

abbrev paths : Paths
paths = record { fuse_dir = codes "/f"; mirror_dir = codes "/m" }

abbrev settings : TlsConfig certs
settings = record {
  certificates = 1 ∷ [];
  root_cas = 2;
  client_cas = 2;
  client_auth = require_and_verify_client_cert;
  insecure_skip_verify = true;
  min_version = 772;
  max_version = 772;
  next_protos = [];
  verifies = none;
}

abbrev of_b : Program certs ℕ ℕ
of_b = started certs busy listens (conf (codes "b")) b (a ∷ []) settings paths 0 3

abbrev refuses : Program certs ℕ ℕ → Outcome (Program certs ℕ ℕ × Option Cause)
refuses p = returns (p, some pool_closed)

main_listed_example :
    (main certs busy listens world (flags (codes "b")) 0 0 ≡ goes_on of_b)
    × (shut_down certs busy listens refuses of_b
        ≡ returns (
          record of_b { system = 4 },
          logged (some pool_closed) ++ (logged (some (other (codes "busy"))) ++ []),
        ))
unfolding default_tls tls_versions certificate ca_pool fatal_if_none get_tls_version text_eq
    Dict.lookup
main_listed_example =
    main_listed certs busy listens world (flags (codes "b")) (conf (codes "b")) best_speed (a ∷ [])
      b [] _ settings paths 0 0 1 2 3 refuses of_b (some pool_closed) named_b refl (refl, tt) refl
      b_is_given refl refl refl refl refl refl refl refl

start_unlisted_example :
    (p : Popped) × (start world (flags []) ≡ goes_on p) × (p.peer ≡ a) × (p.sliced ≡ b ∷ [])
unfolding text_eq
start_unlisted_example =
    start_unlisted world (flags []) (conf (codes "b")) best_speed a (b ∷ []) unnamed refl
      (refl, (refl, tt)) a_is_named
