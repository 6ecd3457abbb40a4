-- ===== src/Connection/Secure.antt =====
-- connection/tlsconf/tlsconf.go, connection/cert/cert.go and connection/quic.go, with what NewPool adds:
-- the settings of TLS and QUIC. crypto/tls and crypto/x509 are parameters: how they parse, and which
-- certificates they trust.
pub mod Trust
mod Tests
use replicated_file_system.Common.{
  ℕ, ◌+◌, ◌*◌, ◌/◌, ◌^◌, Bool, true, false, Option, none, some, List, [], ◌∷◌, Text, codes, ◌≡◌,
}
use replicated_file_system.Config.{
  Tls, get_tls_version, Started, ◌>>>◌, goes_on, exits, crashes, fatal_if_none,
}
use replicated_file_system.Connection.Pool.{Pool, verify_connection}

-- os.ReadFile, tls.X509KeyPair, and AppendCertsFromPEM on a new pool; none is an error.
pub record Pki : Type 1 where
  pub Certificate : Type 0
  pub CertPool : Type 0
  pub read_file : Text → Option (List ℕ)
  pub x509_key_pair : List ℕ → List ℕ → Option Certificate
  pub append_certs : List ℕ → Option CertPool

-- tls.ClientAuthType
pub data ClientAuth : Type 0 where
  no_client_cert request_client_cert require_any_client_cert verify_client_cert_if_given :
      ClientAuth
  require_and_verify_client_cert : ClientAuth

-- The fields of tls.Config that the source sets. VerifyConnection is asked about the common names of
-- the certificates of the other end; a nil one is none.
pub record TlsConfig (pki : Pki) : Type 0 where
  pub certificates : List pki.Certificate
  pub root_cas : pki.CertPool
  pub client_cas : pki.CertPool
  pub client_auth : ClientAuth
  pub insecure_skip_verify : Bool
  pub min_version : ℕ
  pub max_version : ℕ
  pub next_protos : List Text
  pub verifies : Option (List Text → Bool)

-- Option's own chain, for the calls that return an error.
infixl 5 ◌>>?◌
abbrev ◌>>?◌ : {A B : Type 0} → Option A → (A → Option B) → Option B
none >>? f = none
some a >>? f = f a

module _ (pki : Pki) where
  -- cert.Certificate
  unfoldable pub certificate : Text → Text → Option pki.Certificate
  certificate cert_path key_path = pki.read_file cert_path >>? λ cert_pem.
      pki.read_file key_path >>? λ key_pem. pki.x509_key_pair cert_pem key_pem

  -- cert.CAPool
  unfoldable pub ca_pool : Text → Option pki.CertPool
  ca_pool path = pki.read_file path >>? pki.append_certs

  -- tlsconf.Default
  unfoldable pub default_tls : Tls → Started (TlsConfig pki)
  unfolding certificate ca_pool fatal_if_none
  default_tls conf = fatal_if_none (certificate conf.cert_path conf.key_path) >>> λ crt.
      fatal_if_none (ca_pool conf.ca_path) >>> λ roots. goes_on (record {
        certificates = crt ∷ [];
        root_cas = roots;
        client_cas = roots;
        client_auth = require_and_verify_client_cert;
        insecure_skip_verify = true;
        min_version = get_tls_version conf;
        max_version = get_tls_version conf;
        next_protos = [];
        verifies = none;
      })

-- Protocol
abbrev pub protocol : Text
protocol = codes "p2p-quic"

-- What NewPool sets.
unfoldable pub pool_tls : {pki : Pki} → Pool → TlsConfig pki → TlsConfig pki
pool_tls p config = record config {
  verifies = some (verify_connection p);
  next_protos = protocol ∷ [];
}

-- quicConfig. A duration is in nanoseconds, and MaxIncomingStreams of -1 allows none.
pub record QuicConfig : Type 0 where
  pub versions : List ℕ
  pub connection_id_length : ℕ
  pub handshake_idle_timeout : ℕ
  pub max_idle_timeout : ℕ
  pub keep_alive_period : ℕ
  pub initial_stream_receive_window : ℕ
  pub max_stream_receive_window : ℕ
  pub initial_connection_receive_window : ℕ
  pub max_connection_receive_window : ℕ
  pub allows_incoming_streams : Bool
  pub max_incoming_uni_streams : ℕ
  pub disable_path_mtu_discovery : Bool
  pub disable_version_negotiation_packets : Bool
  pub enable_datagrams : Bool

abbrev pub second : ℕ
second = 1000000000

-- quicConfig, for the number that quic-go gives its Version2.
unfoldable pub quic_config : ℕ → QuicConfig
quic_config version2 = record {
  versions = version2 ∷ [];
  connection_id_length = 12;
  handshake_idle_timeout = 5 * second;
  max_idle_timeout = 12 * second;
  keep_alive_period = 4 * second;
  initial_stream_receive_window = 2 ^ 10 * 512;
  max_stream_receive_window = 2 ^ 20 * 6;
  initial_connection_receive_window = 2 ^ 10 * 512 * 3 / 2;
  max_connection_receive_window = 2 ^ 20 * 15;
  allows_incoming_streams = false;
  max_incoming_uni_streams = 100;
  disable_path_mtu_discovery = false;
  disable_version_negotiation_packets = true;
  enable_datagrams = false;
}
