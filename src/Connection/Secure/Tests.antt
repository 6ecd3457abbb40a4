-- ===== src/Connection/Secure/Tests.antt =====
-- The pool of a peer b, a file system whose files are all the same, and a dialed peer that calls
-- itself b and has no valid certificate.
use replicated_file_system.Common.{
  ℕ, ◌≡◌, ◌≢◌, refl, Bool, true, false, ◌&&◌, ◌||◌, Option, none, some, List, [], ◌∷◌, Text, codes,
  panics, text_eq,
}
use replicated_file_system.Config.{Tls, get_tls_version, fatal_if_none}
use replicated_file_system.Connection.Perspective.{server, data_is}
use replicated_file_system.Connection.Pool.{
  new_pool, verify_connection, begin_establish, commit_establish,
}
use replicated_file_system.Connection.Pool.Reach.{fresh}
use replicated_file_system.Connection.Secure.{
  Pki, ClientAuth, require_and_verify_client_cert, TlsConfig, certificate, ca_pool, default_tls,
  pool_tls,
}
use replicated_file_system.Connection.Secure.Trust.{Handshake, HandshakeLaws, trusts_by_side}

abbrev files : Pki
files = record {
  Certificate = ℕ;
  CertPool = ℕ;
  read_file = λ path. some [];
  x509_key_pair = λ cert key. some 1;
  append_certs = λ pem. some 2;
}

abbrev asks : Option (List Text → Bool) → List Text → Bool
asks none names = true
asks (some verify) names = verify names

abbrev demands : ClientAuth → Bool → Bool
demands require_and_verify_client_cert valid = valid
demands _ valid = true

-- A chain is its names, and whether it is valid.
abbrev shakes : Handshake files
shakes = record {
  Chain = List Text × Bool;
  names = λ chain. chain.0;
  chains_to = λ roots chain. chain.1;
  trusts_client = λ c chain. demands c.client_auth chain.1 && asks c.verifies chain.0;
  trusts_server = λ c chain. (c.insecure_skip_verify || chain.1) && asks c.verifies chain.0;
}

second_of : (x y : Bool) → (x && y) ≡ true → y ≡ true
second_of true y e = e
second_of false y e = cc

first_of : (x y : Bool) → (x && y) ≡ true → x ≡ true
first_of true y e = refl
first_of false y e = cc

shakes-HandshakeLaws : HandshakeLaws shakes
shakes-HandshakeLaws = record {
  verifies_client = λ c chain auth e.
      rw auth at (first_of (demands c.client_auth chain.1) (asks c.verifies chain.0) e);
  client_callback = λ c chain verify v e.
      rw v at (second_of (demands c.client_auth chain.1) (asks c.verifies chain.0) e);
  skips_verification = λ c chain verify v s. rw (v, s) refl;
}

abbrev paths : Tls
paths = record {
  version = codes "1.3";
  ca_path = codes "ca";
  cert_path = codes "crt";
  key_path = codes "key";
}

abbrev b : Text
b = codes "b"

abbrev settings : TlsConfig files
settings = record {
  certificates = 1 ∷ [];
  root_cas = 2;
  client_cas = 2;
  client_auth = require_and_verify_client_cert;
  insecure_skip_verify = true;
  min_version = get_tls_version paths;
  max_version = get_tls_version paths;
  next_protos = [];
  verifies = none;
}

trusts_by_side_example :
    ((roots : ℕ) × (ca_pool files (codes "ca") ≡ some roots)
      × (true ≡ true)
      × (name : Text) × ((b ∷ []) ≡ name ∷ [])
      × (begin_establish (codes "a") name server none (data_is []) (new_pool (b ∷ [])) ≢ panics)
      × (commit_establish name server (new_pool (b ∷ [])) ≢ panics))
    × (shakes.trusts_server (pool_tls (new_pool (b ∷ [])) settings) (b ∷ [], false)
        ≡ verify_connection (new_pool (b ∷ [])) (b ∷ []))
unfolding default_tls fatal_if_none certificate pool_tls verify_connection new_pool text_eq
trusts_by_side_example =
    trusts_by_side files paths settings shakes (b ∷ [], true) (b ∷ [], false) (b ∷ [])
      (new_pool (b ∷ [])) (codes "a") server none (data_is []) refl shakes-HandshakeLaws fresh refl
