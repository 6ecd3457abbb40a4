-- ===== src/Connection/Secure/Trust.antt =====
-- connection/tlsconf/tlsconf.go and connection/pool.go: whom a peer trusts.
use replicated_file_system.Common.{
  ℕ, ◌≡◌, ◌≢◌, refl, Bool, true, Option, some, List, [], ◌∷◌, Text, panics, Option-cases, inl, inr,
  subst,
}
use replicated_file_system.Config.{Tls, Started, goes_on, fatal_if_none}
use replicated_file_system.Connection.Perspective.{Received}
use replicated_file_system.Errors.{Cause}
use replicated_file_system.Connection.Pool.{
  Pool, verify_connection, begin_establish, commit_establish,
}
use replicated_file_system.Connection.Pool.Reach.{Reached, verified-establish}
use replicated_file_system.Connection.Secure.{
  Pki, require_and_verify_client_cert, TlsConfig, certificate, ca_pool, default_tls, pool_tls,
}

-- Which certificates crypto/tls trusts in a handshake, on the side that listens and on the side that
-- dials. A chain is what the other end presents, `names` are the common names in it, and `chains_to`
-- says whether it is valid under a pool of certificates.
pub record Handshake (pki : Pki) : Type 1 where
  pub Chain : Type 0
  pub names : Chain → List Text
  pub chains_to : pki.CertPool → Chain → Bool
  pub trusts_client : TlsConfig pki → Chain → Bool
  pub trusts_server : TlsConfig pki → Chain → Bool

-- What crypto/tls documents: RequireAndVerifyClientCert asks for a certificate that is valid under
-- ClientCAs; VerifyConnection runs in every handshake and can only refuse; with InsecureSkipVerify a
-- client accepts any certificate, but for VerifyConnection.
pub record HandshakeLaws {pki : Pki} (tls : Handshake pki) : Type 0 where
  pub verifies_client :
      (c : TlsConfig pki) (chain : tls.Chain)
      → c.client_auth ≡ require_and_verify_client_cert
      → tls.trusts_client c chain ≡ true
      → tls.chains_to c.client_cas chain ≡ true
  pub client_callback :
      (c : TlsConfig pki) (chain : tls.Chain) (verify : List Text → Bool)
      → c.verifies ≡ some verify
      → tls.trusts_client c chain ≡ true
      → verify (tls.names chain) ≡ true
  pub skips_verification :
      (c : TlsConfig pki) (chain : tls.Chain) (verify : List Text → Bool)
      → c.verifies ≡ some verify
      → c.insecure_skip_verify ≡ true
      → tls.trusts_server c chain ≡ verify (tls.names chain)

goes_on-injective : {A : Type 0} (a b : A) → ◌≡◌ {A = Started A} (goes_on a) (goes_on b) → a ≡ b
goes_on-injective a b e = cc

module _ (pki : Pki) where
  -- What Default leaves, where it does not end the program.
  default_tls-settings :
      (conf : Tls) (c : TlsConfig pki)
      → default_tls pki conf ≡ goes_on c
      → (c.client_auth ≡ require_and_verify_client_cert)
        × (c.insecure_skip_verify ≡ true)
        × (ca_pool pki conf.ca_path ≡ some c.client_cas)
  unfolding default_tls fatal_if_none
  default_tls-settings conf c e =
      elim (Option-cases (certificate pki conf.cert_path conf.key_path)) [
        | inl f ↦ absurd (cc (rw (f, default_tls) at e))
        | inr (crt, f) ↦ elim (Option-cases (ca_pool pki conf.ca_path)) [
          | inl g ↦ absurd (cc (rw (f, g, default_tls) at e))
          | inr (roots, g) ↦
              subst
                (λ (x : TlsConfig pki).
                  (x.client_auth ≡ require_and_verify_client_cert)
                  × (x.insecure_skip_verify ≡ true)
                  × (ca_pool pki conf.ca_path ≡ some x.client_cas))
                (goes_on-injective _ c (rw (f, g, default_tls) at e)) (refl, refl, g)
        ]
      ]

  -- Where crypto/tls does what it documents: a pool that has come about by any operations, with
  -- settings that Default made of the TLS paths, trusts a peer that dials it only if its certificates are valid under the CA file and are a single
  -- one of a listed peer, so that Establish is not called on a nil pointer. Another peer, that it
  -- dials, it trusts by the name alone, whether or not its certificates are valid under the CA.
  pub trusts_by_side :
      (conf : Tls) (c : TlsConfig pki) (tls : Handshake pki) (chain other : tls.Chain)
      (names : List Text) (p : Pool) (host : Text) (perspective : ℕ) (sent : Option Cause)
      (msg : Received)
      → default_tls pki conf ≡ goes_on c
      → HandshakeLaws tls
      → Reached names p
      → tls.trusts_client (pool_tls p c) chain ≡ true
      → ((roots : pki.CertPool) × (ca_pool pki conf.ca_path ≡ some roots)
          × (tls.chains_to roots chain ≡ true)
          × (name : Text) × (tls.names chain ≡ name ∷ [])
          × (begin_establish host name perspective sent msg p ≢ panics)
          × (commit_establish name perspective p ≢ panics))
        × (tls.trusts_server (pool_tls p c) other ≡ verify_connection p (tls.names other))
  unfolding pool_tls
  trusts_by_side conf c tls chain other names p host perspective sent msg made laws reached
        trusted =
      let (auth, skips, roots) = default_tls-settings conf c made in
      let verify = verify_connection p in
      let (name, single, begins, commits) =
        verified-establish names (tls.names chain) p host perspective sent msg reached
          (laws.client_callback (pool_tls p c) chain verify refl trusted) in
      (
        (
          c.client_cas,
          roots,
          laws.verifies_client (pool_tls p c) chain auth trusted,
          name,
          single,
          begins,
          commits,
        ),
        laws.skips_verification (pool_tls p c) other verify refl skips,
      )
