-- ===== src/Connection/Pool/Reach.antt =====
-- connection/pool.go: the pools that a new one becomes.
use replicated_file_system.Common.{
  ℕ, ◌-◌, ◌≡◌, refl, ◌≢◌, true, Option, none, some, List, [], ◌∷◌, Text, text_eq, any, All, returns,
  panics, Option-cases, inl, inr,
}
use replicated_file_system.Common.Dict
use replicated_file_system.Common.Dict.{lookup-insert}
use replicated_file_system.Errors.{Cause}
use replicated_file_system.Connection.Perspective.{Received}
use replicated_file_system.Connection.Link.{
  alive, Link, establish_check, Failure, ignores, judge, Incoming, Taken,
}
use replicated_file_system.Connection.Pool.{
  Pool, Quic, new_pool, verify_connection, begin_establish, commit_establish, close, recv,
  take_notice, broadcast,
}
use replicated_file_system.Connection.Pool.Count.{
  count_alive, commit-IsCounted, close_link-IsCounted, keep_status-IsCounted,
}
use replicated_file_system.Connection.Pool.Sends.{broadcast_counted, broadcast-IsCounted}
use replicated_file_system.Connection.Pool.Sound.{
  lookup-adjust, commit-IsKnown, close_link-IsKnown, broadcast-IsKnown, IsSound, new_pool-IsSound,
  on_link, resolve_link-IsSound, unless_established-IsSound, recv-IsSound,
}

-- Every operation of the pool and of its connections, in any order.
pub data Reached (names : List Text) : Pool → Type 0 where
  fresh : Reached names (new_pool names)
  begins :
      {p p' : Pool} (host name : Text) (perspective : ℕ) (sent : Option Cause) (msg : Received)
      {e : Option Cause}
      → Reached names p
      → begin_establish host name perspective sent msg p ≡ returns (p', e)
      → Reached names p'
  commits :
      {p p' : Pool} (name : Text) (perspective : ℕ) {e : Option Cause}
      → Reached names p
      → commit_establish name perspective p ≡ returns (p', e)
      → Reached names p'
  closes :
      {p p' : Pool} (name : Text) (quic : Quic) (err : Cause) {e : Option Cause}
      → Reached names p
      → close name quic err p ≡ returns (p', e)
      → Reached names p'
  receives :
      {p p' : Pool} (name : Text) (incoming : Incoming) {t : Taken}
      → Reached names p
      → recv name incoming p ≡ returns (p', t)
      → Reached names p'
  hears :
      {p : Pool} (name : Text) (c : Link)
      → Reached names p
      → Dict.lookup name p.links ≡ some c
      → Reached names (take_notice name c p)
  sends :
      {p : Pool} (wire : Text → Option Failure)
      → Reached names p
      → Reached names (broadcast wire p).0

pub Reached-IsSound : (names : List Text) {p : Pool} → Reached names p → IsSound p
unfolding begin_establish commit_establish close recv take_notice
Reached-IsSound names fresh = new_pool-IsSound names
Reached-IsSound names (begins {p} {p'} host name perspective sent msg {e} r h) =
    let v = Reached-IsSound names r in
    on_link name _ p p' e
      (λ c g.
        unless_established-IsSound (establish_check c) _ p v
          (resolve_link-IsSound host name perspective sent msg c p g v))
      h
Reached-IsSound names (commits {p} {p'} name perspective {e} r h) =
    let v = Reached-IsSound names r in
    on_link name _ p p' e
      (λ c g.
        (commit-IsCounted name perspective c p g v.0, commit-IsKnown name perspective c p v.1))
      h
Reached-IsSound names (closes {p} {p'} name quic err {e} r h) =
    let v = Reached-IsSound names r in
    on_link name _ p p' e
      (λ c g.
        (close_link-IsCounted name quic err c p g v.0, close_link-IsKnown name quic err c p v.1))
      h
Reached-IsSound names (receives {p} {p'} name incoming {t} r h) =
    let v = Reached-IsSound names r in
    on_link name _ p p' t (λ c g. recv-IsSound name incoming c p g v) h
Reached-IsSound names (hears {p} name c r found) =
    let v = Reached-IsSound names r in
    (
      keep_status-IsCounted name (record c { notices = c.notices - 1 }) c p found refl v.0,
      λ k w. lookup-adjust name k (record c { notices = c.notices - 1 }) p.links (v.1 k w),
    )
Reached-IsSound names (sends {p} wire r) =
    let v = Reached-IsSound names r in
    (broadcast-IsCounted wire p v.0, broadcast-IsKnown wire p v.1)

-- In a pool that a new one becomes by any operations, the counter of active connections is the
-- number of live ones, and Broadcast returns no error only if every connection is alive and every
-- send succeeds, or fails with an error that handleErrors ignores.
pub broadcast_complete :
    (names : List Text) (wire : Text → Option Failure) (p : Pool)
    → Reached names p
    → (broadcast wire p).1 ≡ none
    → (p.active ≡ count_alive p.links)
      × All (λ x. (x.1.status ≡ alive) × (judge (wire x.0) ≡ ignores)) p.links
broadcast_complete names wire p r e =
    ((Reached-IsSound names r).0.0, broadcast_counted wire p (Reached-IsSound names r).0 e)

one_name :
    (p : Pool) (certificates : List Text)
    → verify_connection p certificates ≡ true
    → (name : Text) × (certificates ≡ name ∷ [])
      × (any (λ known. text_eq known name) p.whitelist ≡ true)
unfolding verify_connection
one_name p [] e = cc
one_name p (a ∷ []) e = (a, refl, e)
one_name p (a ∷ b ∷ more) e = cc

-- In such a pool, certificates that VerifyConnection accepts are a single one, and its name has a
-- connection: neither half of Establish is called on a nil pointer.
pub verified-establish :
    (names certificates : List Text) (p : Pool) (host : Text) (perspective : ℕ)
    (sent : Option Cause) (msg : Received)
    → Reached names p
    → verify_connection p certificates ≡ true
    → (name : Text) × (certificates ≡ name ∷ [])
      × (begin_establish host name perspective sent msg p ≢ panics)
      × (commit_establish name perspective p ≢ panics)
unfolding begin_establish commit_establish
verified-establish names certificates p host perspective sent msg r ok =
    let (name, single, known) = one_name p certificates ok in
    elim (Option-cases (Dict.lookup name p.links)) [
      | inl f ↦ absurd ((Reached-IsSound names r).1 name known f)
      | inr (c, f) ↦ (name, single, (λ h. absurd (cc (rw f at h))), λ h. absurd (cc (rw f at h)))
    ]
