-- ===== src/Connection/Pool/Sound.antt =====
-- connection/pool.go: what the operations of a pool keep: the counter of the live connections, and a
-- connection for every listed name.
use replicated_file_system.Common.{
  ℕ, ◌≡◌, refl, ◌≢◌, subst, true, Option, none, some, List, [], ◌∷◌, Text, text_eq, any, All,
  returns, ◌>>=◌, deref, arith, Option-cases, Bool-cases, inl, inr, returns-injective,
  if◌then◌else◌,
}
use replicated_file_system.Common.Dict
use replicated_file_system.Common.Dict.{lookup-insert}
use replicated_file_system.Errors.{Cause, conn, closed}
use replicated_file_system.Connection.Perspective.{Received}
use replicated_file_system.Connection.Link.{
  dead, Link, new_link, is_alive, is_dead, Failure, Incoming, error,
}
use replicated_file_system.Connection.Pool.{
  Pool, Quic, new_links, new_pool, adjust, resolve_link, unless_established, commit_link,
  close_link, recv_link, broadcast,
}
use replicated_file_system.Connection.Pool.Count.{
  IsCounted, AllDead-IsCounted, recv_link-IsCounted, keep_status-IsCounted, living_lem,
  lookup-NoShutdown,
}
use replicated_file_system.Connection.Pool.Sends.{send_all-lookup}

-- Every whitelisted name has its connection.
abbrev pub IsKnown : Pool → Type 0
IsKnown p =
    (name : Text)
    → any (λ known. text_eq known name) p.whitelist ≡ true
    → Dict.lookup name p.links ≢ none

new_links-lookup :
    (names : List Text) (name : Text)
    → any (λ known. text_eq known name) names ≡ true
    → Dict.lookup name (new_links names) ≢ none
unfolding new_links
new_links-lookup [] name e = cc
new_links-lookup (n ∷ names) name e =
    ground (arith, lookup-insert name n new_link (new_links names), new_links-lookup names name)

pub lookup-adjust :
    (name k : Text) (c : Link) (ps : List (Text × Link))
    → Dict.lookup k ps ≢ none
    → Dict.lookup k (adjust name c ps) ≢ none
unfolding Dict.lookup adjust
lookup-adjust name k c [] h = h
lookup-adjust name k c ((j, d) ∷ ps) h = ground (arith, lookup-adjust name k c ps)

pub commit-IsKnown :
    (name : Text) (perspective : ℕ) (c : Link) (p : Pool)
    → IsKnown p
    → IsKnown (commit_link name perspective c p).0
unfolding commit_link
commit-IsKnown name perspective c p v k w = elim (Bool-cases (is_alive c.status)) [
  | inl f ↦ rw (f, commit_link) (v k (rw (f, commit_link) at w))
  | inr f ↦ rw (f, commit_link) (lookup-adjust name k _ p.links (v k (rw (f, commit_link) at w)))
]

pub close_link-IsKnown :
    (name : Text) (quic : Quic) (err : Cause) (c : Link) (p : Pool)
    → IsKnown p
    → IsKnown (close_link name quic err c p).0
unfolding close_link
close_link-IsKnown name quic err c p v k w = elim (Bool-cases (is_dead c.status)) [
  | inl f ↦ rw (f, close_link) (v k (rw (f, close_link) at w))
  | inr f ↦ rw (f, close_link) (lookup-adjust name k _ p.links (v k (rw (f, close_link) at w)))
]

pub broadcast-IsKnown :
    (wire : Text → Option Failure) (p : Pool) → IsKnown p → IsKnown (broadcast wire p).0
unfolding broadcast
broadcast-IsKnown wire p v k w = ground (arith, v k, send_all-lookup wire k p.links)

insert-AllDead :
    (name : Text) (ps : List (Text × Link))
    → All (λ x. x.1.status ≡ dead) ps
    → All (λ x. x.1.status ≡ dead) (Dict.insert name new_link ps)
unfolding Dict.insert new_link
insert-AllDead name [] h = (refl, tt)
insert-AllDead name ((j, c) ∷ ps) h = elim (Bool-cases (text_eq j name)) [
  | inl e ↦ rw e (refl, h.1)
  | inr e ↦ rw e (h.0, insert-AllDead name ps h.1)
]

new_links-AllDead : (names : List Text) → All (λ x. x.1.status ≡ dead) (new_links names)
unfolding new_links
new_links-AllDead [] = tt
new_links-AllDead (n ∷ names) = insert-AllDead n (new_links names) (new_links-AllDead names)

abbrev pub IsSound : Pool → Type 0
IsSound p = IsCounted p × IsKnown p

pub new_pool-IsSound : (names : List Text) → IsSound (new_pool names)
unfolding new_pool
new_pool-IsSound names =
    (AllDead-IsCounted (new_links names) (new_links-AllDead names), new_links-lookup names)

-- What an operation on a found connection keeps, it keeps.
pub on_link :
    {R : Type 0} (name : Text) (f : Link → Pool × R) (p p' : Pool) (r : R)
    → ((c : Link) → Dict.lookup name p.links ≡ some c → IsSound (f c).0)
    → (deref (Dict.lookup name p.links) >>= λ c. returns (f c)) ≡ returns (p', r)
    → IsSound p'
on_link {R = R} name f p p' r keeps h = elim (Option-cases (Dict.lookup name p.links)) [
  | inl g ↦ absurd (cc (rw g at h))
  | inr (c, g) ↦
      subst (λ (q : Pool × R). IsSound q.0) (returns-injective (f c) (p', r) (rw g at h))
        (keeps c g)
]

pub resolve_link-IsSound :
    (host name : Text) (perspective : ℕ) (sent : Option Cause) (msg : Received) (c : Link)
    (p : Pool)
    → Dict.lookup name p.links ≡ some c
    → IsSound p
    → IsSound (resolve_link host name perspective sent msg c p).0
unfolding resolve_link
resolve_link-IsSound host name perspective sent msg c p found v = (
  keep_status-IsCounted name _ c p found refl v.0,
  λ k w. lookup-adjust name k _ p.links (v.1 k w),
)

pub unless_established-IsSound :
    (check : Option Cause) (resolved : Pool × Option Cause) (p : Pool)
    → IsSound p
    → IsSound resolved.0
    → IsSound (unless_established check resolved p).0
unfolding unless_established
unless_established-IsSound (some e) resolved p v w = v
unless_established-IsSound none resolved p v w = w

pub recv-IsSound :
    (name : Text) (incoming : Incoming) (c : Link) (p : Pool)
    → Dict.lookup name p.links ≡ some c
    → IsSound p
    → IsSound (if is_dead c.status then (p, error (conn closed)) else recv_link name incoming c p).0
unfolding recv_link
recv-IsSound name incoming c p found v = elim (Bool-cases (is_dead c.status)) [
  | inl f ↦ rw f v
  | inr f ↦ rw f (
    recv_link-IsCounted name incoming c p found
        (living_lem c.status (lookup-NoShutdown name c p.links found v.0.1) f) v.0,
    λ k w. lookup-adjust name k _ p.links (v.1 k w),
  )
]
