-- ===== src/Connection/Shutdown/Moves.antt =====
-- connection/pool.go: the operations that make no connection live.
use replicated_file_system.Common.{
  ℕ, ◌-◌, ◌≡◌, refl, subst, inl, inr, true, Option, none, some, [], ◌∷◌, Text, text_eq, ◌==◌,
  if◌then◌else◌, returns, ◌>>=◌, deref, Option-cases, Bool-cases, returns-injective, length,
}
use replicated_file_system.Common.Dict
use replicated_file_system.Errors.{Cause, conn, closed}
use replicated_file_system.Connection.Perspective.{Received}
use replicated_file_system.Connection.Link.{
  Link, is_alive, is_dead, ended, establish_check, Failure, judge, Incoming, incoming_judgement,
  Taken, error,
}
use replicated_file_system.Connection.Pool.{
  take_notice, Pool, Quic, resolve_link, unless_established, begin_establish, close_link, close,
  recv_link, recv, send_to, send_all, broadcast,
}
use replicated_file_system.Connection.Shutdown.Silence.{
  Links, Duller, Duller-refl, adjust-Duller, ended-alive, judged-alive,
}

-- A result of an operation on a found connection.
on_link-Duller :
    {R : Type 0} (name : Text) (f : Link → Pool × R) (p p' : Pool) (r : R)
    → ((c : Link) → Dict.lookup name p.links ≡ some c → Duller p.links (f c).0.links)
    → (deref (Dict.lookup name p.links) >>= λ c. returns (f c)) ≡ returns (p', r)
    → Duller p.links p'.links
on_link-Duller {R = R} name f p p' r kept h = elim (Option-cases (Dict.lookup name p.links)) [
  | inl g ↦ absurd (cc (rw g at h))
  | inr (c, g) ↦
      subst (λ (q : Pool × R). Duller p.links q.0.links)
        (returns-injective (f c) (p', r) (rw g at h)) (kept c g)
]

unless_established-Duller :
    (check : Option Cause) (resolved : Pool × Option Cause) (p : Pool)
    → Duller p.links resolved.0.links
    → Duller p.links (unless_established check resolved p).0.links
unfolding unless_established
unless_established-Duller (some e) resolved p w = Duller-refl p.links
unless_established-Duller none resolved p w = w

resolve_link-Duller :
    (host name : Text) (perspective : ℕ) (sent : Option Cause) (msg : Received) (c : Link)
    (p : Pool)
    → Dict.lookup name p.links ≡ some c
    → Duller p.links (resolve_link host name perspective sent msg c p).0.links
unfolding resolve_link
resolve_link-Duller host name perspective sent msg c p found =
    adjust-Duller name c _ p.links found (λ e. e)

pub close_link-Duller :
    (name : Text) (quic : Quic) (err : Cause) (c : Link) (p : Pool)
    → Dict.lookup name p.links ≡ some c
    → Duller p.links (close_link name quic err c p).0.links
unfolding close_link
close_link-Duller name quic err c p found = elim (Bool-cases (is_dead c.status)) [
  | inl f ↦ rw (f, close_link) (Duller-refl p.links)
  | inr f ↦ rw (f, close_link) (adjust-Duller name c (ended c) p.links found (ended-alive c))
]

recv-Duller :
    (name : Text) (incoming : Incoming) (c : Link) (p : Pool)
    → Dict.lookup name p.links ≡ some c
    → Duller p.links
        (if is_dead c.status then (p, error (conn closed)) else recv_link name incoming c p).0.links
unfolding recv_link
recv-Duller name incoming c p found = elim (Bool-cases (is_dead c.status)) [
  | inl f ↦ rw f (Duller-refl p.links)
  | inr f ↦
      rw f (adjust-Duller name c _ p.links found (judged-alive (incoming_judgement incoming) c))
]

send_to-alive :
    (failure : Option Failure) (c : Link)
    → is_alive (send_to failure c).0.status ≡ true
    → is_alive c.status ≡ true
unfolding send_to
send_to-alive failure c e = elim (Bool-cases (is_dead c.status)) [
  | inl f ↦ rw (f, send_to) at e
  | inr f ↦ judged-alive (judge failure) c (rw (f, send_to) at e)
]

some_alive : (c d : Link) → some c ≡ some d → is_alive d.status ≡ true → is_alive c.status ≡ true
some_alive c d e up = cc

send_all-Duller : (wire : Text → Option Failure) (ps : Links) → Duller ps (send_all wire ps).0
unfolding send_all Dict.lookup
send_all-Duller wire [] k d e up = cc
send_all-Duller wire ((j, c) ∷ ps) k d e up = elim (Bool-cases (text_eq j k)) [
  | inl f ↦
      rw f (c, refl, send_to-alive (wire j) c (some_alive (send_to (wire j) c).0 d (rw f at e) up))
  | inr f ↦ rw f (send_all-Duller wire ps k d (rw f at e) up)
]

broadcast-Duller :
    (wire : Text → Option Failure) (p : Pool) → Duller p.links (broadcast wire p).0.links
unfolding broadcast
broadcast-Duller wire p = elim (Bool-cases (p.active == length p.links)) [
  | inl f ↦ rw (f, broadcast) (send_all-Duller wire p.links)
  | inr f ↦ rw (f, broadcast) (Duller-refl p.links)
]

-- The operations that make no connection live.
pub data Moves : Pool → Pool → Type 0 where
  begins :
      {p p' : Pool} (host name : Text) (perspective : ℕ) (sent : Option Cause) (msg : Received)
      {e : Option Cause}
      → begin_establish host name perspective sent msg p ≡ returns (p', e)
      → Moves p p'
  shuts :
      {p p' : Pool} (name : Text) (quic : Quic) (err : Cause) {e : Option Cause}
      → close name quic err p ≡ returns (p', e)
      → Moves p p'
  receives :
      {p p' : Pool} (name : Text) (incoming : Incoming) {t : Taken}
      → recv name incoming p ≡ returns (p', t)
      → Moves p p'
  hears :
      {p : Pool} (name : Text) (c : Link)
      → Dict.lookup name p.links ≡ some c
      → Moves p (take_notice name c p)
  sends : {p : Pool} (wire : Text → Option Failure) → Moves p (broadcast wire p).0

pub Moves-Duller : {p p' : Pool} → Moves p p' → Duller p.links p'.links
unfolding begin_establish close recv take_notice
Moves-Duller (begins {p} {p'} host name perspective sent msg {e} h) =
    on_link-Duller name _ p p' e
      (λ c g.
        unless_established-Duller (establish_check c) _ p
          (resolve_link-Duller host name perspective sent msg c p g))
      h
Moves-Duller (shuts {p} {p'} name quic err {e} h) =
    on_link-Duller name _ p p' e (λ c g. close_link-Duller name quic err c p g) h
Moves-Duller (receives {p} {p'} name incoming {t} h) =
    on_link-Duller name _ p p' t (λ c g. recv-Duller name incoming c p g) h
Moves-Duller (hears {p} name c found) =
    adjust-Duller name c (record c { notices = c.notices - 1 }) p.links found (λ e. e)
Moves-Duller (sends {p} wire) = broadcast-Duller wire p
