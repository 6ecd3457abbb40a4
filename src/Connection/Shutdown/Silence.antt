-- ===== src/Connection/Shutdown/Silence.antt =====
-- connection/pool.go: which connections may be alive, and changes that make none live.
use replicated_file_system.Common.{
  ◌≡◌, refl, sym, ◌∙◌, ap, ◌⊎◌, inl, inr, true, false, some, List, [], ◌∷◌, Text, text_eq,
  text_eq_iff, text_eq_refl, any, map, arith, Bool-cases,
}
use replicated_file_system.Common.Dict
use replicated_file_system.Errors.{Cause}
use replicated_file_system.Connection.Link.{
  Link, Status, dead, alive, shutdown, is_alive, is_dead, ended, Judgement, ignores, keeps, closes,
}
use replicated_file_system.Connection.Pool.{Pool, Quic, adjust, close_link, after_judgement}

abbrev pub Links : Type 0
Links = List (Text × Link)

-- Only the named connections may be alive.
abbrev pub Quiet : List Text → Links → Type 0
Quiet names ps =
    (k : Text) (c : Link)
    → Dict.lookup k ps ≡ some c
    → is_alive c.status ≡ true
    → any (λ n. text_eq n k) names ≡ true

-- What is alive afterwards was alive before.
abbrev pub Duller : Links → Links → Type 0
Duller ps qs =
    (k : Text) (d : Link)
    → Dict.lookup k qs ≡ some d
    → is_alive d.status ≡ true
    → (c : Link) × (Dict.lookup k ps ≡ some c) × (is_alive c.status ≡ true)

pub Duller-Quiet :
    (names : List Text) (ps qs : Links) → Quiet names ps → Duller ps qs → Quiet names qs
Duller-Quiet names ps qs v w k d found up =
    let (c, found', up') = w k d found up in v k c found' up'

pub lookup-adjust_cases :
    (n k : Text) (c d : Link) (ps : Links)
    → Dict.lookup k (adjust n c ps) ≡ some d
    → ((text_eq n k ≡ true) × (d ≡ c)) ⊎ ((text_eq n k ≡ false) × (Dict.lookup k ps ≡ some d))
unfolding Dict.lookup adjust
lookup-adjust_cases n k c d [] e = cc
lookup-adjust_cases n k c d ((j, x) ∷ ps) e =
    ground
      (arith, text_eq_iff n k, text_eq_iff j k, text_eq_iff j n, lookup-adjust_cases n k c d ps)

pub adjust-Duller :
    (n : Text) (c c' : Link) (ps : Links)
    → Dict.lookup n ps ≡ some c
    → (is_alive c'.status ≡ true → is_alive c.status ≡ true)
    → Duller ps (adjust n c' ps)
adjust-Duller n c c' ps found less k d e up = elim (lookup-adjust_cases n k c' d ps e) [
  | inr (_, f) ↦ (d, f, up)
  | inl (same, f) ↦ (
    c,
    ap (λ t. Dict.lookup t ps) (sym ((text_eq_iff n k).0 same)) ∙ found,
    less (ap (λ (x : Link). is_alive x.status) (sym f) ∙ up),
  )
]

pub Duller-refl : (ps : Links) → Duller ps ps
Duller-refl ps k d e up = (d, e, up)

pub ended-alive : (c : Link) → is_alive (ended c).status ≡ true → is_alive c.status ≡ true
unfolding ended is_alive
ended-alive c e = cc

pub judged-alive :
    (j : Judgement) (c : Link)
    → is_alive (after_judgement j c).status ≡ true
    → is_alive c.status ≡ true
unfolding after_judgement
judged-alive ignores c e = e
judged-alive (keeps x) c e = e
judged-alive (closes x) c e = ended-alive c e

-- A name may be left out when its connection is not alive.
tail-Quiet :
    (name : Text) (names : List Text) (ps : Links)
    → Quiet (name ∷ names) ps
    → ((d : Link) → Dict.lookup name ps ≡ some d → is_alive d.status ≡ false)
    → Quiet names ps
tail-Quiet name names ps v off k d e up = elim (Bool-cases (text_eq name k)) [
  | inl f ↦ absurd (cc (off d (ap (λ t. Dict.lookup t ps) ((text_eq_iff name k).0 f) ∙ e), up))
  | inr f ↦ rw f at (v k d e up)
]

same_alive : (c d : Link) → some c ≡ some d → is_alive c.status ≡ false → is_alive d.status ≡ false
same_alive c d e off = cc

dead-alive : (s : Status) → is_dead s ≡ true → is_alive s ≡ false
unfolding is_dead is_alive
dead-alive dead e = refl
dead-alive alive e = cc
dead-alive shutdown e = cc

ended_lem : (c : Link) → is_alive (ended c).status ≡ false
unfolding ended is_alive
ended_lem c = refl

adjust-ended :
    (name : Text) (c d : Link) (ps : Links)
    → Dict.lookup name (adjust name (ended c) ps) ≡ some d
    → is_alive d.status ≡ false
adjust-ended name c d ps e = elim (lookup-adjust_cases name name (ended c) d ps e) [
  | inl (_, f) ↦ ap (λ (x : Link). is_alive x.status) f ∙ ended_lem c
  | inr (f, _) ↦ absurd (cc (f, text_eq_refl name))
]

-- Close of a connection takes its name off those that may be alive.
pub close_link-Quiet :
    (name : Text) (names : List Text) (quic : Quic) (err : Cause) (c : Link) (p : Pool)
    → Dict.lookup name p.links ≡ some c
    → Quiet (name ∷ names) p.links
    → Quiet names (close_link name quic err c p).0.links
unfolding close_link
close_link-Quiet name names quic err c p found v = elim (Bool-cases (is_dead c.status)) [
  | inl f ↦
      rw (f, close_link)
        (tail-Quiet name names p.links v
          (λ d e. same_alive c d (sym found ∙ e) (dead-alive c.status f)))
  | inr f ↦
      rw (f, close_link)
        (tail-Quiet name names _
          (Duller-Quiet (name ∷ names) p.links _ v
            (adjust-Duller name c (ended c) p.links found (ended-alive c)))
          (λ d e. adjust-ended name c d p.links e))
]

pub keys-Quiet : (ps : Links) → Quiet (map (λ (x : Text × Link). x.0) ps) ps
unfolding Dict.lookup
keys-Quiet [] k c e up = cc
keys-Quiet ((j, x) ∷ ps) k c e up = elim (Bool-cases (text_eq j k)) [
  | inl f ↦ rw f refl
  | inr f ↦ rw f (keys-Quiet ps k c (rw f at e) up)
]
