-- ===== src/Connection/Pool/Count.antt =====
-- connection/pool.go and connection.go: the counter of live connections.
use replicated_file_system.Common.{
  ℕ, ◌+◌, ◌-◌, ◌≤◌, ◌≡◌, refl, ◌≢◌, ◌∙◌, sym, ap, Bool, true, false, Option, none, some, List, [],
  ◌∷◌, Text, text_eq, length, All, arith, Bool-cases, inl, inr,
}
use replicated_file_system.Common.Dict
use replicated_file_system.Errors.{Cause}
use replicated_file_system.Connection.Link.{
  Status, dead, alive, shutdown, Link, is_alive, is_dead, opened, ended, Judgement, ignores, keeps,
  closes, Incoming, incoming_judgement,
}
use replicated_file_system.Connection.Pool.{
  Pool, Quic, adjust, commit_link, close_link, after_judgement, lost, recv_link,
}

unfoldable pub one_if : Bool → ℕ
one_if true = 1
one_if false = 0

unfoldable pub count_alive : List (Text × Link) → ℕ
unfolding one_if is_alive
count_alive [] = 0
count_alive ((k, c) ∷ rest) = one_if (is_alive c.status) + count_alive rest

-- The code never sets StatusShutdown.
abbrev pub NoShutdown : List (Text × Link) → Type 0
NoShutdown = All λ x. x.1.status ≢ shutdown

-- The counter is the number of live connections.
abbrev pub IsCounted : Pool → Type 0
IsCounted p = (p.active ≡ count_alive p.links) × NoShutdown p.links

count-adjust :
    (name : Text) (c d : Link) (ps : List (Text × Link))
    → Dict.lookup name ps ≡ some d
    → count_alive (adjust name c ps) + one_if (is_alive d.status)
      ≡ count_alive ps + one_if (is_alive c.status)
unfolding adjust count_alive Dict.lookup
count-adjust name c d [] e = cc
count-adjust name c d ((k, x) ∷ ps) e = ground (arith, count-adjust name c d ps)

adjust-NoShutdown :
    (name : Text) (c : Link) (ps : List (Text × Link))
    → c.status ≢ shutdown
    → NoShutdown ps
    → NoShutdown (adjust name c ps)
unfolding adjust
adjust-NoShutdown name c [] up h = tt
adjust-NoShutdown name c ((k, x) ∷ ps) up h = elim (Bool-cases (text_eq k name)) [
  | inl e ↦ rw e (up, h.1)
  | inr e ↦ rw e (h.0, adjust-NoShutdown name c ps up h.1)
]

pub lookup-NoShutdown :
    (name : Text) (d : Link) (ps : List (Text × Link))
    → Dict.lookup name ps ≡ some d
    → NoShutdown ps
    → d.status ≢ shutdown
unfolding Dict.lookup
lookup-NoShutdown name d [] e h = cc
lookup-NoShutdown name d ((k, x) ∷ ps) e h = elim (Bool-cases (text_eq k name)) [
  | inl f ↦ λ s. h.0 (
      ap (λ (y : Option Link). elim y [ none ↦ dead | some z ↦ z.status ])
        (rw (f, Dict.lookup) at e)
      ∙ s)
  | inr f ↦ lookup-NoShutdown name d ps (rw (f, Dict.lookup) at e) h.1
]

count-le : (ps : List (Text × Link)) → count_alive ps ≤ length ps
unfolding count_alive one_if
count-le [] = omega arith
count-le ((k, c) ∷ ps) = ground (arith, count-le ps)

pub every_link_alive :
    (ps : List (Text × Link))
    → count_alive ps ≡ length ps
    → All (λ x. is_alive x.1.status ≡ true) ps
unfolding count_alive one_if
every_link_alive [] e = tt
every_link_alive ((k, c) ∷ ps) e =
    (ground (arith, count-le ps), every_link_alive ps (ground (arith, count-le ps)))

pub alive_lem : (s : Status) → is_alive s ≡ true → (s ≡ alive) × (is_dead s ≡ false)
unfolding is_alive is_dead
alive_lem dead e = cc
alive_lem alive e = (refl, refl)
alive_lem shutdown e = cc

alive-shutdown : alive ≢ shutdown
alive-shutdown e = absurd (cc (e))

dead-shutdown : dead ≢ shutdown
dead-shutdown e = absurd (cc (e))

pub living_lem : (s : Status) → s ≢ shutdown → is_dead s ≡ false → is_alive s ≡ true
unfolding is_alive is_dead
living_lem dead h e = cc
living_lem alive h e = refl
living_lem shutdown h e = absurd (h refl)

counted_up :
    (active : ℕ) (b : Bool) (before after : ℕ)
    → b ≡ false
    → active ≡ before
    → after + one_if b ≡ before + one_if (is_alive alive)
    → active + 1 ≡ after
unfolding one_if is_alive
counted_up active b before after f e n = ground arith

counted_down :
    (active : ℕ) (b : Bool) (before after : ℕ)
    → b ≡ true
    → active ≡ before
    → after + one_if b ≡ before + one_if (is_alive dead)
    → active - 1 ≡ after
unfolding one_if is_alive
counted_down active b before after f e n = ground arith

pub commit-IsCounted :
    (name : Text) (perspective : ℕ) (c : Link) (p : Pool)
    → Dict.lookup name p.links ≡ some c
    → IsCounted p
    → IsCounted (commit_link name perspective c p).0
unfolding commit_link opened
commit-IsCounted name perspective c p found v = elim (Bool-cases (is_alive c.status)) [
  | inl f ↦ rw (f, commit_link) v
  | inr f ↦
      let up : Link = opened perspective c in
      let n = count-adjust name up c p.links found in
      rw (f, commit_link)
        (
          counted_up p.active (is_alive c.status) _ _ f v.0 n,
          adjust-NoShutdown name up p.links alive-shutdown v.1,
        )
]

pub close_link-IsCounted :
    (name : Text) (quic : Quic) (err : Cause) (c : Link) (p : Pool)
    → Dict.lookup name p.links ≡ some c
    → IsCounted p
    → IsCounted (close_link name quic err c p).0
unfolding close_link ended
close_link-IsCounted name quic err c p found v = elim (Bool-cases (is_dead c.status)) [
  | inl f ↦ rw (f, close_link) v
  | inr f ↦
      let n = count-adjust name (ended c) c p.links found in
      let up = living_lem c.status (lookup-NoShutdown name c p.links found v.1) f in
      rw (f, close_link)
        (
          counted_down p.active (is_alive c.status) _ _ up v.0 n,
          adjust-NoShutdown name (ended c) p.links dead-shutdown v.1,
        )
]

pub AllDead-IsCounted :
    (ps : List (Text × Link))
    → All (λ x. x.1.status ≡ dead) ps
    → (0 ≡ count_alive ps) × NoShutdown ps
unfolding count_alive one_if is_alive
AllDead-IsCounted [] h = (refl, tt)
AllDead-IsCounted ((k, c) ∷ ps) h =
    let (n, down) = AllDead-IsCounted ps h.1 in
    (ground (arith, n), (λ e. dead-shutdown (sym h.0 ∙ e), down))

-- A connection changes without a change of its status.
pub keep_status-IsCounted :
    (name : Text) (c d : Link) (p : Pool)
    → Dict.lookup name p.links ≡ some d
    → c.status ≡ d.status
    → IsCounted p
    → IsCounted (record p { links = adjust name c p.links })
keep_status-IsCounted name c d p found same v =
    let n = count-adjust name c d p.links found in
    let still =
      λ (e : c.status ≡ shutdown). lookup-NoShutdown name d p.links found v.1 (sym same ∙ e) in
    (
      omega (arith, v.0, n, ap (λ s. one_if (is_alive s)) same),
      adjust-NoShutdown name c p.links still v.1,
    )

-- What handleErrors leaves of a connection that is alive.
pub judged_link :
    (j : Judgement) (c : Link)
    → is_alive c.status ≡ true
    → (one_if (is_alive (after_judgement j c).status) + lost j ≡ 1)
      × ((after_judgement j c).status ≢ shutdown)
unfolding after_judgement lost ended one_if is_alive
judged_link ignores c up = (rw up refl, λ e. alive-shutdown (sym (alive_lem c.status up).0 ∙ e))
judged_link (keeps e) c up = (rw up refl, λ f. alive-shutdown (sym (alive_lem c.status up).0 ∙ f))
judged_link (closes e) c up = (refl, dead-shutdown)

counted_after :
    (active gone a b : ℕ) (before after : ℕ)
    → active ≡ before
    → after + a ≡ before + b
    → a ≡ 1
    → b + gone ≡ 1
    → active - gone ≡ after
counted_after active gone a b before after e n f g = omega arith

pub recv_link-IsCounted :
    (name : Text) (incoming : Incoming) (c : Link) (p : Pool)
    → Dict.lookup name p.links ≡ some c
    → is_alive c.status ≡ true
    → IsCounted p
    → IsCounted (recv_link name incoming c p).0
unfolding recv_link one_if
recv_link-IsCounted name incoming c p found up v =
    let j = incoming_judgement incoming in
    let n = count-adjust name (after_judgement j c) c p.links found in
    let (one, still) = judged_link j c up in
    (
      counted_after p.active (lost j) _ _ _ _ v.0 n (ap one_if up) one,
      adjust-NoShutdown name (after_judgement j c) p.links still v.1,
    )
