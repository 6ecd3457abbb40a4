-- ===== src/Connection/Pool/Sends.antt =====
-- connection/pool.go: Broadcast.
use replicated_file_system.Common.{
  ◌+◌, ◌≡◌, refl, ◌≢◌, true, ◌==◌, ==_iff, Option, none, List, [], ◌∷◌, Text, length, All, arith,
  Option-cases, Bool-cases, inl, inr,
}
use replicated_file_system.Common.Dict
use replicated_file_system.Errors.Messages.{MultiErr}
use replicated_file_system.Connection.Link.{
  alive, Link, is_alive, Failure, Judgement, ignores, keeps, closes, judge, judged,
}
use replicated_file_system.Connection.Pool.{
  Pool, after_judgement, lost, send_to, send_all, multi_error, broadcast,
}
use replicated_file_system.Connection.Pool.Count.{
  count_alive, NoShutdown, IsCounted, every_link_alive, alive_lem, judged_link,
}

abbrev pub EveryAlive : List (Text × Link) → Type 0
EveryAlive = All λ x. is_alive x.1.status ≡ true

send_to-alive :
    (failure : Option Failure) (c : Link)
    → is_alive c.status ≡ true
    → send_to failure c
      ≡ (after_judgement (judge failure) c, lost (judge failure), judged (judge failure))
unfolding send_to
send_to-alive failure c up = rw (alive_lem c.status up).1 refl

send_all-counted :
    (wire : Text → Option Failure) (ps : List (Text × Link))
    → EveryAlive ps
    → (count_alive (send_all wire ps).0 + (send_all wire ps).1 ≡ length ps)
      × NoShutdown (send_all wire ps).0
unfolding send_all count_alive
send_all-counted wire [] up = (refl, tt)
send_all-counted wire ((k, c) ∷ ps) up =
    let (n, down) = send_all-counted wire ps up.1 in
    let (one, still) = judged_link (judge (wire k)) c up.0 in
    rw (send_to-alive (wire k) c up.0) (omega (arith, n, one), (still, down))

not_judged : (j : Judgement) → judged j ≡ none → j ≡ ignores
unfolding judged
not_judged ignores e = refl
not_judged (keeps x) e = cc
not_judged (closes x) e = cc

send_all-none :
    (wire : Text → Option Failure) (ps : List (Text × Link))
    → EveryAlive ps
    → (send_all wire ps).2 ≡ []
    → All (λ x. (x.1.status ≡ alive) × (judge (wire x.0) ≡ ignores)) ps
unfolding send_all
send_all-none wire [] up e = tt
send_all-none wire ((k, c) ∷ ps) up e =
    let e' = rw (send_to-alive (wire k) c up.0, send_all) at e in
    elim (Option-cases (judged (judge (wire k)))) [
      | inl f ↦ (
        ((alive_lem c.status up.0).0, not_judged (judge (wire k)) f),
        send_all-none wire ps up.1 (rw f at e'),
      )
      | inr (x, f) ↦ absurd (cc (rw f at e'))
    ]

pub send_all-lookup :
    (wire : Text → Option Failure) (k : Text) (ps : List (Text × Link))
    → Dict.lookup k ps ≢ none
    → Dict.lookup k (send_all wire ps).0 ≢ none
unfolding send_all Dict.lookup
send_all-lookup wire k [] h = h
send_all-lookup wire k ((j, c) ∷ ps) h = ground (arith, send_all-lookup wire k ps)

no_errors : (errs : MultiErr) → multi_error errs ≡ none → errs ≡ []
unfolding multi_error
no_errors [] e = refl
no_errors (x ∷ errs) e = cc

full : (p : Pool) → IsCounted p → (p.active == length p.links) ≡ true → EveryAlive p.links
full p v f = every_link_alive p.links (ground (arith, v.0, ==_iff p.active (length p.links)))

pub broadcast-IsCounted :
    (wire : Text → Option Failure) (p : Pool) → IsCounted p → IsCounted (broadcast wire p).0
unfolding broadcast
broadcast-IsCounted wire p v = elim (Bool-cases (p.active == length p.links)) [
  | inr f ↦ rw (f, broadcast) v
  | inl f ↦
      let (n, down) = send_all-counted wire p.links (full p v f) in
      rw (f, broadcast) (ground (arith, n, ==_iff p.active (length p.links)), down)
]

-- Broadcast with a right counter and no error.
pub broadcast_counted :
    (wire : Text → Option Failure) (p : Pool)
    → IsCounted p
    → (broadcast wire p).1 ≡ none
    → All (λ x. (x.1.status ≡ alive) × (judge (wire x.0) ≡ ignores)) p.links
unfolding broadcast
broadcast_counted wire p v e = elim (Bool-cases (p.active == length p.links)) [
  | inr f ↦ absurd (cc (rw (f, broadcast) at e))
  | inl f ↦ send_all-none wire p.links (full p v f) (no_errors _ (rw (f, broadcast) at e))
]
