-- ===== src/Connection/Shutdown/Rounds.antt =====
-- connection/pool.go: the loop of Close over the connections.
use replicated_file_system.Common.{
  ℕ, zero, suc, ◌≡◌, ◌≢◌, refl, sym, ap, true, Option, none, List, [], ◌∷◌, Text, text_eq_refl, map,
  length, inl, inr, Outcome, returns, ◌>>=◌, Option-cases, Bool-cases, ◌==◌, arith, All,
}
use replicated_file_system.Common.Dict
use replicated_file_system.Errors.{Cause, Err, conn, closed}
use replicated_file_system.Errors.Messages.{MultiErr}
use replicated_file_system.Connection.Link.{Link, is_dead, ended}
use replicated_file_system.Connection.Pool.{Pool, Quic, close_link, close, multi_error}
use replicated_file_system.Connection.Pool.Sound.{lookup-adjust}
use replicated_file_system.Connection.Shutdown.{
  Closing, polling, closing_links, Node, listener_error, add_error, poll, close_next,
}

-- Rounds of the loop.
unfoldable pub close_rounds : (Text → Quic) → ℕ → Node → Outcome Node
unfolding close_next
close_rounds quic zero n = returns n
close_rounds quic (suc fuel) n = close_next quic n >>= close_rounds quic fuel

abbrev Links : Type 0
Links = List (Text × Link)

abbrev pub names_of : Links → List Text
names_of ps = map (λ (x : Text × Link). x.0) ps

length-names_of : (ps : Links) → length (names_of ps) ≡ length ps
length-names_of [] = refl
length-names_of (x ∷ ps) = ap suc (length-names_of ps)

-- Every name has its connection.
abbrev HasLinks : List Text → Links → Type 0
HasLinks names ps = All (λ k. Dict.lookup k ps ≢ none) names

cons-HasLinks :
    (j : Text) (c : Link) (names : List Text) (ps : Links)
    → HasLinks names ps
    → HasLinks names ((j, c) ∷ ps)
unfolding Dict.lookup
cons-HasLinks j c [] ps h = tt
cons-HasLinks j c (k ∷ names) ps (a, h) = (ground (arith, a), cons-HasLinks j c names ps h)

names_of-HasLinks : (ps : Links) → HasLinks (names_of ps) ps
unfolding Dict.lookup
names_of-HasLinks [] = tt
names_of-HasLinks ((j, c) ∷ ps) =
    (ground (arith, text_eq_refl j), cons-HasLinks j c (names_of ps) ps (names_of-HasLinks ps))

close_link-HasLinks :
    (names : List Text) (name : Text) (quic : Quic) (err : Cause) (c : Link) (p : Pool)
    → HasLinks names p.links
    → HasLinks names (close_link name quic err c p).0.links
unfolding close_link
close_link-HasLinks [] name quic err c p h = tt
close_link-HasLinks (k ∷ names) name quic err c p (a, h) = (
  elim (Bool-cases (is_dead c.status)) [
    | inl f ↦ rw (f, close_link) a
    | inr f ↦ rw (f, close_link) (lookup-adjust name k (ended c) p.links a)
  ],
  close_link-HasLinks names name quic err c p h,
)

rounds_end :
    (quic : Text → Quic) (names : List Text) (errs : MultiErr) (n : Node)
    → n.closing ≡ closing_links names errs
    → HasLinks names n.pool.links
    → (n' : Node) × (e : Option Err) × (close_rounds quic (suc (length names)) n ≡ returns n')
      × (n'.closing ≡ Closing.ended e)
unfolding close_rounds close_next close
rounds_end quic [] errs n at h = (
  record n { closing = Closing.ended (multi_error errs) },
  multi_error errs,
  rw (at, close_next) refl,
  refl,
)
rounds_end quic (k ∷ names) errs n at (a, h) = elim (Option-cases (Dict.lookup k n.pool.links)) [
  | inl g ↦ absurd (a g)
  | inr (c, g) ↦
      let m : Node = record n {
        pool = (close_link k (quic k) (conn closed) c n.pool).0;
        closing =
            closing_links names (add_error k (close_link k (quic k) (conn closed) c n.pool).1 errs);
      } in
      let (n', e, run, over) =
        rounds_end quic names _ m refl
          (close_link-HasLinks names k (quic k) (conn closed) c n.pool h) in
      (n', e, rw (at, g, close_next, close) run, over)
]

-- When Close is polling and no handler is left, the next poll ends the loop, and a round for each
-- connection, and one more, end Close: none of them panics.
pub close_rounds-ended :
    (quic : Text → Quic) (listener : Option Cause) (n : Node)
    → n.closing ≡ polling
    → n.handlers ≡ 0
    → (n' : Node) × (e : Option Err) × (close_rounds quic
          (suc (length n.pool.links))
          (poll listener n)
        ≡ returns n')
      × (n'.closing ≡ Closing.ended e)
unfolding poll
close_rounds-ended quic listener n at none_left =
    let counted : (n.handlers == 0) ≡ true = ap (λ h. h == 0) none_left in
    let (n', e, run, over) =
      rounds_end quic (names_of n.pool.links) (listener_error listener)
        (record n { closing = closing_links (names_of n.pool.links) (listener_error listener) })
        refl (names_of-HasLinks n.pool.links) in
    (n', e, rw (at, counted, poll, sym (length-names_of n.pool.links)) run, over)
