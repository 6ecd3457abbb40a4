-- ===== src/Connection/Shutdown/Guarded.antt =====
-- connection/pool.go: what holds at each stage of Close, and that every step keeps it.
use replicated_file_system.Common.{
  ℕ, ◌+◌, ◌-◌, ◌≡◌, refl, sym, subst, ◌∙◌, inl, inr, true, false, Option, [], ◌∷◌, Text, ◌==◌,
  returns, arith, Option-cases, Bool-cases, returns-injective,
}
use replicated_file_system.Common.Dict
use replicated_file_system.Errors.{Cause, conn, closed}
use replicated_file_system.Connection.Pool.{Pool, Quic, close}
use replicated_file_system.Connection.Shutdown.{
  Closing, running, polling, closing_links, ended, Node, load_closed, remove_working,
  remove_refused, poll, close_next,
}
use replicated_file_system.Connection.Shutdown.Silence.{
  Quiet, Duller, Duller-Quiet, close_link-Quiet, keys-Quiet,
}

-- What holds at each stage of Close.
abbrev pub StageHolds : Closing → Node → Type 0
StageHolds running n = Unit
StageHolds polling n = n.is_closed ≡ true
StageHolds (closing_links names errs) n =
    (n.is_closed ≡ true) × (n.working ≡ 0) × Quiet names n.pool.links
StageHolds (ended e) n = (n.is_closed ≡ true) × (n.working ≡ 0) × Quiet [] n.pool.links

abbrev pub IsGuarded : Node → Type 0
IsGuarded n = (n.handlers ≡ n.checking + n.working + n.refused) × StageHolds n.closing n

pub moves-StageHolds :
    (c : Closing) (n : Node) (p : Pool)
    → StageHolds c n
    → Duller n.pool.links p.links
    → StageHolds c (record n { pool = p })
moves-StageHolds running n p v w = tt
moves-StageHolds polling n p v w = v
moves-StageHolds (closing_links names errs) n p (a, b, v) w =
    (a, b, Duller-Quiet names n.pool.links p.links v w)
moves-StageHolds (ended e) n p (a, b, v) w = (a, b, Duller-Quiet [] n.pool.links p.links v w)

pub commit-StageHolds :
    (c : Closing) (n : Node) (p : Pool)
    → StageHolds c n
    → (n.working == 0) ≡ false
    → StageHolds c (record n { pool = p })
commit-StageHolds running n p v w = tt
commit-StageHolds polling n p v w = v
commit-StageHolds (closing_links names errs) n p (a, b, v) w = absurd (cc (b, w))
commit-StageHolds (ended e) n p (a, b, v) w = absurd (cc (b, w))

-- A step of a handler: the pool stays, and once Close is called no more of them work.
pub handler-StageHolds :
    (c : Closing) (n n' : Node)
    → n'.pool ≡ n.pool
    → n'.is_closed ≡ n.is_closed
    → (n.is_closed ≡ true → n.working ≡ 0 → n'.working ≡ 0)
    → StageHolds c n
    → StageHolds c n'
handler-StageHolds running n n' same flag less v = tt
handler-StageHolds polling n n' same flag less v = flag ∙ v
handler-StageHolds (closing_links names errs) n n' same flag less (a, b, v) =
    (flag ∙ a, less a b, subst (λ (p : Pool). Quiet names p.links) (sym same) v)
handler-StageHolds (ended e) n n' same flag less (a, b, v) =
    (flag ∙ a, less a b, subst (λ (p : Pool). Quiet [] p.links) (sym same) v)

pub load-IsGuarded : (n : Node) → IsGuarded n → IsGuarded (load_closed n)
unfolding load_closed
load-IsGuarded n (v, w) = elim (Bool-cases (n.checking == 0)) [
  | inl f ↦ rw (f, load_closed) (v, w)
  | inr f ↦ elim (Bool-cases n.is_closed) [
    | inl g ↦
        rw (f, g, load_closed)
          (
            ground (arith, v, f),
            handler-StageHolds n.closing n
                (record n { is_closed = true; checking = n.checking - 1; refused = n.refused + 1 })
                refl (sym g) (λ a b. b) w,
          )
    | inr g ↦
        rw (f, g, load_closed)
          (
            ground (arith, v, f),
            handler-StageHolds n.closing n
                (record n { is_closed = false; checking = n.checking - 1; working = n.working + 1 })
                refl (sym g) (λ a b. absurd (cc (a, g))) w,
          )
  ]
]

pub remove_working-IsGuarded : (n : Node) → IsGuarded n → IsGuarded (remove_working n)
unfolding remove_working
remove_working-IsGuarded n (v, w) = elim (Bool-cases (n.working == 0)) [
  | inl f ↦ rw (f, remove_working) (v, w)
  | inr f ↦
      rw (f, remove_working)
        (
          ground (arith, v, f),
          handler-StageHolds n.closing n _ refl refl (λ a b. absurd (cc (b, f))) w,
        )
]

pub remove_refused-IsGuarded : (n : Node) → IsGuarded n → IsGuarded (remove_refused n)
unfolding remove_refused
remove_refused-IsGuarded n (v, w) = elim (Bool-cases (n.refused == 0)) [
  | inl f ↦ rw (f, remove_refused) (v, w)
  | inr f ↦
      rw (f, remove_refused)
        (ground (arith, v, f), handler-StageHolds n.closing n _ refl refl (λ a b. b) w)
]

pub no_handlers : (h : ℕ) → (h == 0) ≡ true → h ≡ 0
no_handlers h e = ground arith

-- The poll that sees no handlers.
poll_stage :
    (listener : Option Cause) (n : Node) (c : Closing)
    → n.handlers ≡ n.checking + n.working + n.refused
    → StageHolds c n
    → n.closing ≡ c
    → IsGuarded (poll listener n)
unfolding poll
poll_stage listener n running v w e = rw (e, poll) (v, rw e tt)
poll_stage listener n polling v w e = elim (Bool-cases (n.handlers == 0)) [
  | inl f ↦
      rw (e, f, poll) (v, (w, omega (arith, v, no_handlers n.handlers f), keys-Quiet n.pool.links))
  | inr f ↦ rw (e, f, poll) (v, rw e w)
]
poll_stage listener n (closing_links names errs) v w e = rw (e, poll) (v, rw e w)
poll_stage listener n (ended x) v w e = rw (e, poll) (v, rw e w)

pub poll-IsGuarded :
    (listener : Option Cause) (n : Node) → IsGuarded n → IsGuarded (poll listener n)
unfolding poll
poll-IsGuarded listener n (v, w) = poll_stage listener n n.closing v w refl

close_stage :
    (quic : Text → Quic) (n n' : Node) (c : Closing)
    → n.handlers ≡ n.checking + n.working + n.refused
    → StageHolds c n
    → n.closing ≡ c
    → close_next quic n ≡ returns n'
    → IsGuarded n'
unfolding close_next close
close_stage quic n n' running v w e h =
    subst IsGuarded (returns-injective n n' (rw (e, close_next) at h)) (v, rw e tt)
close_stage quic n n' polling v w e h =
    subst IsGuarded (returns-injective n n' (rw (e, close_next) at h)) (v, rw e w)
close_stage quic n n' (ended x) v w e h =
    subst IsGuarded (returns-injective n n' (rw (e, close_next) at h)) (v, rw e w)
close_stage quic n n' (closing_links [] errs) v w e h =
    subst IsGuarded (returns-injective _ n' (rw (e, close_next) at h)) (v, w)
close_stage quic n n' (closing_links (name ∷ names) errs) v (a, b, q) e h =
    elim (Option-cases (Dict.lookup name n.pool.links)) [
      | inl g ↦ absurd (cc (rw (e, g, close_next, close) at h))
      | inr (c, g) ↦
          subst IsGuarded (returns-injective _ n' (rw (e, g, close_next, close) at h))
            (v, (a, b, close_link-Quiet name names (quic name) (conn closed) c n.pool g q))
    ]

pub close_next-IsGuarded :
    (quic : Text → Quic) (n n' : Node) → IsGuarded n → close_next quic n ≡ returns n' → IsGuarded n'
unfolding close_next
close_next-IsGuarded quic n n' (v, w) h = close_stage quic n n' n.closing v w refl h
