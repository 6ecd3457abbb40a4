-- ===== src/Connection/Dialing/Stuck.antt =====
-- connection/pool.go, connection/backoff.go: a dial that succeeds after one that failed.
use replicated_file_system.Common.{
  ℕ, ◌+◌, ◌≡◌, ◌≢◌, refl, subst, Option, none, some, List, [], ◌∷◌, ◌⊎◌, inl, inr, returns, ◌>>=◌,
  >>=-eq-returns, returns-injective, ◌==◌, Bool-cases, Option-cases, sym,
}
use replicated_file_system.Errors.{Cause, pool_closed}
use replicated_file_system.Config.{Backoff}
use replicated_file_system.Connection.Link.{Status, alive, dead, shutdown}
use replicated_file_system.Connection.Backoff.{
  Floats, Timer, unset, ticking, expired, drained, State, new_backoff, next_duration, next_again,
  next, reset,
}
use replicated_file_system.Connection.Dialing.{
  Phase, checking, dialing, blocked, returned, Dialer, new_dialer, Turn, sees, dials, see, restart,
  dialed, advance, advance_all,
}

-- After an attempt that failed, the timer's channel is empty; Reset has seen it so if it blocked.
abbrev pub IsWound : Dialer → Type 0
IsWound d = (d.backoff.timer ≡ drained) ⊎ ((d.backoff.timer ≡ unset) × (d.backoff.attempt ≡ 0))

see-backoff : (s : Status) (d : Dialer) (p : Phase) → d.phase ≡ p → (see s d).backoff ≡ d.backoff
unfolding see
see-backoff alive d checking e = rw (e, see) refl
see-backoff dead d checking e = rw (e, see) refl
see-backoff shutdown d checking e = rw (e, see) refl
see-backoff alive d Phase.ticking e = rw (e, see) refl
see-backoff dead d Phase.ticking e = rw (e, see) refl
see-backoff shutdown d Phase.ticking e = rw (e, see) refl
see-backoff s d dialing e = rw (e, see) refl
see-backoff s d blocked e = rw (e, see) refl
see-backoff s d returned e = rw (e, see) refl

waited_lem :
    (floats : Floats) (intn : ℕ → ℕ) (b : State) (r : ℕ × State)
    → (next_duration floats intn b >>= λ dur.
        returns (dur, record b { attempt = b.attempt + 1; val = dur; timer = drained }))
      ≡ returns r
    → r.1.timer ≡ drained
waited_lem floats intn b r h =
    let (dur, _, g) = >>=-eq-returns (next_duration floats intn b) _ h in
    subst (λ (q : ℕ × State). q.1.timer ≡ drained) (returns-injective _ r g) refl

again-drained :
    (floats : Floats) (intn : ℕ → ℕ) (b : State) (t : Timer) (r : ℕ × State)
    → b.timer ≡ t
    → next_again floats intn b ≡ returns r
    → r.1.timer ≡ drained
unfolding next_again
again-drained floats intn b unset r e h =
    let (dur, _, g) = >>=-eq-returns (next_duration floats intn b) _ (rw (e, next_again) at h) in
    absurd (cc g)
again-drained floats intn b ticking r e h = waited_lem floats intn b r (rw (e, next_again) at h)
again-drained floats intn b expired r e h = waited_lem floats intn b r (rw (e, next_again) at h)
again-drained floats intn b drained r e h = waited_lem floats intn b r (rw (e, next_again) at h)

next-drained :
    (floats : Floats) (intn : ℕ → ℕ) (b : State) (t : Timer) (r : ℕ × State)
    → b.timer ≡ t
    → next floats intn b ≡ returns r
    → r.1.timer ≡ drained
unfolding next next_again
next-drained floats intn b t r e h = elim (Bool-cases (b.attempt == 0)) [
  | inl f ↦
      subst (λ (q : ℕ × State). q.1.timer ≡ drained) (returns-injective _ r (rw (f, next) at h))
        refl
  | inr f ↦ again-drained floats intn b t r e (rw (f, next) at h)
]

-- What dialOnce's error does.
failed-IsWound :
    (floats : Floats) (drawn : ℕ) (d d' : Dialer)
    → (next floats (λ n. drawn) d.backoff >>= λ (waited, b). returns (restart b)) ≡ returns d'
    → IsWound d'
unfolding restart
failed-IsWound floats drawn d d' h =
    let ((waited, b), slept, g) = >>=-eq-returns (next floats (λ n. drawn) d.backoff) _ h in
    subst IsWound (returns-injective _ d' g)
      (inl (next-drained floats (λ n. drawn) d.backoff d.backoff.timer (waited, b) refl slept))

some_lem : (b c : State) → some b ≡ some c → b ≡ c
some_lem b c e = cc

reset-unset :
    (b b' : State) (t : Timer)
    → b.timer ≡ t
    → (t ≡ drained) ⊎ ((t ≡ unset) × (b.attempt ≡ 0))
    → reset b ≡ some b'
    → (b'.timer ≡ unset) × (b'.attempt ≡ 0)
unfolding reset
reset-unset b b' unset e w h =
    subst (λ (c : State). (c.timer ≡ unset) × (c.attempt ≡ 0))
      (some_lem (record b { attempt = 0; val = b.conf.initial }) b' (rw (e, reset) at h)) (e, refl)
reset-unset b b' ticking e (inl w) h = cc
reset-unset b b' ticking e (inr w) h = absurd (cc w.0)
reset-unset b b' expired e (inl w) h = cc
reset-unset b b' expired e (inr w) h = absurd (cc w.0)
reset-unset b b' drained e w h = absurd (cc (rw (e, reset) at h))

dialed-IsWound :
    (floats : Floats) (result : Option Cause) (drawn : ℕ) (d d' : Dialer)
    → IsWound d
    → dialed floats result drawn d ≡ returns d'
    → IsWound d'
unfolding dialed restart
dialed-IsWound floats (some pool_closed) drawn d d' w h =
    subst IsWound (returns-injective (record d { phase = returned }) d' h) w
dialed-IsWound floats (some e) drawn d d' w h = failed-IsWound floats drawn d d' h
dialed-IsWound floats none drawn d d' w h = elim (Option-cases (reset d.backoff)) [
  | inl f ↦ subst IsWound (returns-injective _ d' (rw (f, dialed) at h)) w
  | inr (b, f) ↦
      subst IsWound (returns-injective (restart b) d' (rw (f, dialed) at h))
        (inr (reset-unset d.backoff b d.backoff.timer refl w f))
]

advance-IsWound :
    (floats : Floats) (e : Turn) (d d' : Dialer) (p : Phase)
    → d.phase ≡ p
    → IsWound d
    → advance floats e d ≡ returns d'
    → IsWound d'
unfolding advance
advance-IsWound floats (sees s) d d' p at w h = subst IsWound (returns-injective (see s d) d' h) (
    subst (λ (b : State). (b.timer ≡ drained) ⊎ ((b.timer ≡ unset) × (b.attempt ≡ 0)))
      (sym (see-backoff s d p at)) w)
advance-IsWound floats (dials result drawn) d d' dialing at w h =
    dialed-IsWound floats result drawn d d' w (rw (at, advance) at h)
advance-IsWound floats (dials result drawn) d d' checking at w h =
    subst IsWound (returns-injective d d' (rw (at, advance) at h)) w
advance-IsWound floats (dials result drawn) d d' Phase.ticking at w h =
    subst IsWound (returns-injective d d' (rw (at, advance) at h)) w
advance-IsWound floats (dials result drawn) d d' blocked at w h =
    subst IsWound (returns-injective d d' (rw (at, advance) at h)) w
advance-IsWound floats (dials result drawn) d d' returned at w h =
    subst IsWound (returns-injective d d' (rw (at, advance) at h)) w

advance_all-IsWound :
    (floats : Floats) (es : List Turn) (d d' : Dialer)
    → IsWound d
    → advance_all floats es d ≡ returns d'
    → IsWound d'
unfolding advance_all
advance_all-IsWound floats [] d d' w h = subst IsWound (returns-injective d d' h) w
advance_all-IsWound floats (e ∷ es) d d' w h =
    let (m, f, g) = >>=-eq-returns (advance floats e d) (advance_all floats es) h in
    advance_all-IsWound floats es m d' (advance-IsWound floats e d m d.phase refl w f) g

-- dial once it is blocked.
abbrev waits_forever : State → Dialer
waits_forever b = record { backoff = b; phase = blocked }

advance_all-waits_forever :
    (floats : Floats) (es : List Turn) (b : State)
    → advance_all floats es (waits_forever b) ≡ returns (waits_forever b)
unfolding advance_all advance see
advance_all-waits_forever floats [] b = refl
advance_all-waits_forever floats (sees s ∷ es) b = advance_all-waits_forever floats es b
advance_all-waits_forever floats (dials result drawn ∷ es) b = advance_all-waits_forever floats es b

reset-none : (b : State) → b.timer ≡ drained → reset b ≡ none
unfolding reset
reset-none b e = rw (e, reset) refl

-- After any events, a dial that succeeds when an attempt has failed since the last Reset blocks the
-- loop for good: whatever happens then, it never dials that peer again.
pub dials-blocked :
    (floats : Floats) (conf : Backoff) (es more : List Turn) (d : Dialer) (drawn : ℕ)
    → advance_all floats es (new_dialer conf) ≡ returns d
    → d.phase ≡ dialing
    → d.backoff.attempt ≢ 0
    → advance_all floats (dials none drawn ∷ more) d ≡ returns (record d { phase = blocked })
unfolding advance_all advance dialed reset new_dialer new_backoff
dials-blocked floats conf es more d drawn run at failed =
    elim (advance_all-IsWound floats es (new_dialer conf) d (inr (refl, refl)) run) [
      | inl f ↦
          rw (at, reset-none d.backoff f, advance, dialed)
            (advance_all-waits_forever floats more d.backoff)
      | inr (_, f) ↦ absurd (failed f)
    ]
