-- ===== src/Connection/Backoff/Within.antt =====
-- connection/backoff.go: how long Next waits.
use replicated_file_system.Common.{
  ℕ, ◌≡◌, ◌≢◌, refl, true, false, ◌+◌, ◌==◌, returns, arith, Bool-cases, ◌⊎◌, inl, inr,
}
use replicated_file_system.Config.{Backoff}
use replicated_file_system.Connection.Backoff.{
  less, Floats, Timer, unset, ticking, expired, drained, State, signed, limited, unlimited,
  next_duration, next_again, next,
}

-- At least Initial, and at most Max.
abbrev pub IsWithin : Backoff → ℕ → Type 0
IsWithin conf d = (less d conf.initial ≡ false) × (less conf.max d ≡ false)

less_irrefl : (a : ℕ) → less a a ≡ false
unfolding less
less_irrefl a = ground arith

limited-IsWithin :
    (conf : Backoff) (dur : ℕ)
    → less conf.max conf.initial ≡ false
    → IsWithin conf (limited conf dur)
unfolding limited
limited-IsWithin conf dur ordered = elim (Bool-cases (less dur conf.initial)) [
  | inl f ↦ rw (f, limited) (less_irrefl conf.initial, ordered)
  | inr f ↦ elim (Bool-cases (less conf.max dur)) [
    | inl g ↦ rw (f, g, limited) (ordered, less_irrefl conf.max)
    | inr g ↦ rw (f, g, limited) (f, g)
  ]
]

module _ (floats : Floats) (intn : ℕ → ℕ) where
  -- The jitter is off, or Intn has a positive argument.
  abbrev pub HasJitter : Backoff → Type 0
  HasJitter conf =
      (floats.is_zero conf.max_factor_jitter ≡ true)
      ⊎ (less 0 (floats.hundredfold conf.max_factor_jitter) ≡ true)

  unlimited_returns :
      (b : State) → HasJitter b.conf → (d : ℕ) × (unlimited floats intn b ≡ returns d)
  unfolding unlimited
  unlimited_returns b h = elim (Bool-cases (floats.is_zero b.conf.max_factor_jitter)) [
    | inl f ↦ (floats.scaled b.val b.conf.factor, rw (f, unlimited) refl)
    | inr f ↦ elim h [
      | inl g ↦ absurd (cc (f, g))
      | inr g ↦ (
        floats.scaled_with (signed (intn (floats.hundredfold b.conf.max_factor_jitter))) b.val
            b.conf.factor,
        rw (f, g, unlimited) refl,
      )
    ]
  ]

  next_duration-IsWithin :
      (b : State)
      → HasJitter b.conf
      → less b.conf.max b.conf.initial ≡ false
      → (d : ℕ) × (next_duration floats intn b ≡ returns d) × IsWithin b.conf d
  unfolding next_duration
  next_duration-IsWithin b jitter ordered = elim (Bool-cases (less b.conf.max b.val)) [
    | inl f ↦ (b.conf.max, rw (f, next_duration) refl, (ordered, less_irrefl b.conf.max))
    | inr f ↦
        let (d, e) = unlimited_returns b jitter in
        (limited b.conf d, rw (f, e, next_duration) refl, limited-IsWithin b.conf d ordered)
  ]

  again_returns :
      (b : State) (d : ℕ) (t : Timer)
      → b.timer ≡ t
      → t ≢ unset
      → next_duration floats intn b ≡ returns d
      → next_again floats intn b
        ≡ returns (d, record b { attempt = b.attempt + 1; val = d; timer = drained })
  unfolding next_again
  again_returns b d unset e set f = absurd (set refl)
  again_returns b d ticking e set f = rw (e, f, next_again) refl
  again_returns b d expired e set f = rw (e, f, next_again) refl
  again_returns b d drained e set f = rw (e, f, next_again) refl

  again-IsWithin :
      (b : State) (t : Timer)
      → HasJitter b.conf
      → less b.conf.max b.conf.initial ≡ false
      → b.timer ≡ t
      → t ≢ unset
      → (d : ℕ) × (b' : State) × (next_again floats intn b ≡ returns (d, b'))
        × (b'.timer ≡ drained)
        × IsWithin b.conf d
  unfolding next_again
  again-IsWithin b t jitter ordered e set =
      let (d, f, v) = next_duration-IsWithin b jitter ordered in
      (
        d,
        record b { attempt = b.attempt + 1; val = d; timer = drained },
        again_returns b d t e set f,
        refl,
        v,
      )

  -- Where Initial is at most Max, and the jitter is off or at least a hundredth, Next returns, from
  -- the first attempt on: it has waited for at least Initial and for at most Max, whatever the
  -- factor, and has received from its timer.
  pub next-IsWithin :
      (b : State)
      → HasJitter b.conf
      → less b.conf.max b.conf.initial ≡ false
      → (b.attempt ≢ 0 → b.timer ≢ unset)
      → (d : ℕ) × (b' : State) × (next floats intn b ≡ returns (d, b'))
        × (b'.timer ≡ drained)
        × IsWithin b.conf d
  unfolding next
  next-IsWithin b jitter ordered set = elim (Bool-cases (b.attempt == 0)) [
    | inl f ↦ (
      b.conf.initial,
      record b { attempt = b.attempt + 1; timer = drained },
      rw (f, next) refl,
      refl,
      (less_irrefl b.conf.initial, ordered),
    )
    | inr f ↦
        let (d, b', e, w, v) =
          again-IsWithin b b.timer jitter ordered refl (set (λ z. absurd (cc (z, f)))) in
        (d, b', rw (f, next) e, w, v)
  ]
