-- ===== src/Connection/Backoff.antt =====
-- connection/backoff.go. Durations are the 64 bits of an int64. The arithmetic of float64 and the
-- numbers of math/rand are parameters.
pub mod Within
mod Tests
use replicated_file_system.Common.{
  ℕ, ◌+◌, ◌/◌, ◌%◌, ◌^◌, Bool, true, false, not, ◌&&◌, Option, none, some, ltb, ◌==◌, if◌then◌else◌,
  Outcome, returns, panics, ◌>>=◌,
}
use replicated_file_system.Config
use replicated_file_system.Config.{Backoff}

-- `<` of int64.
unfoldable pub less : ℕ → ℕ → Bool
less a b = ltb ((a + 2 ^ 63) % 2 ^ 64) ((b + 2 ^ 63) % 2 ^ 64)

-- A jitter: whether it is negative, and its size.
abbrev pub Jitter : Type 0
Jitter = Bool × ℕ

-- What the file computes with float64.
pub record Floats : Type 0 where
  -- `x == 0`
  pub is_zero : ℕ → Bool
  -- int(x * 100)
  pub hundredfold : ℕ → ℕ
  -- time.Duration(float64(val) * factor)
  pub scaled : ℕ → ℕ → ℕ
  -- time.Duration(float64(val) * (factor + factor * float64(jt) / 100))
  pub scaled_with : Jitter → ℕ → ℕ → ℕ

-- A timer: not made, running, expired with its time still in the channel, or received from.
pub data Timer : Type 0 where
  unset ticking expired drained : Timer

-- The embedded configuration is `conf`. The attempts are counted in a float64, and only compared
-- with 0.
pub record State : Type 0 where
  pub conf : Backoff
  pub attempt : ℕ
  pub val : ℕ
  pub timer : Timer

unfoldable pub new_backoff : Backoff → State
new_backoff conf = record { conf = conf; attempt = 0; val = conf.initial; timer = unset }

-- The sign of a jitter: `jt>>1%2 == 0` is `(jt>>1)%2 == 0`.
unfoldable pub signed : ℕ → Jitter
signed jt = (jt / 2 % 2 == 0, jt)

-- The end of next.
unfoldable pub limited : Backoff → ℕ → ℕ
unfolding less
limited conf dur =
    if less dur conf.initial then conf.initial else if less conf.max dur then conf.max else dur

module _ (floats : Floats) (intn : ℕ → ℕ) where
  -- The next duration before its limits. Intn panics unless its argument is positive.
  unfoldable pub unlimited : State → Outcome ℕ
  unfolding signed
  unlimited b =
      let jitter = b.conf.max_factor_jitter in
      let n = floats.hundredfold jitter in
      if floats.is_zero jitter
      then returns (floats.scaled b.val b.conf.factor)
      else if less 0 n
      then returns (floats.scaled_with (signed (intn n)) b.val b.conf.factor)
      else panics

  -- next
  unfoldable pub next_duration : State → Outcome ℕ
  unfolding unlimited limited
  next_duration b =
      if less b.conf.max b.val
      then returns b.conf.max
      else (unlimited b >>= λ dur. returns (limited b.conf dur))

  -- Next, with the time for which it blocks. The timer is a nil pointer until the first attempt. A
  -- timer whose tick is still in the channel would make Next return at once; Next itself leaves none,
  -- since it receives the tick, and that case is not modelled apart.
  unfoldable pub next_again : State → Outcome (ℕ × State)
  unfolding next_duration
  next_again b = elim b.timer [
    | unset ↦ next_duration b >>= λ dur. panics
    | _ ↦ next_duration b >>= λ dur.
        returns (dur, record b { attempt = b.attempt + 1; val = dur; timer = drained })
  ]

  unfoldable pub next : State → Outcome (ℕ × State)
  unfolding next_again
  next b =
      if b.attempt == 0
      then returns (b.conf.initial, record b { attempt = b.attempt + 1; timer = drained })
      else next_again b

-- Reset: none if it blocks for good. Stop stops only a timer that runs.
unfoldable pub reset : State → Option State
reset b =
    let b' : State = record b { attempt = 0; val = b.conf.initial } in
    elim b.timer [
      | unset ↦ some b'
      | ticking ↦ some (record b' { timer = drained })
      | expired ↦ some (record b' { timer = drained })
      | drained ↦ none
    ]
