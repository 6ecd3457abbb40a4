-- ===== src/Connection/Backoff/Tests.antt =====
-- A factor of two, with a jitter of a fifth.
use replicated_file_system.Common.{ℕ, ◌+◌, ◌*◌, ◌≡◌, ◌≢◌, refl, inr, returns, ◌==◌}
use replicated_file_system.Config.{Backoff}
use replicated_file_system.Connection.Backoff.{Floats, unset, drained, State, less, next}
use replicated_file_system.Connection.Backoff.Within.{IsWithin, next-IsWithin}

abbrev conf : Backoff
conf = record { factor = 2; max_factor_jitter = 20; initial = 5; max = 40 }

abbrev floats : Floats
floats = record {
  is_zero = λ x. x == 0;
  hundredfold = λ x. x;
  scaled = λ val factor. val * factor;
  scaled_with = λ jt val factor. val * factor + jt.1;
}

abbrev once : State
once = record { conf = conf; attempt = 1; val = 5; timer = drained }

is_set : drained ≢ unset
is_set e = cc

next-IsWithin_example :
    (d : ℕ) × (b' : State) × (next floats (λ n. 7) once ≡ returns (d, b'))
    × (b'.timer ≡ drained)
    × IsWithin conf d
unfolding less
next-IsWithin_example = next-IsWithin floats (λ n. 7) once (inr refl) refl (λ h. is_set)
