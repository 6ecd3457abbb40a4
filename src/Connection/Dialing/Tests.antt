-- ===== src/Connection/Dialing/Tests.antt =====
-- A dial that fails once and then succeeds.
use replicated_file_system.Common.{◌≡◌, ◌≢◌, refl, true, none, some, List, [], ◌∷◌, returns}
use replicated_file_system.Errors.{deadline_exceeded}
use replicated_file_system.Config.{Backoff}
use replicated_file_system.Connection.Link.{dead}
use replicated_file_system.Connection.Backoff.{Floats, drained, new_backoff, next}
use replicated_file_system.Connection.Dialing.{
  blocked, dialing, Dialer, new_dialer, Turn, sees, dials, see, restart, dialed, advance,
  advance_all,
}
use replicated_file_system.Connection.Dialing.Stuck.{dials-blocked}

abbrev conf : Backoff
conf = record { factor = 2; max_factor_jitter = 0; initial = 5; max = 40 }

abbrev floats : Floats
floats = record {
  is_zero = λ x. true;
  hundredfold = λ x. x;
  scaled = λ val factor. val;
  scaled_with = λ jt val factor. val;
}

abbrev failure : List Turn
failure = sees dead ∷ dials (some deadline_exceeded) 0 ∷ sees dead ∷ []

abbrev failed : Dialer
failed = record {
  backoff = record { conf = conf; attempt = 1; val = 5; timer = drained };
  phase = dialing;
}

fails_once : advance_all floats failure (new_dialer conf) ≡ returns failed
unfolding advance_all advance see dialed restart next new_dialer new_backoff
fails_once = refl

one_attempt : failed.backoff.attempt ≢ 0
one_attempt e = cc

dials-blocked_example :
    advance_all floats (dials none 0 ∷ sees dead ∷ []) failed
    ≡ returns (record failed { phase = blocked })
dials-blocked_example =
    dials-blocked floats conf failure (sees dead ∷ []) failed 0 fails_once refl one_attempt
