-- ===== src/Connection/Perspective.antt =====
-- connection/perspective.go, and the fallback of Establish in connection/connection.go.
pub mod Verdict
mod Tests
use Prim.Native.Nat.{bit_or, bit_and}
use replicated_file_system.Common.{
  ℕ, ◌+◌, ◌*◌, ◌/◌, ◌%◌, ◌^◌, Bool, true, false, not, ◌==◌, Option, none, some, List, [], ◌∷◌, Text,
  text_lt, if◌then◌else◌,
}
use replicated_file_system.Errors.{Cause, conn, not_resolved, other}

-- Perspective, a byte.
abbrev pub unknown : ℕ
unknown = 0

abbrev pub server : ℕ
server = 1

abbrev pub client : ℕ
client = 2

-- perspectiveResolvent
pub record Resolvent : Type 0 where
  pub perspective : ℕ  -- byte
  pub ctr : ℕ  -- uint32

-- byte(uint32(p.Perspective)<<6 | p.ctr)
unfoldable pub encode : Resolvent → List ℕ
encode p = bit_or (p.perspective * 2 ^ 6 % 2 ^ 32) p.ctr % 2 ^ 8 ∷ []

unfoldable pub decode : List ℕ → Option Resolvent
decode (b ∷ []) = some (record { perspective = b / 2 ^ 6; ctr = bit_and b 63 })
decode _ = none

-- What recv gave: the bytes or an error.
pub data Received : Type 0 where
  data_is : List ℕ → Received
  err_is : Cause → Received

-- The results of resolve.
pub data Resolution : Type 0 where
  resolved : Bool → Resolution
  failed : Cause → Resolution

-- The texts of the errors are shortened.
unfoldable pub compare : ℕ → ℕ → Option Resolvent → Resolution
compare perspective ctr none = failed (other [])
compare perspective ctr (some r) =
    if r.perspective == perspective then failed (other []) else resolved (ctr == r.ctr)

-- resolve behind its increment of the counter: the result of send, and what recv gave.
unfoldable pub resolve : ℕ → ℕ → Option Cause → Received → Resolution
unfolding compare
resolve perspective ctr (some e) msg = failed e
resolve perspective ctr none (err_is e) = failed e
resolve perspective ctr none (data_is bytes) = compare perspective ctr (decode bytes)

-- The verdict of Resolve: an error or nil.
unfoldable pub verdict : Bool → Resolution → Option Cause
verdict fallback (failed e) = some e
verdict fallback (resolved true) = none
verdict fallback (resolved false) = if fallback then none else some (conn not_resolved)

-- The fallback of Establish, on the names of the host and its peer.
unfoldable pub fallback : ℕ → Text → Text → Bool
fallback perspective host peer =
    if perspective == client
    then text_lt host peer
    else if perspective == server
    then text_lt peer host
    else false

-- Resolve, with the counter's new value.
unfoldable pub resolve_with : ℕ → ℕ → Text → Text → Option Cause → Received → ℕ × Option Cause
unfolding resolve verdict
resolve_with counter perspective host peer sent msg =
    let ctr = (counter + 1) % 2 ^ 32 in
    (ctr, verdict (fallback perspective host peer) (resolve perspective ctr sent msg))
