-- ===== src/P2p/Responses.antt =====
-- processResponses of p2p/host.go: the initiator's reading of the responses.
pub mod Verdict
mod Tests
use mathlib.Core.Logic.{ite}
use replicated_file_system.Common.{
  ℕ, ◌+◌, Bool, true, false, not, ◌&&◌, ◌||◌, Option, none, some, List, [], ◌∷◌, ◌==◌, ℕ_discrete,
  if◌then◌else◌, Outcome, returns, ◌>>=◌, deref,
}
use replicated_file_system.Errors.{Cause, not_permitted}
use replicated_file_system.Protobuf.{Response, ResponseError, is_nack, err_transaction_conflict}
use replicated_file_system.P2p.Conflicts.{increment_clock}

abbrev pub ResponseError-discrete : Discrete ResponseError
ResponseError-discrete = hlevel ℕ_discrete

-- errorsCtr: how often each error came.
abbrev pub Counts : Type 0
Counts = List (ResponseError × ℕ)

-- errorsCtr[e]++
unfoldable pub count_error : ResponseError → Counts → Counts
count_error e [] = (e, 1) ∷ []
count_error e ((f, n) ∷ counts) =
    ite (ResponseError-discrete f e) ((f, n + 1) ∷ counts) ((f, n) ∷ count_error e counts)

-- The first loop: the counts, and whether a NACK was met. A NACK without an error panics.
unfoldable pub tally : List Response → Counts → Bool → Outcome (Counts × Bool)
tally [] counts rejected = returns (counts, rejected)
tally (r ∷ rs) counts rejected =
    let passed = tally rs counts rejected in
    let failed = deref r.error >>= λ e. tally rs (count_error e counts) true in
    if is_nack r then failed else passed

unfoldable pub is_conflict : ResponseError → Bool
is_conflict e = elim e [ err_transaction_conflict ↦ true | _ ↦ false ]

-- The second loop: how many errors were no conflicts.
unfoldable pub other_errors : Counts → ℕ
other_errors [] = 0
other_errors ((e, n) ∷ counts) =
    if is_conflict e then other_errors counts else n + other_errors counts

-- `_, ok := errorsCtr[ERR_TRANSACTION_CONFLICT]`
unfoldable pub has_conflict : Counts → Bool
has_conflict [] = false
has_conflict ((e, n) ∷ counts) = is_conflict e || has_conflict counts

unfoldable pub conclude : ℕ → Counts × Bool → ℕ × Option Cause
conclude clock (counts, rejected) = (
  if has_conflict counts && (other_errors counts == 0) then increment_clock clock else clock,
  if rejected then some not_permitted else none,
)

-- processResponses: the conflicts clock afterwards, and the error.
unfoldable pub process_responses : ℕ → List Response → Outcome (ℕ × Option Cause)
unfolding tally conclude
process_responses clock responses =
    tally responses [] false >>= λ result. returns (conclude clock result)
