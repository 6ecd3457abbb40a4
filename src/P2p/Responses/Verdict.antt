-- ===== src/P2p/Responses/Verdict.antt =====
-- processResponses of p2p/host.go, against a description without counters.
use replicated_file_system.Common.{
  ℕ, ◌+◌, ◌≡◌, ◌≢◌, Bool, true, false, not, ◌&&◌, ◌||◌, none, some, List, [], ◌∷◌, ◌==◌, any, All,
  if◌then◌else◌, returns, arith, Option-cases, Bool-cases, inl, inr,
}
use replicated_file_system.Errors.{not_permitted}
use replicated_file_system.Protobuf.{Response, ResponseError, is_nack}
use replicated_file_system.P2p.Conflicts.{increment_clock}
use replicated_file_system.P2p.Responses.{
  Counts, count_error, tally, is_conflict, other_errors, has_conflict, conclude, process_responses,
}

-- Every NACK names its error.
abbrev pub HasErrors : List Response → Type 0
HasErrors = All λ r. is_nack r ≡ true → r.error ≢ none

-- A NACK for a conflict, and a NACK for another reason.
unfoldable pub is_conflict_nack : Response → Bool
is_conflict_nack r = is_nack r && elim r.error [ none ↦ false | some e ↦ is_conflict e ]

unfoldable pub is_other_nack : Response → Bool
is_other_nack r = is_nack r && elim r.error [ none ↦ false | some e ↦ not (is_conflict e) ]

other-count_error :
    (e : ResponseError) (counts : Counts)
    → other_errors (count_error e counts) ≡ (if is_conflict e then 0 else 1) + other_errors counts
unfolding other_errors count_error
other-count_error e [] = ground arith
other-count_error e ((f, n) ∷ counts) = ground (arith, other-count_error e counts)

has-count_error :
    (e : ResponseError) (counts : Counts)
    → has_conflict (count_error e counts) ≡ (is_conflict e || has_conflict counts)
unfolding has_conflict count_error
has-count_error e [] = ground arith
has-count_error e ((f, n) ∷ counts) = ground (arith, has-count_error e counts)

tally_lem :
    (rs : List Response) (counts : Counts) (rejected : Bool)
    → HasErrors rs
    → (c : Counts) × (tally rs counts rejected ≡ returns (c, rejected || any is_nack rs))
      × (has_conflict c ≡ (has_conflict counts || any is_conflict_nack rs))
      × ((other_errors c == 0) ≡ ((other_errors counts == 0) && not (any is_other_nack rs)))
unfolding tally is_conflict_nack is_other_nack
tally_lem [] counts rejected h = (counts, ground arith, ground arith, ground arith)
tally_lem (r ∷ rs) counts rejected h = elim (Bool-cases (is_nack r)) [
  | inr e ↦
      let (c, p, q, s) = tally_lem rs counts rejected h.1 in
      (c, ground arith, ground arith, ground arith)
  | inl e ↦ elim (Option-cases r.error) [
    | inl f ↦ absurd (h.0 e f)
    | inr (x, f) ↦
        let (c, p, q, s) = tally_lem rs (count_error x counts) true h.1 in
        (
          c,
          ground arith,
          ground (arith, has-count_error x counts),
          ground (arith, other-count_error x counts),
        )
  ]
]

-- Where every NACK names its error, processResponses returns: ErrNotPermitted exactly when there is
-- a NACK, and the conflicts clock goes up by one (modulo 2^64) exactly when there is a NACK for a
-- conflict and none for another reason.
pub process_responses_lem :
    (clock : ℕ) (rs : List Response)
    → HasErrors rs
    → process_responses clock rs
      ≡ returns (
        if any is_conflict_nack rs && not (any is_other_nack rs)
            then increment_clock clock
            else clock,
        if any is_nack rs then some not_permitted else none,
      )
unfolding process_responses other_errors has_conflict
process_responses_lem clock rs h =
    let (c, p, q, s) = tally_lem rs [] false h in rw (p, conclude) (rw (q, s))
