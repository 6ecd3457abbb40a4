-- ===== src/P2p/Responses/Tests.antt =====
-- Responses of three peers: a conflict, an agreement, and a missing file.
use replicated_file_system.Common.{
  ◌≡◌, any, not, ◌&&◌, none, some, List, [], ◌∷◌, if◌then◌else◌, returns,
}
use replicated_file_system.Errors.{not_permitted}
use replicated_file_system.Protobuf.{
  Response, nack, is_nack, err_transaction_conflict, err_does_not_exist, ack_response,
}
use replicated_file_system.P2p.Conflicts.{increment_clock}
use replicated_file_system.P2p.Responses.{process_responses}
use replicated_file_system.P2p.Responses.Verdict.{
  HasErrors, is_conflict_nack, is_other_nack, process_responses_lem,
}

abbrev conflict : Response
conflict = record { type = nack; error = some err_transaction_conflict; error_msg = none }

abbrev missing : Response
missing = record { type = nack; error = some err_does_not_exist; error_msg = none }

abbrev three : List Response
three = conflict ∷ ack_response ∷ missing ∷ []

three-HasErrors : HasErrors three
unfolding is_nack ack_response
three-HasErrors = ((λ _ h. cc), ((λ h. cc), ((λ _ h. cc), tt)))

process_responses_lem_example :
    process_responses 4 three
    ≡ returns (
      if any is_conflict_nack three && not (any is_other_nack three) then increment_clock 4 else 4,
      if any is_nack three then some not_permitted else none,
    )
process_responses_lem_example = process_responses_lem 4 three three-HasErrors
