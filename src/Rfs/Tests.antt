-- ===== src/Rfs/Tests.antt =====
-- A node at the root, over a disk that counts its changes.
use replicated_file_system.Common.{ℕ, ◌≡◌, refl, ◌≢◌, none, some, codes, returns}
use replicated_file_system.Errors.{plain, deadline_exceeded}
use replicated_file_system.Protobuf.{Response, nack, err_already_exists, ack_response}
use replicated_file_system.Rfs.{
  no_error, Peers, replicate, refusal, errno_from_protobuf_error, errno_from_cause,
}
use replicated_file_system.Rfs.Agreement.{
  Operation, makes, perform, failed, refused_operation, failed_replication,
}
use replicated_file_system.Rfs.Samples.{counting, at_root}

abbrev taken : Response
taken = record { type = nack; error = some err_already_exists; error_msg = none }

abbrev refusing : Peers ℕ
refusing = record { consult = λ w r. returns (some taken); replicate = λ w r. returns (w, none) }

abbrev slow : Peers ℕ
slow = record {
  consult = λ w r. returns (some ack_response);
  replicate = λ w r. returns (w, some (plain deadline_exceeded));
}

abbrev agreeing : Peers ℕ
agreeing = record {
  consult = λ w r. returns (some ack_response);
  replicate = λ w r. returns (w, none);
}

abbrev new_dir : Operation
new_dir = makes at_root (codes "docs") 493

refused_operation_example :
    (perform refusing counting new_dir 0
      ≡ returns (0, failed new_dir (errno_from_protobuf_error err_already_exists)))
    × (errno_from_protobuf_error err_already_exists ≢ no_error)
refused_operation_example =
    refused_operation refusing counting new_dir 0 taken err_already_exists refl refl refl

failed_replication_example :
    (perform slow counting new_dir 0
      ≡ returns (0, failed new_dir (errno_from_cause (plain deadline_exceeded))))
    × (errno_from_cause (plain deadline_exceeded) ≢ no_error)
unfolding refusal ack_response
failed_replication_example =
    failed_replication slow counting new_dir 0 0 (some ack_response) (plain deadline_exceeded) refl
      refl refl
