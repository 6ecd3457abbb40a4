-- ===== src/Rfs/Errnos.antt =====
-- rfs/replicate.go: the errnos of a refusal and of a failure, and the early return on them.
use replicated_file_system.Common.{◌≡◌, refl, ◌≢◌, Option, none, some, Outcome, returns}
use replicated_file_system.Errors.{
  Err, plain, multi, canceled, deadline_exceeded, peer_is_down, pool_closed, not_permitted,
  transaction_conflict, marshal_failed, wire, stream, conn, other,
}
use replicated_file_system.Protobuf.{
  Response, ResponseError, ResponseType, ack, nack, other_response, err_unknown, err_already_exists,
  err_does_not_exist, err_transaction_conflict, err_not_a_directory, err_not_a_file,
  err_invalid_mode, other_error,
}
use replicated_file_system.Rfs.{
  Errno, no_error, eperm, eexist, enoent, enotdir, ebadf, einval, ecanceled, etimedout, ehostdown,
  other_errno, refusal, refuse, errno_from_protobuf_error, errno_of_replication, errno_from_cause,
}
use replicated_file_system.Rfs.Root.{Reply}
use replicated_file_system.Rfs.Handlers.{after}

pub errno-nonzero : (e : ResponseError) → errno_from_protobuf_error e ≢ no_error
unfolding errno_from_protobuf_error
errno-nonzero err_unknown h = cc
errno-nonzero err_already_exists h = cc
errno-nonzero err_does_not_exist h = cc
errno-nonzero err_transaction_conflict h = cc
errno-nonzero err_not_a_directory h = cc
errno-nonzero err_not_a_file h = cc
errno-nonzero err_invalid_mode h = cc
errno-nonzero (other_error n) h = cc

pub cause-nonzero : (e : Err) → errno_from_cause e ≢ no_error
unfolding errno_from_cause
cause-nonzero (multi errs) h = cc
cause-nonzero (plain canceled) h = cc
cause-nonzero (plain deadline_exceeded) h = cc
cause-nonzero (plain peer_is_down) h = cc
cause-nonzero (plain pool_closed) h = cc
cause-nonzero (plain not_permitted) h = cc
cause-nonzero (plain transaction_conflict) h = cc
cause-nonzero (plain marshal_failed) h = cc
cause-nonzero (plain (wire e)) h = cc
cause-nonzero (plain (stream e)) h = cc
cause-nonzero (plain (conn e)) h = cc
cause-nonzero (plain (other e)) h = cc

pub after-fails :
    {W : Type 0} (fail : Errno → Reply) (local : W → Outcome (W × Reply)) (w : W) (e : Errno)
    → e ≢ no_error
    → after fail local (w, e) ≡ returns (w, fail e)
unfolding after
after-fails fail local w no_error bad = absurd (bad refl)
after-fails fail local w eperm bad = refl
after-fails fail local w eexist bad = refl
after-fails fail local w enoent bad = refl
after-fails fail local w enotdir bad = refl
after-fails fail local w ebadf bad = refl
after-fails fail local w einval bad = refl
after-fails fail local w ecanceled bad = refl
after-fails fail local w etimedout bad = refl
after-fails fail local w ehostdown bad = refl
after-fails fail local w (other_errno n) bad = refl

pub replicated-no_error : (e : Option Err) → errno_of_replication e ≡ no_error → e ≡ none
unfolding errno_of_replication
replicated-no_error none q = refl
replicated-no_error (some e) q = absurd (cause-nonzero e q)

pub pair_eq : {A B : Type 0} {p : A × B} {a : A} {b : B} → p.0 ≡ a → p.1 ≡ b → p ≡ (a, b)
pair_eq x y = λ i. (x i, y i)

refuse-nonzero :
    (t : ResponseType) (error : Option ResponseError) (e : Errno)
    → refuse t error ≡ returns (some e)
    → e ≢ no_error
unfolding refuse
refuse-nonzero ack error e r h = cc
refuse-nonzero (other_response n) error e r h = cc
refuse-nonzero nack none e r h = cc
refuse-nonzero nack (some error) e r h = errno-nonzero error cc

pub refusal-nonzero :
    (opinion : Option Response) (e : Errno) → refusal opinion ≡ returns (some e) → e ≢ no_error
unfolding refusal
refusal-nonzero none e r h = cc
refusal-nonzero (some resp) e r h = refuse-nonzero resp.type resp.error e r h
