-- ===== src/Mirror/Readiness.antt =====
-- mirror/mirror.go, Consult: what the disk must look like for each kind of request.
use mathlib.Core.Logic.{ite}
use replicated_file_system.Common.{
  ◌≡◌, refl, Bool, true, false, not, ◌&&◌, ◌||◌, Option, none, some, ◌++◌, Text, codes, Outcome,
  returns,
}
use replicated_file_system.Protobuf.{
  RequestType, create, link, mkdir, rename, rmdir, setattr, symlink, unlink, write, copy_file_range,
  other_request, Request, Metadata, Response, ResponseError, is_ack, is_nack, ack_response,
  nack_response, err_invalid_mode, err_not_a_file,
}
use replicated_file_system.Mirror.{
  Os, Stat, found, not_exist, stat_error, FileType, FileType-discrete, regular, consult, path,
  exists, nack, ack_it, stat_of, answer_link, answer_create, answer_rename, answer_rmdir,
  answer_setattr, answer_unlink, check_regular, check_access, consult_request,
}

abbrev pub is_present : Option ResponseError → Bool
is_present none = false
is_present (some e) = true

-- The outcome is a vote: an ACK without an error if the Boolean is true, and otherwise a NACK with one.
abbrev pub Votes : Outcome (Option Response) → Bool → Type 0
Votes o ready =
    (r : Response) × (o ≡ returns (some r))
    × (is_ack r.type ≡ ready)
    × (is_nack r ≡ not ready)
    × (is_present r.error ≡ not ready)

abbrev pub is_found : Stat → Bool
is_found (found t) = true
is_found _ = false

abbrev pub is_missing : Stat → Bool
is_missing (not_exist e) = true
is_missing _ = false

abbrev pub is_regular : Stat → Bool
is_regular (found t) = elim (FileType-discrete t regular) [ yes same ↦ true | no other ↦ false ]
is_regular _ = false

-- Nothing is in the way of a rename, or a file of the same type.
abbrev pub is_replaceable : Stat → Stat → Bool
is_replaceable (found old) (found new) = elim (FileType-discrete old new) [
  | yes same ↦ true
  | no other ↦ false
]
is_replaceable _ s = is_missing s

abbrev pub is_allowed : Option Text → Bool
is_allowed none = true
is_allowed (some e) = false

nack-Votes : (e : ResponseError) (msg : Text) → Votes (nack e msg) false
unfolding nack nack_response is_ack is_nack
nack-Votes e msg = (_, refl, refl, refl, refl)

ack_it-Votes : Votes ack_it true
unfolding ack_response is_ack is_nack
ack_it-Votes = (ack_response, refl, refl, refl, refl)

answer_link-Votes :
    (m : Metadata) (old new : Stat)
    → Votes (answer_link m (exists old) (exists new)) (is_found old && is_missing new)
unfolding answer_link exists
answer_link-Votes m (stat_error e) new = nack-Votes _ _
answer_link-Votes m (found t) (stat_error e) = nack-Votes _ _
answer_link-Votes m (not_exist e') (stat_error e) = nack-Votes _ _
answer_link-Votes m (found t) (found u) = nack-Votes _ _
answer_link-Votes m (found t) (not_exist e) = ack_it-Votes
answer_link-Votes m (not_exist e) (found u) = nack-Votes _ _
answer_link-Votes m (not_exist e) (not_exist e') = nack-Votes _ _

answer_create-Votes : (s : Stat) → Votes (answer_create (exists s)) (is_missing s)
unfolding answer_create exists
answer_create-Votes (found t) = nack-Votes _ _
answer_create-Votes (not_exist e) = ack_it-Votes
answer_create-Votes (stat_error e) = nack-Votes _ _

answer_setattr-Votes : (s : Stat) → Votes (answer_setattr s) (is_found s)
unfolding answer_setattr
answer_setattr-Votes (found t) = ack_it-Votes
answer_setattr-Votes (not_exist e) = nack-Votes _ _
answer_setattr-Votes (stat_error e) = nack-Votes _ _

answer_unlink-Votes : (s : Stat) → Votes (answer_unlink s) (is_found s || is_missing s)
unfolding answer_unlink
answer_unlink-Votes (found t) = ack_it-Votes
answer_unlink-Votes (not_exist e) = ack_it-Votes
answer_unlink-Votes (stat_error e) = nack-Votes _ _

answer_rename-Votes :
    (old new : Stat) → Votes (answer_rename old new) (is_found old && is_replaceable old new)
unfolding answer_rename
answer_rename-Votes (not_exist e) new = nack-Votes _ _
answer_rename-Votes (stat_error e) new = nack-Votes _ _
answer_rename-Votes (found old) (not_exist e) = ack_it-Votes
answer_rename-Votes (found old) (stat_error e) = nack-Votes _ _
answer_rename-Votes (found old) (found new) =
    elim (FileType-discrete old new)
      as (λ d.
        Votes
          (ite d ack_it
            (nack err_invalid_mode (codes "file types of old and new filename don't match")))
          (elim d [ yes same ↦ true | no other ↦ false ])) [
            | yes same ↦ ack_it-Votes
            | no other ↦ nack-Votes _ _
          ]

check_access-Votes : (e : Option Text) → Votes (check_access e) (is_allowed e)
unfolding check_access
check_access-Votes none = ack_it-Votes
check_access-Votes (some e) = nack-Votes _ _

check_regular-Votes :
    (p : Text) (s : Stat) (later : Outcome (Option Response)) (ready : Bool)
    → Votes later ready
    → Votes (check_regular p s later) (is_regular s && ready)
unfolding check_regular
check_regular-Votes p (not_exist e) later ready v = nack-Votes _ _
check_regular-Votes p (stat_error e) later ready v = nack-Votes _ _
check_regular-Votes p (found t) later ready v =
    elim (FileType-discrete t regular)
      as (λ d.
        Votes (ite d later (nack err_not_a_file (p ++ codes " is not a regular file")))
          (elim d [ yes same ↦ true | no other ↦ false ] && ready)) [
            | yes same ↦ v
            | no other ↦ nack-Votes _ _
          ]

module _ {W : Type 0} (os : Os W) (dir : Text) (disk : W) where
  -- What each kind of request asks of the disk. For a directory's removal Consult gives no vote.
  abbrev pub ready : RequestType → Metadata → Bool
  ready link m =
      is_found (stat_of os dir disk m.relative_path)
      && is_missing (stat_of os dir disk m.new_relative_path)
  ready symlink m =
      is_found (stat_of os dir disk m.relative_path)
      && is_missing (stat_of os dir disk m.new_relative_path)
  ready create m = is_missing (stat_of os dir disk m.relative_path)
  ready mkdir m = is_missing (stat_of os dir disk m.relative_path)
  ready rename m =
      is_found (stat_of os dir disk m.relative_path)
      && is_replaceable (stat_of os dir disk m.relative_path)
          (stat_of os dir disk m.new_relative_path)
  ready rmdir m = false
  ready setattr m = is_found (stat_of os dir disk m.relative_path)
  ready unlink m =
      is_found (stat_of os dir disk m.relative_path)
      || is_missing (stat_of os dir disk m.relative_path)
  ready write m = true
  ready copy_file_range m =
      is_regular (stat_of os dir disk m.relative_path)
      && (is_regular (stat_of os dir disk m.new_relative_path)
          && is_allowed (os.access disk (path os dir m.new_relative_path)))
  ready (other_request n) m = false

  -- A type of the schema other than RMDIR.
  abbrev pub IsConsulted : RequestType → Type 0
  IsConsulted rmdir = ⊥
  IsConsulted (other_request n) = ⊥
  IsConsulted _ = Unit {0}

  consult_request-Votes :
      (t : RequestType) (m : Metadata)
      → IsConsulted t
      → Votes (consult_request os dir t disk (some m)) (ready t m)
  unfolding consult_request
  consult_request-Votes link m _ = answer_link-Votes m _ _
  consult_request-Votes symlink m _ = answer_link-Votes m _ _
  consult_request-Votes create m _ = answer_create-Votes _
  consult_request-Votes mkdir m _ = answer_create-Votes _
  consult_request-Votes rename m _ = answer_rename-Votes _ _
  consult_request-Votes rmdir m h = absurd h
  consult_request-Votes setattr m _ = answer_setattr-Votes _
  consult_request-Votes unlink m _ = answer_unlink-Votes _
  consult_request-Votes write m _ = ack_it-Votes
  consult_request-Votes copy_file_range m _ =
      check_regular-Votes _ _ _ _ (check_regular-Votes _ _ _ _ (check_access-Votes _))
  consult_request-Votes (other_request n) m h = absurd h

  -- On a request with metadata, of any type of the schema but RMDIR, Consult returns a vote: an ACK
  -- exactly if the disk is ready for the request (to link: the source is there and the destination
  -- is missing; to create: the path is missing; to rename: the old path is there, and the new one is
  -- missing or has the same file type; to set attributes: the path is there; to unlink: Stat does
  -- not fail for another reason than a missing file; to write: always; to copy: both are regular
  -- files and the destination may be written), and otherwise a NACK that names its error.
  pub consult-Votes :
      (r : Request) (m : Metadata)
      → r.metadata ≡ some m
      → IsConsulted r.type
      → Votes (consult os dir disk r) (ready r.type m)
  unfolding consult
  consult-Votes r m e known = rw e (consult_request-Votes r.type m known)

  -- On a request to remove a directory, of a path that Stat finds, Consult returns nil.
  pub consult_rmdir :
      (r : Request) (m : Metadata) (t : FileType)
      → r.type ≡ rmdir
      → r.metadata ≡ some m
      → stat_of os dir disk m.relative_path ≡ found t
      → consult os dir disk r ≡ returns none
  unfolding consult answer_rmdir
  consult_rmdir r m t k e s = rw (k, e) (rw s)
