-- ===== src/Mirror.antt =====
-- mirror/mirror.go. The calls of os, syscall and unix are the parameter `Os`, over the state W of
-- the disk; an error is its text.
pub mod Apply
pub mod Readiness
pub mod Removal
pub mod Truncation
mod Tests
use mathlib.Core.Logic.{ite}
use replicated_file_system.Common.{
  ℕ, Bool, true, false, not, ◌==◌, Option, none, some, List, [], ◌∷◌, ◌++◌, Text, codes,
  if◌then◌else◌, Outcome, returns, panics, ◌>>=◌, deref, ℕ_discrete,
}
use replicated_file_system.FilePaths.{join}
use replicated_file_system.Errors.{Cause, other}
use replicated_file_system.Protobuf.{
  RequestType, create, link, mkdir, rename, rmdir, setattr, symlink, unlink, write, copy_file_range,
  other_request, Request, Metadata, Response, ResponseError, err_unknown, err_already_exists,
  err_does_not_exist, err_not_a_directory, err_not_a_file, err_invalid_mode, ack_response,
  nack_response,
}
use replicated_file_system.P2p.Host

-- Mode().Type() of a FileInfo.
pub data FileType : Type 0 where
  regular directory : FileType
  special : ℕ → FileType

pub FileType-discrete : Discrete FileType
FileType-discrete = hlevel ℕ_discrete

-- os.Stat: the type, or os.ErrNotExist, or another error (and a nil FileInfo).
pub data Stat : Type 0 where
  found : FileType → Stat
  not_exist : Text → Stat
  stat_error : Text → Stat

-- A call that opens a file gives a handle, or an error.
pub data Opened : Type 0 where
  handle : ℕ → Opened
  open_error : Text → Opened

pub record Os (W : Type 0) : Type 0 where
  pub stat : W → Text → Stat
  -- syscall.Access with O_RDWR.
  pub access : W → Text → Option Text
  -- os.OpenFile with O_CREATE and a mode, and with O_WRONLY|O_CREATE|O_TRUNC and mode 0.
  pub open_create : W → Text → ℕ → W × Opened
  pub open_truncate : W → Text → W × Opened
  pub write_at : W → ℕ → List ℕ → ℕ → W × Option Text
  pub symlink_at : W → Text → Text → W × Option Text
  pub make_dir : W → Text → ℕ → W × Option Text
  pub rename_to : W → Text → Text → W × Option Text
  pub remove : W → Text → W × Option Text
  pub chmod : W → Text → ℕ → W × Option Text
  -- syscall.Open with O_RDONLY and with O_WRONLY.
  pub open_read : W → Text → W × Opened
  pub open_write : W → Text → W × Opened
  -- unix.CopyFileRange: source, its offset, destination, its offset, length; the bytes written.
  pub copy_range : W → ℕ → ℕ → ℕ → ℕ → ℕ → W × ℕ

unfoldable pub nack : ResponseError → Text → Outcome (Option Response)
nack e msg = nack_response e (some msg) >>= λ r. returns (some r)

abbrev pub ack_it : Outcome (Option Response)
ack_it = returns (some ack_response)

-- Mirror.exists: with an error the Boolean is true.
unfoldable pub exists : Stat → Bool × Option Text
exists (found t) = (true, none)
exists (not_exist e) = (false, none)
exists (stat_error e) = (true, some e)

link_tests : Metadata → Bool → Bool → Outcome (Option Response)
unfolding nack
link_tests m old_exists new_exists =
    if not old_exists
    then nack err_does_not_exist
        (codes "symlink source: " ++ m.relative_path ++ codes " does not exist")
    else if new_exists
    then nack err_already_exists
        (codes "symlink destination: " ++ m.new_relative_path ++ codes " already exist")
    else ack_it

-- Request_LINK and Request_SYMLINK, after the two calls of exists.
answer_link : Metadata → Bool × Option Text → Bool × Option Text → Outcome (Option Response)
unfolding link_tests nack
answer_link m (old_exists, some e) new = nack err_unknown e
answer_link m (old_exists, none) (new_exists, some e) = nack err_unknown e
answer_link m (old_exists, none) (new_exists, none) = link_tests m old_exists new_exists

-- Request_CREATE and Request_MKDIR.
answer_create : Bool × Option Text → Outcome (Option Response)
unfolding nack
answer_create (there, some e) = nack err_unknown e
answer_create (there, none) =
    if there then nack err_already_exists (codes "dir/file already exists") else ack_it

-- Request_RENAME, from the two calls of Stat.
answer_rename : Stat → Stat → Outcome (Option Response)
unfolding nack
answer_rename (not_exist e) new = nack err_does_not_exist e
answer_rename (stat_error e) new = nack err_unknown e
answer_rename (found old) (not_exist e) = ack_it
answer_rename (found old) (stat_error e) = nack err_unknown e
answer_rename (found old) (found new) =
    ite (FileType-discrete old new) ack_it
      (nack err_invalid_mode (codes "file types of old and new filename don't match"))

-- Request_RMDIR. Without an error the case falls out of the switch, and the function returns nil.
-- With another error than ErrNotExist, pathInfo is nil and its method is called.
answer_rmdir : Stat → Outcome (Option Response)
unfolding nack
answer_rmdir (found t) = returns none
answer_rmdir (not_exist e) = nack err_does_not_exist e
answer_rmdir (stat_error e) = panics

-- Request_SETATTR.
answer_setattr : Stat → Outcome (Option Response)
unfolding nack
answer_setattr (found t) = ack_it
answer_setattr (not_exist e) = nack err_does_not_exist e
answer_setattr (stat_error e) = nack err_unknown e

-- Request_UNLINK.
answer_unlink : Stat → Outcome (Option Response)
unfolding nack
answer_unlink (found t) = ack_it
answer_unlink (not_exist e) = ack_it
answer_unlink (stat_error e) = nack err_unknown e

-- One round of the loop of Request_COPY_FILE_RANGE, with the rest of the case.
check_regular : Text → Stat → Outcome (Option Response) → Outcome (Option Response)
unfolding nack
check_regular p (not_exist e) later = nack err_does_not_exist (p ++ codes " does not exist")
check_regular p (stat_error e) later = nack err_unknown e
check_regular p (found t) later =
    ite (FileType-discrete t regular) later
      (nack err_not_a_file (p ++ codes " is not a regular file"))

check_access : Option Text → Outcome (Option Response)
unfolding nack
check_access none = ack_it
check_access (some e) =
    nack err_invalid_mode
      (codes "expected to have read-write access to the destination file: " ++ e)

module _ {W : Type 0} (os : Os W) (dir : Text) where
  -- Mirror.path
  unfoldable pub path : Text → Text
  path rel = join dir rel

  unfoldable pub stat_of : W → Text → Stat
  unfolding path
  stat_of disk rel = os.stat disk (path rel)

  consult_type : RequestType → W → Metadata → Outcome (Option Response)
  unfolding stat_of answer_link answer_create answer_rename answer_rmdir answer_setattr
      answer_unlink check_regular check_access
  consult_type link disk m =
      answer_link m (exists (stat_of disk m.relative_path))
        (exists (stat_of disk m.new_relative_path))
  consult_type symlink disk m =
      answer_link m (exists (stat_of disk m.relative_path))
        (exists (stat_of disk m.new_relative_path))
  consult_type create disk m = answer_create (exists (stat_of disk m.relative_path))
  consult_type mkdir disk m = answer_create (exists (stat_of disk m.relative_path))
  consult_type rename disk m =
      answer_rename (stat_of disk m.relative_path) (stat_of disk m.new_relative_path)
  consult_type rmdir disk m = answer_rmdir (stat_of disk m.relative_path)
  consult_type setattr disk m = answer_setattr (stat_of disk m.relative_path)
  consult_type unlink disk m = answer_unlink (stat_of disk m.relative_path)
  consult_type write disk m = ack_it
  consult_type copy_file_range disk m =
      check_regular m.relative_path (stat_of disk m.relative_path) (
        check_regular m.new_relative_path (stat_of disk m.new_relative_path)
          (check_access (os.access disk (path m.new_relative_path))))
  consult_type (other_request n) disk m = panics

  -- The switch: a write and an unknown type do not read the metadata, the others read it first.
  consult_request : RequestType → W → Option Metadata → Outcome (Option Response)
  unfolding consult_type
  consult_request write disk metadata = ack_it
  consult_request (other_request n) disk metadata = panics
  consult_request t disk metadata = deref metadata >>= consult_type t disk

  -- Consult: nil is none.
  unfoldable pub consult : W → Request → Outcome (Option Response)
  unfolding consult_request
  consult disk r = consult_request r.type disk r.metadata
