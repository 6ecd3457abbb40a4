-- ===== src/Rfs/Root.antt =====
-- rfs/root.go and rfs/root_file.go: the handlers that the kernel calls. The embedded LoopbackNode
-- and loopbackFile of go-fuse, and the calls of syscall, unix and NewInode, are the parameter
-- `Loopback`; each gives an Errno, no_error for none.
use replicated_file_system.Common.{
  ℕ, ◌+◌, ◌-◌, ◌*◌, ◌/◌, ◌%◌, ◌^◌, Option, none, some, List, [], Text,
}
use replicated_file_system.FilePaths.{join}
use replicated_file_system.Protobuf.{
  RequestType, create, link, mkdir, rename, rmdir, setattr, symlink, unlink, write, copy_file_range,
  Request, Metadata,
}
use replicated_file_system.Rfs.{Errno}

-- rootFile
pub record RootFile : Type 0 where
  pub path : Text
  pub fd : ℕ

-- A node: RootData.Path, and r.Path(r.Root()).
pub record Node : Type 0 where
  pub root_path : Text
  pub path : Text

-- What a handler returns: an errno; an inode and an errno; an inode, a file and an errno; a file
-- and an errno; a count and an errno; an offset and an errno.
pub data Reply : Type 0 where
  status : Errno → Reply
  inode : Option ℕ → Errno → Reply
  created : Option ℕ → Option RootFile → Errno → Reply
  opened : Option RootFile → Errno → Reply
  wrote : ℕ → Errno → Reply
  sought : ℕ → Errno → Reply

pub record Loopback (W : Type 0) : Type 0 where
  -- syscall.Open of a path, with flags and mode; Fstat, whose Stat_t the inode number stands for;
  -- Close; NewNode and NewInode; Chmod.
  pub open_path : W → Text → ℕ → ℕ → W × Option ℕ × Errno
  pub fstat : W → ℕ → Option ℕ × Errno
  pub close : W → ℕ → W
  pub new_inode : W → Text → Option ℕ → W × ℕ
  pub chmod : W → Text → ℕ → W × Errno
  -- LoopbackNode's handlers, on the node's path.
  pub mkdir : W → Text → Text → ℕ → W × Option ℕ × Errno
  pub rename : W → Text → Text → Text → Text → ℕ → W × Errno
  pub rmdir : W → Text → Text → W × Errno
  pub symlink : W → Text → Text → Text → W × Option ℕ × Errno
  pub unlink : W → Text → Text → W × Errno
  -- unix.CopyFileRange, loopbackFile.Write and loopbackFile.Lseek.
  pub copy_file_range : W → ℕ → ℕ → ℕ → ℕ → ℕ → ℕ → W × ℕ × Errno
  pub write : W → ℕ → List ℕ → ℕ → W × ℕ × Errno
  pub lseek : W → ℕ → ℕ → ℕ → W × ℕ × Errno

-- flags &^ O_APPEND, and flags | O_CREATE: bits 10 and 6 on Linux.
unfoldable pub without_append : ℕ → ℕ
without_append flags = flags - flags / 2 ^ 10 % 2 * 2 ^ 10

unfoldable pub with_create : ℕ → ℕ
with_create flags = flags + (1 - flags / 2 ^ 6 % 2) * 2 ^ 6

abbrev pub no_metadata : Metadata
no_metadata = record {
  relative_path = [];
  new_relative_path = [];
  mode = 0;
  write_offset = 0;
  read_offset = 0;
  write_len = 0;
}

-- A request without content and clock.
unfoldable pub request : RequestType → Metadata → Request
request t m = record { type = t; metadata = some m; clock = 0; content = none }

-- relativePath, physicalPath
unfoldable pub relative_path : Node → Text → Text
relative_path r name = join r.path name

unfoldable pub physical_path : Node → Text → Text
unfolding relative_path
physical_path r name = join r.root_path (relative_path r name)

-- NewRfsFile
unfoldable pub new_rfs_file : ℕ → Text → RootFile
new_rfs_file fd path = record { path = path; fd = fd }

-- The requests of the handlers. Rename's new path is the new parent's path, and below it the
-- path of the new name in the OLD parent; Link's target is below this node's path.
unfoldable pub create_request : Node → Text → ℕ → Request
unfolding request relative_path
create_request r name mode =
    request create (record no_metadata { relative_path = relative_path r name; mode = mode })

unfoldable pub mkdir_request : Node → Text → ℕ → Request
unfolding request relative_path
mkdir_request r name mode =
    request mkdir (record no_metadata { relative_path = relative_path r name; mode = mode })

unfoldable pub rename_request : Node → Text → Text → Text → Request
unfolding request relative_path
rename_request r name new_parent new_name = request rename (record no_metadata {
  relative_path = relative_path r name;
  new_relative_path = join new_parent (relative_path r new_name);
})

unfoldable pub rmdir_request : Node → Text → Request
unfolding request relative_path
rmdir_request r name = request rmdir (record no_metadata { relative_path = relative_path r name })

unfoldable pub setattr_request : Node → ℕ → Request
unfolding request
setattr_request r mode =
    request setattr (record no_metadata { relative_path = r.path; mode = mode })

unfoldable pub symlink_request : Node → Text → Text → Request
unfolding request relative_path
symlink_request r target name = request symlink (record no_metadata {
  relative_path = relative_path r target;
  new_relative_path = relative_path r name;
})

unfoldable pub link_request : Node → Text → Text → Request
unfolding request relative_path
link_request r target_path name = request link (record no_metadata {
  relative_path = relative_path r target_path;
  new_relative_path = relative_path r name;
})

unfoldable pub unlink_request : Node → Text → Request
unfolding request relative_path
unlink_request r name = request unlink (record no_metadata { relative_path = relative_path r name })

unfoldable pub copy_request : RootFile → RootFile → ℕ → ℕ → ℕ → Request
unfolding request
copy_request file_in file_out off_in off_out len = request copy_file_range (record no_metadata {
  relative_path = file_in.path;
  new_relative_path = file_out.path;
  write_offset = off_out;
  read_offset = off_in;
  write_len = len;
})

unfoldable pub write_request : RootFile → List ℕ → ℕ → Request
unfolding request
write_request f bytes off =
    record (request write (record no_metadata { relative_path = f.path; write_offset = off })) {
      content = some bytes;
    }
