-- ===== src/Rfs/Server.antt =====
-- rfs/fuse.go: the FUSE server. os.MkdirAll, fs.Mount and Unmount are the parameter `Fuse`, over the
-- state S of the system.
use replicated_file_system.Common.{
  Bool, true, false, Option, none, some, [], Text, if◌then◌else◌, Outcome, returns, panics,
}
use replicated_file_system.Errors.{Cause}
use replicated_file_system.Config.{Paths, Started, goes_on, exits, crashes}
use replicated_file_system.Rfs.Root.{Node}

pub record Fuse (S : Type 0) : Type 0 where
  pub mkdir_all : S → Text → S × Option Cause
  pub mount : S → Text → Node → S × Option Cause
  pub unmount : S → S × Option Cause

-- Server: its root node is that of the mirror directory; `mounted` says whether the field Server is
-- not nil.
pub record Server : Type 0 where
  pub fuse_dir : Text
  pub rfs_root : Node
  pub mounted : Bool

module _ {S : Type 0} (fuse : Fuse S) where
  -- NewServer behind MkdirAll.
  unfoldable pub server_of : Paths → S × Option Cause → Started (S × Server)
  server_of paths (s, some e) = exits
  server_of paths (s, none) = goes_on (
    s,
    record {
      fuse_dir = paths.fuse_dir;
      rfs_root = record { root_path = paths.mirror_dir; path = [] };
      mounted = false;
    },
  )

  -- NewServer, where the paths of the configuration may be nil.
  unfoldable pub new_server : Option Paths → S → Started (S × Server)
  unfolding server_of
  new_server none s = crashes
  new_server (some paths) s = server_of paths (fuse.mkdir_all s paths.fuse_dir)

  -- Mount. fs.Mount gives a nil server with an error.
  unfoldable pub mount : Server → S → S × Server × Option Cause
  mount server s =
      let (s', e) = fuse.mount s server.fuse_dir server.rfs_root in
      (s', record server { mounted = elim e [ none ↦ true | some x ↦ false ] }, e)

  -- Server.Close. The error of Unmount is wrapped.
  unfoldable pub close_server : Server → S → Outcome (S × Option Cause)
  close_server server s = if server.mounted then returns (fuse.unmount s) else panics
