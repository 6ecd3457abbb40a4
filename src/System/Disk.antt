-- ===== src/System/Disk.antt =====
-- rfs/root.go on a host: a local operation on the host's disk, and on a disk alone.
use replicated_file_system.Common.{ℕ, ◌≡◌, refl, Option, none, some, Text, Outcome, returns, ◌>>=◌}
use replicated_file_system.P2p.Host.{Host}
use replicated_file_system.Rfs.{
  Errno, no_error, eperm, eexist, enoent, enotdir, ebadf, einval, ecanceled, etimedout, ehostdown,
  other_errno,
}
use replicated_file_system.Rfs.Root.{
  Node, Reply, Loopback, without_append, with_create, physical_path,
}
use replicated_file_system.Rfs.Handlers.{create_inode, create_opened, create_local}
use replicated_file_system.Rfs.Agreement.{
  Operation, creates, makes, renames, removes, sets, points, links, unlinks, copies, writes,
}
use replicated_file_system.Rfs.Local.{local}
use replicated_file_system.System.{with_disk, on_host}

module _ {W : Type 0} (sys : Loopback W) where
  -- An outcome of an operation on a disk, as one on the host.
  abbrev pub lifted : Host W → Outcome (W × Reply) → Outcome (Host W × Reply)
  lifted h m = m >>= λ (w, reply). returns (with_disk h w, reply)

  create_inode-on_host :
      (r : Node) (name : Text) (h : Host W) (fd : ℕ) (st : Option ℕ) (e : Errno)
      → create_inode (on_host sys) r name h fd st e
        ≡ lifted h (create_inode sys r name h.disk fd st e)
  unfolding create_inode on_host with_disk
  create_inode-on_host r name h fd st no_error = refl
  create_inode-on_host r name h fd st eperm = refl
  create_inode-on_host r name h fd st eexist = refl
  create_inode-on_host r name h fd st enoent = refl
  create_inode-on_host r name h fd st enotdir = refl
  create_inode-on_host r name h fd st ebadf = refl
  create_inode-on_host r name h fd st einval = refl
  create_inode-on_host r name h fd st ecanceled = refl
  create_inode-on_host r name h fd st etimedout = refl
  create_inode-on_host r name h fd st ehostdown = refl
  create_inode-on_host r name h fd st (other_errno n) = refl

  create_opened-on_host :
      (r : Node) (name : Text) (h : Host W) (opened : Option ℕ × Errno)
      → create_opened (on_host sys) r name h opened
        ≡ lifted h (create_opened sys r name h.disk opened)
  unfolding create_opened on_host
  create_opened-on_host r name h (none, e) = refl
  create_opened-on_host r name h (some fd, e) =
      create_inode-on_host r name h fd (sys.fstat h.disk fd).0 (sys.fstat h.disk fd).1

  pub local-on_host :
      (op : Operation) (h : Host W) → local (on_host sys) op h ≡ lifted h (local sys op h.disk)
  unfolding local on_host with_disk create_local
  local-on_host (creates r name flags mode) h =
      let flags' = with_create (without_append flags) in
      let opened = sys.open_path h.disk (physical_path r name) flags' mode in
      create_opened-on_host r name (with_disk h opened.0) (opened.1, opened.2)
  local-on_host (makes r name mode) h = refl
  local-on_host (renames r name new_parent new_name flags) h = refl
  local-on_host (removes r name) h = refl
  local-on_host (sets r mode) h = refl
  local-on_host (points r target name) h = refl
  local-on_host (links r target name) h = refl
  local-on_host (unlinks r name) h = refl
  local-on_host (copies file_in off_in file_out off_out len flags) h = refl
  local-on_host (writes f bytes off) h = refl
