-- ===== src/Rfs/Handlers.antt =====
-- rfs/root.go and rfs/root_file.go: the handlers. Each asks replicate first, and returns its errno
-- unless that is NoError; then it does the operation on the local disk.
use replicated_file_system.Common.{
  ℕ, ◌^◌, ◌%◌, Option, none, some, List, [], Text, Outcome, returns, ◌>>=◌, deref,
}
use replicated_file_system.Protobuf.{Request}
use replicated_file_system.Rfs.{Errno, no_error, Peers, replicate}
use replicated_file_system.Rfs.Root.{
  Node, RootFile, Reply, status, inode, created, opened, wrote, sought, Loopback, without_append,
  with_create, relative_path, physical_path, new_rfs_file, create_request, mkdir_request,
  rename_request, rmdir_request, setattr_request, symlink_request, link_request, unlink_request,
  copy_request, write_request,
}
use replicated_file_system.FilePaths.{join}

-- The early return behind the call of replicate.
unfoldable pub after :
    {W : Type 0} → (Errno → Reply) → (W → Outcome (W × Reply)) → W × Errno → Outcome (W × Reply)
after failed local (w, no_error) = local w
after failed local (w, e) = returns (w, failed e)

module _ {W : Type 0} (sys : Loopback W) where
  -- Create behind fstat: a file that cannot be described is closed again.
  unfoldable pub create_inode : Node → Text → W → ℕ → Option ℕ → Errno → Outcome (W × Reply)
  unfolding new_rfs_file relative_path
  create_inode r name w fd st no_error =
      let (w', ino) = sys.new_inode w name st in
      returns (w', created (some ino) (some (new_rfs_file fd (relative_path r name))) no_error)
  create_inode r name w fd st e = returns (sys.close w fd, created none none e)

  -- Create behind open.
  unfoldable pub create_opened : Node → Text → W → Option ℕ × Errno → Outcome (W × Reply)
  unfolding create_inode
  create_opened r name w (none, e) = returns (w, created none none e)
  create_opened r name w (some fd, e) =
      let (st, e') = sys.fstat w fd in create_inode r name w fd st e'

  -- Create behind replicate.
  unfoldable pub create_local : Node → Text → ℕ → ℕ → W → Outcome (W × Reply)
  unfolding without_append with_create physical_path create_opened
  create_local r name flags mode w =
      let (w', fd, e) =
        sys.open_path w (physical_path r name) (with_create (without_append flags)) mode in
      create_opened r name w' (fd, e)

module _ {W : Type 0} (peers : Peers W) (sys : Loopback W) where
  unfoldable pub guarded :
      Request → (Errno → Reply) → (W → Outcome (W × Reply)) → W → Outcome (W × Reply)
  unfolding after
  guarded req failed local w = replicate peers w req >>= after failed local

  unfoldable pub handle_create : Node → Text → ℕ → ℕ → W → Outcome (W × Reply)
  unfolding guarded create_local create_request
  handle_create r name flags mode =
      guarded (create_request r name mode) (created none none) (create_local sys r name flags mode)

  unfoldable pub handle_mkdir : Node → Text → ℕ → W → Outcome (W × Reply)
  unfolding guarded mkdir_request
  handle_mkdir r name mode =
      guarded (mkdir_request r name mode) (inode none)
        (λ w. let (w', ino, e) = sys.mkdir w r.path name mode in returns (w', inode ino e))

  -- Open: not replicated.
  unfoldable pub handle_open : Node → ℕ → W → Outcome (W × Reply)
  unfolding without_append new_rfs_file
  handle_open r flags w =
      let (w', fd, e) = sys.open_path w (join r.root_path r.path) (without_append flags) 0 in
      elim fd [
        | none ↦ returns (w', opened none e)
        | some n ↦ returns (w', opened (some (new_rfs_file n r.path)) no_error)
      ]

  unfoldable pub handle_rename : Node → Text → Text → Text → ℕ → W → Outcome (W × Reply)
  unfolding guarded rename_request
  handle_rename r name new_parent new_name flags =
      guarded (rename_request r name new_parent new_name) status (λ w.
        let (w', e) = sys.rename w r.path name new_parent new_name flags in returns (w', status e))

  unfoldable pub handle_rmdir : Node → Text → W → Outcome (W × Reply)
  unfolding guarded rmdir_request
  handle_rmdir r name =
      guarded (rmdir_request r name) status
        (λ w. let (w', e) = sys.rmdir w r.path name in returns (w', status e))

  -- Setattr with the mode that the caller asks for, if any.
  unfoldable pub handle_setattr : Node → Option ℕ → W → Outcome (W × Reply)
  unfolding guarded setattr_request physical_path
  handle_setattr r none w = returns (w, status no_error)
  handle_setattr r (some mode) w =
      guarded (setattr_request r mode) status
        (λ k. let (k', e) = sys.chmod k (physical_path r []) mode in returns (k', status e)) w

  unfoldable pub handle_symlink : Node → Text → Text → W → Outcome (W × Reply)
  unfolding guarded symlink_request
  handle_symlink r target name =
      guarded (symlink_request r target name) (inode none)
        (λ w. let (w', ino, e) = sys.symlink w r.path target name in returns (w', inode ino e))

  unfoldable pub handle_link : Node → Text → Text → W → Outcome (W × Reply)
  unfolding guarded link_request
  handle_link r target_path name =
      guarded (link_request r target_path name) (inode none)
        (λ w. let (w', ino, e) = sys.symlink w r.path target_path name in returns (w', inode ino e))

  unfoldable pub handle_unlink : Node → Text → W → Outcome (W × Reply)
  unfolding guarded unlink_request
  handle_unlink r name =
      guarded (unlink_request r name) status
        (λ w. let (w', e) = sys.unlink w r.path name in returns (w', status e))

  -- CopyFileRange. The handles are *rootFile, or nil pointers whose field is read.
  unfoldable pub handle_copy_file_range :
      Option RootFile → ℕ → Option RootFile → ℕ → ℕ → ℕ → W → Outcome (W × Reply)
  unfolding guarded copy_request
  handle_copy_file_range fh_in off_in fh_out off_out len flags w = deref fh_in >>= λ file_in.
      deref fh_out >>= λ file_out.
      guarded (copy_request file_in file_out off_in off_out len) (wrote 0)
        (λ k.
          let (k', count, e) =
            sys.copy_file_range k file_in.fd off_in file_out.fd off_out len flags in
          returns (k', wrote (count % 2 ^ 32) e))
        w

  -- rootFile.Write
  unfoldable pub handle_write : RootFile → List ℕ → ℕ → W → Outcome (W × Reply)
  unfolding guarded write_request
  handle_write f bytes off =
      guarded (write_request f bytes off) (wrote 0)
        (λ w. let (w', count, e) = sys.write w f.fd bytes off in returns (w', wrote count e))

  -- rootFile.Lseek: not replicated.
  unfoldable pub handle_lseek : RootFile → ℕ → ℕ → W → Outcome (W × Reply)
  handle_lseek f off whence w =
      let (w', to, e) = sys.lseek w f.fd off whence in returns (w', sought to e)
