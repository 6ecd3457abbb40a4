-- ===== src/Rfs/Local.antt =====
-- rfs/root.go and rfs/root_file.go: what each replicating handler does behind replicate.
use replicated_file_system.Common.{◌≡◌, refl, ◌%◌, ◌^◌, [], Outcome, returns, ◌>>=◌}
use replicated_file_system.Rfs.{Peers, replicate}
use replicated_file_system.Rfs.Root.{Reply, status, inode, wrote, Loopback, physical_path}
use replicated_file_system.Rfs.Handlers.{
  guarded, after, create_local, handle_create, handle_mkdir, handle_rename, handle_rmdir,
  handle_setattr, handle_symlink, handle_link, handle_unlink, handle_copy_file_range, handle_write,
}
use replicated_file_system.Rfs.Agreement.{
  Operation, creates, makes, renames, removes, sets, points, links, unlinks, copies, writes, asked,
  failed, perform,
}

-- The operation on the local disk.
unfoldable pub local : {W : Type 0} → Loopback W → Operation → W → Outcome (W × Reply)
unfolding physical_path
local sys (creates r name flags mode) w = create_local sys r name flags mode w
local sys (makes r name mode) w =
    let (w', ino, e) = sys.mkdir w r.path name mode in returns (w', inode ino e)
local sys (renames r name new_parent new_name flags) w =
    let (w', e) = sys.rename w r.path name new_parent new_name flags in returns (w', status e)
local sys (removes r name) w = let (w', e) = sys.rmdir w r.path name in returns (w', status e)
local sys (sets r mode) w =
    let (w', e) = sys.chmod w (physical_path r []) mode in returns (w', status e)
local sys (points r target name) w =
    let (w', ino, e) = sys.symlink w r.path target name in returns (w', inode ino e)
local sys (links r target name) w =
    let (w', ino, e) = sys.symlink w r.path target name in returns (w', inode ino e)
local sys (unlinks r name) w = let (w', e) = sys.unlink w r.path name in returns (w', status e)
local sys (copies file_in off_in file_out off_out len flags) w =
    let (w', count, e) = sys.copy_file_range w file_in.fd off_in file_out.fd off_out len flags in
    returns (w', wrote (count % 2 ^ 32) e)
local sys (writes f bytes off) w =
    let (w', count, e) = sys.write w f.fd bytes off in returns (w', wrote count e)

module _ {W : Type 0} (peers : Peers W) (sys : Loopback W) where
  -- Every replicating handler is replicate of its request, its failure, and its local operation.
  pub perform-guarded :
      (op : Operation) (w : W)
      → perform peers sys op w ≡ (replicate peers w (asked op) >>= after (failed op) (local sys op))
  unfolding local guarded handle_create handle_mkdir handle_rename handle_rmdir handle_setattr
      handle_symlink handle_link handle_unlink handle_copy_file_range handle_write
  perform-guarded (creates r name flags mode) w = refl
  perform-guarded (makes r name mode) w = refl
  perform-guarded (renames r name new_parent new_name flags) w = refl
  perform-guarded (removes r name) w = refl
  perform-guarded (sets r mode) w = refl
  perform-guarded (points r target name) w = refl
  perform-guarded (links r target name) w = refl
  perform-guarded (unlinks r name) w = refl
  perform-guarded (copies file_in off_in file_out off_out len flags) w = refl
  perform-guarded (writes f bytes off) w = refl
