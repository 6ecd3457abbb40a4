-- ===== src/Rfs/Agreement.antt =====
-- rfs: what the handlers of rfs/root.go and rfs/root_file.go do with the votes.
use replicated_file_system.Common.{
  ℕ, ◌≡◌, refl, ◌≢◌, Option, none, some, List, Text, Outcome, returns,
}
use replicated_file_system.Errors.{Err}
use replicated_file_system.Protobuf.{Request, Response, ResponseError, nack}
use replicated_file_system.Rfs.{
  Errno, no_error, Peers, replicate, unless_refused, refusal, errno_from_protobuf_error,
  errno_of_replication, errno_from_cause,
}
use replicated_file_system.Rfs.Root.{
  Node, RootFile, Reply, status, inode, created, wrote, Loopback, create_request, mkdir_request,
  rename_request, rmdir_request, setattr_request, symlink_request, link_request, unlink_request,
  copy_request, write_request,
}
use replicated_file_system.Rfs.Handlers.{
  guarded, after, handle_create, handle_mkdir, handle_rename, handle_rmdir, handle_setattr,
  handle_symlink, handle_link, handle_unlink, handle_copy_file_range, handle_write,
}
use replicated_file_system.Rfs.Errnos.{errno-nonzero, cause-nonzero, after-fails}

-- The replicated operations, with the arguments of their handlers.
pub data Operation : Type 0 where
  creates : Node → Text → ℕ → ℕ → Operation
  makes : Node → Text → ℕ → Operation
  renames : Node → Text → Text → Text → ℕ → Operation
  removes : Node → Text → Operation
  sets : Node → ℕ → Operation
  points links : Node → Text → Text → Operation
  unlinks : Node → Text → Operation
  copies : RootFile → ℕ → RootFile → ℕ → ℕ → ℕ → Operation
  writes : RootFile → List ℕ → ℕ → Operation

-- Its request, and what its handler returns with an errno.
abbrev pub asked : Operation → Request
asked (creates r name flags mode) = create_request r name mode
asked (makes r name mode) = mkdir_request r name mode
asked (renames r name new_parent new_name flags) = rename_request r name new_parent new_name
asked (removes r name) = rmdir_request r name
asked (sets r mode) = setattr_request r mode
asked (points r target name) = symlink_request r target name
asked (links r target name) = link_request r target name
asked (unlinks r name) = unlink_request r name
asked (copies file_in off_in file_out off_out len flags) =
    copy_request file_in file_out off_in off_out len
asked (writes f bytes off) = write_request f bytes off

abbrev pub failed : Operation → Errno → Reply
failed (creates r name flags mode) e = created none none e
failed (makes r name mode) e = inode none e
failed (points r target name) e = inode none e
failed (links r target name) e = inode none e
failed (copies file_in off_in file_out off_out len flags) e = wrote 0 e
failed (writes f bytes off) e = wrote 0 e
failed _ e = status e

module _ {W : Type 0} (peers : Peers W) (sys : Loopback W) where
  abbrev pub perform : Operation → W → Outcome (W × Reply)
  perform (creates r name flags mode) = handle_create peers sys r name flags mode
  perform (makes r name mode) = handle_mkdir peers sys r name mode
  perform (renames r name new_parent new_name flags) =
      handle_rename peers sys r name new_parent new_name flags
  perform (removes r name) = handle_rmdir peers sys r name
  perform (sets r mode) = handle_setattr peers sys r (some mode)
  perform (points r target name) = handle_symlink peers sys r target name
  perform (links r target name) = handle_link peers sys r target name
  perform (unlinks r name) = handle_unlink peers sys r name
  perform (copies file_in off_in file_out off_out len flags) =
      handle_copy_file_range peers sys (some file_in) off_in (some file_out) off_out len flags
  perform (writes f bytes off) = handle_write peers sys f bytes off

  guarded-fails :
      (req : Request) (fail : Errno → Reply) (local : W → Outcome (W × Reply)) (w w' : W)
      (e : Errno)
      → e ≢ no_error
      → replicate peers w req ≡ returns (w', e)
      → guarded peers sys req fail local w ≡ returns (w', fail e)
  unfolding guarded after
  guarded-fails req fail local w w' e bad r = rw r (after-fails fail local w' e bad)

  perform-fails :
      (op : Operation) (w w' : W) (e : Errno)
      → e ≢ no_error
      → replicate peers w (asked op) ≡ returns (w', e)
      → perform op w ≡ returns (w', failed op e)
  unfolding handle_create handle_mkdir handle_rename handle_rmdir handle_setattr handle_symlink
      handle_link handle_unlink handle_copy_file_range handle_write
  perform-fails (creates r name flags mode) w w' e o q =
      guarded-fails _ (failed (creates r name flags mode)) _ w w' e o q
  perform-fails (makes r name mode) w w' e o q =
      guarded-fails _ (failed (makes r name mode)) _ w w' e o q
  perform-fails (renames r name new_parent new_name flags) w w' e o q =
      guarded-fails _ (failed (renames r name new_parent new_name flags)) _ w w' e o q
  perform-fails (removes r name) w w' e o q = guarded-fails _ (failed (removes r name)) _ w w' e o q
  perform-fails (sets r mode) w w' e o q = guarded-fails _ (failed (sets r mode)) _ w w' e o q
  perform-fails (points r target name) w w' e o q =
      guarded-fails _ (failed (points r target name)) _ w w' e o q
  perform-fails (links r target name) w w' e o q =
      guarded-fails _ (failed (links r target name)) _ w w' e o q
  perform-fails (unlinks r name) w w' e o q = guarded-fails _ (failed (unlinks r name)) _ w w' e o q
  perform-fails (copies file_in off_in file_out off_out len flags) w w' e o q =
      guarded-fails _ (failed (copies file_in off_in file_out off_out len flags)) _ w w' e o q
  perform-fails (writes f bytes off) w w' e o q =
      guarded-fails _ (failed (writes f bytes off)) _ w w' e o q

  -- When this peer's own Consult answers an operation's request with a NACK and its error, the
  -- handler returns the errno of that error, which is not NoError, and the disk stays as it is.
  pub refused_operation :
      (op : Operation) (w : W) (r : Response) (e : ResponseError)
      → peers.consult w (asked op) ≡ returns (some r)
      → r.type ≡ nack
      → r.error ≡ some e
      → (perform op w ≡ returns (w, failed op (errno_from_protobuf_error e)))
        × (errno_from_protobuf_error e ≢ no_error)
  unfolding replicate refusal unless_refused
  refused_operation op w r e c t f =
      (perform-fails op w w _ (errno-nonzero e) (rw (c) (rw (t, f) refl)), errno-nonzero e)

  -- When Replicate returns an error, the handler returns the errno of the error's cause, which is
  -- not NoError, and does no operation on the local disk after Replicate.
  pub failed_replication :
      (op : Operation) (w w' : W) (opinion : Option Response) (e : Err)
      → peers.consult w (asked op) ≡ returns opinion
      → refusal opinion ≡ returns none
      → peers.replicate w (asked op) ≡ returns (w', some e)
      → (perform op w ≡ returns (w', failed op (errno_from_cause e)))
        × (errno_from_cause e ≢ no_error)
  unfolding replicate unless_refused errno_of_replication
  failed_replication op w w' opinion e c t f =
      (perform-fails op w w' _ (cause-nonzero e) (rw (c) (rw (t) (rw (f) refl))), cause-nonzero e)
