-- ===== src/System.antt =====
-- main.go: the parts of a peer put together. The handlers of rfs run over the Mirror and the Host of
-- the same peer, on the disk of that host.
pub mod Disk
pub mod Operations
pub mod Closed
pub mod Receiving
pub mod Transport
mod Tests
use replicated_file_system.Common.{
  ℕ, Option, none, List, [], ◌∷◌, ◌++◌, Text, Outcome, returns, panics, ◌>>=◌, some, deref,
}
use replicated_file_system.Errors.{Err}
use replicated_file_system.Protobuf.{Request, Response}
use replicated_file_system.P2p.Host.{Env, Host, Output, broadcasts, handled, replicated}
use replicated_file_system.P2p.Host.Steps.{begin_replicate}
use replicated_file_system.P2p.Host.Machine.{deliver_all, leave}
use replicated_file_system.P2p.Host.Collect.{response_messages}
use replicated_file_system.Rfs.{Peers}
use replicated_file_system.Rfs.Root.{Loopback}

-- The return of Replicate, once it is there.
unfoldable pub returned : List Output → Option (Option Err)
returned [] = none
returned (replicated tid e ∷ out) = some e
returned (broadcasts message ∷ out) = returned out
returned (handled tid e ∷ out) = returned out

module _ {W : Type 0} where
  -- Replicate behind its first part: it has returned, or it waits while those answers arrive. A call
  -- that they do not bring to its end has no result.
  unfoldable pub await :
      Env W
      → Text
      → List (Text × Response)
      → Host W
      → Option (Option Err)
      → Outcome (Host W × Option Err)
  await env tid answers h (some e) = returns (h, e)
  await env tid answers h none =
      deliver_all env (response_messages tid answers) h >>= λ (done, out).
      leave env tid done >>= λ (left, out'). deref (returned out') >>= λ e. returns (left, e)

  -- Replicate of a transaction whose broadcast ends with that result.
  unfoldable pub call :
      Env W
      → Text
      → Option Err
      → List (Text × Response)
      → Host W
      → Request
      → Outcome (Host W × Option Err)
  unfolding await returned
  call env tid sent answers h request = begin_replicate env tid request sent h >>= λ (h', out).
      await env tid answers h' (returned out)

  -- The Mirror and the Host that rfs.NewServer gets.
  unfoldable pub peers_of : Env W → Text → Option Err → List (Text × Response) → Peers (Host W)
  unfolding call
  peers_of env tid sent answers = record {
    consult = λ h request. env.disk_api.consult h.disk request;
    replicate = call env tid sent answers;
  }

  unfoldable pub with_disk : Host W → W → Host W
  with_disk h w = record h { disk = w }

  -- go-fuse and syscall on the disk of the host.
  unfoldable pub on_host : Loopback W → Loopback (Host W)
  unfolding with_disk
  on_host sys = record {
    open_path = λ h p flags mode.
        let (w, fd, e) = sys.open_path h.disk p flags mode in (with_disk h w, fd, e);
    fstat = λ h fd. sys.fstat h.disk fd;
    close = λ h fd. with_disk h (sys.close h.disk fd);
    new_inode = λ h name st. let (w, ino) = sys.new_inode h.disk name st in (with_disk h w, ino);
    chmod = λ h p mode. let (w, e) = sys.chmod h.disk p mode in (with_disk h w, e);
    mkdir =
        λ h p name mode. let (w, ino, e) = sys.mkdir h.disk p name mode in (with_disk h w, ino, e);
    rename = λ h p name q new_name flags.
        let (w, e) = sys.rename h.disk p name q new_name flags in (with_disk h w, e);
    rmdir = λ h p name. let (w, e) = sys.rmdir h.disk p name in (with_disk h w, e);
    symlink = λ h p target name.
        let (w, ino, e) = sys.symlink h.disk p target name in (with_disk h w, ino, e);
    unlink = λ h p name. let (w, e) = sys.unlink h.disk p name in (with_disk h w, e);
    copy_file_range = λ h from off_in to off_out len flags.
        let (w, count, e) = sys.copy_file_range h.disk from off_in to off_out len flags in
        (with_disk h w, count, e);
    write = λ h fd bytes off.
        let (w, count, e) = sys.write h.disk fd bytes off in (with_disk h w, count, e);
    lseek = λ h fd off whence.
        let (w, to, e) = sys.lseek h.disk fd off whence in (with_disk h w, to, e);
  }
