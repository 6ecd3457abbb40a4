-- ===== src/Mirror/Apply.antt =====
-- Mirror.Mirror of mirror/mirror.go: a request applied to the disk; and the Mirror that the host is
-- given.
use replicated_file_system.Common.{
  ℕ, ◌==◌, Option, none, some, List, [], Text, codes, if◌then◌else◌, Outcome, returns, panics,
  ◌>>=◌, deref,
}
use replicated_file_system.Errors.{Cause, other}
use replicated_file_system.Protobuf.{
  RequestType, create, link, mkdir, rename, rmdir, setattr, symlink, unlink, write, copy_file_range,
  other_request, Request, Metadata,
}
use replicated_file_system.P2p.Host
use replicated_file_system.Mirror.{Os, Opened, handle, open_error, path, consult}

unfoldable pub as_cause : Option Text → Option Cause
as_cause none = none
as_cause (some e) = some (other e)

unfoldable pub opened_error : Opened → Option Cause
opened_error (handle fd) = none
opened_error (open_error e) = some (other e)

-- request.Content as a slice: nil is empty.
unfoldable pub content_bytes : Option (List ℕ) → List ℕ
content_bytes none = []
content_bytes (some bytes) = bytes

-- The message of the length check; the numbers are left out.
abbrev pub short_copy : Text
short_copy = codes "should've written more to a file"

module _ {W : Type 0} (os : Os W) (dir : Text) where
  unfoldable pub done : W × Option Text → W × Option Cause
  done (disk, e) = (disk, as_cause e)

  apply_create : W → Metadata → W × Option Cause
  unfolding opened_error
  apply_create disk m =
      let (disk', opened) = os.open_create disk (path os dir m.relative_path) m.mode in
      (disk', opened_error opened)

  unfoldable pub apply_write : W → Metadata → List ℕ → W × Option Cause
  unfolding done as_cause
  apply_write disk m bytes =
      let (disk', opened) = os.open_truncate disk (path os dir m.relative_path) in
      elim opened [
        | open_error e ↦ (disk', some (other e))
        | handle fd ↦ done (os.write_at disk' fd bytes m.write_offset)
      ]

  apply_copy : W → Metadata → W × Option Cause
  apply_copy disk m =
      let (disk', src) = os.open_read disk (path os dir m.relative_path) in
      elim src [
        | open_error e ↦ (disk', some (other e))
        | handle from ↦
            let (disk'', dst) = os.open_write disk' (path os dir m.new_relative_path) in
            elim dst [
              | open_error e ↦ (disk'', some (other e))
              | handle to ↦
                  let (disk''', written) =
                    os.copy_range disk'' from m.read_offset to m.write_offset m.write_len in
                  (disk''', if written == m.write_len then none else some (other short_copy))
            ]
      ]

  unfoldable pub mirror_type : RequestType → W → Request → Outcome (W × Option Cause)
  unfolding apply_create apply_write apply_copy done as_cause
  mirror_type create disk r = deref r.metadata >>= λ m. returns (apply_create disk m)
  mirror_type symlink disk r = deref r.metadata >>= λ m.
      returns
        (done (os.symlink_at disk (path os dir m.relative_path) (path os dir m.new_relative_path)))
  mirror_type link disk r = deref r.metadata >>= λ m.
      returns
        (done (os.symlink_at disk (path os dir m.relative_path) (path os dir m.new_relative_path)))
  mirror_type mkdir disk r = deref r.metadata >>= λ m.
      returns (done (os.make_dir disk (path os dir m.relative_path) m.mode))
  mirror_type rename disk r = deref r.metadata >>= λ m.
      returns
        (done (os.rename_to disk (path os dir m.relative_path) (path os dir m.new_relative_path)))
  mirror_type rmdir disk r =
      deref r.metadata >>= λ m. returns (done (os.remove disk (path os dir m.relative_path)))
  mirror_type unlink disk r =
      deref r.metadata >>= λ m. returns (done (os.remove disk (path os dir m.relative_path)))
  mirror_type setattr disk r =
      deref r.metadata >>= λ m. returns (done (os.chmod disk (path os dir m.relative_path) m.mode))
  mirror_type write disk r =
      deref r.metadata >>= λ m. returns (apply_write disk m (content_bytes r.content))
  mirror_type copy_file_range disk r = deref r.metadata >>= λ m. returns (apply_copy disk m)
  mirror_type (other_request n) disk r = panics

  -- Mirror.Mirror
  unfoldable pub mirror : W → Request → Outcome (W × Option Cause)
  unfolding mirror_type content_bytes
  mirror disk r = mirror_type r.type disk r

  -- NewMirror, as the host's interface.
  abbrev pub new_mirror : Host.Mirror W
  new_mirror = record { consult = consult os dir; mirror = mirror }
