-- ===== src/Mirror/Tests.antt =====
-- The theorems on the mirror, on a small disk.
use replicated_file_system.Common.{
  ℕ, suc, List, [], ◌∷◌, ◌≡◌, refl, none, some, true, Text, codes, text_eq, if◌then◌else◌, panics,
}
use replicated_file_system.Common.Dict
use replicated_file_system.Protobuf.{Request, Metadata, rename, rmdir, write}
use replicated_file_system.P2p.Host.{Env}
use replicated_file_system.P2p.Host.Steps.{new_host}
use replicated_file_system.P2p.Host.Machine.{deliver}
use replicated_file_system.P2p.Host.Ending.{request_message}
use replicated_file_system.P2p.Host.Samples
use replicated_file_system.FilePaths.{
  join, clean, split, is_rooted, push_elements, push_element, go_up, render, join_with_slash,
}
use replicated_file_system.Mirror.{
  Os, found, not_exist, directory, open_error, handle, stat_of, consult, path,
}
use replicated_file_system.Mirror.Apply.{new_mirror, mirror, content_bytes}
use replicated_file_system.Mirror.Readiness.{Votes, ready, consult-Votes}
use replicated_file_system.Mirror.Truncation.{written, FileLaws, mirror-overwrite}
use replicated_file_system.Mirror.Removal.{removal_panics}

abbrev dir : Text
dir = codes "/m"

-- A disk with one directory, /m/docs; its state counts the changes.
abbrev small : Os ℕ
small = record {
  stat = λ disk p.
      if text_eq p (codes "/m/docs") then found directory else not_exist (codes "no such file");
  access = λ disk p. none;
  open_create = λ disk p mode. (suc disk, open_error (codes "read-only"));
  open_truncate = λ disk p. (disk, open_error (codes "read-only"));
  write_at = λ disk fd bytes off. (suc disk, none);
  symlink_at = λ disk p q. (suc disk, none);
  make_dir = λ disk p mode. (suc disk, none);
  rename_to = λ disk p q. (suc disk, none);
  remove = λ disk p. (suc disk, none);
  chmod = λ disk p mode. (suc disk, none);
  open_read = λ disk p. (disk, open_error (codes "read-only"));
  open_write = λ disk p. (disk, open_error (codes "read-only"));
  copy_range = λ disk from roff to woff len. (disk, 0);
}

abbrev docs : Metadata
docs = record {
  relative_path = codes "docs";
  new_relative_path = codes "old";
  mode = 0;
  write_offset = 0;
  read_offset = 0;
  write_len = 0;
}

abbrev removal : Request
removal = record { type = rmdir; metadata = some docs; clock = 0; content = none }

abbrev renaming : Request
renaming = record { type = rename; metadata = some docs; clock = 0; content = none }

consult-Votes_example : Votes (consult small dir 0 renaming) (ready small dir 0 rename docs)
consult-Votes_example = consult-Votes small dir 0 renaming docs refl tt

-- docs is there, and old is free.
renaming_is_ready : ready small dir 0 rename docs ≡ true
unfolding stat_of path join text_eq
renaming_is_ready = refl

abbrev env : Env ℕ
env = record Samples.env { disk_api = new_mirror small dir }

removal_panics_example :
    deliver env (request_message Samples.tid (codes "a") removal) Samples.host_b ≡ panics
unfolding new_host Dict.lookup stat_of path join text_eq
removal_panics_example =
    removal_panics small dir env Samples.host_b Samples.tid (codes "a") removal docs directory 1
      refl tt refl refl refl refl refl

-- A disk with one file: the path that was opened last, and the bytes of the file.
abbrev one_file : Os (Text × List ℕ)
one_file = record {
  stat = λ disk p. not_exist (codes "no such file");
  access = λ disk p. none;
  open_create = λ disk p mode. (disk, open_error (codes "read-only"));
  open_truncate = λ disk p. ((p, []), handle 3);
  write_at = λ disk fd bytes off. ((disk.0, written off bytes disk.1), none);
  symlink_at = λ disk p q. (disk, none);
  make_dir = λ disk p mode. (disk, none);
  rename_to = λ disk p q. (disk, none);
  remove = λ disk p. (disk, none);
  chmod = λ disk p mode. (disk, none);
  open_read = λ disk p. (disk, open_error (codes "read-only"));
  open_write = λ disk p. (disk, open_error (codes "read-only"));
  copy_range = λ disk from roff to woff len. (disk, 0);
}

abbrev bytes_of : Text × List ℕ → Text → List ℕ
bytes_of disk p = disk.1

abbrev opened_by : Text × List ℕ → ℕ → Text
opened_by disk fd = disk.0

one_file-FileLaws : FileLaws one_file bytes_of opened_by
one_file-FileLaws = record {
  truncates = λ d p fd e. (refl, refl);
  writes = λ d fd bytes off e. refl;
}

-- The second part of a file, whose first part is on the disk.
abbrev second_part : Request
second_part = record {
  type = write;
  metadata = some (record docs { write_offset = 2 });
  clock = 0;
  content = some (7 ∷ []);
}

mirror-overwrite_example :
    bytes_of (codes "/m/docs", 0 ∷ 0 ∷ 7 ∷ []) (path one_file dir (codes "docs"))
    ≡ written 2 (content_bytes (some (7 ∷ []))) []
unfolding mirror path join clean content_bytes split is_rooted push_elements push_element go_up
    render join_with_slash text_eq
mirror-overwrite_example =
    mirror-overwrite one_file dir bytes_of opened_by one_file-FileLaws (codes "/m/docs", 5 ∷ 6 ∷ [])
      (codes "/m/docs", 0 ∷ 0 ∷ 7 ∷ []) second_part (record docs { write_offset = 2 }) refl refl
      refl
