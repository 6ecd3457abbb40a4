-- ===== src/Rfs/Samples.antt =====
-- Concrete values for the tests of the handlers: a disk that counts its changes, and a node.
use replicated_file_system.Common.{ℕ, suc, some, [], codes}
use replicated_file_system.Rfs.{no_error}
use replicated_file_system.Rfs.Root.{Node, Loopback}

abbrev pub counting : Loopback ℕ
counting = record {
  open_path = λ w p flags mode. (suc w, some 3, no_error);
  fstat = λ w fd. (some 11, no_error);
  close = λ w fd. w;
  new_inode = λ w name st. (w, 11);
  chmod = λ w p mode. (suc w, no_error);
  mkdir = λ w p name mode. (suc w, some 11, no_error);
  rename = λ w p name q new_name flags. (suc w, no_error);
  rmdir = λ w p name. (suc w, no_error);
  symlink = λ w p target name. (suc w, some 11, no_error);
  unlink = λ w p name. (suc w, no_error);
  copy_file_range = λ w from roff to woff len flags. (suc w, len, no_error);
  write = λ w fd bytes off. (suc w, 1, no_error);
  lseek = λ w fd off whence. (w, off, no_error);
}

abbrev pub at_root : Node
at_root = record { root_path = codes "/m"; path = [] }
