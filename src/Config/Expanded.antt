-- ===== src/Config/Expanded.antt =====
-- config/config.go: the paths of a configuration that was read.
use replicated_file_system.Common.{
  ℕ, ◌≡◌, ◌≢◌, refl, Option, none, some, List, [], ◌∷◌, ◌++◌, Text, codes, text_eq, text_eq_iff,
  arith, Bool-cases, Option-cases, inl, inr,
}
use replicated_file_system.FilePaths.{join}
use replicated_file_system.Config.{
  Config, Paths, goes_on, after_prefix, expand_home, fatal_if_none, expand_paths,
  must_unmarshal_config,
}

-- What a path of the configuration stands for, where the home directory is known. The home
-- directory itself is refused.
pub data Means (home : Text) : Text → Text → Type 0 where
  below_home : (rest : Text) → Means home (codes "~/" ++ rest) (join home rest)
  elsewhere :
      (path : Text)
      → path ≢ codes "~"
      → after_prefix (codes "~/") path ≡ none
      → Means home path path

after_prefix_lem : (prefix s rest : Text) → after_prefix prefix s ≡ some rest → s ≡ prefix ++ rest
unfolding after_prefix
after_prefix_lem [] s rest e = cc
after_prefix_lem (x ∷ prefix) [] rest e = cc
after_prefix_lem (x ∷ prefix) (y ∷ s) rest e = ground (arith, after_prefix_lem prefix s rest)

expand_home-Means :
    (home path : Text)
    → path ≢ codes "~"
    → (out : Text) × (expand_home (some home) path ≡ some out) × Means home path out
unfolding expand_home
expand_home-Means home path other = elim (Bool-cases (text_eq path (codes "~"))) [
  | inl f ↦ absurd (other ((text_eq_iff path (codes "~")).0 f))
  | inr f ↦ elim (Option-cases (after_prefix (codes "~/") path)) [
    | inl g ↦ (path, rw (f, g, expand_home) refl, elsewhere path other g)
    | inr (rest, g) ↦ (
      join home rest,
      rw (f, g, expand_home) refl,
      rw (after_prefix_lem (codes "~/") path rest g) (below_home rest),
    )
  ]
]

-- A file that is decoded, with both paths and none of them the home directory, is the configuration
-- whose paths are those that they stand for, and which is otherwise as decoded.
pub must_unmarshal_config-Means :
    (unmarshal : List ℕ → Option Config) (home : Text) (raw : List ℕ) (conf : Config) (p : Paths)
    → unmarshal raw ≡ some conf
    → conf.paths ≡ some p
    → p.fuse_dir ≢ codes "~"
    → p.mirror_dir ≢ codes "~"
    → (q : Paths) × (must_unmarshal_config unmarshal (some home) raw
        ≡ goes_on (record conf { paths = some q }))
      × Means home p.fuse_dir q.fuse_dir
      × Means home p.mirror_dir q.mirror_dir
unfolding must_unmarshal_config expand_paths fatal_if_none
must_unmarshal_config-Means unmarshal home raw conf p decoded has_paths fuse mirror =
    let (f, e, v) = expand_home-Means home p.fuse_dir fuse in
    let (m, d, w) = expand_home-Means home p.mirror_dir mirror in
    (
      record { fuse_dir = f; mirror_dir = m },
      rw (decoded, has_paths, e, d, must_unmarshal_config, expand_paths, fatal_if_none) refl,
      v,
      w,
    )
