-- ===== src/Mirror/Truncation.antt =====
-- Mirror.Mirror of mirror/mirror.go: what a WRITE leaves of the file.
use replicated_file_system.Common.{
  ℕ, zero, suc, ◌≡◌, refl, sym, ◌∙◌, ap, Option, none, some, List, [], ◌∷◌, ◌++◌, Text, length,
  drop, returns, ◌⊎◌, inl, inr, returns-injective,
}
use replicated_file_system.Errors.{Cause}
use replicated_file_system.Protobuf.{Request, Metadata, write}
use replicated_file_system.Mirror.{Os, Opened, handle, open_error, path}
use replicated_file_system.Mirror.Apply.{
  as_cause, content_bytes, apply_write, mirror_type, mirror, done,
}

-- Bytes in a file from an offset on: a gap before the offset is filled with zeros.
abbrev pub overwrite : ℕ → List ℕ → List ℕ → List ℕ
overwrite zero bytes c = bytes ++ drop (length bytes) c
overwrite (suc n) bytes [] = 0 ∷ overwrite n bytes []
overwrite (suc n) bytes (x ∷ c) = x ∷ overwrite n bytes c

-- WriteAt on the bytes of a file: a write of no bytes has no effect, also behind the file's end.
abbrev pub written : ℕ → List ℕ → List ℕ → List ℕ
written off [] c = c
written off (b ∷ bytes) c = overwrite off (b ∷ bytes) c

-- What the operating system documents of O_TRUNC and of writing at an offset, for the contents of
-- the files by their paths and the path behind a descriptor.
pub record FileLaws {W : Type 0} (os : Os W) (contents : W → Text → List ℕ) (opened : W → ℕ → Text)
    : Type 0 where
  pub truncates :
      (d : W) (p : Text) (fd : ℕ)
      → (os.open_truncate d p).1 ≡ handle fd
      → (opened (os.open_truncate d p).0 fd ≡ p) × (contents (os.open_truncate d p).0 p ≡ [])
  pub writes :
      (d : W) (fd : ℕ) (bytes : List ℕ) (off : ℕ)
      → (os.write_at d fd bytes off).1 ≡ none
      → contents (os.write_at d fd bytes off).0 (opened d fd)
        ≡ written off bytes (contents d (opened d fd))

Opened-cases : (o : Opened) → ((e : Text) × (o ≡ open_error e)) ⊎ ((fd : ℕ) × (o ≡ handle fd))
Opened-cases (open_error e) = inl (e, refl)
Opened-cases (handle fd) = inr (fd, refl)

as_cause-none : (e : Option Text) → as_cause e ≡ none → e ≡ none
unfolding as_cause
as_cause-none none h = refl
as_cause-none (some e) h = cc

module _ {W : Type 0} (os : Os W) (dir : Text) (contents : W → Text → List ℕ)
    (opened : W → ℕ → Text) (laws : FileLaws os contents opened) where
  apply_write-overwrite :
      (disk : W) (m : Metadata) (bytes : List ℕ)
      → (apply_write os dir disk m bytes).1 ≡ none
      → contents (apply_write os dir disk m bytes).0 (path os dir m.relative_path)
        ≡ written m.write_offset bytes []
  unfolding apply_write done
  apply_write-overwrite disk m bytes h =
      let p = path os dir m.relative_path in
      elim (Opened-cases (os.open_truncate disk p).1) [
        | inl (e, f) ↦ absurd (cc (rw (f, apply_write) at h))
        | inr (fd, f) ↦
            let ok = as_cause-none _ (rw (f, apply_write, done) at h) in
            let (o, t) = laws.truncates disk p fd f in
            let w = laws.writes (os.open_truncate disk p).0 fd bytes m.write_offset ok in
            rw (f, apply_write, done) (rw (o, t) at w)
      ]

  -- On files that behave as the operating system documents, a WRITE that is mirrored without an
  -- error leaves zeros up to its offset and then its bytes, or an empty file if it has no bytes:
  -- nothing of what the file held before, an earlier WRITE's bytes included.
  pub mirror-overwrite :
      (disk disk' : W) (r : Request) (m : Metadata)
      → r.type ≡ write
      → r.metadata ≡ some m
      → mirror os dir disk r ≡ returns (disk', none)
      → contents disk' (path os dir m.relative_path)
        ≡ written m.write_offset (content_bytes r.content) []
  unfolding mirror mirror_type
  mirror-overwrite disk disk' r m kind has h =
      let same = returns-injective _ (disk', none) (rw (kind, has, mirror, mirror_type) at h) in
      ap (λ (d : W × Option Cause). contents d.0 (path os dir m.relative_path)) (sym same)
      ∙ apply_write-overwrite disk m (content_bytes r.content)
          (ap (λ (d : W × Option Cause). d.1) same)
