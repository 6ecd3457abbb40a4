-- ===== src/Protobuf/Gzip.antt =====
-- protobuf/gzip.go. The codec of compress/gzip and the encoder of google.golang.org/protobuf are
-- not in the repository: they are the parameters `Gzip` and `Proto`.
use replicated_file_system.Common.{
  ℕ, ◌≡◌, refl, arith, inl, inr, ◌⊎◌, Option-cases, Bool, true, Option, none, some, List, Text,
  codes, text_eq, if◌then◌else◌,
}

-- gzip's compression levels.
pub data Level : Type 0 where
  no_compression best_speed best_compression default_compression huffman_only : Level

-- `log.Fatal` ends the process: none.
unfoldable pub set_compression : Text → Option Level
set_compression cmp =
    if text_eq cmp (codes "NoCompression")
    then some no_compression
    else if text_eq cmp (codes "BestSpeed")
    then some best_speed
    else if text_eq cmp (codes "BestCompression")
    then some best_compression
    else if text_eq cmp (codes "DefaultCompression")
    then some default_compression
    else if text_eq cmp (codes "HuffmanOnly")
    then some huffman_only
    else none

-- The writer and the reader of compress/gzip, each step with its own failure: opening, copying,
-- closing. A stream is what the library holds between the calls.
pub record Gzip : Type 1 where
  pub Writer : Type 0
  pub Reader : Type 0
  pub new_writer : Level → Option Writer
  pub write : Writer → List ℕ → Option Writer
  pub close_writer : Writer → Option (List ℕ)
  pub new_reader : List ℕ → Option Reader
  pub read_all : Reader → Option (List ℕ)
  pub close_reader : Reader → Bool

-- The wrapped errors of this file.
pub data GzipError : Type 0 where
  create_writer write_content close_gzip_writer : GzipError
  create_reader read_data close_gzip_reader : GzipError

pub data GzipResult : Type 0 where
  bytes : List ℕ → GzipResult
  failed : GzipError → GzipResult

pub GzipResult-cases :
    (r : GzipResult) → ((out : List ℕ) × (r ≡ bytes out)) ⊎ ((e : GzipError) × (r ≡ failed e))
GzipResult-cases (bytes out) = inl (out, refl)
GzipResult-cases (failed e) = inr (e, refl)

unfoldable pub compress : Gzip → Level → List ℕ → GzipResult
compress z level content = elim (z.new_writer level) [
  | none ↦ failed create_writer
  | some w ↦ elim (z.write w content) [
    | none ↦ failed write_content
    | some w' ↦ elim (z.close_writer w') [ none ↦ failed close_gzip_writer | some out ↦ bytes out ]
  ]
]

unfoldable pub decompress : Gzip → List ℕ → GzipResult
decompress z content = elim (z.new_reader content) [
  | none ↦ failed create_reader
  | some r ↦ elim (z.read_all r) [
    | none ↦ failed read_data
    | some out ↦ if z.close_reader r then bytes out else failed close_gzip_reader
  ]
]

-- What compress/gzip documents: a reader of a finished stream gives back what was written.
pub record GzipLaws (z : Gzip) : Type 0 where
  pub reads_back :
      (level : Level) (content out : List ℕ) {w w' : z.Writer}
      → z.new_writer level ≡ some w
      → z.write w content ≡ some w'
      → z.close_writer w' ≡ some out
      → (r : z.Reader) × (z.new_reader out ≡ some r)
        × (z.read_all r ≡ some content)
        × (z.close_reader r ≡ true)

-- A compressed content decompresses to itself, at every level.
pub decompress-compress :
    (z : Gzip)
    → GzipLaws z
    → (level : Level) (content : List ℕ) {out : List ℕ} → compress z level content ≡ bytes out
    → decompress z out ≡ bytes content
unfolding compress decompress
decompress-compress z laws level content {out} h = elim (Option-cases (z.new_writer level)) [
  | inl e ↦ ground arith
  | inr (w, e) ↦ elim (Option-cases (z.write w content)) [
    | inl e' ↦ ground arith
    | inr (w', e') ↦ ground (arith, laws.reads_back level content out e e' (ground arith))
  ]
]
