-- ===== src/Errors/Messages.antt =====
-- connection/errors.go: the numbers and the texts of the errors, and MultiErr.
use mathlib.Core.List.{append_assoc}
use replicated_file_system.Common.{
  ℕ, ◌-◌, ◌≡◌, sym, ◌∙◌, ap, Bool, List, [], ◌∷◌, ◌++◌, Text, codes, length, take, take-append,
  length-append, arith, ◌==◌, if◌then◌else◌,
}
use replicated_file_system.Common.Dict
use replicated_file_system.Errors.{
  StreamError, timeout, cancelled, invalid_size_header, read_header, read_body, write, other_stream,
  ConnError, unspecified, already_established, closed, conn_cancelled, not_resolved, other_conn,
  Cause,
}

-- The constants, in the order of iota.
unfoldable pub conn_number : ConnError → ℕ
conn_number unspecified = 0
conn_number already_established = 1
conn_number closed = 2
conn_number conn_cancelled = 3
conn_number not_resolved = 4
conn_number (other_conn n) = n

-- connErr(code)
unfoldable pub conn_of : ℕ → ConnError
conn_of n =
    if n == 0
    then unspecified
    else if n == 1
    then already_established
    else if n == 2
    then closed
    else if n == 3
    then conn_cancelled
    else if n == 4
    then not_resolved
    else other_conn n

unfoldable pub stream_number : StreamError → ℕ
stream_number timeout = 0
stream_number cancelled = 1
stream_number invalid_size_header = 2
stream_number read_header = 3
stream_number read_body = 4
stream_number write = 5
stream_number (other_stream n) = n

-- streamErr(code)
unfoldable pub stream_of : ℕ → StreamError
stream_of n =
    if n == 0
    then timeout
    else if n == 1
    then cancelled
    else if n == 2
    then invalid_size_header
    else if n == 3
    then read_header
    else if n == 4
    then read_body
    else if n == 5
    then write
    else other_stream n

-- streamErr.Error
unfoldable pub stream_text : StreamError → Text
stream_text timeout = codes "timed out"
stream_text cancelled = codes "context was cancelled"
stream_text invalid_size_header = codes "invalid header size"
stream_text read_header = codes "failed to read size header"
stream_text read_body = codes "failed to read body"
stream_text write = codes "failed to write data"
stream_text (other_stream n) = codes "unknown stream error"

-- connErr.Error
unfoldable pub conn_text : ConnError → Text
conn_text already_established = codes "connection was already established"
conn_text closed = codes "connection is closed"
conn_text conn_cancelled = codes "context was cancelled"
conn_text not_resolved = codes "connection was not resolved and both peers have agreed to close it"
conn_text _ = codes "unspecified connection error"

-- MultiErr: the map of a nil MultiErr is made by the first Append.
abbrev pub MultiErr : Type 0
MultiErr = List (Text × Cause)

unfoldable pub append_err : Text → Cause → MultiErr → MultiErr
append_err peer err errs = Dict.insert peer err errs

unfoldable pub is_empty : MultiErr → Bool
is_empty errs = length errs == 0

cut_lem : (t : Text) (a b : ℕ) → take (length (t ++ (a ∷ b ∷ [])) - 2) (t ++ (a ∷ b ∷ [])) ≡ t
cut_lem t a b =
    ap (λ n. take n (t ++ (a ∷ b ∷ []))) (omega (arith, length-append t (a ∷ b ∷ [])))
    ∙ take-append t (a ∷ b ∷ [])

module _ (text : Cause → Text) where
  -- What one round of Error's loop writes.
  unfoldable pub entry : Text × Cause → Text
  entry (peer, err) = peer ++ (codes " > " ++ (text err ++ codes ", "))

  unfoldable pub entries : MultiErr → Text
  unfolding entry
  entries [] = []
  entries (e ∷ errs) = entry e ++ entries errs

  -- MultiErr.Error: the last two bytes are cut off.
  unfoldable pub multi_text : MultiErr → Text
  unfolding entries
  multi_text errs = let b = codes "connection errors: " ++ entries errs in take (length b - 2) b

  -- The list of errors as a reader expects it.
  abbrev pub listed : MultiErr → Text
  listed [] = []
  listed ((peer, err) ∷ []) = peer ++ (codes " > " ++ text err)
  listed ((peer, err) ∷ e ∷ errs) =
      (peer ++ (codes " > " ++ text err)) ++ (codes ", " ++ listed (e ∷ errs))

  entries_lem :
      (e : Text × Cause) (errs : MultiErr) → entries (e ∷ errs) ≡ listed (e ∷ errs) ++ codes ", "
  unfolding entries entry
  entries_lem (peer, err) [] = simp append_assoc
  entries_lem (peer, err) (e ∷ errs) = rw (entries_lem e errs) (simp append_assoc)

  -- Error of a MultiErr that is not empty names each peer with its error, in the order of the map,
  -- separated by commas.
  pub multi_text_lem :
      (e : Text × Cause) (errs : MultiErr)
      → multi_text (e ∷ errs) ≡ codes "connection errors: " ++ listed (e ∷ errs)
  unfolding multi_text
  multi_text_lem e errs =
      let h = codes "connection errors: " in
      ap (λ t. take (length (h ++ t) - 2) (h ++ t)) (entries_lem e errs)
      ∙ (ap (λ t. take (length t - 2) t) (sym (append_assoc h (listed (e ∷ errs)) (codes ", ")))
          ∙ cut_lem (h ++ listed (e ∷ errs)) 44 32)

-- A number that the other side of a QUIC connection sent stands for the error with that number.
pub conn_number-of : (n : ℕ) → conn_number (conn_of n) ≡ n
unfolding conn_number conn_of
conn_number-of n = ground arith

pub stream_number-of : (n : ℕ) → stream_number (stream_of n) ≡ n
unfolding stream_number stream_of
stream_number-of n = ground arith
