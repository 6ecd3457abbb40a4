-- ===== src/Connection/Frames/Roundtrip.antt =====
-- connection/net_op.go: from send to recv, and frames that are cut.
use replicated_file_system.Common.{
  ℕ, zero, suc, ◌+◌, ◌-◌, ◌^◌, ◌<◌, ◌≤◌, ◌≡◌, refl, ◌∙◌, ap, false, ltb, none, List, [], ◌∷◌, ◌++◌,
  lt→ltb, ltb→lt, length-append, take-append, Bool-cases, inl, inr, length, take, drop, arith,
  if◌then◌else◌,
}
use replicated_file_system.Errors.{stream, read_header, read_body}
use replicated_file_system.Connection.Perspective.{data_is, err_is}
use replicated_file_system.Connection.Frames.{
  select_result, select_from, big_endian, from_big_endian, frame, recv_body, recv_size, recv, send,
}

header-roundtrip : (n : ℕ) → n < 2 ^ 63 → from_big_endian (big_endian 8 n) 0 ≡ n
unfolding from_big_endian big_endian
header-roundtrip n h = omega arith

length-big_endian : (k n : ℕ) → length (big_endian k n) ≡ k
unfolding big_endian
length-big_endian zero n = refl
length-big_endian (suc k) n = ap suc (length-big_endian k n)

length-drop : (n : ℕ) (xs : List ℕ) → length (drop n xs) ≡ length xs - n
length-drop zero xs = omega arith
length-drop (suc n) [] = omega arith
length-drop (suc n) (x ∷ xs) = omega (arith, length-drop n xs)

length-take : (n : ℕ) (xs : List ℕ) → n ≤ length xs → length (take n xs) ≡ n
length-take zero xs h = refl
length-take (suc n) [] h = absurd (omega arith)
length-take (suc n) (x ∷ xs) h = ap suc (length-take n xs (omega arith))

take-take : (k n : ℕ) (xs : List ℕ) → k ≤ n → take k (take n xs) ≡ take k xs
take-take zero n xs h = refl
take-take (suc k) zero xs h = absurd (omega arith)
take-take (suc k) (suc n) [] h = refl
take-take (suc k) (suc n) (x ∷ xs) h = ap (λ ys. x ∷ ys) (take-take k n xs (omega arith))

ltb-false : (a b : ℕ) → b ≤ a → ltb a b ≡ false
ltb-false a b h = ground arith

take_header : (bytes rest : List ℕ) → take 8 (frame bytes ++ rest) ≡ big_endian 8 (length bytes)
unfolding frame big_endian
take_header bytes rest = refl

header_of : (bytes : List ℕ) → take 8 (frame bytes) ≡ big_endian 8 (length bytes)
unfolding frame big_endian
header_of bytes = refl

drop_header : (bytes rest : List ℕ) → drop 8 (frame bytes ++ rest) ≡ bytes ++ rest
unfolding frame big_endian
drop_header bytes rest = refl

-- A stream that begins with the header of n bytes.
recv-header :
    (n : ℕ) (bytes : List ℕ)
    → n < 2 ^ 63
    → 8 ≤ length bytes
    → take 8 bytes ≡ big_endian 8 n
    → recv none none bytes ≡ recv_body n none (drop 8 bytes)
unfolding recv recv_size
recv-header n bytes small long header =
    rw (ltb-false (length bytes) 8 long)
      (rw header (rw (header-roundtrip n small) (rw (lt→ltb n (2 ^ 63) small) refl)))

recv-short :
    (bytes : List ℕ) → length bytes < 8 → recv none none bytes ≡ err_is (stream read_header)
unfolding recv
recv-short bytes h = rw (lt→ltb _ 8 h) refl

body-whole : (bytes rest : List ℕ) → recv_body (length bytes) none (bytes ++ rest) ≡ data_is bytes
unfolding recv_body select_result select_from
body-whole bytes rest =
    rw
      (
        ltb-false (length (bytes ++ rest)) (length bytes) (omega (arith, length-append bytes rest)),
        recv_body,
      )
      (ap data_is (take-append bytes rest))

body-short :
    (n : ℕ) (rest : List ℕ) → length rest < n → recv_body n none rest ≡ err_is (stream read_body)
unfolding recv_body select_result select_from
body-short n rest h = rw (lt→ltb (length rest) n h, recv_body) refl

length-frame : (bytes : List ℕ) → length (frame bytes) ≡ 8 + length bytes
unfolding frame
length-frame bytes =
    length-append (big_endian 8 (length bytes)) bytes
    ∙ ap (λ k. k + length bytes) (length-big_endian 8 (length bytes))

-- recv gives back what send wrote, whatever follows it, for data of fewer than 2^63 bytes.
pub recv-send :
    (bytes rest : List ℕ)
    → length bytes < 2 ^ 63
    → recv none none ((send none none false bytes).0 ++ rest) ≡ data_is bytes
unfolding send
recv-send bytes rest h =
    recv-header (length bytes) (frame bytes ++ rest) h
      (omega (arith, length-append (frame bytes) rest, length-frame bytes)) (take_header bytes rest)
    ∙ (ap (recv_body (length bytes) none) (drop_header bytes rest) ∙ body-whole bytes rest)

cut_body :
    (bytes : List ℕ) (n : ℕ)
    → length bytes < 2 ^ 63
    → n < 8 + length bytes
    → 8 ≤ n
    → recv none none (take n (frame bytes)) ≡ err_is (stream read_body)
cut_body bytes n h lt ge =
    let len = length-take n (frame bytes) (omega (arith, length-frame bytes)) in
    recv-header (length bytes) (take n (frame bytes)) h (omega (arith, len))
      (take-take 8 n (frame bytes) ge ∙ header_of bytes)
    ∙ body-short (length bytes) (drop 8 (take n (frame bytes)))
        (omega (arith, length-drop 8 (take n (frame bytes)), len))

-- A stream that ends before the frame does gives an error: of the header if fewer than eight bytes
-- have arrived, and otherwise of the body.
pub recv-cut :
    (bytes : List ℕ) (n : ℕ)
    → length bytes < 2 ^ 63
    → n < 8 + length bytes
    → recv none none (take n (send none none false bytes).0)
      ≡ err_is (stream (if ltb n 8 then read_header else read_body))
unfolding send
recv-cut bytes n h lt = elim (Bool-cases (ltb n 8)) [
  | inl e ↦ rw e (
      recv-short _ (
        omega (
          arith,
          length-take n (frame bytes) (omega (arith, length-frame bytes, lt)),
          ltb→lt n 8 e,
        )))
  | inr e ↦ rw e (cut_body bytes n h lt (ground (arith, e)))
]
