-- ===== src/Connection/Perspective/Verdict.antt =====
-- connection/perspective.go: the resolvent's bytes, and the verdicts of the two ends.
use Prim.Native.Nat.{bit_or, bit_and}
use replicated_file_system.Common.{
  ℕ, zero, suc, ◌+◌, ◌*◌, ◌/◌, ◌%◌, ◌^◌, ◌<◌, ◌≡◌, refl, ◌≢◌, Bool, true, false, not, ◌||◌, ◌==◌,
  Option, none, some, Text, text_lt, text_lt_total, text_lt_asymm, arith, if◌then◌else◌, ==_iff, ap,
  ◌∙◌, sym, inl, inr,
}
use replicated_file_system.Errors.{Cause, conn, not_resolved}
use replicated_file_system.Connection.Perspective.{
  server, client, Resolvent, encode, decode, compare, resolve, verdict, fallback, resolve_with,
  data_is, resolved,
}

-- The test holds of every byte up to the given one.
passes : (ℕ → Bool) → ℕ → Bool
passes test zero = test zero
passes test (suc b) = if test (suc b) then passes test b else false

passes_lem : (test : ℕ → Bool) (last b : ℕ) → passes test last ≡ true → b < suc last → test b ≡ true
unfolding passes
passes_lem test zero b all small = ground arith
passes_lem test (suc last) b all small = ground (arith, passes_lem test last b)

or_table : passes (λ b. bit_or (b / 64 * 2 ^ 6 % 2 ^ 32) (b % 64) % 2 ^ 8 == b) 255 ≡ true
unfolding passes
or_table = refl

and_table : passes (λ b. bit_and b 63 == b % 64) 255 ≡ true
unfolding passes
and_table = refl

encoded : (p c : ℕ) → p < 4 → c < 64 → bit_or (p * 2 ^ 6 % 2 ^ 32) c % 2 ^ 8 ≡ p * 64 + c
encoded p c hp hc =
    let x = p * 64 + c in
    let high : x / 64 ≡ p = omega arith in
    let low : x % 64 ≡ c = omega arith in
    let e = (==_iff _ x).0 (passes_lem _ 255 x or_table (omega arith)) in
    ap (λ p'. bit_or (p' * 2 ^ 6 % 2 ^ 32) c % 2 ^ 8) (sym high)
    ∙ (ap (λ c'. bit_or (x / 64 * 2 ^ 6 % 2 ^ 32) c' % 2 ^ 8) (sym low) ∙ e)

masked : (p c : ℕ) → p < 4 → c < 64 → bit_and (p * 64 + c) 63 ≡ c
masked p c hp hc =
    (==_iff _ _).0 (passes_lem _ 255 (p * 64 + c) and_table (omega arith)) ∙ omega arith

-- Decode undoes Encode, for a perspective of two bits and a counter of six bits.
pub decode-encode : (r : Resolvent) → r.perspective < 4 → r.ctr < 64 → decode (encode r) ≡ some r
unfolding encode decode
decode-encode r hp hc = rw (encoded r.perspective r.ctr hp hc) (
    rw (masked r.perspective r.ctr hp hc)
      (ap (λ (p : ℕ). some (record { perspective = p; ctr = r.ctr })) (omega arith)))

-- What a connection comes to, from the two counters and the fallback.
abbrev pub settled : Bool → Option Cause
settled accepted = if accepted then none else some (conn not_resolved)

verdict-settled : (f b : Bool) → verdict f (resolved b) ≡ settled (b || f)
unfolding verdict
verdict-settled f true = refl
verdict-settled true false = refl
verdict-settled false false = refl

one_end :
    (k l mine theirs : ℕ) (host peer : Text)
    → l < 64
    → theirs < 4
    → (theirs == mine) ≡ false
    → (k + 1) % 2 ^ 32 ≡ k + 1
    → (resolve_with k mine host peer none
        (data_is (encode (record { perspective = theirs; ctr = l })))).1
      ≡ settled ((k + 1 == l) || fallback mine host peer)
unfolding resolve_with resolve compare verdict
one_end k l mine theirs host peer hl ht other small = rw (small) (
    rw (decode-encode (record { perspective = theirs; ctr = l }) ht hl)
      (rw other (verdict-settled _ _)))

suc-== : (k l : ℕ) → (k + 1 == l + 1) ≡ (k == l)
suc-== k l = ground arith

==-sym : (k l : ℕ) → (k == l) ≡ (l == k)
==-sym k l = ground arith

==-apart : (k l : ℕ) → k ≢ l → (k == l) ≡ false
==-apart k l d = ground arith

text_lt-not : (s t : Text) → s ≢ t → text_lt t s ≡ not (text_lt s t)
text_lt-not s t d = elim (text_lt_total s t d) [
  | inl e ↦ rw e (text_lt_asymm s t e)
  | inr e ↦ rw (text_lt_asymm t s e) e
]

-- The host dials the peer: the two ends' resolvents cross, and the sends succeed. With counters
-- below 63, both ends come to the same verdict: the connection is kept if the counters are equal or
-- the dialing peer's name is the smaller one, and otherwise it is not resolved.
pub ends_agree :
    (k l : ℕ) (host peer : Text)
    → k < 63
    → l < 63
    → ((resolve_with k client host peer none
          (data_is (encode (record { perspective = server; ctr = l + 1 })))).1
        ≡ settled ((k == l) || text_lt host peer))
      × ((resolve_with l server peer host none
            (data_is (encode (record { perspective = client; ctr = k + 1 })))).1
          ≡ settled ((k == l) || text_lt host peer))
unfolding fallback
ends_agree k l host peer hk hl = (
  one_end k (l + 1) client server host peer (omega arith) (omega arith) refl (omega arith)
      ∙ ap (λ b. settled (b || text_lt host peer)) (suc-== k l),
  one_end l (k + 1) server client peer host (omega arith) (omega arith) refl (omega arith)
      ∙ ap (λ b. settled (b || text_lt host peer)) (suc-== l k ∙ ==-sym l k),
)

-- Two peers of different names dial each other, and on both connections the counters, which are
-- below 63, differ: the host keeps exactly one of the two connections.
pub crossed_keep_one :
    (k l k' l' : ℕ) (host peer : Text)
    → host ≢ peer
    → k < 63
    → l < 63
    → k' < 63
    → l' < 63
    → k ≢ l
    → k' ≢ l'
    → (b : Bool) × ((resolve_with k client host peer none
          (data_is (encode (record { perspective = server; ctr = l + 1 })))).1
        ≡ settled b)
      × ((resolve_with k' server host peer none
            (data_is (encode (record { perspective = client; ctr = l' + 1 })))).1
          ≡ settled (not b))
crossed_keep_one k l k' l' host peer apart hk hl hk' hl' d d' = (
  text_lt host peer,
  (ends_agree k l host peer hk hl).0 ∙ ap (λ b. settled (b || text_lt host peer)) (==-apart k l d),
  (ends_agree l' k' peer host hl' hk').1
      ∙ ap (λ b. settled (b || text_lt peer host)) (==-apart l' k' (λ e. d' (sym e)))
      ∙ ap settled (text_lt-not host peer apart),
)
