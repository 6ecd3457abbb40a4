-- ===== src/Config/Pop.antt =====
-- config/config.go: what Pop takes, and what it leaves in the receiver.
use replicated_file_system.Common.{
  ℕ, suc, ◌+◌, ◌-◌, ◌≡◌, refl, ◌∙◌, ap, true, false, some, List, [], ◌∷◌, ◌++◌, Text, text_eq,
  text_eq_refl, length, drop, take-append, drop-append, length-append, All, returns, arith,
}
use replicated_file_system.Config.{Peer, Popped, index_from, get_elem?, pop}

-- No peer of the list has that name.
abbrev pub IsUnlisted : Text → List Peer → Type 0
IsUnlisted name peers = All (λ (p : Peer). text_eq p.name name ≡ false) peers

index_from-split :
    (j : ℕ) (name : Text) (before : List Peer) (peer : Peer) (rest : List Peer)
    → IsUnlisted name before
    → text_eq peer.name name ≡ true
    → index_from j name (before ++ (peer ∷ rest)) ≡ j + length before
unfolding index_from
index_from-split j name [] peer rest h e = rw e (omega arith)
index_from-split j name (p ∷ before) peer rest (f, h) e =
    rw f (omega (arith, index_from-split (suc j) name before peer rest h e))

index_of :
    (name : Text) (before : List Peer) (peer : Peer) (rest : List Peer)
    → IsUnlisted name before
    → text_eq peer.name name ≡ true
    → index_from 0 name (before ++ (peer ∷ rest)) ≡ length before
index_of name before peer rest h e = omega (arith, index_from-split 0 name before peer rest h e)

index_from_unlisted :
    (j : ℕ) (name : Text) (peers : List Peer) → IsUnlisted name peers → index_from j name peers ≡ 0
unfolding index_from
index_from_unlisted j name [] h = refl
index_from_unlisted j name (p ∷ peers) (f, h) = rw f (index_from_unlisted (suc j) name peers h)

-- The last of a list with that head.
abbrev pub last_peer : Peer → List Peer → Peer
last_peer peer [] = peer
last_peer peer (p ∷ rest) = last_peer p rest

suc_add : (a b : ℕ) → suc a + b ≡ suc (a + b)
suc_add a b = omega arith

zero_add_suc : (b : ℕ) → 0 + suc b ≡ suc (0 + b)
zero_add_suc b = omega arith

drop-last_peer :
    (before : List Peer) (peer : Peer) (rest : List Peer)
    → drop (length before + length rest) (before ++ (peer ∷ rest)) ≡ last_peer peer rest ∷ []
drop-last_peer [] peer [] = refl
drop-last_peer [] peer (p ∷ rest) =
    ap (λ n. drop n (peer ∷ p ∷ rest)) (zero_add_suc (length rest)) ∙ drop-last_peer [] p rest
drop-last_peer (b ∷ before) peer rest =
    ap (λ n. drop n (b ∷ (before ++ (peer ∷ rest)))) (suc_add (length before) (length rest))
    ∙ drop-last_peer before peer rest

drop-one_more :
    (before : List Peer) (peer : Peer) (rest : List Peer)
    → drop (length before + 1) (before ++ (peer ∷ rest)) ≡ rest
drop-one_more [] peer rest = refl
drop-one_more (b ∷ before) peer rest =
    ap (λ n. drop n (b ∷ (before ++ (peer ∷ rest)))) (suc_add (length before) 1)
    ∙ drop-one_more before peer rest

get_elem?-append :
    (before : List Peer) (peer : Peer) (rest : List Peer)
    → get_elem? (before ++ (peer ∷ rest)) (length before) ≡ some peer
unfolding get_elem?
get_elem?-append before peer rest = rw (drop-append before (peer ∷ rest), get_elem?) refl

last_index :
    (before : List Peer) (peer : Peer) (rest : List Peer)
    → length (before ++ (peer ∷ rest)) - 1 ≡ length before + length rest
last_index before peer rest = omega (arith, length-append before (peer ∷ rest))

-- Pop gives the first peer of the name, and all the others in their order. The receiver is changed:
-- it lists the others, and after them the peer that was its last one.
pub pop_listed :
    (name : Text) (before : List Peer) (peer : Peer) (rest : List Peer)
    → IsUnlisted name before
    → peer.name ≡ name
    → pop name (before ++ (peer ∷ rest))
      ≡ returns (record {
        peer = peer;
        sliced = before ++ rest;
        receiver = (before ++ rest) ++ (last_peer peer rest ∷ []);
      })
unfolding pop
pop_listed name before peer rest h e =
    rw
      (
        index_of name before peer rest h (rw e (text_eq_refl name)),
        get_elem?-append before peer rest,
        drop-one_more before peer rest,
        take-append before (peer ∷ rest),
        last_index before peer rest,
        drop-last_peer before peer rest,
      )
      refl

-- For a name that no peer of the list has, Pop gives the first peer, and the others.
pub pop_unlisted :
    (name : Text) (peer : Peer) (rest : List Peer)
    → IsUnlisted name (peer ∷ rest)
    → (p : Popped) × (pop name (peer ∷ rest) ≡ returns p) × (p.peer ≡ peer) × (p.sliced ≡ rest)
unfolding pop get_elem?
pop_unlisted name peer rest h = rw (index_from_unlisted 0 name (peer ∷ rest) h) (
  record {
    peer = peer;
    sliced = rest;
    receiver = rest ++ drop (length (peer ∷ rest) - 1) (peer ∷ rest);
  },
  refl,
  refl,
  refl,
)
