-- ===== src/P2p/Host/Counting.antt =====
-- How many processes a transaction has, and how the machine's list operations change that.
use replicated_file_system.Common.{
  ℕ, ◌+◌, ◌≤◌, ◌≡◌, ap, Bool, Option, none, some, List, [], ◌∷◌, ◌++◌, Text, text_eq, text_eq_iff,
  if◌then◌else◌, arith, Option-cases, inl, inr,
}
use replicated_file_system.P2p.Transactions.{Transaction}
use replicated_file_system.P2p.Host.{Process}
use replicated_file_system.P2p.Host.Machine.{take_process}

abbrev pub one_if : Bool → ℕ
one_if b = if b then 1 else 0

abbrev pub count : Text → List Process → ℕ
count tid [] = 0
count tid (p ∷ ps) = one_if (text_eq p.tid tid) + count tid ps

-- One for a transaction that is in the map.
abbrev pub present : Option Transaction → ℕ
present none = 0
present (some t) = 1

pub count-append :
    (tid : Text) (ps qs : List Process) → count tid (ps ++ qs) ≡ count tid ps + count tid qs
count-append tid [] qs = omega arith
count-append tid (p ∷ ps) qs = omega (arith, count-append tid ps qs)

-- The process that is taken belongs to the transaction, and the rest stands before and behind it.
pub count-take_process :
    (tid k : Text) (waiting : Bool) (ps : List Process) {p : Process} {before after : List Process}
    → take_process tid waiting ps ≡ some (p, before, after)
    → (p.tid ≡ tid) × (count k ps ≡ count k before + (one_if (text_eq p.tid k) + count k after))
unfolding take_process
count-take_process tid k waiting [] e = cc
count-take_process tid k waiting (q ∷ ps) {p} {before} {after} e =
    elim (Option-cases (take_process tid waiting ps)) [
      | inl f ↦ ground (arith, text_eq_iff q.tid tid)
      | inr ((r, b, a), f) ↦
          ground (arith, text_eq_iff q.tid tid, count-take_process tid k waiting ps f)
    ]

-- Another process of the same transaction in its place.
pub count-replaced :
    (tid k : Text) (waiting : Bool) (ps : List Process) (p q : Process)
    (before after : List Process)
    → take_process tid waiting ps ≡ some (p, before, after)
    → q.tid ≡ p.tid
    → count k (before ++ (q ∷ after)) ≡ count k ps
count-replaced tid k waiting ps p q before after e same =
    let (_, c) = count-take_process tid k waiting ps e in
    let f : one_if (text_eq q.tid k) ≡ one_if (text_eq p.tid k) =
      ap (λ x. one_if (text_eq x k)) same in
    omega (arith, c, f, count-append k before (q ∷ after))

-- No process in its place.
pub count-removed :
    (tid k : Text) (waiting : Bool) (ps : List Process) (p : Process) (before after : List Process)
    → take_process tid waiting ps ≡ some (p, before, after)
    → count k (before ++ after) + one_if (text_eq tid k) ≡ count k ps
count-removed tid k waiting ps p before after e =
    let (t, c) = count-take_process tid k waiting ps e in
    let f : one_if (text_eq p.tid k) ≡ one_if (text_eq tid k) = ap (λ x. one_if (text_eq x k)) t in
    omega (arith, c, f, count-append k before after)

pub present-le : (t : Option Transaction) → present t ≤ 1
present-le none = omega arith
present-le (some t) = omega arith
