-- ===== src/P2p/Conflicts/Order.antt =====
-- p2p/conflicts_resolver.go: the iteration order of the map, and pairs of conflicting requests.
use mathlib.Core.List.{Permᴰ}
use mathlib.Core.Logic.{∥∥₁_elim}
use replicated_file_system.Common.{
  ◌≡◌, refl, subst, ◌∙◌, ◌≢◌, ◌⊎◌, inl, inr, Bool, true, false, some, Text, text_eq_iff,
  text_lt_total, text_lt_asymm, [], Perm, Outcome, returns, ◌>>=◌, arith, if◌then◌else◌,
}
use replicated_file_system.Common.Dict
use replicated_file_system.Protobuf.{Request, Metadata, Message, get_request, request_msg}
use replicated_file_system.P2p.Transactions.{Transaction, Transactions, put}
use replicated_file_system.P2p.Conflicts.{
  beaten_by, check_transaction, detect_loop, detect_and_resolve_conflict,
}
use replicated_file_system.P2p.Conflicts.Priority.{HasMetadata, EveryTransaction}
use replicated_file_system.P2p.Conflicts.Decision.{check-Decides}

-- Two checks that both return can be made in either order.
swap_checks :
    (a b : Outcome Bool) (later : Outcome Bool) (x y : Bool)
    → a ≡ returns x
    → b ≡ returns y
    → ◌≡◌ {A = Outcome Bool}
        (a >>= λ hit.
          if hit then returns true else (b >>= λ hit. if hit then returns true else later))
        (b >>= λ hit.
          if hit then returns true else (a >>= λ hit. if hit then returns true else later))
swap_checks a b later x y p q = ground arith

EveryTransaction-perm :
    (P : Transaction → Type 0) {ts us : Transactions}
    → Permᴰ ts us
    → EveryTransaction P ts
    → EveryTransaction P us
EveryTransaction-perm P Permᴰ.nil h = h
EveryTransaction-perm P (Permᴰ.cons e r) h =
    (subst (λ (x : Text × Transaction). P x.1) e h.0, EveryTransaction-perm P r h.1)
EveryTransaction-perm P (Permᴰ.swap e f) h = (
  subst (λ (x : Text × Transaction). P x.1) f h.1.0,
  (subst (λ (x : Text × Transaction). P x.1) e h.0, h.1.1),
)
EveryTransaction-perm P (Permᴰ.trans r s) h =
    EveryTransaction-perm P s (EveryTransaction-perm P r h)

module _ (peer_name : Text) (req : Request) (ours : Metadata) (has : req.metadata ≡ some ours) where
  check-returns :
      (t : Transaction)
      → HasMetadata t
      → (b : Bool) × (check_transaction t peer_name req ≡ returns b)
  check-returns t h = elim (check-Decides peer_name req ours has t h) [
    | inl (e, _) ↦ (true, e)
    | inr (e, _) ↦ (false, e)
  ]

  detect_loop-perm :
      {ts us : Transactions}
      → Permᴰ ts us
      → EveryTransaction HasMetadata ts
      → detect_loop ts peer_name req ≡ detect_loop us peer_name req
  unfolding detect_loop
  detect_loop-perm Permᴰ.nil h = refl
  detect_loop-perm (Permᴰ.cons {a} {b} e r) h = rw (← e) (rw (detect_loop-perm r h.1))
  detect_loop-perm (Permᴰ.swap {a} {b} {l} e f) h =
      let (x, p) = check-returns a.1 h.0 in
      let (y, q) = check-returns b.1 h.1.0 in
      rw (← e, ← f)
        (swap_checks (check_transaction a.1 peer_name req) (check_transaction b.1 peer_name req)
          (detect_loop l peer_name req) x y p q)
  detect_loop-perm (Permᴰ.trans r s) h =
      detect_loop-perm r h ∙ detect_loop-perm s (EveryTransaction-perm HasMetadata r h)

Outcome-set : IsSet (Outcome Bool)
Outcome-set = hlevel

-- Where every open request has its metadata, the decision is the same in whichever order the loop
-- meets the transactions.
pub detect-perm :
    (ts us : Transactions) (msg : Message) (req : Request) (ours : Metadata)
    → get_request msg ≡ some req
    → req.metadata ≡ some ours
    → EveryTransaction HasMetadata ts
    → Perm ts us
    → detect_and_resolve_conflict ts msg ≡ detect_and_resolve_conflict us msg
unfolding detect_and_resolve_conflict
detect-perm ts us msg req ours g has h perm =
    rw g (∥∥₁_elim perm (Outcome-set _ _) λ r. detect_loop-perm msg.peer_name req ours has r h)

pub beaten_by_exclusive :
    (s t : Text) (ra rb : Request) (ma mb : Metadata)
    → ra.metadata ≡ some ma
    → rb.metadata ≡ some mb
    → ma.relative_path ≡ mb.relative_path
    → ma.new_relative_path ≡ mb.new_relative_path
    → s ≢ t
    → (beaten_by ra s t rb ≡ returns true) × (beaten_by rb t s ra ≡ returns false)
      ⊎ (beaten_by ra s t rb ≡ returns false) × (beaten_by rb t s ra ≡ returns true)
unfolding beaten_by
beaten_by_exclusive s t ra rb ma mb ha hb same same_new ne = ground (
  arith,
  text_eq_iff s t,
  text_eq_iff t s,
  text_eq_iff ma.relative_path mb.relative_path,
  text_eq_iff ma.new_relative_path mb.new_relative_path,
  text_eq_iff mb.relative_path ma.relative_path,
  text_eq_iff mb.new_relative_path ma.new_relative_path,
  text_lt_total s t,
  text_lt_asymm s t,
  text_lt_asymm t s,
)

pub detect_one :
    (a b : Message) (ra rb : Request)
    → a.type ≡ request_msg ra
    → b.type ≡ request_msg rb
    → detect_and_resolve_conflict (put a []).0 b ≡ beaten_by ra a.peer_name b.peer_name rb
unfolding detect_and_resolve_conflict detect_loop check_transaction put get_request Dict.lookup
    Dict.insert
detect_one a b ra rb ta tb = ground arith

-- Two peers request the same two paths. Where one request is already open, the decision on the
-- other is the opposite of the decision with the roles exchanged: exactly one gives way.
detect_exclusive :
    (a b : Message) (ra rb : Request) (ma mb : Metadata)
    → a.type ≡ request_msg ra
    → b.type ≡ request_msg rb
    → ra.metadata ≡ some ma
    → rb.metadata ≡ some mb
    → ma.relative_path ≡ mb.relative_path
    → ma.new_relative_path ≡ mb.new_relative_path
    → a.peer_name ≢ b.peer_name
    → (detect_and_resolve_conflict (put a []).0 b ≡ returns true)
        × (detect_and_resolve_conflict (put b []).0 a ≡ returns false)
      ⊎ (detect_and_resolve_conflict (put a []).0 b ≡ returns false)
        × (detect_and_resolve_conflict (put b []).0 a ≡ returns true)
detect_exclusive a b ra rb ma mb ta tb ha hb same same_new ne =
    rw (detect_one a b ra rb ta tb, detect_one b a rb ra tb ta)
      (beaten_by_exclusive a.peer_name b.peer_name ra rb ma mb ha hb same same_new ne)
