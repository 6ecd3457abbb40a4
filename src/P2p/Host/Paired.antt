-- ===== src/P2p/Host/Paired.antt =====
-- p2p/host.go: how the map of transactions and the processes of the host belong together.
use replicated_file_system.Common.{
  ℕ, ◌-◌, ◌≡◌, refl, ap, subst, ◌∙◌, true, false, Option, none, some, List, [], ◌∷◌, Text, length,
  ◌==◌, text_eq, text_eq_iff, if◌then◌else◌, returns, arith, Option-cases, Bool-cases,
  returns-injective, >>=-eq-returns, inl, inr,
}
use replicated_file_system.Common.Dict
use replicated_file_system.Errors.{Err, plain, multi, marshal_failed, transaction_conflict}
use replicated_file_system.Protobuf.{Request, Message}
use replicated_file_system.Protobuf.Wire.{
  WireResult-cases, new_request_message, new_request_message_lem,
}
use replicated_file_system.P2p.Transactions.{Transactions, put, delete}
use replicated_file_system.P2p.Transactions.Laws.{lookup-put, lookup-delete}
use replicated_file_system.P2p.Conflicts.{increment_clock, detect_and_resolve_conflict}
use replicated_file_system.P2p.Host.Collect.{tid-new_message}
use replicated_file_system.P2p.Host.{Env, Role, initiator, Host, Output}
use replicated_file_system.P2p.Host.Steps.{
  wait_for, spawn, return_from, after_broadcast, send_request, begin_message, begin_replicate,
}
use replicated_file_system.P2p.Host.Counting.{count, present, count-append}

abbrev pub IsPaired : {W : Type 0} → Host W → Type 0
IsPaired h = (k : Text) → count k h.processes ≡ present (Dict.lookup k h.transactions)

pub present-put :
    (k : Text) (m : Message) (ts : Transactions)
    → present (Dict.lookup k (put m ts).0)
      ≡ (if text_eq m.tid k then 1 else present (Dict.lookup k ts))
present-put k m ts =
    rw (lookup-put k m ts) (elim (Bool-cases (text_eq m.tid k)) [ inl e ↦ rw e | inr e ↦ rw e ])

pub present-delete :
    (tid k : Text) (ts : Transactions)
    → present (Dict.lookup k (delete tid ts))
      ≡ (if text_eq tid k then 0 else present (Dict.lookup k ts))
present-delete tid k ts =
    rw (lookup-delete tid k ts) (elim (Bool-cases (text_eq tid k)) [ inl e ↦ rw e | inr e ↦ rw e ])

module _ {W : Type 0} where
  pub spawn-IsPaired :
      (tid : Text) (role : Role) (n : ℕ) (m : Message) (h : Host W)
      → m.tid ≡ tid
      → Dict.lookup tid h.transactions ≡ none
      → IsPaired h
      → IsPaired (spawn tid role n (record h { transactions = (put m h.transactions).0 }))
  unfolding spawn
  spawn-IsPaired tid role n m h e fresh v k = ground (
    arith,
    count-append k h.processes (record { tid = tid; role = role; stage = wait_for n } ∷ []),
    present-put k m h.transactions,
    text_eq_iff m.tid k,
    text_eq_iff tid k,
    v k,
    ap (λ x. present (Dict.lookup x h.transactions)) e,
  )

  pub return-IsPaired :
      (tid : Text) (result : Option Err) (m : Message) (h : Host W) (c : ℕ)
      → m.tid ≡ tid
      → Dict.lookup tid h.transactions ≡ none
      → IsPaired h
      → IsPaired
          (return_from tid result
            (record h { transactions = (put m h.transactions).0; clock = c })).0
  unfolding return_from
  return-IsPaired tid result m h c e fresh v k = ground (
    arith,
    present-delete tid k (put m h.transactions).0,
    present-put k m h.transactions,
    text_eq_iff m.tid k,
    text_eq_iff tid k,
    v k,
    ap (λ x. present (Dict.lookup x h.transactions)) e,
  )

  -- What Replicate does with its broadcast.
  pub after_broadcast-IsPaired :
      (tid : Text) (sent : Option Err) (m : Message) (h : Host W)
      → m.tid ≡ tid
      → Dict.lookup tid h.transactions ≡ none
      → IsPaired h
      → IsPaired (after_broadcast tid sent (record h { transactions = (put m h.transactions).0 })).0
  unfolding after_broadcast
  after_broadcast-IsPaired tid none m h e fresh v =
      spawn-IsPaired tid (initiator none) (length h.peers) m h e fresh v
  after_broadcast-IsPaired tid (some (plain c)) m h e fresh v =
      return-IsPaired tid (some (plain c)) m h h.clock e fresh v
  after_broadcast-IsPaired tid (some (multi errs)) m h e fresh v =
      elim (Bool-cases (length errs == length h.peers)) [
        | inl all ↦
            rw (all, after_broadcast)
              (return-IsPaired tid (some (multi errs)) m h h.clock e fresh v)
        | inr few ↦
            rw (few, after_broadcast)
              (spawn-IsPaired tid (initiator (some (multi errs))) (length h.peers - length errs) m h
                e fresh v)
      ]

module _ {W : Type 0} (env : Env W) where
  pub send_request-IsPaired :
      (sent : Option Err) (m : Message) (h : Host W)
      → Dict.lookup m.tid h.transactions ≡ none
      → IsPaired h
      → IsPaired (send_request env m sent (record h { transactions = (put m h.transactions).0 })).0
  unfolding send_request
  send_request-IsPaired sent m h fresh v = elim (Option-cases (env.proto.marshal m)) [
    | inl e ↦
        rw (e, send_request)
          (after_broadcast-IsPaired m.tid (some (plain marshal_failed)) m h refl fresh v)
    | inr (raw, e) ↦ rw (e, send_request) (after_broadcast-IsPaired m.tid sent m h refl fresh v)
  ]

  pub begin_message-IsPaired :
      (sent : Option Err) (m : Message) (h h' : Host W) (out : List Output)
      → Dict.lookup m.tid h.transactions ≡ none
      → IsPaired h
      → begin_message env m sent h ≡ returns (h', out)
      → IsPaired h'
  unfolding begin_message
  begin_message-IsPaired sent m h h' out fresh v e =
      let opened = record h { transactions = (put m h.transactions).0 } in
      let (b, _, q) = >>=-eq-returns (detect_and_resolve_conflict opened.transactions m) _ e in
      subst (λ (r : Host W × List Output). IsPaired r.0) (returns-injective _ _ q)
        (elim b
          as (λ c.
            IsPaired
              (if c
                then return_from m.tid (some (plain transaction_conflict))
                    (record opened { clock = increment_clock h.clock })
                else send_request env m sent opened).0) [
                  | true ↦
                      return-IsPaired m.tid (some (plain transaction_conflict)) m h
                        (increment_clock h.clock) refl fresh v
                  | false ↦ send_request-IsPaired sent m h fresh v
                ])

  pub begin_replicate-IsPaired :
      (tid : Text) (request : Request) (sent : Option Err) (h h' : Host W) (out : List Output)
      → Dict.lookup tid h.transactions ≡ none
      → IsPaired h
      → begin_replicate env tid request sent h ≡ returns (h', out)
      → IsPaired h'
  unfolding begin_replicate
  begin_replicate-IsPaired tid request sent h h' out fresh v e =
      elim (WireResult-cases (new_request_message env.gzip env.level tid h.name request)) [
        | inr (x, f) ↦
            subst (λ (r : Host W × List Output). IsPaired r.0)
              (returns-injective (h, _) (h', out) (rw (f, begin_replicate) at e)) v
        | inl (m, f) ↦
            let (c, g) = new_request_message_lem env.gzip env.level tid h.name request f in
            let at : m.tid ≡ tid = ap (λ (n : Message). n.tid) g ∙ tid-new_message tid h.name _ in
            begin_message-IsPaired sent m h h' out
              (ap (λ x. Dict.lookup x h.transactions) at ∙ fresh) v (rw (f, begin_replicate) at e)
      ]
