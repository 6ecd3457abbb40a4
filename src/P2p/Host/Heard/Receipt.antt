-- ===== src/P2p/Host/Heard/Receipt.antt =====
-- p2p/host.go: the count of a transaction's messages through a receipt of listen.
use replicated_file_system.Common.{
  ℕ, zero, suc, ◌+◌, ◌≤◌, ◌≡◌, refl, sym, ap, subst, ◌∙◌, true, false, Option, none, some, List, [],
  ◌∷◌, Text, length, text_eq, text_eq_iff, text_eq_refl, if◌then◌else◌, arith, returns,
  Option-cases, Bool-cases, inl, inr, returns-injective, >>=-eq-returns,
}
use replicated_file_system.Common.Dict
use replicated_file_system.Protobuf.{Message, ResponseType, ack}
use replicated_file_system.Protobuf.Wire.{ok, err, WireResult-cases, read_message}
use replicated_file_system.P2p.Transactions.{Transaction, Transactions}
use replicated_file_system.P2p.Host.{Env, handler, Listener, ready, blocked, Host, Output}
use replicated_file_system.P2p.Host.Steps.{received, wait_for, spawn, take_message}
use replicated_file_system.P2p.Host.Machine.{
  take_process, notify, put_and_spawn, deliver, listen_round, listen,
}
use replicated_file_system.P2p.Host.Counting.{
  one_if, count, present, count-take_process, present-le,
}
use replicated_file_system.P2p.Host.Paired.{IsPaired}
use replicated_file_system.P2p.Host.Keeps.{
  put_and_spawn-new, put_and_spawn-old, put_and_spawn-IsPaired,
}
use replicated_file_system.P2p.Host.Heard.{
  Tallies, AllTally-append, AllTally-absent, AllTally-take, AllTally-busy, Tallies-received,
  take_process-waits,
}
use replicated_file_system.P2p.Host.Heard.Events.{IsTallied}

-- The message that listen reads, if it listens and can read it.
abbrev pub message_read : {W : Type 0} → Env W → Listener → Option (List ℕ) → Option Message
message_read env (blocked tid) packet = none
message_read env ready none = none
message_read env ready (some raw) = elim (read_message env.gzip env.proto raw) [
  | err e ↦ none
  | ok m ↦ some m
]

-- The messages of a transaction so far: none if it is not open.
abbrev pub so_far : Option Transaction → ℕ → ℕ
so_far none k = 0
so_far (some t) k = k

abbrev pub with_message : Option Message → Transactions → (Text → ℕ) → Text → ℕ
with_message none ts heard tid = heard tid
with_message (some m) ts heard tid =
    if text_eq m.tid tid then so_far (Dict.lookup tid ts) (heard tid) + 1 else heard tid

Tallies-new : (n : ℕ) (r : ResponseType) → Tallies n 0 (handler r) (wait_for n)
unfolding wait_for
Tallies-new zero r = omega arith
Tallies-new (suc n) r = omega arith

apart : (t u tid : Text) → t ≡ u → text_eq u tid ≡ false → text_eq t tid ≡ true → ⊥
apart t u tid e f at = cc

module _ {W : Type 0} (env : Env W) where
  notify-IsTallied :
      (m : Message) (k : ℕ) (h h' : Host W) (out : List Output)
      → count m.tid h.processes ≤ 1
      → IsTallied m.tid k h
      → notify env m h ≡ returns (h', out)
      → IsTallied m.tid (k + 1) h'
  unfolding notify
  notify-IsTallied m k h h' out single v e =
      let n = length h.peers in
      elim (Option-cases (take_process m.tid true h.processes)) [
        | inl f ↦
            subst (λ (r : Host W × List Output). IsTallied m.tid (k + 1) r.0)
              (returns-injective (record h { listener = blocked m.tid }, _) (h', out)
                (rw (f, notify) at e))
              (AllTally-busy m.tid n k h.processes f v)
        | inr ((p, before, after), f) ↦
            let (taken, s, q) =
              >>=-eq-returns (take_message env m h p.role) _ (rw (f, notify) at e) in
            let (t, c) = count-take_process m.tid m.tid true h.processes f in
            let itself : text_eq p.tid m.tid ≡ true =
              ap (λ x. text_eq x m.tid) t ∙ text_eq_refl m.tid in
            let one : one_if (text_eq p.tid m.tid) ≡ 1 = ap one_if itself in
            let (x, _, _) = AllTally-take m.tid m.tid n k true h.processes (p, before, after) f v in
            subst (λ (r : Host W × List Output). IsTallied m.tid (k + 1) r.0)
              (returns-injective _ (h', out) q)
              (AllTally-append m.tid n (k + 1) before
                (record p { role = taken.0; stage = received p.stage } ∷ after)
                (AllTally-absent m.tid n (k + 1) before (omega (arith, c, one, single)))
                (
                  (λ at.
                      Tallies-received env m h n k p.role p.stage taken s
                        (take_process-waits m.tid h.processes (p, before, after) f) (x itself)),
                  AllTally-absent m.tid n (k + 1) after (omega (arith, c, one, single)),
                ))
      ]

  -- A message of another transaction.
  notify-IsTallied_other :
      (m : Message) (tid : Text) (k : ℕ) (h h' : Host W) (out : List Output)
      → text_eq m.tid tid ≡ false
      → IsTallied tid k h
      → notify env m h ≡ returns (h', out)
      → IsTallied tid k h'
  unfolding notify
  notify-IsTallied_other m tid k h h' out other v e =
      let n = length h.peers in
      elim (Option-cases (take_process m.tid true h.processes)) [
        | inl f ↦
            subst (λ (r : Host W × List Output). IsTallied tid k r.0)
              (returns-injective (record h { listener = blocked m.tid }, _) (h', out)
                (rw (f, notify) at e))
              v
        | inr ((p, before, after), f) ↦
            let (taken, s, q) =
              >>=-eq-returns (take_message env m h p.role) _ (rw (f, notify) at e) in
            let (t, c) = count-take_process m.tid m.tid true h.processes f in
            let (_, b, a) = AllTally-take m.tid tid n k true h.processes (p, before, after) f v in
            subst (λ (r : Host W × List Output). IsTallied tid k r.0)
              (returns-injective _ (h', out) q)
              (AllTally-append tid n k before
                (record p { role = taken.0; stage = received p.stage } ∷ after) b
                ((λ at. absurd (apart p.tid m.tid tid t other at)), a))
      ]

  put_and_spawn-IsTallied :
      (m : Message) (k : ℕ) (h : Host W)
      → IsPaired h
      → IsTallied m.tid k h
      → IsTallied m.tid (so_far (Dict.lookup m.tid h.transactions) k) (put_and_spawn env m h)
  unfolding spawn
  put_and_spawn-IsTallied m k h paired v = elim (Option-cases (Dict.lookup m.tid h.transactions)) [
    | inl e ↦
        rw (e, put_and_spawn-new env m h e)
          (AllTally-append m.tid (length h.peers) 0 h.processes
            (record { tid = m.tid; role = handler ack; stage = wait_for (length h.peers) } ∷ [])
            (AllTally-absent m.tid (length h.peers) 0 h.processes (paired m.tid ∙ ap present e))
            ((λ at. Tallies-new (length h.peers) ack), tt))
    | inr (t, e) ↦ rw (e, put_and_spawn-old env m h e) v
  ]

  put_and_spawn-IsTallied_other :
      (m : Message) (tid : Text) (k : ℕ) (h : Host W)
      → text_eq m.tid tid ≡ false
      → IsTallied tid k h
      → IsTallied tid k (put_and_spawn env m h)
  unfolding spawn
  put_and_spawn-IsTallied_other m tid k h other v =
      elim (Option-cases (Dict.lookup m.tid h.transactions)) [
        | inl e ↦ rw (put_and_spawn-new env m h e) (
            AllTally-append tid (length h.peers) k h.processes
              (record { tid = m.tid; role = handler ack; stage = wait_for (length h.peers) } ∷ []) v
              ((λ at. absurd (apart m.tid m.tid tid refl other at)), tt))
        | inr (t, e) ↦ rw (put_and_spawn-old env m h e) v
      ]

  deliver-IsTallied :
      (m : Message) (heard : Text → ℕ) (tid : Text) (h h' : Host W) (out : List Output)
      → IsPaired h
      → IsTallied tid (heard tid) h
      → deliver env m h ≡ returns (h', out)
      → IsTallied tid (with_message (some m) h.transactions heard tid) h'
  unfolding deliver
  deliver-IsTallied m heard tid h h' out paired v e = elim (Bool-cases (text_eq m.tid tid)) [
    | inl same ↦
        let at : m.tid ≡ tid = (text_eq_iff m.tid tid).0 same in
        rw same (
          subst (λ t. IsTallied t (so_far (Dict.lookup t h.transactions) (heard t) + 1) h') at
            (notify-IsTallied m (so_far (Dict.lookup m.tid h.transactions) (heard m.tid))
              (put_and_spawn env m h) h' out
              (subst (λ c. c ≤ 1) (sym (put_and_spawn-IsPaired env m h paired m.tid))
                (present-le (Dict.lookup m.tid (put_and_spawn env m h).transactions)))
              (put_and_spawn-IsTallied m (heard m.tid) h paired
                (subst (λ t. IsTallied t (heard t) h) (sym at) v))
              e))
    | inr other ↦ rw other (
        notify-IsTallied_other m tid (heard tid) (put_and_spawn env m h) h' out other
          (put_and_spawn-IsTallied_other m tid (heard tid) h other v) e)
  ]

  pub listen-IsTallied :
      (l : Listener) (packet : Option (List ℕ)) (heard : Text → ℕ) (tid : Text) (h h' : Host W)
      (out : List Output)
      → IsPaired h
      → IsTallied tid (heard tid) h
      → listen env l packet h ≡ returns (h', out)
      → IsTallied tid (with_message (message_read env l packet) h.transactions heard tid) h'
  unfolding listen listen_round
  listen-IsTallied (blocked t) packet heard tid h h' out paired v e =
      subst (λ (r : Host W × List Output). IsTallied tid (heard tid) r.0)
        (returns-injective (h, _) (h', out) e) v
  listen-IsTallied ready none heard tid h h' out paired v e =
      subst (λ (r : Host W × List Output). IsTallied tid (heard tid) r.0)
        (returns-injective (h, _) (h', out) e) v
  listen-IsTallied ready (some raw) heard tid h h' out paired v e =
      elim (WireResult-cases (read_message env.gzip env.proto raw)) [
        | inr (x, f) ↦
            let nothing : message_read env ready (some raw) ≡ none = rw (f, message_read) refl in
            subst (λ x. IsTallied tid (with_message x h.transactions heard tid) h') (sym nothing)
              (subst (λ (r : Host W × List Output). IsTallied tid (heard tid) r.0)
                (returns-injective (h, _) (h', out) (rw (f, listen_round) at e)) v)
        | inl (m, f) ↦
            let something : message_read env ready (some raw) ≡ some m =
              rw (f, message_read) refl in
            subst (λ x. IsTallied tid (with_message x h.transactions heard tid) h') (sym something)
              (deliver-IsTallied m heard tid h h' out paired v (rw (f, listen_round) at e))
      ]
