-- ===== src/P2p/Host/Keeps.antt =====
-- p2p/host.go: the pairing of Paired through listening, expiring and leaving.
use replicated_file_system.Common.{
  ℕ, ◌≡◌, refl, sym, ap, subst, ◌∙◌, true, false, Option, none, some, List, ◌++◌, Text, length,
  text_eq, text_eq_iff, returns, arith, Option-cases, returns-injective, >>=-eq-returns, inl, inr,
}
use replicated_file_system.Common.Dict
use replicated_file_system.Errors.{Cause}
use replicated_file_system.Protobuf.{Message, ack}
use replicated_file_system.Protobuf.Wire.{WireResult-cases, read_message}
use replicated_file_system.P2p.Transactions.{Transaction, put, delete, is_created}
use replicated_file_system.P2p.Host.{
  Env, handler, expired, Process, Listener, ready, blocked, Host, Output,
}
use replicated_file_system.P2p.Host.Steps.{received, take_message, spawn, end_process}
use replicated_file_system.P2p.Host.Machine.{
  take_process, notify, put_and_spawn, deliver, listen_round, listen, expire, leave,
}
use replicated_file_system.P2p.Host.Counting.{
  count, present, count-replaced, count-removed, count-take_process, present-le,
}
use replicated_file_system.P2p.Host.Paired.{IsPaired, present-put, present-delete, spawn-IsPaired}

module _ {W : Type 0} (env : Env W) where
  pub put_and_spawn-new :
      (m : Message) (h : Host W)
      → Dict.lookup m.tid h.transactions ≡ none
      → put_and_spawn env m h
        ≡ spawn m.tid
            (handler ack)
            (length h.peers)
            (record h { transactions = (put m h.transactions).0 })
  unfolding put_and_spawn put is_created
  put_and_spawn-new m h e = ground arith

  pub put_and_spawn-old :
      (m : Message) (h : Host W) {t : Transaction}
      → Dict.lookup m.tid h.transactions ≡ some t
      → put_and_spawn env m h ≡ record h { transactions = (put m h.transactions).0 }
  unfolding put_and_spawn put is_created
  put_and_spawn-old m h e = ground arith

  pub put-IsPaired :
      (m : Message) (h : Host W) {t : Transaction}
      → Dict.lookup m.tid h.transactions ≡ some t
      → IsPaired h
      → IsPaired (record h { transactions = (put m h.transactions).0 })
  put-IsPaired m h e v k = ground (arith, present-put k m h.transactions, text_eq_iff m.tid k, v k)

  pub put_and_spawn-IsPaired :
      (m : Message) (h : Host W) → IsPaired h → IsPaired (put_and_spawn env m h)
  put_and_spawn-IsPaired m h v = elim (Option-cases (Dict.lookup m.tid h.transactions)) [
    | inl e ↦
        rw (put_and_spawn-new m h e)
          (spawn-IsPaired m.tid (handler ack) (length h.peers) m h refl e v)
    | inr (t, e) ↦ rw (put_and_spawn-old m h e) (put-IsPaired m h e v)
  ]

  pub notify-IsPaired :
      (m : Message) (h h' : Host W) (out : List Output)
      → IsPaired h
      → notify env m h ≡ returns (h', out)
      → IsPaired h'
  unfolding notify
  notify-IsPaired m h h' out v e = elim (Option-cases (take_process m.tid true h.processes)) [
    | inl f ↦
        subst (λ (r : Host W × List Output). IsPaired r.0)
          (returns-injective (record h { listener = blocked m.tid }, _) (h', out)
            (rw (f, notify) at e))
          v
    | inr ((p, before, after), f) ↦
        let (taken, _, q) = >>=-eq-returns (take_message env m h p.role) _ (rw (f, notify) at e) in
        subst (λ (r : Host W × List Output). IsPaired r.0) (returns-injective _ (h', out) q)
          λ k.
            count-replaced m.tid k true h.processes p
              (record p { role = taken.0; stage = received p.stage }) before after f refl
            ∙ v k
  ]

  pub expire-IsPaired :
      (tid : Text) (c : Cause) (h : Host W) → IsPaired h → IsPaired (expire env tid c h)
  unfolding expire
  expire-IsPaired tid c h v k = elim (Option-cases (take_process tid true h.processes)) [
    | inl f ↦ rw (f, expire) (v k)
    | inr ((p, before, after), f) ↦
        rw (f, expire)
          (count-replaced tid k true h.processes p (record p { stage = expired c }) before after f
              refl
            ∙ v k)
  ]

  pub end_process-processes :
      (p : Process) (h h' : Host W) (out : List Output)
      → end_process env p h ≡ returns (h', out)
      → (h'.processes ≡ h.processes) × (h'.transactions ≡ delete p.tid h.transactions)
  unfolding end_process
  end_process-processes p h h' out e = ground arith

  -- Taking a process out with its transaction.
  pub drop-IsPaired :
      (tid k : Text) (h : Host W) (p : Process) (before after : List Process)
      → take_process tid false h.processes ≡ some (p, before, after)
      → IsPaired h
      → count k (before ++ after) ≡ present (Dict.lookup k (delete p.tid h.transactions))
  drop-IsPaired tid k h p before after f v =
      let (t, _) = count-take_process tid k false h.processes f in
      let same : text_eq p.tid k ≡ text_eq tid k = ap (λ x. text_eq x k) t in
      ground (
        arith,
        count-removed tid k false h.processes p before after f,
        present-delete p.tid k h.transactions,
        present-le (Dict.lookup k h.transactions),
        v k,
      )

  pub leave-IsPaired :
      (tid : Text) (h h' : Host W) (out : List Output)
      → IsPaired h
      → leave env tid h ≡ returns (h', out)
      → IsPaired h'
  unfolding leave
  leave-IsPaired tid h h' out v e k = elim (Option-cases (take_process tid false h.processes)) [
    | inl f ↦
        subst (λ (r : Host W × List Output). IsPaired r.0)
          (returns-injective (h, _) (h', out) (rw (f, leave) at e)) v k
    | inr ((p, before, after), f) ↦
        let (ps, ts) =
          end_process-processes p (record h { processes = before ++ after }) h' out
            (rw (f, leave) at e) in
        ap (count k) ps
        ∙ drop-IsPaired tid k h p before after f v
        ∙ ap (λ us. present (Dict.lookup k us)) (sym ts)
  ]

  pub deliver-IsPaired :
      (m : Message) (h h' : Host W) (out : List Output)
      → IsPaired h
      → deliver env m h ≡ returns (h', out)
      → IsPaired h'
  unfolding deliver
  deliver-IsPaired m h h' out v e =
      notify-IsPaired m (put_and_spawn env m h) h' out (put_and_spawn-IsPaired m h v) e

  pub listen_round-IsPaired :
      (packet : Option (List ℕ)) (h h' : Host W) (out : List Output)
      → IsPaired h
      → listen_round env packet h ≡ returns (h', out)
      → IsPaired h'
  unfolding listen_round
  listen_round-IsPaired none h h' out v e =
      subst (λ (r : Host W × List Output). IsPaired r.0) (returns-injective (h, _) (h', out) e) v
  listen_round-IsPaired (some raw) h h' out v e =
      elim (WireResult-cases (read_message env.gzip env.proto raw)) [
        | inr (x, f) ↦
            subst (λ (r : Host W × List Output). IsPaired r.0)
              (returns-injective (h, _) (h', out) (rw (f, listen_round) at e)) v
        | inl (m, f) ↦ deliver-IsPaired m h h' out v (rw (f, listen_round) at e)
      ]

  pub listen-IsPaired :
      (l : Listener) (packet : Option (List ℕ)) (h h' : Host W) (out : List Output)
      → IsPaired h
      → listen env l packet h ≡ returns (h', out)
      → IsPaired h'
  unfolding listen
  listen-IsPaired ready packet h h' out v e = listen_round-IsPaired packet h h' out v e
  listen-IsPaired (blocked t) packet h h' out v e =
      subst (λ (r : Host W × List Output). IsPaired r.0) (returns-injective (h, _) (h', out) e) v
