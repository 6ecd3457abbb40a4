-- ===== src/P2p/Host/Collect.antt =====
-- How a handler gathers its messages: the request and the other peers' responses, in the order in
-- which they come.
use mathlib.Core.List.{append_assoc}
use replicated_file_system.Common.{
  ℕ, suc, ◌+◌, ◌≡◌, refl, sym, subst, ap, ◌∙◌, Bool, true, false, none, some, List, [], ◌∷◌, ◌++◌,
  map, Text, length, text_eq, text_eq_iff, returns, ◌>>=◌, arith, All, inl, inr, Outcome-cases,
}
use replicated_file_system.Common.Dict
use replicated_file_system.Protobuf.{
  Request, Response, ResponseType, Message, MessageType, ack, new_message, request_msg,
  response_msg, get_request, new_response_message,
}
use replicated_file_system.P2p.Transactions.{
  Transaction, Transactions, put, is_created, record_message, found_or_new,
}
use replicated_file_system.P2p.Transactions.Laws.{lookup-put}
use replicated_file_system.P2p.Host.{
  Env, Role, initiator, handler, Process, Host, Output, broadcasts,
}
use replicated_file_system.P2p.Host.Steps.{wait_for, received, is_waiting, take_message, answer}
use replicated_file_system.P2p.Host.Machine.{
  take_process, notify, put_and_spawn, deliver, deliver_all,
}

-- No process belongs to the transaction.
abbrev pub NoProcess : Text → List Process → Type 0
NoProcess tid = All λ p. text_eq p.tid tid ≡ false

pub take-append_last :
    (tid : Text) (waiting : Bool) (ps : List Process) (p : Process)
    → NoProcess tid ps
    → p.tid ≡ tid
    → is_waiting p.stage ≡ waiting
    → take_process tid waiting (ps ++ (p ∷ [])) ≡ some (p, ps, [])
unfolding take_process
take-append_last tid waiting [] p h e w = ground (arith, text_eq_iff p.tid tid)
take-append_last tid waiting (q ∷ ps) p h e w =
    ground (arith, take-append_last tid waiting ps p h.1 e w)

-- The map after several Puts.
abbrev pub put_all : List Message → Transactions → Transactions
put_all [] ts = ts
put_all (m ∷ ms) ts = put_all ms (put m ts).0

abbrev pub response_messages : Text → List (Text × Response) → List Message
response_messages tid = map λ (x : Text × Response). new_message tid x.0 (response_msg x.1)

pub lookup-put_self :
    (tid : Text) (m : Message) (ts : Transactions)
    → m.tid ≡ tid
    → (t : Transaction) × (Dict.lookup tid (put m ts).0 ≡ some t)
lookup-put_self tid m ts e = (
  record_message m.type m.peer_name (found_or_new m.tid (Dict.lookup m.tid ts)),
  lookup-put tid m ts ∙ rw ((text_eq_iff m.tid tid).1 e),
)

pub tid-new_message : (tid name : Text) (type : MessageType) → (new_message tid name type).tid ≡ tid
unfolding new_message
tid-new_message tid name type = refl

-- The host with one more process at the end, the one of the transaction.
abbrev pub gathering : {W : Type 0} → Host W → Text → Transactions → Role → ℕ → Host W
gathering h tid ts role n = record h {
  transactions = ts;
  processes = h.processes ++ (record { tid = tid; role = role; stage = wait_for n } ∷ []);
}

module _ {W : Type 0} (env : Env W) (h : Host W) (tid : Text)
    (alone : NoProcess tid h.processes) where
  pub put_and_spawn-fresh :
      (m : Message)
      → m.tid ≡ tid
      → Dict.lookup tid h.transactions ≡ none
      → put_and_spawn env m h
        ≡ gathering h tid (put m h.transactions).0 (handler ack) (length h.peers)
  unfolding put_and_spawn put is_created
  put_and_spawn-fresh m e f = ground (arith, ap (λ x. Dict.lookup x h.transactions) e)

  put_and_spawn-open :
      (m : Message) (ts : Transactions) (role : Role) (n : ℕ) {t : Transaction}
      → m.tid ≡ tid
      → Dict.lookup tid ts ≡ some t
      → put_and_spawn env m (gathering h tid ts role n) ≡ gathering h tid (put m ts).0 role n
  unfolding put_and_spawn put is_created
  put_and_spawn-open m ts role n e f = ground (arith, ap (λ x. Dict.lookup x ts) e)

  notify-gathering :
      (m : Message) (ts : Transactions) (role role' : Role) (n : ℕ) (out : List Output)
      → m.tid ≡ tid
      → take_message env m (gathering h tid ts role (suc n)) role ≡ returns (role', out)
      → notify env m (gathering h tid ts role (suc n)) ≡ returns (gathering h tid ts role' n, out)
  unfolding notify is_waiting received wait_for
  notify-gathering m ts role role' n out e t = ground (
    arith,
    take-append_last m.tid true h.processes
        (record { tid = tid; role = role; stage = wait_for (suc n) })
        (subst (λ x. NoProcess x h.processes) (sym e) alone) (sym e) refl,
    t,
  )

  pub deliver-fresh :
      (m : Message) (role : Role) (n : ℕ) (out : List Output)
      → m.tid ≡ tid
      → Dict.lookup tid h.transactions ≡ none
      → length h.peers ≡ suc n
      → take_message env m
          (gathering h tid (put m h.transactions).0 (handler ack) (suc n))
          (handler ack)
        ≡ returns (role, out)
      → deliver env m h ≡ returns (gathering h tid (put m h.transactions).0 role n, out)
  unfolding deliver
  deliver-fresh m role n out e f k t =
      rw (put_and_spawn-fresh m e f, k) (notify-gathering m _ (handler ack) role n out e t)

  pub deliver-open :
      (m : Message) (ts : Transactions) (role role' : Role) (n : ℕ) (out : List Output)
      {t : Transaction}
      → m.tid ≡ tid
      → Dict.lookup tid ts ≡ some t
      → take_message env m (gathering h tid (put m ts).0 role (suc n)) role ≡ returns (role', out)
      → deliver env m (gathering h tid ts role (suc n))
        ≡ returns (gathering h tid (put m ts).0 role' n, out)
  unfolding deliver
  deliver-open m ts role role' n out e f t =
      rw (put_and_spawn-open m ts role (suc n) e f) (notify-gathering m _ role role' n out e t)

  pub take-response :
      (name : Text) (r : Response) (k : Host W) (role : Role)
      → take_message env (new_message tid name (response_msg r)) k role ≡ returns (role, [])
  unfolding take_message new_message get_request
  take-response name r k (initiator e) = refl
  take-response name r k (handler ours) = ground arith

  pub take-request :
      (name : Text) (request : Request) (k : Host W) (ours : ResponseType) {response : Response}
      → answer env (new_message tid name (request_msg request)) request k ≡ returns response
      → take_message env (new_message tid name (request_msg request)) k (handler ours)
        ≡ returns
            (handler response.type, broadcasts (new_response_message tid k.name response) ∷ [])
  unfolding take_message new_message get_request
  take-request name request k ours a = rw a

  -- Responses alone leave the role of the process as it is.
  pub deliver-responses :
      (rs : List (Text × Response)) (ts : Transactions) (role : Role) (n k : ℕ) {t : Transaction}
      → Dict.lookup tid ts ≡ some t
      → k ≡ length rs + n
      → deliver_all env (response_messages tid rs) (gathering h tid ts role k)
        ≡ returns (gathering h tid (put_all (response_messages tid rs) ts) role n, [])
  unfolding deliver_all
  deliver-responses [] ts role n k f e = ground (arith)
  deliver-responses ((name, r) ∷ rs) ts role n k f e =
      let m = new_message tid name (response_msg r) in
      let at = tid-new_message tid name (response_msg r) in
      let (_, found) = lookup-put_self tid m ts at in
      let e' : k ≡ suc (length rs + n) = omega (arith, e) in
      rw e' (
        rw (deliver-open m ts role role (length rs + n) [] at f (take-response name r _ role))
          (rw (deliver-responses rs (put m ts).0 role n (length rs + n) found refl)))

module _ {W : Type 0} (env : Env W) where
  pub deliver_all-append :
      (ms ns : List Message) (h : Host W)
      → deliver_all env (ms ++ ns) h ≡ (
          deliver_all env ms h >>= λ (h', out).
          deliver_all env ns h' >>= λ (h'', rest). returns (h'', out ++ rest))
  unfolding deliver_all
  deliver_all-append [] ns h = elim (Outcome-cases (deliver_all env ns h)) [
    | inl e ↦ rw e
    | inr (_, e) ↦ rw e
  ]
  deliver_all-append (m ∷ ms) ns h = elim (Outcome-cases (deliver env m h)) [
    | inl e ↦ rw e
    | inr (r, e) ↦ rw e (
        rw (deliver_all-append ms ns r.0) (elim (Outcome-cases (deliver_all env ms r.0)) [
          | inl e' ↦ rw e'
          | inr (s, e') ↦ rw e' (elim (Outcome-cases (deliver_all env ns s.0)) [
            | inl f ↦ rw f
            | inr (_, f) ↦ rw f (simp append_assoc)
          ])
        ]))
  ]
