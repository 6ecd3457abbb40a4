-- ===== src/P2p/Host/Heard/Events.antt =====
-- p2p/host.go: the count of a transaction's messages through every event.
use replicated_file_system.Common.{
  ℕ, ◌-◌, ◌≡◌, sym, subst, true, false, Option, none, some, List, [], ◌∷◌, ◌++◌, Text, length, ◌==◌,
  if◌then◌else◌, arith, returns, Option-cases, Bool-cases, inl, inr, returns-injective,
  >>=-eq-returns,
}
use replicated_file_system.Errors.{Cause, Err, plain, multi, marshal_failed, transaction_conflict}
use replicated_file_system.Protobuf.{Request, Message}
use replicated_file_system.Protobuf.Wire.{WireResult-cases, new_request_message}
use replicated_file_system.P2p.Transactions.{put}
use replicated_file_system.P2p.Conflicts.{increment_clock, detect_and_resolve_conflict}
use replicated_file_system.P2p.Host.{Env, initiator, expired, Process, Host, Output}
use replicated_file_system.P2p.Host.Steps.{
  wait_for, spawn, return_from, after_broadcast, send_request, begin_message, begin_replicate,
  end_process, end_replicate, end_handler,
}
use replicated_file_system.P2p.Host.Machine.{take_process, expire, leave}
use replicated_file_system.P2p.Host.Heard.{
  AllTally, AllTally-append, AllTally-take, Tallies-expired,
}

-- The handler of the transaction waits for all peers' messages but k.
abbrev pub IsTallied : {W : Type 0} → Text → ℕ → Host W → Type 0
IsTallied tid k h = AllTally tid (length h.peers) k h.processes

module _ {W : Type 0} where
  spawn-IsTallied :
      (t tid : Text) (e : Option Err) (rounds k : ℕ) (h : Host W)
      → IsTallied tid k h
      → IsTallied tid k (spawn t (initiator e) rounds h)
  unfolding spawn
  spawn-IsTallied t tid e rounds k h v =
      AllTally-append tid (length h.peers) k h.processes
        (record { tid = t; role = initiator e; stage = wait_for rounds } ∷ []) v ((λ at. tt), tt)

  after_broadcast-IsTallied :
      (t tid : Text) (sent : Option Err) (k : ℕ) (h : Host W)
      → IsTallied tid k h
      → IsTallied tid k (after_broadcast t sent h).0
  unfolding after_broadcast return_from
  after_broadcast-IsTallied t tid none k h v = spawn-IsTallied t tid none (length h.peers) k h v
  after_broadcast-IsTallied t tid (some (plain c)) k h v = v
  after_broadcast-IsTallied t tid (some (multi errs)) k h v =
      elim (Bool-cases (length errs == length h.peers)) [
        | inl all ↦ rw (all, after_broadcast) v
        | inr few ↦
            rw (few, after_broadcast)
              (spawn-IsTallied t tid (some (multi errs)) (length h.peers - length errs) k h v)
      ]

module _ {W : Type 0} (env : Env W) where
  send_request-IsTallied :
      (tid : Text) (sent : Option Err) (m : Message) (k : ℕ) (h : Host W)
      → IsTallied tid k h
      → IsTallied tid k (send_request env m sent h).0
  unfolding send_request
  send_request-IsTallied tid sent m k h v = elim (Option-cases (env.proto.marshal m)) [
    | inl e ↦
        rw (e, send_request)
          (after_broadcast-IsTallied m.tid tid (some (plain marshal_failed)) k h v)
    | inr (raw, e) ↦ rw (e, send_request) (after_broadcast-IsTallied m.tid tid sent k h v)
  ]

  begin_message-IsTallied :
      (tid : Text) (sent : Option Err) (m : Message) (k : ℕ) (h h' : Host W) (out : List Output)
      → IsTallied tid k h
      → begin_message env m sent h ≡ returns (h', out)
      → IsTallied tid k h'
  unfolding begin_message return_from
  begin_message-IsTallied tid sent m k h h' out v e =
      let opened = record h { transactions = (put m h.transactions).0 } in
      let (b, _, q) = >>=-eq-returns (detect_and_resolve_conflict opened.transactions m) _ e in
      subst (λ (r : Host W × List Output). IsTallied tid k r.0) (returns-injective _ _ q)
        (elim b
          as (λ c.
            IsTallied tid k
              (if c
                then return_from m.tid (some (plain transaction_conflict))
                    (record opened { clock = increment_clock h.clock })
                else send_request env m sent opened).0) [
                  | true ↦ v
                  | false ↦ send_request-IsTallied tid sent m k opened v
                ])

  pub begin_replicate-IsTallied :
      (t tid : Text) (request : Request) (sent : Option Err) (k : ℕ) (h h' : Host W)
      (out : List Output)
      → IsTallied tid k h
      → begin_replicate env t request sent h ≡ returns (h', out)
      → IsTallied tid k h'
  unfolding begin_replicate
  begin_replicate-IsTallied t tid request sent k h h' out v e =
      elim (WireResult-cases (new_request_message env.gzip env.level t h.name request)) [
        | inr (x, f) ↦
            subst (λ (r : Host W × List Output). IsTallied tid k r.0)
              (returns-injective (h, _) (h', out) (rw (f, begin_replicate) at e)) v
        | inl (m, f) ↦
            begin_message-IsTallied tid sent m k h h' out v (rw (f, begin_replicate) at e)
      ]

  pub expire-IsTallied :
      (t tid : Text) (c : Cause) (k : ℕ) (h : Host W)
      → IsTallied tid k h
      → IsTallied tid k (expire env t c h)
  unfolding expire
  expire-IsTallied t tid c k h v = elim (Option-cases (take_process t true h.processes)) [
    | inl f ↦ rw (f, expire) v
    | inr ((p, before, after), f) ↦
        let (_, b, a) =
          AllTally-take t tid (length h.peers) k true h.processes (p, before, after) f v in
        rw (f, expire)
          (AllTally-append tid (length h.peers) k before (record p { stage = expired c } ∷ after) b
            ((λ at. Tallies-expired (length h.peers) k p.role c), a))
  ]

  end_process-keeps :
      (p : Process) (h h' : Host W) (out : List Output)
      → end_process env p h ≡ returns (h', out)
      → (h'.processes ≡ h.processes) × (h'.peers ≡ h.peers)
  unfolding end_process end_replicate end_handler return_from
  end_process-keeps p h h' out e = ground arith

  pub leave-IsTallied :
      (t tid : Text) (k : ℕ) (h h' : Host W) (out : List Output)
      → IsTallied tid k h
      → leave env t h ≡ returns (h', out)
      → IsTallied tid k h'
  unfolding leave
  leave-IsTallied t tid k h h' out v e = elim (Option-cases (take_process t false h.processes)) [
    | inl f ↦
        subst (λ (r : Host W × List Output). IsTallied tid k r.0)
          (returns-injective (h, _) (h', out) (rw (f, leave) at e)) v
    | inr ((p, before, after), f) ↦
        let (ps, qs) =
          end_process-keeps p (record h { processes = before ++ after }) h' out
            (rw (f, leave) at e) in
        let (_, b, a) =
          AllTally-take t tid (length h.peers) k false h.processes (p, before, after) f v in
        subst (λ us. AllTally tid (length us) k h'.processes) (sym qs)
          (subst (λ us. AllTally tid (length h.peers) k us) (sym ps)
            (AllTally-append tid (length h.peers) k before after b a))
  ]
