-- ===== src/P2p/Host/Blocked.antt =====
-- p2p/host.go: a message that listen hands over while nobody waits for it on NotifyChan.
use replicated_file_system.Common.{
  ℕ, ◌≡◌, refl, ◌∙◌, inl, inr, true, false, Option, none, some, List, [], ◌∷◌, ◌++◌, Text, All,
  returns, arith, Option-cases, >>=-eq-returns,
}
use replicated_file_system.Common.Dict
use replicated_file_system.Errors.{Err, plain, marshal_failed}
use replicated_file_system.Protobuf.{Request, Message}
use replicated_file_system.Protobuf.Wire.{WireResult-cases, new_request_message}
use replicated_file_system.P2p.Transactions.{Transaction, put, is_created}
use replicated_file_system.P2p.Host.{
  Env, Process, blocked, Host, Event, calls, receives, expires, leaves, Output,
}
use replicated_file_system.P2p.Host.Steps.{
  begin_replicate, begin_message, send_request, after_broadcast, end_process,
}
use replicated_file_system.P2p.Host.Machine.{take_process, fits, deliver, leave, step, run}

module _ {W : Type 0} (env : Env W) where
  after_broadcast-listener :
      (tid : Text) (sent : Option Err) (h : Host W)
      → (after_broadcast tid sent h).0.listener ≡ h.listener
  unfolding after_broadcast
  after_broadcast-listener tid none h = refl
  after_broadcast-listener tid (some e) h = ground arith

  send_request-listener :
      (message : Message) (sent : Option Err) (h : Host W)
      → (send_request env message sent h).0.listener ≡ h.listener
  unfolding send_request
  send_request-listener message sent h = elim (Option-cases (env.proto.marshal message)) [
    | inl e ↦
        rw (e, send_request) (after_broadcast-listener message.tid (some (plain marshal_failed)) h)
    | inr (raw, e) ↦ rw (e, send_request) (after_broadcast-listener message.tid sent h)
  ]

  begin_message-listener :
      (message : Message) (sent : Option Err) (h h' : Host W) (out : List Output)
      → begin_message env message sent h ≡ returns (h', out)
      → h'.listener ≡ h.listener
  unfolding begin_message
  begin_message-listener message sent h h' out e = ground (
    arith,
    send_request-listener message sent (record h { transactions = (put message h.transactions).0 }),
  )

  begin_replicate-listener :
      (tid : Text) (request : Request) (sent : Option Err) (h h' : Host W) (out : List Output)
      → begin_replicate env tid request sent h ≡ returns (h', out)
      → h'.listener ≡ h.listener
  unfolding begin_replicate
  begin_replicate-listener tid request sent h h' out e =
      elim (WireResult-cases (new_request_message env.gzip env.level tid h.name request)) [
        | inr (x, m) ↦ ground arith
        | inl (message, m) ↦
            begin_message-listener message sent h h' out (rw (m, begin_replicate) at e)
      ]

  end_process-listener :
      (p : Process) (h h' : Host W) (out : List Output)
      → end_process env p h ≡ returns (h', out)
      → h'.listener ≡ h.listener
  unfolding end_process
  end_process-listener p h h' out e = ground arith

  leave-listener :
      (tid : Text) (h h' : Host W) (out : List Output)
      → leave env tid h ≡ returns (h', out)
      → h'.listener ≡ h.listener
  unfolding leave
  leave-listener tid h h' out e = elim (Option-cases (take_process tid false h.processes)) [
    | inl f ↦ ground arith
    | inr ((p, before, after), f) ↦
        end_process-listener p (record h { processes = before ++ after }) h' out
          (rw (f, leave) at e)
  ]

  -- A host whose listen is blocked stays blocked, whatever else its goroutines do.
  step-blocked :
      (tid : Text) (e : Event) (h h' : Host W) (out : List Output)
      → h.listener ≡ blocked tid
      → step env e h ≡ returns (h', out)
      → h'.listener ≡ blocked tid
  unfolding step
  step-blocked tid (calls t request sent) h h' out b e =
      begin_replicate-listener t request sent h h' out e ∙ b
  step-blocked tid (receives packet) h h' out b e = ground arith
  step-blocked tid (expires t cause) h h' out b e = ground arith
  step-blocked tid (leaves t) h h' out b e = leave-listener t h h' out e ∙ b

  run-blocked :
      (tid : Text) (es : List Event) (h h' : Host W) (out : List Output)
      → h.listener ≡ blocked tid
      → run env es h ≡ returns (h', out)
      → h'.listener ≡ blocked tid
  unfolding run
  run-blocked tid [] h h' out b e = ground arith
  run-blocked tid (x ∷ es) h h' out b e =
      let (r, p, q) = >>=-eq-returns (step env x h) _ e in
      let (s, p', q') = >>=-eq-returns (run env es r.0) _ q in
      let last = run-blocked tid es r.0 s.0 s.1 (step-blocked tid x h r.0 r.1 b p) p' in
      ground arith

-- No process of the transaction waits on its NotifyChan.
abbrev pub NobodyWaits : Text → List Process → Type 0
NobodyWaits tid = All λ p. fits tid true p ≡ false

take_process-none :
    (tid : Text) (ps : List Process) → NobodyWaits tid ps → take_process tid true ps ≡ none
unfolding take_process
take_process-none tid [] h = refl
take_process-none tid (p ∷ ps) h = ground (arith, take_process-none tid ps h.1)

module _ {W : Type 0} (env : Env W) where
  deliver-blocks :
      (msg : Message) (h : Host W) {t : Transaction}
      → Dict.lookup msg.tid h.transactions ≡ some t
      → NobodyWaits msg.tid h.processes
      → deliver env msg h
        ≡ returns
            (record h { transactions = (put msg h.transactions).0; listener = blocked msg.tid }, [])
  unfolding deliver put is_created
  deliver-blocks msg h found nobody = ground (arith, take_process-none msg.tid h.processes nobody)

  receives-blocked :
      (tid : Text) (h : Host W) (packet : Option (List ℕ))
      → h.listener ≡ blocked tid
      → step env (receives packet) h ≡ returns (h, [])
  unfolding step
  receives-blocked tid h packet b = ground arith

  -- A message of a transaction that is still in the map while none of its processes waits for one
  -- (the loop of Replicate or of handleTransaction is over, and Delete has not run) blocks listen:
  -- after any further events that return it is still blocked, and the next message on the connection changes
  -- nothing.
  pub overrun_blocks :
      (msg : Message) (h h' : Host W) (es : List Event) (out : List Output)
      (packet : Option (List ℕ)) {t : Transaction}
      → Dict.lookup msg.tid h.transactions ≡ some t
      → NobodyWaits msg.tid h.processes
      → run env es
          (record h { transactions = (put msg h.transactions).0; listener = blocked msg.tid })
        ≡ returns (h', out)
      → (deliver env msg h
          ≡ returns (
            record h { transactions = (put msg h.transactions).0; listener = blocked msg.tid },
            [],
          ))
        × (h'.listener ≡ blocked msg.tid)
        × (step env (receives packet) h' ≡ returns (h', []))
  overrun_blocks msg h h' es out packet found nobody e =
      let stays = run-blocked env msg.tid es _ h' out refl e in
      (deliver-blocks msg h found nobody, stays, receives-blocked msg.tid h' packet stays)
