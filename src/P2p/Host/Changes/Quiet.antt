-- ===== src/P2p/Host/Changes/Quiet.antt =====
-- p2p/host.go: the disk through every event but the end of a process.
use replicated_file_system.Common.{
  ℕ, ◌≡◌, refl, subst, ◌∙◌, true, false, Option, none, some, List, Text, inl, inr, if◌then◌else◌,
  arith, returns, Option-cases, returns-injective, >>=-eq-returns,
}
use replicated_file_system.Errors.{Cause, Err, plain, multi, marshal_failed, transaction_conflict}
use replicated_file_system.Protobuf.{Request, Message}
use replicated_file_system.Protobuf.Wire.{WireResult-cases, new_request_message, read_message}
use replicated_file_system.P2p.Transactions.{put}
use replicated_file_system.P2p.Conflicts.{increment_clock, detect_and_resolve_conflict}
use replicated_file_system.P2p.Host.{Env, Listener, ready, blocked, Host, Output}
use replicated_file_system.P2p.Host.Steps.{
  spawn, return_from, after_broadcast, send_request, begin_message, begin_replicate,
}
use replicated_file_system.P2p.Host.Machine.{
  notify, put_and_spawn, deliver, listen_round, listen, expire,
}

module _ {W : Type 0} where
  after_broadcast-disk :
      (tid : Text) (sent : Option Err) (h : Host W) → (after_broadcast tid sent h).0.disk ≡ h.disk
  unfolding after_broadcast spawn return_from
  after_broadcast-disk tid none h = refl
  after_broadcast-disk tid (some (plain c)) h = refl
  after_broadcast-disk tid (some (multi errs)) h = ground arith

module _ {W : Type 0} (env : Env W) where
  send_request-disk :
      (m : Message) (sent : Option Err) (h : Host W) → (send_request env m sent h).0.disk ≡ h.disk
  unfolding send_request
  send_request-disk m sent h = elim (Option-cases (env.proto.marshal m)) [
    | inl e ↦ rw (e, send_request) (after_broadcast-disk m.tid (some (plain marshal_failed)) h)
    | inr (raw, e) ↦ rw (e, send_request) (after_broadcast-disk m.tid sent h)
  ]

  begin_message-disk :
      (m : Message) (sent : Option Err) (h h' : Host W) (out : List Output)
      → begin_message env m sent h ≡ returns (h', out)
      → h'.disk ≡ h.disk
  unfolding begin_message return_from
  begin_message-disk m sent h h' out e =
      let opened = record h { transactions = (put m h.transactions).0 } in
      let (b, _, q) = >>=-eq-returns (detect_and_resolve_conflict opened.transactions m) _ e in
      subst (λ (r : Host W × List Output). r.0.disk ≡ h.disk) (returns-injective _ _ q)
        (elim b
          as (λ c.
            (if c
              then return_from m.tid (some (plain transaction_conflict))
                  (record opened { clock = increment_clock h.clock })
              else send_request env m sent opened).0.disk
            ≡ h.disk) [ true ↦ refl | false ↦ send_request-disk m sent opened ])

  pub begin_replicate-disk :
      (tid : Text) (request : Request) (sent : Option Err) (h h' : Host W) (out : List Output)
      → begin_replicate env tid request sent h ≡ returns (h', out)
      → h'.disk ≡ h.disk
  unfolding begin_replicate
  begin_replicate-disk tid request sent h h' out e =
      elim (WireResult-cases (new_request_message env.gzip env.level tid h.name request)) [
        | inr (x, f) ↦ ground arith
        | inl (m, f) ↦ begin_message-disk m sent h h' out (rw (f, begin_replicate) at e)
      ]

  notify-disk :
      (m : Message) (h h' : Host W) (out : List Output)
      → notify env m h ≡ returns (h', out)
      → h'.disk ≡ h.disk
  unfolding notify
  notify-disk m h h' out e = ground arith

  listen_round-disk :
      (packet : Option (List ℕ)) (h h' : Host W) (out : List Output)
      → listen_round env packet h ≡ returns (h', out)
      → h'.disk ≡ h.disk
  unfolding listen_round deliver put_and_spawn spawn
  listen_round-disk none h h' out e = ground arith
  listen_round-disk (some raw) h h' out e =
      elim (WireResult-cases (read_message env.gzip env.proto raw)) [
        | inr (x, f) ↦ ground arith
        | inl (m, f) ↦
            notify-disk m (put_and_spawn env m h) h' out (rw (f, listen_round) at e) ∙ ground arith
      ]

  pub listen-disk :
      (l : Listener) (packet : Option (List ℕ)) (h h' : Host W) (out : List Output)
      → listen env l packet h ≡ returns (h', out)
      → h'.disk ≡ h.disk
  unfolding listen
  listen-disk ready packet h h' out e = listen_round-disk packet h h' out e
  listen-disk (blocked t) packet h h' out e = ground arith

  pub expire-disk : (tid : Text) (c : Cause) (h : Host W) → (expire env tid c h).disk ≡ h.disk
  unfolding expire
  expire-disk tid c h = ground arith
