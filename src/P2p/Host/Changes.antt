-- ===== src/P2p/Host/Changes.antt =====
-- p2p/host.go: which event changes the disk of a host, and when.
mod Quiet
use replicated_file_system.Common.{
  ℕ, ◌≡◌, refl, ap, subst, ◌∙◌, Bool, true, false, Option, none, some, List, [], ◌∷◌, ◌++◌, Text,
  any, ◌⊎◌, inl, inr, if◌then◌else◌, deref, text_eq_iff, arith, Outcome, returns, ◌>>=◌,
  Option-cases, Bool-cases, returns-injective, >>=-eq-returns, deref-eq-returns,
}
use replicated_file_system.Errors.{Cause, Err, plain, multi, marshal_failed, transaction_conflict}
use replicated_file_system.Protobuf.{Request, Response, ResponseType, Message, is_ack, is_nack}
use replicated_file_system.Protobuf.Wire.{WireResult-cases, new_request_message, read_message}
use replicated_file_system.P2p.Transactions.{put, delete}
use replicated_file_system.P2p.Conflicts.{increment_clock, detect_and_resolve_conflict}
use replicated_file_system.P2p.Host.{
  Env, Role, initiator, handler, Stage, waits, gathered, expired, Process, Listener, ready, blocked,
  Host, Event, calls, receives, expires, leaves, Output,
}
use replicated_file_system.P2p.Host.Steps.{
  is_waiting, transaction_of, permitted, spawn, return_from, after_broadcast, send_request,
  begin_message, begin_replicate, end_replicate, end_handler, end_process,
}
use replicated_file_system.P2p.Host.Machine.{
  take_process, notify, put_and_spawn, deliver, listen_round, listen, expire, leave, step,
}
use replicated_file_system.P2p.Host.Changes.Quiet.{begin_replicate-disk, listen-disk, expire-disk}

-- The loop of the transaction's handler is over, ourResponse is an ACK, no response is a NACK, and the
-- new disk is what mirroring the transaction's request leaves.
pub record Commits {W : Type 0} (env : Env W) (tid : Text) (h h' : Host W) : Type 0 where
  pub process : Process
  pub earlier : List Process
  pub later : List Process
  pub ours : ResponseType
  pub request : Request
  pub result : Option Cause
  pub found : take_process tid false h.processes ≡ some (process, earlier, later)
  pub handles : process.role ≡ handler ours
  pub complete : process.stage ≡ gathered
  pub agreed : is_ack ours ≡ true
  pub unanimous : any is_nack (transaction_of tid h.transactions).responses ≡ false
  pub wanted : (transaction_of tid h.transactions).request ≡ some request
  pub mirrored : env.disk_api.mirror h.disk request ≡ returns (h'.disk, result)

module _ {W : Type 0} (env : Env W) where
  end_replicate-disk :
      (tid : Text) (e : Option Err) (h h' : Host W) (out : List Output)
      → end_replicate tid e h ≡ returns (h', out)
      → h'.disk ≡ h.disk
  unfolding end_replicate return_from
  end_replicate-disk tid (some e) h h' out q = ground arith
  end_replicate-disk tid none h h' out q = ground arith

  end_handler-disk :
      (tid : Text) (ours : ResponseType) (h h' : Host W) (out : List Output)
      → end_handler env tid ours h ≡ returns (h', out)
      → (h'.disk ≡ h.disk)
        ⊎ ((permitted ours (transaction_of tid h.transactions).responses ≡ true)
            × (request : Request) × (result : Option Cause) × ((transaction_of tid
                  h.transactions).request
                ≡ some request)
            × (env.disk_api.mirror h.disk request ≡ returns (h'.disk, result)))
  unfolding end_handler
  end_handler-disk tid ours h h' out e =
      elim (Bool-cases (permitted ours (transaction_of tid h.transactions).responses)) [
        | inr shut ↦ inl (ground arith)
        | inl free ↦
            let (request, f, e') =
              >>=-eq-returns (deref (transaction_of tid h.transactions).request) _
                (rw (free, end_handler) at e) in
            let (result, g, e'') = >>=-eq-returns (env.disk_api.mirror h.disk request) _ e' in
            inr (
              free,
              request,
              result.1,
              deref-eq-returns _ f,
              g
                  ∙ ap (λ (r : Host W × List Output). returns (r.0.disk, result.1))
                      (returns-injective _ (h', out) e''),
            )
      ]

  -- A process that does not wait, and is not a handler that has all its messages.
  end_process-disk :
      (t : Text) (r : Role) (s : Stage) (h h' : Host W) (out : List Output)
      → end_process env (record { tid = t; role = r; stage = s }) h ≡ returns (h', out)
      → is_waiting s ≡ false
      → (h'.disk ≡ h.disk)
        ⊎ ((ours : ResponseType) × (r ≡ handler ours)
            × (s ≡ gathered)
            × (end_handler env t ours h ≡ returns (h', out)))
  unfolding end_process is_waiting return_from
  end_process-disk t r (waits n) h h' out e w = cc
  end_process-disk t (initiator x) gathered h h' out e w = inl (end_replicate-disk t x h h' out e)
  end_process-disk t (handler x) gathered h h' out e w = inr (x, refl, refl, e)
  end_process-disk t (initiator x) (expired c) h h' out e w = inl (ground arith)
  end_process-disk t (handler x) (expired c) h h' out e w = inl (ground arith)

pub take_process-fits :
    (tid : Text) (ps : List Process) {p : Process} {before after : List Process}
    → take_process tid false ps ≡ some (p, before, after)
    → (p.tid ≡ tid) × (is_waiting p.stage ≡ false)
unfolding take_process
take_process-fits tid [] e = cc
take_process-fits tid (q ∷ ps) {p} {before} {after} e =
    elim (Option-cases (take_process tid false ps)) [
      | inl f ↦ ground (arith, text_eq_iff q.tid tid)
      | inr ((r, b, a), f) ↦ ground (arith, text_eq_iff q.tid tid, take_process-fits tid ps f)
    ]

permitted-splits :
    (ours : ResponseType) (rs : List Response)
    → permitted ours rs ≡ true
    → (is_ack ours ≡ true) × (any is_nack rs ≡ false)
unfolding permitted
permitted-splits ours rs e = ground arith

module _ {W : Type 0} (env : Env W) where
  leave-disk :
      (tid : Text) (h h' : Host W) (out : List Output)
      → leave env tid h ≡ returns (h', out)
      → (h'.disk ≡ h.disk) ⊎ Commits env tid h h'
  unfolding leave
  leave-disk tid h h' out e = elim (Option-cases (take_process tid false h.processes)) [
    | inl f ↦ inl (ground arith)
    | inr ((p, before, after), f) ↦
        let (t, w) = take_process-fits tid h.processes f in
        let h0 = record h { processes = before ++ after } in
        elim (end_process-disk env p.tid p.role p.stage h0 h' out (rw (f, leave) at e) w) [
          | inl same ↦ inl same
          | inr (ours, handles, complete, q) ↦ elim (end_handler-disk env p.tid ours h0 h' out q) [
            | inl same ↦ inl same
            | inr (free, request, result, wanted, mirrored) ↦
                let (agreed, unanimous) =
                  permitted-splits ours (transaction_of p.tid h.transactions).responses free in
                inr (record {
                  process = p;
                  earlier = before;
                  later = after;
                  ours = ours;
                  request = request;
                  result = result;
                  found = f;
                  handles = handles;
                  complete = complete;
                  agreed = agreed;
                  unanimous =
                      subst (λ x. any is_nack (transaction_of x h.transactions).responses ≡ false) t
                        unanimous;
                  wanted =
                      subst (λ x. (transaction_of x h.transactions).request ≡ some request) t
                        wanted;
                  mirrored = mirrored;
                })
          ]
        ]
  ]

  -- Whatever event a host takes, its disk stays as it is, or the event is the end of a transaction
  -- that commits: the loop of its handler is over, ourResponse is an ACK, no response is a NACK, and
  -- the disk is what mirroring the transaction's request leaves.
  pub step-Commits :
      (e : Event) (h h' : Host W) (out : List Output)
      → step env e h ≡ returns (h', out)
      → (h'.disk ≡ h.disk) ⊎ ((tid : Text) × (e ≡ leaves tid) × Commits env tid h h')
  unfolding step
  step-Commits (calls tid request sent) h h' out q =
      inl (begin_replicate-disk env tid request sent h h' out q)
  step-Commits (receives packet) h h' out q = inl (listen-disk env h.listener packet h h' out q)
  step-Commits (expires tid cause) h h' out q = inl (
      subst (λ (r : Host W × List Output). r.0.disk ≡ h.disk) (returns-injective _ (h', out) q)
        (expire-disk env tid cause h))
  step-Commits (leaves tid) h h' out q = elim (leave-disk tid h h' out q) [
    | inl same ↦ inl same
    | inr c ↦ inr (tid, refl, c)
  ]
