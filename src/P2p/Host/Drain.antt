-- ===== src/P2p/Host/Drain.antt =====
-- p2p/host.go: the waits of a host end with their contexts, so Close comes to its end.
use replicated_file_system.Common.{
  ℕ, ◌≡◌, refl, ap, ◌∙◌, true, some, List, [], ◌∷◌, ◌++◌, Text, length, ◌==◌, text_eq_refl, returns,
  All, sym,
}
use replicated_file_system.Common.Dict
use replicated_file_system.Errors.{Cause, plain}
use replicated_file_system.Config.{Peer}
use replicated_file_system.P2p.Transactions.{Transactions, delete}
use replicated_file_system.P2p.Host.{
  Env, Process, Role, initiator, handler, expired, Host, Event, expires, leaves, Output, replicated,
  handled,
}
use replicated_file_system.P2p.Host.Steps.{new_host, is_waiting, return_from, end_process}
use replicated_file_system.P2p.Host.Machine.{
  fits, take_process, expire, leave, step, run, may_close,
}
use replicated_file_system.P2p.Host.Counting.{count, present}
use replicated_file_system.P2p.Host.Paired.{IsPaired}
use replicated_file_system.P2p.Host.Reach.{Reach, step-IsPaired, one_process_each}

-- The context of each process ends, and the process leaves.
abbrev pub drain : Cause → List Process → List Event
drain cause [] = []
drain cause (p ∷ ps) = expires p.tid cause ∷ leaves p.tid ∷ drain cause ps

nothing_open :
    (ts : Transactions) → ((k : Text) → 0 ≡ present (Dict.lookup k ts)) → (length ts == 0) ≡ true
unfolding Dict.lookup
nothing_open [] h = refl
nothing_open ((k, t) ∷ ts) h = absurd (cc (rw (text_eq_refl k) at (h k)))

fits_waiting : (p : Process) → is_waiting p.stage ≡ true → fits p.tid true p ≡ true
unfolding fits
fits_waiting p w = rw (text_eq_refl p.tid, w) refl

module _ {W : Type 0} (env : Env W) (cause : Cause) where
  -- The host once that process has expired, and once it has left.
  abbrev over : Process → List Process → Host W → Host W
  over p ps h = record h { processes = record p { stage = expired cause } ∷ ps }

  abbrev left : Process → List Process → Host W → Host W
  left p ps h = record h { processes = ps; transactions = delete p.tid h.transactions }

  expire_head :
      (p : Process) (ps : List Process) (h : Host W)
      → h.processes ≡ p ∷ ps
      → is_waiting p.stage ≡ true
      → expire env p.tid cause h ≡ over p ps h
  unfolding expire take_process
  expire_head p ps h e w = rw (e, fits_waiting p w, expire, take_process) refl

  end_over :
      (tid : Text) (role : Role) (ps : List Process) (h : Host W)
      → (out : List Output) × (end_process env
            (record { tid = tid; role = role; stage = expired cause })
            (record h { processes = ps })
          ≡ returns (record h { processes = ps; transactions = delete tid h.transactions }, out))
  unfolding end_process return_from
  end_over tid (initiator e) ps h = (replicated tid (some (plain cause)) ∷ [], refl)
  end_over tid (handler ours) ps h = (handled tid (some cause) ∷ [], refl)

  leave_head :
      (p : Process) (ps : List Process) (h : Host W)
      → (out : List Output) × (leave env p.tid (over p ps h) ≡ returns (left p ps h, out))
  unfolding leave take_process fits is_waiting
  leave_head p ps h =
      let (out, e) = end_over p.tid p.role ps h in
      (out, rw (text_eq_refl p.tid, leave, take_process, fits, is_waiting) e)

  -- Draining ends every process, and keeps the disk and the pairing with the map.
  drain-IsPaired :
      (ps : List Process) (h : Host W)
      → h.processes ≡ ps
      → All (λ p. is_waiting p.stage ≡ true) ps
      → IsPaired h
      → (h' : Host W) × (out : List Output) × (run env (drain cause ps) h ≡ returns (h', out))
        × (h'.processes ≡ [])
        × (h'.disk ≡ h.disk)
        × IsPaired h'
  unfolding run step
  drain-IsPaired [] h e w v = (h, [], refl, e, refl, v)
  drain-IsPaired (p ∷ ps) h e (w, ws) v =
      let (out, f) = leave_head p ps h in
      let paired =
        step-IsPaired env (leaves p.tid) (over p ps h) (left p ps h) out tt
          (step-IsPaired env (expires p.tid cause) h (over p ps h) [] tt v
            (ap (λ (g : Host W). returns (g, [])) (expire_head p ps h e w)))
          f in
      let (h', rest, r, none_left, disk, v') = drain-IsPaired ps (left p ps h) refl ws paired in
      (h', out ++ rest, rw (expire_head p ps h e w, f, r) refl, none_left, disk, v')

  -- In every host that a new one becomes by events that return, with fresh identifiers, whose
  -- processes all wait: when their contexts end, in any event with that cause, they all leave
  -- without a panic, the disk stays as it is, and Close finds no open transaction.
  pub drain-may_close :
      (host : Peer) (peers : List Peer) (disk : W) (timeout : ℕ) (h : Host W)
      → Reach env (new_host host peers disk timeout) h
      → All (λ p. is_waiting p.stage ≡ true) h.processes
      → (h' : Host W) × (out : List Output) × (run env (drain cause h.processes) h
          ≡ returns (h', out))
        × (may_close h' ≡ true)
        × (h'.disk ≡ h.disk)
  unfolding may_close
  drain-may_close host peers disk timeout h r w =
      let (h', out, e, none_left, same, v) =
        drain-IsPaired h.processes h refl w (one_process_each env host peers disk timeout h r) in
      (h', out, e, nothing_open h'.transactions (λ k. ap (count k) (sym none_left) ∙ v k), same)
