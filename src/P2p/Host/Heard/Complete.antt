-- ===== src/P2p/Host/Heard/Complete.antt =====
-- p2p/host.go: the disk of a host that has run from its start.
use replicated_file_system.Common.{
  ℕ, ◌≤◌, ◌≡◌, ap, subst, ◌∙◌, false, List, [], Text, length, text_eq, text_eq_refl, ◌⊎◌, inl, inr,
  returns, returns-injective,
}
use replicated_file_system.Config.{Peer}
use replicated_file_system.P2p.Host.{
  Env, handler, Host, Event, calls, receives, expires, leaves, Output,
}
use replicated_file_system.P2p.Host.Steps.{new_host}
use replicated_file_system.P2p.Host.Machine.{expire, step}
use replicated_file_system.P2p.Host.Paired.{IsPaired}
use replicated_file_system.P2p.Host.Reach.{IsFresh, step-IsPaired, new_host-IsPaired}
use replicated_file_system.P2p.Host.Changes.{Commits, take_process-fits, step-Commits}
use replicated_file_system.P2p.Host.Heard.{Tallies, AllTally-take}
use replicated_file_system.P2p.Host.Heard.Events.{
  IsTallied, begin_replicate-IsTallied, expire-IsTallied, leave-IsTallied,
}
use replicated_file_system.P2p.Host.Heard.Receipt.{message_read, with_message, listen-IsTallied}

module _ {W : Type 0} (env : Env W) where
  -- How many messages each transaction has got since it was opened.
  abbrev pub heard_after : Event → Host W → (Text → ℕ) → Text → ℕ
  heard_after (receives packet) h heard =
      with_message (message_read env h.listener packet) h.transactions heard
  heard_after _ h heard = heard

  -- The hosts that a new one can become, with these numbers.
  pub data Hears (start : Host W) : (Text → ℕ) → Host W → Type 0 where
    here : Hears start (λ tid. 0) start
    next :
        {heard : Text → ℕ} {h h' : Host W} (e : Event) (out : List Output)
        → Hears start heard h
        → IsFresh env e h
        → step env e h ≡ returns (h', out)
        → Hears start (heard_after e h heard) h'

  step-IsTallied :
      (e : Event) (heard : Text → ℕ) (h h' : Host W) (out : List Output)
      → IsPaired h
      → ((tid : Text) → IsTallied tid (heard tid) h)
      → step env e h ≡ returns (h', out)
      → (tid : Text) → IsTallied tid (heard_after e h heard tid) h'
  unfolding step
  step-IsTallied (calls t request sent) heard h h' out paired v e tid =
      begin_replicate-IsTallied env t tid request sent (heard tid) h h' out (v tid) e
  step-IsTallied (receives packet) heard h h' out paired v e tid =
      listen-IsTallied env h.listener packet heard tid h h' out paired (v tid) e
  step-IsTallied (expires t c) heard h h' out paired v e tid =
      subst (λ (r : Host W × List Output). IsTallied tid (heard tid) r.0)
        (returns-injective (expire env t c h, []) (h', out) e)
        (expire-IsTallied env t tid c (heard tid) h (v tid))
  step-IsTallied (leaves t) heard h h' out paired v e tid =
      leave-IsTallied env t tid (heard tid) h h' out (v tid) e

  Hears-IsTallied :
      (host : Peer) (peers : List Peer) (disk : W) (timeout : ℕ) {heard : Text → ℕ} {h : Host W}
      → Hears (new_host host peers disk timeout) heard h
      → IsPaired h × ((tid : Text) → IsTallied tid (heard tid) h)
  unfolding new_host
  Hears-IsTallied host peers disk timeout here =
      (new_host-IsPaired env host peers disk timeout, λ tid. tt)
  Hears-IsTallied host peers disk timeout (next {heard} {h} {h'} e out r fresh f) =
      let (paired, v) = Hears-IsTallied host peers disk timeout r in
      (step-IsPaired env e h h' out fresh paired f, step-IsTallied e heard h h' out paired v f)

  Commits-heard :
      (tid : Text) (k : ℕ) (h h' : Host W)
      → IsTallied tid k h
      → Commits env tid h h'
      → length h.peers ≤ k
  Commits-heard tid k h h' v c =
      let p = c.process in
      let (at, _) = take_process-fits tid h.processes c.found in
      let (x, _, _) =
        AllTally-take tid tid (length h.peers) k false h.processes (p, c.earlier, c.later) c.found
          v in
      let gone : Tallies (length h.peers) k p.role p.stage =
        x (ap (λ t. text_eq t tid) at ∙ text_eq_refl tid) in
      subst (λ s. Tallies (length h.peers) k (handler c.ours) s) c.complete
        (subst (λ r. Tallies (length h.peers) k r p.stage) c.handles gone)

  -- In a host that has become of a new one by events that return, where Replicate draws identifiers
  -- that are not in use, whatever event comes next: the disk stays as it is, or the event is the end
  -- of a transaction that commits. That transaction has got at least as many messages as the host has
  -- peers since it was opened, and the loop of its handler is over; ourResponse, which starts as an
  -- ACK, is an ACK; none of the transaction's responses is a NACK; and the disk is what mirroring the
  -- transaction's request leaves.
  pub Hears-Commits :
      (host : Peer) (peers : List Peer) (disk : W) (timeout : ℕ) (heard : Text → ℕ) (e : Event)
      (h h' : Host W) (out : List Output)
      → Hears (new_host host peers disk timeout) heard h
      → step env e h ≡ returns (h', out)
      → (h'.disk ≡ h.disk)
        ⊎ ((tid : Text) × (e ≡ leaves tid) × Commits env tid h h' × (length h.peers ≤ heard tid))
  Hears-Commits host peers disk timeout heard e h h' out r f =
      elim (step-Commits env e h h' out f) [
        | inl same ↦ inl same
        | inr (tid, ends, c) ↦ inr (
          tid,
          ends,
          c,
          Commits-heard tid (heard tid) h h' ((Hears-IsTallied host peers disk timeout r).1 tid) c,
        )
      ]
