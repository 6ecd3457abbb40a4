-- ===== src/P2p/Host/Reach.antt =====
-- p2p/host.go: the hosts that a new one becomes.
use replicated_file_system.Common.{
  ℕ, ◌+◌, ◌≡◌, refl, ap, subst, ◌∙◌, true, none, List, [], ◌∷◌, Text, length, ◌==◌, text_eq,
  text_eq_refl, returns, arith, returns-injective,
}
use replicated_file_system.Common.Dict
use replicated_file_system.Config.{Peer}
use replicated_file_system.P2p.Transactions.{Transactions}
use replicated_file_system.P2p.Host.{
  Env, Process, Host, Event, calls, receives, expires, leaves, Output,
}
use replicated_file_system.P2p.Host.Steps.{new_host}
use replicated_file_system.P2p.Host.Machine.{expire, step, may_close}
use replicated_file_system.P2p.Host.Counting.{one_if, count, present}
use replicated_file_system.P2p.Host.Paired.{IsPaired, begin_replicate-IsPaired}
use replicated_file_system.P2p.Host.Keeps.{listen-IsPaired, expire-IsPaired, leave-IsPaired}

nobody_left : (ps : List Process) → ((k : Text) → count k ps ≡ 0) → ps ≡ []
nobody_left [] v = refl
nobody_left (p ∷ ps) v = absurd (nonzero (v p.tid))
  where
    nonzero : one_if (text_eq p.tid p.tid) + count p.tid ps ≡ 0 → ⊥
    nonzero e = ground (arith, text_eq_refl p.tid)

no_transactions : (ts : Transactions) → (length ts == 0) ≡ true → ts ≡ []
no_transactions [] e = refl
no_transactions (t ∷ ts) e = ground arith

module _ {W : Type 0} (env : Env W) where
  -- A transaction identifier that Replicate draws is not in use (they are random UUIDs).
  abbrev pub IsFresh : Event → Host W → Type 0
  IsFresh (calls tid request sent) h = Dict.lookup tid h.transactions ≡ none
  IsFresh _ h = Unit {0}

  -- Every event keeps the pairing of processes and transactions.
  pub step-IsPaired :
      (e : Event) (h h' : Host W) (out : List Output)
      → IsFresh e h
      → IsPaired h
      → step env e h ≡ returns (h', out)
      → IsPaired h'
  unfolding step
  step-IsPaired (calls tid request sent) h h' out fresh v e =
      begin_replicate-IsPaired env tid request sent h h' out fresh v e
  step-IsPaired (receives packet) h h' out fresh v e =
      listen-IsPaired env h.listener packet h h' out v e
  step-IsPaired (expires tid c) h h' out fresh v e =
      subst (λ (r : Host W × List Output). IsPaired r.0)
        (returns-injective (expire env tid c h, []) (h', out) e) (expire-IsPaired env tid c h v)
  step-IsPaired (leaves tid) h h' out fresh v e = leave-IsPaired env tid h h' out v e

  -- The hosts that a new one can become.
  pub data Reach (start : Host W) : Host W → Type 0 where
    here : Reach start start
    next :
        {h h' : Host W} (e : Event) (out : List Output)
        → Reach start h
        → IsFresh e h
        → step env e h ≡ returns (h', out)
        → Reach start h'

  Reach-IsPaired : {start h : Host W} → IsPaired start → Reach start h → IsPaired h
  Reach-IsPaired v here = v
  Reach-IsPaired v (next {h} {h'} e out r fresh f) =
      step-IsPaired e h h' out fresh (Reach-IsPaired v r) f

  pub new_host-IsPaired :
      (host : Peer) (peers : List Peer) (disk : W) (timeout : ℕ)
      → IsPaired (new_host host peers disk timeout)
  unfolding new_host Dict.lookup
  new_host-IsPaired host peers disk timeout k = refl

  -- In every host that a new one becomes by events that return, where Replicate draws identifiers
  -- that are not in use, a transaction is in the map exactly while
  -- one process works on it, and never two.
  pub one_process_each :
      (host : Peer) (peers : List Peer) (disk : W) (timeout : ℕ) (h : Host W)
      → Reach (new_host host peers disk timeout) h
      → (k : Text) → count k h.processes ≡ present (Dict.lookup k h.transactions)
  one_process_each host peers disk timeout h r =
      Reach-IsPaired (new_host-IsPaired host peers disk timeout) r

  -- When Close finds no open transaction in such a host, no call of Replicate and no handler is still at work.
  pub close_waits_for_all :
      (host : Peer) (peers : List Peer) (disk : W) (timeout : ℕ) (h : Host W)
      → Reach (new_host host peers disk timeout) h
      → may_close h ≡ true
      → h.processes ≡ []
  unfolding may_close Dict.lookup
  close_waits_for_all host peers disk timeout h r e = nobody_left h.processes λ k.
      one_process_each host peers disk timeout h r k
      ∙ ap (λ ts. present (Dict.lookup k ts)) (no_transactions h.transactions e)
