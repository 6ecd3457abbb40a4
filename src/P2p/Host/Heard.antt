-- ===== src/P2p/Host/Heard.antt =====
-- p2p/host.go: how many messages a transaction has got, and how many its handler still waits for.
pub mod Events
pub mod Receipt
pub mod Complete
mod Tests
use replicated_file_system.Common.{
  ℕ, zero, suc, ◌+◌, ◌≤◌, ◌≡◌, refl, sym, ap, subst, Bool, true, false, Option, none, some, List,
  [], ◌∷◌, ◌++◌, Text, length, text_eq, text_eq_iff, text_eq_refl, if◌then◌else◌, arith, Outcome,
  returns, ◌>>=◌, Option-cases, Bool-cases, inl, inr, returns-injective, >>=-eq-returns,
}
use replicated_file_system.Errors.{Cause}
use replicated_file_system.Protobuf.{Message, Response, ResponseType, get_request}
use replicated_file_system.Protobuf.Wire.{ok, err, read_message}
use replicated_file_system.P2p.Transactions.{Transaction, Transactions}
use replicated_file_system.P2p.Host.{
  Env, Role, initiator, handler, Stage, waits, gathered, expired, Process, Listener, ready, blocked,
  Host, Event, calls, receives, expires, leaves, Output,
}
use replicated_file_system.P2p.Host.Steps.{is_waiting, wait_for, received, take_message, answer}
use replicated_file_system.P2p.Host.Machine.{Split, take_process, behind, fits}
use replicated_file_system.P2p.Host.Counting.{one_if, count}

-- What a stage says of n messages that are to come and k that have come. It binds a handler only.
abbrev pub Tallies : ℕ → ℕ → Role → Stage → Type 0
Tallies n k (initiator e) s = Unit {0}
Tallies n k (handler r) (waits m) = m + k ≡ n
Tallies n k (handler r) gathered = n ≤ k
Tallies n k (handler r) (expired c) = Unit {0}

-- The processes of one transaction.
abbrev pub AllTally : Text → ℕ → ℕ → List Process → Type 0
AllTally tid n k [] = Unit {0}
AllTally tid n k (p ∷ ps) =
    (text_eq p.tid tid ≡ true → Tallies n k p.role p.stage) × AllTally tid n k ps

pub AllTally-append :
    (tid : Text) (n k : ℕ) (ps qs : List Process)
    → AllTally tid n k ps
    → AllTally tid n k qs
    → AllTally tid n k (ps ++ qs)
AllTally-append tid n k [] qs a b = b
AllTally-append tid n k (p ∷ ps) qs a b = (a.0, AllTally-append tid n k ps qs a.1 b)

pub AllTally-absent :
    (tid : Text) (n k : ℕ) (ps : List Process) → count tid ps ≡ 0 → AllTally tid n k ps
AllTally-absent tid n k [] e = tt
AllTally-absent tid n k (p ∷ ps) e =
    (λ at. absurd (apart at), AllTally-absent tid n k ps (omega (arith, e)))
  where
    apart : text_eq p.tid tid ≡ true → ⊥
    apart at = ground (arith, at, e)

split_eq : (a b : Split) → some a ≡ some b → a ≡ b
split_eq a b e = cc

-- The process that is taken, and the others.
abbrev pub SplitTallies : Text → ℕ → ℕ → Split → Type 0
SplitTallies tid n k s =
    (text_eq s.0.tid tid ≡ true → Tallies n k s.0.role s.0.stage)
    × AllTally tid n k s.1
    × AllTally tid n k s.2

pub AllTally-take :
    (t tid : Text) (n k : ℕ) (waiting : Bool) (ps : List Process) (s : Split)
    → take_process t waiting ps ≡ some s
    → AllTally tid n k ps
    → SplitTallies tid n k s
unfolding take_process behind
AllTally-take t tid n k waiting [] s e a = absurd (cc e)
AllTally-take t tid n k waiting (q ∷ ps) s e a = elim (Bool-cases (fits t waiting q)) [
  | inl f ↦ subst (SplitTallies tid n k) (split_eq _ s (rw (f, take_process) at e)) (a.0, tt, a.1)
  | inr f ↦ elim (Option-cases (take_process t waiting ps)) [
    | inl g ↦ absurd (cc (rw (f, g, take_process, behind) at e))
    | inr ((p, before, after), g) ↦
        let (x, y, z) = AllTally-take t tid n k waiting ps (p, before, after) g a.1 in
        subst (SplitTallies tid n k) (split_eq _ s (rw (f, g, take_process, behind) at e))
          (x, (a.0, y), z)
  ]
]

Tallies-wait_for :
    (n k m : ℕ) (r : ResponseType) → suc m + k ≡ n → Tallies n (k + 1) (handler r) (wait_for m)
unfolding wait_for
Tallies-wait_for n k zero r e = omega (arith, e)
Tallies-wait_for n k (suc m) r e = omega (arith, e)

Tallies-received_round :
    (n k m : ℕ) (r : ResponseType) → m + k ≡ n → Tallies n (k + 1) (handler r) (received (waits m))
unfolding received
Tallies-received_round n k zero r e = omega (arith, e)
Tallies-received_round n k (suc m) r e = Tallies-wait_for n k m r e

-- A handler stays one.
take_message-handler :
    {W : Type 0} (env : Env W) (m : Message) (h : Host W) (r : ResponseType)
    (taken : Role × List Output)
    → take_message env m h (handler r) ≡ returns taken
    → (r' : ResponseType) × (taken.0 ≡ handler r')
unfolding take_message
take_message-handler env m h r taken e = elim (Option-cases (get_request m)) [
  | inl f ↦ (
    r,
    ap (λ (x : Role × List Output). x.0)
        (sym (returns-injective (handler r, []) taken (rw (f, take_message) at e))),
  )
  | inr (request, f) ↦
      let (response, _, q) =
        >>=-eq-returns (answer env m request h) _ (rw (f, take_message) at e) in
      (response.type, ap (λ (x : Role × List Output). x.0) (sym (returns-injective _ taken q)))
]

-- A process that takes a message.
pub Tallies-received :
    {W : Type 0} (env : Env W) (m : Message) (h : Host W) (n k : ℕ) (r : Role) (s : Stage)
    (taken : Role × List Output)
    → take_message env m h r ≡ returns taken
    → is_waiting s ≡ true
    → Tallies n k r s
    → Tallies n (k + 1) taken.0 (received s)
unfolding take_message is_waiting
Tallies-received env m h n k (initiator x) s taken e w a =
    subst (λ (y : Role × List Output). Tallies n (k + 1) y.0 (received s))
      (returns-injective (initiator x, []) taken e) tt
Tallies-received env m h n k (handler x) gathered taken e w a = absurd (cc w)
Tallies-received env m h n k (handler x) (expired c) taken e w a = absurd (cc w)
Tallies-received env m h n k (handler x) (waits j) taken e w a =
    let (r', same) = take_message-handler env m h x taken e in
    subst (λ y. Tallies n (k + 1) y (received (waits j))) (sym same)
      (Tallies-received_round n k j r' a)

Tallies-idle :
    (n k : ℕ) (r : Role) (s : Stage)
    → is_waiting s ≡ false
    → Tallies n k r s
    → Tallies n (k + 1) r s
unfolding is_waiting
Tallies-idle n k (initiator x) s w a = tt
Tallies-idle n k (handler x) (waits m) w a = absurd (cc w)
Tallies-idle n k (handler x) gathered w a = omega (arith, a)
Tallies-idle n k (handler x) (expired c) w a = tt

idle_unfit :
    (tid : Text) (p : Process)
    → text_eq p.tid tid ≡ true
    → fits tid true p ≡ false
    → is_waiting p.stage ≡ false
unfolding fits
idle_unfit tid p at f = ground (arith, at, f)

pub Tallies-expired : (n k : ℕ) (r : Role) (c : Cause) → Tallies n k r (expired c)
Tallies-expired n k (initiator e) c = tt
Tallies-expired n k (handler r) c = tt

fits-waits : (t : Text) (p : Process) → fits t true p ≡ true → is_waiting p.stage ≡ true
unfolding fits
fits-waits t p f = ground (arith, f)

pub take_process-waits :
    (t : Text) (ps : List Process) (s : Split)
    → take_process t true ps ≡ some s
    → is_waiting s.0.stage ≡ true
unfolding take_process behind fits
take_process-waits t [] s e = absurd (cc e)
take_process-waits t (q ∷ ps) s e = elim (Bool-cases (fits t true q)) [
  | inl f ↦
      subst (λ (x : Split). is_waiting x.0.stage ≡ true) (split_eq _ s (rw (f, take_process) at e))
        (fits-waits t q f)
  | inr f ↦ elim (Option-cases (take_process t true ps)) [
    | inl g ↦ absurd (cc (rw (f, g, take_process, behind) at e))
    | inr ((p, before, after), g) ↦
        subst (λ (x : Split). is_waiting x.0.stage ≡ true)
          (split_eq _ s (rw (f, g, take_process, behind) at e))
          (take_process-waits t ps (p, before, after) g)
  ]
]

-- A transaction of which nobody waits.
pub AllTally-busy :
    (tid : Text) (n k : ℕ) (ps : List Process)
    → take_process tid true ps ≡ none
    → AllTally tid n k ps
    → AllTally tid n (k + 1) ps
unfolding take_process
AllTally-busy tid n k [] e a = tt
AllTally-busy tid n k (p ∷ ps) e a = elim (Bool-cases (fits tid true p)) [
  | inl f ↦ absurd (cc (rw (f, take_process) at e))
  | inr f ↦ elim (Option-cases (take_process tid true ps)) [
    | inr (s, g) ↦ absurd (cc (rw (f, g, take_process, behind) at e))
    | inl g ↦ (
      λ at. Tallies-idle n k p.role p.stage (idle_unfit tid p at f) (a.0 at),
      AllTally-busy tid n k ps g a.1,
    )
  ]
]
