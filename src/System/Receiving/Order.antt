-- ===== src/System/Receiving/Order.antt =====
-- connection/pool.go and p2p/host.go: the host behind the channel of received messages.
use mathlib.Core.List.{append-nil}
use replicated_file_system.Common.{
  ℕ, ◌≡◌, refl, ap, subst, ◌∙◌, Bool-cases, inl, inr, Option, none, some, List, [], ◌∷◌, ◌++◌, Text,
  length, length-append, ltb, ltb→lt, arith, returns, ◌>>=◌, >>=-eq-returns, returns-injective,
}
use replicated_file_system.Common.Dict
use replicated_file_system.Connection.Link.{Incoming, Taken}
use replicated_file_system.Connection.Pool.{Pool}
use replicated_file_system.Connection.Listening.{Heard, waits, sinks, listen_conn_round}
use replicated_file_system.P2p.Host.{
  Env, Listener, ready, blocked, Host, Event, calls, receives, expires, leaves, Output,
}
use replicated_file_system.P2p.Host.Machine.{listen, listen_round, step, run}
use replicated_file_system.System.Receiving.{
  Passed, Receiver, Activity, hears, puts, takes, works, data_of, hold, hear, put_held,
  receive_next, host_act, act, act_all,
}
use replicated_file_system.System.Receiving.Schedule.{
  packets, Passes, Passes-trans, Scheduled-idle, Passes-refl,
}
use replicated_file_system.System.Receiving.Flow.{IsKept-refl, hold-IsKept, put-IsKept}

module _ {W : Type 0} (env : Env W) where
  hold-Passes :
      (name : Text) (p : Pool) (heard : Heard) (r : Receiver W)
      → Dict.lookup name r.held ≡ none
      → Passes env r (hold name p heard r).0 [] (hold name p heard r).1 []
  unfolding hold
  hold-Passes name p waits r free = (
    Scheduled-idle env r (record r { pool = p }) [] refl (append-nil r.msgs) refl (λ small. small),
    IsKept-refl r.held,
  )
  hold-Passes name p (sinks t) r free = (
    Scheduled-idle env r (record r { pool = p; held = (name, t) ∷ r.held }) [] refl
        (append-nil r.msgs) refl (λ small. small),
    hold-IsKept name t r.held free,
  )

  hear-Passes :
      (name : Text) (incoming : Incoming) (waiting : Option Taken) (r r' : Receiver W)
      (heard : List Passed)
      → Dict.lookup name r.held ≡ waiting
      → hear env name incoming waiting r ≡ returns (r', heard)
      → Passes env r r' [] heard []
  unfolding hear
  hear-Passes name incoming (some t) r r' heard holds e =
      subst (λ (x : Receiver W × List Passed). Passes env r x.0 [] x.1 [])
        (returns-injective (r, []) (r', heard) e) (Passes-refl env r)
  hear-Passes name incoming none r r' heard free e =
      let ((p, h), _, q) = >>=-eq-returns (listen_conn_round name incoming r.pool) _ e in
      subst (λ (x : Receiver W × List Passed). Passes env r x.0 [] x.1 [])
        (returns-injective _ (r', heard) q) (hold-Passes name p h r free)

  put_held-Passes :
      (name : Text) (waiting : Option Taken) (r : Receiver W)
      → Dict.lookup name r.held ≡ waiting
      → Passes env r (put_held name waiting r).0 [] [] (put_held name waiting r).1
  unfolding put_held
  put_held-Passes name none r free = Passes-refl env r
  put_held-Passes name (some t) r holds =
      elim (Bool-cases (ltb (length r.msgs) r.message_buffer_size)) [
        | inl room ↦ rw room (
          Scheduled-idle env r
              (record r { held = Dict.delete name r.held; msgs = r.msgs ++ (t ∷ []) }) (t ∷ []) refl
              refl refl
              (λ small.
                omega (arith, length-append r.msgs (t ∷ []), ltb→lt _ r.message_buffer_size room)),
          put-IsKept name t r.held holds,
        )
        | inr full ↦ rw full (Passes-refl env r)
      ]

  run-one :
      (e : Event) (h h' : Host W) (out : List Output)
      → step env e h ≡ returns (h', out)
      → run env (e ∷ []) h ≡ returns (h', out)
  unfolding run
  run-one e h h' out q = rw q (ap (λ us. returns (h', us)) (append-nil out))

  step-receives :
      (packet : Option (List ℕ)) (h h' : Host W) (out : List Output)
      → h.listener ≡ ready
      → listen_round env packet h ≡ returns (h', out)
      → step env (receives packet) h ≡ returns (h', out)
  unfolding step listen
  step-receives packet h h' out free e = ap (λ l. listen env l packet h) free ∙ e

  -- The host has taken the first message.
  took-Passes :
      (t : Taken) (ts : List Taken) (r : Receiver W) (h : Host W) (out : List Output)
      → r.msgs ≡ t ∷ ts
      → run env (receives (data_of t) ∷ []) r.host ≡ returns (h, out)
      → Passes env r (record r { msgs = ts; host = h }) out [] []
  took-Passes t ts r h out first e = (
    record {
      schedule = receives (data_of t) ∷ [];
      taken = t ∷ [];
      ran = e;
      listened = refl;
      in_order = append-nil r.msgs ∙ first;
      same_size = refl;
      bounded = λ small. omega (arith, ap length first);
    },
    IsKept-refl r.held,
  )

  receive_next-Passes :
      (ms : List Taken) (l : Listener) (r r' : Receiver W) (out : List Output)
      → r.msgs ≡ ms
      → r.host.listener ≡ l
      → receive_next env ms l r ≡ returns (r', out)
      → Passes env r r' out [] []
  unfolding receive_next
  receive_next-Passes [] l r r' out first free e =
      subst (λ (x : Receiver W × List Output). Passes env r x.0 x.1 [] [])
        (returns-injective (r, []) (r', out) e) (Passes-refl env r)
  receive_next-Passes (t ∷ ts) (blocked tid) r r' out first free e =
      subst (λ (x : Receiver W × List Output). Passes env r x.0 x.1 [] [])
        (returns-injective (r, []) (r', out) e) (Passes-refl env r)
  receive_next-Passes (t ∷ ts) ready r r' out first free e =
      let ((h, o), heard, q) = >>=-eq-returns (listen_round env (data_of t) r.host) _ e in
      subst (λ (x : Receiver W × List Output). Passes env r x.0 x.1 [] [])
        (returns-injective (record r { msgs = ts; host = h }, o) (r', out) q)
        (took-Passes t ts r h o first (
          run-one (receives (data_of t)) r.host h o
            (step-receives (data_of t) r.host h o free heard)))

  -- The host has done something else.
  worked-Passes :
      (e : Event) (r r' : Receiver W) (out : List Output)
      → packets (e ∷ []) ≡ []
      → ◌>>=◌ {B = Receiver W × List Output}
          (step env e r.host)
          (λ (h, o). returns (record r { host = h }, o))
        ≡ returns (r', out)
      → Passes env r r' out [] []
  worked-Passes e r r' out silent q =
      let ((h, o), s, q') = >>=-eq-returns (step env e r.host) _ q in
      subst (λ (x : Receiver W × List Output). Passes env r x.0 x.1 [] [])
        (returns-injective (record r { host = h }, o) (r', out) q')
        (
          record {
            schedule = e ∷ [];
            taken = [];
            ran = run-one e r.host h o s;
            listened = silent;
            in_order = append-nil r.msgs;
            same_size = refl;
            bounded = λ small. small;
          },
          IsKept-refl r.held,
        )

  host_act-Passes :
      (e : Event) (r r' : Receiver W) (out : List Output)
      → host_act env e r ≡ returns (r', out)
      → Passes env r r' out [] []
  unfolding host_act
  host_act-Passes (receives packet) r r' out e =
      subst (λ (x : Receiver W × List Output). Passes env r x.0 x.1 [] [])
        (returns-injective (r, []) (r', out) e) (Passes-refl env r)
  host_act-Passes (calls t q s) r r' out e = worked-Passes (calls t q s) r r' out refl e
  host_act-Passes (expires t c) r r' out e = worked-Passes (expires t c) r r' out refl e
  host_act-Passes (leaves t) r r' out e = worked-Passes (leaves t) r r' out refl e

  act-Passes :
      (t : Activity) (r r' : Receiver W) (out : List Output) (heard put : List Passed)
      → act env t r ≡ returns (r', out, heard, put)
      → Passes env r r' out heard put
  unfolding act
  act-Passes (hears name incoming) r r' out heard put e =
      let ((x, h), s, q) =
        >>=-eq-returns (hear env name incoming (Dict.lookup name r.held) r) _ e in
      subst
        (λ (y : Receiver W × List Output × List Passed × List Passed). Passes env r y.0 y.1 y.2 y.3)
        (returns-injective (x, [], h, []) (r', out, heard, put) q)
        (hear-Passes name incoming (Dict.lookup name r.held) r x h refl s)
  act-Passes (puts name) r r' out heard put e =
      subst
        (λ (y : Receiver W × List Output × List Passed × List Passed). Passes env r y.0 y.1 y.2 y.3)
        (returns-injective _ (r', out, heard, put) e)
        (put_held-Passes name (Dict.lookup name r.held) r refl)
  act-Passes takes r r' out heard put e =
      let ((x, o), s, q) = >>=-eq-returns (receive_next env r.msgs r.host.listener r) _ e in
      subst
        (λ (y : Receiver W × List Output × List Passed × List Passed). Passes env r y.0 y.1 y.2 y.3)
        (returns-injective (x, o, [], []) (r', out, heard, put) q)
        (receive_next-Passes r.msgs r.host.listener r x o refl refl s)
  act-Passes (works w) r r' out heard put e =
      let ((x, o), s, q) = >>=-eq-returns (host_act env w r) _ e in
      subst
        (λ (y : Receiver W × List Output × List Passed × List Passed). Passes env r y.0 y.1 y.2 y.3)
        (returns-injective (x, o, [], []) (r', out, heard, put) q) (host_act-Passes w r x o s)

  -- However Listen of the connections, their sends on the channel, the host's receipts and its other
  -- events interleave, without a panic: of each connection, what it was to send at first and then
  -- what Listen hears is, in that order and with nothing lost or doubled, what is put on the channel
  -- and then what it is to send at last; the messages that the host has read, followed by those left
  -- in the buffer, are those that were in the buffer and those that were put, in the order in which
  -- they were put; the host runs as on its own, on a schedule of its events in which it reads these
  -- messages one after the other; and the buffer never holds more than MessageBufferSize messages, if
  -- it did not before.
  pub act_all-Passes :
      (ts : List Activity) (r r' : Receiver W) (out : List Output) (heard put : List Passed)
      → act_all env ts r ≡ returns (r', out, heard, put)
      → Passes env r r' out heard put
  unfolding act_all
  act_all-Passes [] r r' out heard put e =
      subst
        (λ (y : Receiver W × List Output × List Passed × List Passed). Passes env r y.0 y.1 y.2 y.3)
        (returns-injective (r, [], [], []) (r', out, heard, put) e) (Passes-refl env r)
  act_all-Passes (t ∷ ts) r r' out heard put e =
      let ((r0, o, h, p), s, q) = >>=-eq-returns (act env t r) _ e in
      let ((r1, o', h', p'), s', q') = >>=-eq-returns (act_all env ts r0) _ q in
      subst
        (λ (y : Receiver W × List Output × List Passed × List Passed). Passes env r y.0 y.1 y.2 y.3)
        (returns-injective (r1, o ++ o', h ++ h', p ++ p') (r', out, heard, put) q')
        (Passes-trans env r r0 r1 o o' h h' p p' (act-Passes t r r0 o h p s)
          (act_all-Passes ts r0 r1 o' h' p' s'))
