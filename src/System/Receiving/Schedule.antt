-- ===== src/System/Receiving/Schedule.antt =====
-- connection/pool.go and p2p/host.go: runs of the host that read what comes off the channel.
use mathlib.Core.List.{append-nil, append_assoc, map-append}
use replicated_file_system.Common.{
  ℕ, ◌≤◌, ◌≡◌, refl, sym, ap, subst, ◌∙◌, Option, List, [], ◌∷◌, ◌++◌, length, map, returns,
  >>=-eq-returns, returns-injective,
}
use replicated_file_system.Connection.Link.{Taken}
use replicated_file_system.P2p.Host.{Env, Host, Event, calls, receives, expires, leaves, Output}
use replicated_file_system.P2p.Host.Machine.{step, run}
use replicated_file_system.System.Receiving.{Passed, Receiver, data_of}
use replicated_file_system.System.Receiving.Flow.{messages, IsKept, IsKept-refl, IsKept-trans}

-- What listen reads in a run of the host.
abbrev pub packets : List Event → List (Option (List ℕ))
packets [] = []
packets (receives packet ∷ es) = packet ∷ packets es
packets (_ ∷ es) = packets es

-- The host has run on that schedule, and has taken those messages off the channel.
pub record Scheduled {W : Type 0} (env : Env W) (r r' : Receiver W) (out : List Output)
    (put : List Taken) : Type 0 where
  pub schedule : List Event
  pub taken : List Taken
  pub ran : run env schedule r.host ≡ returns (r'.host, out)
  pub listened : packets schedule ≡ map data_of taken
  pub in_order : r.msgs ++ put ≡ taken ++ r'.msgs
  pub same_size : r'.message_buffer_size ≡ r.message_buffer_size
  pub bounded : length r.msgs ≤ r.message_buffer_size → length r'.msgs ≤ r.message_buffer_size

-- So it has, and each connection's messages have gone on as they were heard.
abbrev pub Passes :
    {W : Type 0} → Env W → (r r' : Receiver W) → List Output → (heard put : List Passed) → Type 0
Passes env r r' out heard put =
    Scheduled env r r' out (messages put) × IsKept r.held r'.held heard put

packets-append : (es es' : List Event) → packets (es ++ es') ≡ packets es ++ packets es'
packets-append [] es' = refl
packets-append (receives p ∷ es) es' = ap (λ us. p ∷ us) (packets-append es es')
packets-append (calls t q s ∷ es) es' = packets-append es es'
packets-append (expires t c ∷ es) es' = packets-append es es'
packets-append (leaves t ∷ es) es' = packets-append es es'

module _ {W : Type 0} (env : Env W) where
  run-append :
      (es es' : List Event) (h h' h'' : Host W) (out out' : List Output)
      → run env es h ≡ returns (h', out)
      → run env es' h' ≡ returns (h'', out')
      → run env (es ++ es') h ≡ returns (h'', out ++ out')
  unfolding run
  run-append [] es' h h' h'' out out' e f =
      subst
        (λ (p : Host W × List Output).
          run env es' p.0 ≡ returns (h'', out') → run env es' h ≡ returns (h'', p.1 ++ out'))
        (returns-injective (h, []) (h', out) e) (λ g. g) f
  run-append (e ∷ es) es' h h' h'' out out' q f =
      let ((h0, o), s, q') = >>=-eq-returns (step env e h) _ q in
      let ((h1, o'), s', q'') = >>=-eq-returns (run env es h0) _ q' in
      subst
        (λ (p : Host W × List Output).
          run env es' p.0 ≡ returns (h'', out')
          → run env (e ∷ (es ++ es')) h ≡ returns (h'', p.1 ++ out'))
        (returns-injective (h1, o ++ o') (h', out) q'')
        (λ g.
          rw (s, run-append es es' h0 h1 h'' o' out' s' g)
            (ap (λ us. returns (h'', us)) (sym (append_assoc o o' out'))))
        f

  pub Scheduled-trans :
      (r r' r'' : Receiver W) (out out' : List Output) (put put' : List Taken)
      → Scheduled env r r' out put
      → Scheduled env r' r'' out' put'
      → Scheduled env r r'' (out ++ out') (put ++ put')
  Scheduled-trans r r' r'' out out' put put' a b = record {
    schedule = a.schedule ++ b.schedule;
    taken = a.taken ++ b.taken;
    ran = run-append a.schedule b.schedule r.host r'.host r''.host out out' a.ran b.ran;
    listened =
        packets-append a.schedule b.schedule
        ∙ (ap (λ us. us ++ packets b.schedule) a.listened
            ∙ (ap (λ us. map data_of a.taken ++ us) b.listened
                ∙ sym (map-append data_of a.taken b.taken)));
    in_order =
        sym (append_assoc r.msgs put put')
        ∙ (ap (λ us. us ++ put') a.in_order
            ∙ (append_assoc a.taken r'.msgs put'
                ∙ (ap (λ us. a.taken ++ us) b.in_order
                    ∙ sym (append_assoc a.taken b.taken r''.msgs))));
    same_size = b.same_size ∙ a.same_size;
    bounded = λ small.
        subst (λ n. length r''.msgs ≤ n) a.same_size
          (b.bounded (subst (λ n. length r'.msgs ≤ n) (sym a.same_size) (a.bounded small)));
  }

  -- Nothing has been taken, and the host has not moved.
  pub Scheduled-idle :
      (r r' : Receiver W) (put : List Taken)
      → r'.host ≡ r.host
      → r.msgs ++ put ≡ r'.msgs
      → r'.message_buffer_size ≡ r.message_buffer_size
      → (length r.msgs ≤ r.message_buffer_size → length r'.msgs ≤ r.message_buffer_size)
      → Scheduled env r r' [] put
  unfolding run
  Scheduled-idle r r' put same order size small = record {
    schedule = [];
    taken = [];
    ran = ap (λ h. returns (h, [])) (sym same);
    listened = refl;
    in_order = order;
    same_size = size;
    bounded = small;
  }

  pub Scheduled-refl : (r : Receiver W) → Scheduled env r r [] []
  Scheduled-refl r = Scheduled-idle r r [] refl (append-nil r.msgs) refl (λ small. small)

  pub Passes-refl : (r : Receiver W) → Passes env r r [] [] []
  Passes-refl r = (Scheduled-refl r, IsKept-refl r.held)

  pub Passes-trans :
      (r r' r'' : Receiver W) (out out' : List Output) (heard heard' put put' : List Passed)
      → Passes env r r' out heard put
      → Passes env r' r'' out' heard' put'
      → Passes env r r'' (out ++ out') (heard ++ heard') (put ++ put')
  Passes-trans r r' r'' out out' heard heard' put put' a b = (
    subst (λ us. Scheduled env r r'' (out ++ out') us)
        (sym (map-append (λ (x : Passed). x.1) put put'))
        (Scheduled-trans r r' r'' out out' (messages put) (messages put') a.0 b.0),
    IsKept-trans r.held r'.held r''.held heard heard' put put' a.1 b.1,
  )
