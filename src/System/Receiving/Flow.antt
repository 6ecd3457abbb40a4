-- ===== src/System/Receiving/Flow.antt =====
-- connection/pool.go: the way of the messages of each connection, from Listen to the channel.
use mathlib.Core.List.{append-nil, append_assoc}
use replicated_file_system.Common.{
  ◌≡◌, refl, sym, ap, ◌∙◌, Bool-cases, inl, inr, none, some, List, [], ◌∷◌, ◌++◌, Text, map,
  text_eq, text_eq_iff, if◌then◌else◌, arith,
}
use replicated_file_system.Common.Dict
use replicated_file_system.Connection.Link.{Taken}
use replicated_file_system.System.Receiving.{Passed}

-- The messages without the names.
abbrev pub messages : List Passed → List Taken
messages ps = map (λ (x : Passed). x.1) ps

-- The messages of one connection.
abbrev pub from_conn : Text → List Passed → List Taken
from_conn k [] = []
from_conn k ((name, t) ∷ ps) =
    let rest = from_conn k ps in if text_eq name k then t ∷ rest else rest

-- What Listen of the connection waits to send.
abbrev pub waiting : Text → List Passed → List Taken
waiting k held = elim (Dict.lookup k held) [ none ↦ [] | some t ↦ t ∷ [] ]

-- Of each connection, what was held and what was heard, in that order, is what was put, followed by
-- what is held.
abbrev pub IsKept : (held held' heard put : List Passed) → Type 0
IsKept held held' heard put =
    (k : Text) → waiting k held ++ from_conn k heard ≡ from_conn k put ++ waiting k held'

pub from_conn-append :
    (k : Text) (ps qs : List Passed) → from_conn k (ps ++ qs) ≡ from_conn k ps ++ from_conn k qs
from_conn-append k [] qs = refl
from_conn-append k ((name, t) ∷ ps) qs = elim (Bool-cases (text_eq name k)) [
  | inl e ↦ rw (e, from_conn-append k ps qs) refl
  | inr e ↦ rw (e, from_conn-append k ps qs) refl
]

pub IsKept-refl : (held : List Passed) → IsKept held held [] []
IsKept-refl held k = append-nil (waiting k held)

pub IsKept-trans :
    (held held' held'' heard heard' put put' : List Passed)
    → IsKept held held' heard put
    → IsKept held' held'' heard' put'
    → IsKept held held'' (heard ++ heard') (put ++ put')
IsKept-trans held held' held'' heard heard' put put' a b k =
    ap (λ us. waiting k held ++ us) (from_conn-append k heard heard')
    ∙ (sym (append_assoc (waiting k held) (from_conn k heard) (from_conn k heard'))
        ∙ (ap (λ us. us ++ from_conn k heard') (a k)
            ∙ (append_assoc (from_conn k put) (waiting k held') (from_conn k heard')
                ∙ (ap (λ us. from_conn k put ++ us) (b k)
                    ∙ (sym (append_assoc (from_conn k put) (from_conn k put') (waiting k held''))
                        ∙ ap (λ us. us ++ waiting k held'') (sym (from_conn-append k put put')))))))

-- A message that is heard while none is held.
pub hold-IsKept :
    (name : Text) (t : Taken) (held : List Passed)
    → Dict.lookup name held ≡ none
    → IsKept held ((name, t) ∷ held) ((name, t) ∷ []) []
unfolding Dict.lookup
hold-IsKept name t held free k = ground (arith, text_eq_iff name k, append-nil (waiting k held))

-- A held message that is put.
pub put-IsKept :
    (name : Text) (t : Taken) (held : List Passed)
    → Dict.lookup name held ≡ some t
    → IsKept held (Dict.delete name held) [] ((name, t) ∷ [])
put-IsKept name t held found k = elim (Bool-cases (text_eq name k)) [
  | inl e ↦ ground (arith, text_eq_iff name k, Dict.lookup-delete k name held)
  | inr e ↦ ground (arith, Dict.lookup-delete k name held, append-nil (waiting k held))
]
