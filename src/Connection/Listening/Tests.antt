-- ===== src/Connection/Listening/Tests.antt =====
-- A connection that was opened twice and is dead now.
use replicated_file_system.Common.{◌≡◌, refl, true, some, [], ◌∷◌, Text, codes, returns, text_eq}
use replicated_file_system.Common.Dict
use replicated_file_system.Connection.Link.{Link, dead, is_dead, arrives}
use replicated_file_system.Connection.Pool.{Pool}
use replicated_file_system.Connection.Listening.{listen_conn, stale, listen_conn-stale}

abbrev b : Text
b = codes "b"

abbrev link : Link
link = record { status = dead; perspective = 0; counter = 0; notices = 2 }

abbrev pool : Pool
pool = record { whitelist = b ∷ []; links = (b, link) ∷ []; active = 0 }

listen_conn-stale_example :
    (p' : Pool) × (listen_conn 3 b (arrives (7 ∷ [])) pool ≡ returns (p', stale 2, true))
    × (Dict.lookup b p'.links ≡ some (record link { notices = 0 }))
unfolding is_dead Dict.lookup text_eq
listen_conn-stale_example = listen_conn-stale 2 b (arrives (7 ∷ [])) link pool refl refl refl
