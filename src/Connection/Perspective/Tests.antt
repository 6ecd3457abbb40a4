-- ===== src/Connection/Perspective/Tests.antt =====
-- Peers a and b.
use replicated_file_system.Common.{
  ◌≡◌, ◌==◌, ◌||◌, not, text_eq, text_eq_iff, ◌≢◌, Bool, none, some, text_lt, codes, arith,
}
use replicated_file_system.Connection.Perspective.{
  server, client, Resolvent, encode, decode, resolve_with, data_is,
}
use replicated_file_system.Connection.Perspective.Verdict.{
  settled, decode-encode, ends_agree, crossed_keep_one,
}

abbrev second : Resolvent
second = record { perspective = client; ctr = 2 }

decode-encode_example : decode (encode second) ≡ some second
decode-encode_example = decode-encode second (omega arith) (omega arith)

ends_agree_example :
    ((resolve_with 0 client
        (codes "a")
        (codes "b")
        none
        (data_is (encode (record { perspective = server; ctr = 2 })))).1
      ≡ settled ((0 == 1) || text_lt (codes "a") (codes "b")))
    × ((resolve_with 1 server
          (codes "b")
          (codes "a")
          none
          (data_is (encode (record { perspective = client; ctr = 1 })))).1
        ≡ settled ((0 == 1) || text_lt (codes "a") (codes "b")))
ends_agree_example = ends_agree 0 1 (codes "a") (codes "b") (omega arith) (omega arith)

a_b_apart : codes "a" ≢ codes "b"
unfolding text_eq
a_b_apart e = absurd (cc ((text_eq_iff (codes "a") (codes "b")).1 e))

crossed_keep_one_example :
    (b : Bool) × ((resolve_with 0 client
        (codes "a")
        (codes "b")
        none
        (data_is (encode (record { perspective = server; ctr = 2 })))).1
      ≡ settled b)
    × ((resolve_with 1 server
          (codes "a")
          (codes "b")
          none
          (data_is (encode (record { perspective = client; ctr = 1 })))).1
        ≡ settled (not b))
crossed_keep_one_example =
    crossed_keep_one 0 1 1 0 (codes "a") (codes "b") a_b_apart (omega arith) (omega arith)
      (omega arith) (omega arith) (omega arith) (omega arith)
