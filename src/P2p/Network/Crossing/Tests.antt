-- ===== src/P2p/Network/Crossing/Tests.antt =====
-- The peers a and b create the same file.
use replicated_file_system.Common.{
  ℕ, ◌≡◌, ◌≢◌, refl, Bool, not, none, [], ◌∷◌, Text, codes, returns, text_eq, text_eq_iff,
}
use replicated_file_system.Protobuf.{Metadata, ack_response, is_ack, new_message}
use replicated_file_system.Protobuf.Wire.{new_request_message}
use replicated_file_system.P2p.Host.Steps.{new_host}
use replicated_file_system.P2p.Host.Samples.{
  env, tid, a_request, host_a, host_b, peer, only, only-marshals,
}
use replicated_file_system.P2p.Network.Crossing.{own}
use replicated_file_system.P2p.Network.Crossing.Exclusion.{
  Contender, meeting, side, crossing_exclusive,
}

abbrev of_a : Contender ℕ
of_a = record {
  env = env;
  host = host_a;
  peer = peer (codes "b");
  tid = tid;
  request = a_request;
  content = none;
  raw = 7 ∷ [];
  opinion = ack_response;
  mirrored = 1;
  cause = none;
}

abbrev tid_b : Text
tid_b = codes "t2"

abbrev of_b : Contender ℕ
of_b = record of_a {
  env = record env { proto = only (own tid_b (codes "b") a_request none) };
  host = host_b;
  peer = peer (codes "a");
  tid = tid_b;
}

abbrev notes : Metadata
notes = record {
  relative_path = codes "notes";
  new_relative_path = [];
  mode = 420;
  write_offset = 0;
  read_offset = 0;
  write_len = 0;
}

a_is_not_b : codes "a" ≢ codes "b"
unfolding text_eq
a_is_not_b e = absurd (cc ((text_eq_iff (codes "a") (codes "b")).1 e))

tids_differ : tid ≢ tid_b
unfolding text_eq
tids_differ e = absurd (cc ((text_eq_iff tid tid_b).1 e))

crossing_exclusive_example :
    (wins : Bool) × (meeting of_a of_b ≡ returns (side wins of_a, side (not wins) of_b))
unfolding new_host new_request_message new_message ack_response is_ack
crossing_exclusive_example =
    crossing_exclusive of_a of_b notes notes
      (refl, only-marshals (own tid (codes "a") a_request none), refl, refl, refl)
      (refl, only-marshals (own tid_b (codes "b") a_request none), refl, refl, refl) refl refl refl
      refl a_is_not_b tids_differ
