-- ===== src/P2p/Host/Samples.antt =====
-- Concrete values for the tests of the host: a gzip that stores its content, an encoder of one
-- message, a disk that counts the requests applied to it, and a host of two peers.
use mathlib.Core.Logic.{ite, if_pos, if_neg}
use replicated_file_system.Common.{
  ℕ, suc, ℕ_discrete, true, ◌≡◌, refl, ap, sym, Option, none, some, List, [], ◌∷◌, Text, codes,
  returns,
}
use replicated_file_system.Config.{Peer}
use replicated_file_system.Protobuf.{
  Request, Message, Response, create, nack, is_nack, err_does_not_exist, ack_response, request_msg,
}
use replicated_file_system.Protobuf.Gzip.{Gzip, GzipLaws, default_compression}
use replicated_file_system.Protobuf.Wire.{Proto, ProtoLaws}
use replicated_file_system.P2p.Responses.Verdict.{HasErrors}
use replicated_file_system.P2p.Host.{Mirror, Env, Host}
use replicated_file_system.P2p.Host.Steps.{new_host}

abbrev pub stored : Gzip
stored = record {
  Writer = List ℕ;
  Reader = List ℕ;
  new_writer = λ level. some [];
  write = λ w content. some content;
  close_writer = λ w. some w;
  new_reader = λ raw. some raw;
  read_all = λ r. some r;
  close_reader = λ r. true;
}

pub stored-GzipLaws : GzipLaws stored
stored-GzipLaws = record { reads_back = λ level content out e e' e''. (out, refl, cc, refl) }

abbrev pub a_request : Request
a_request = record {
  type = create;
  metadata = some (record {
    relative_path = codes "notes";
    new_relative_path = [];
    mode = 420;
    write_offset = 0;
    read_offset = 0;
    write_len = 0;
  });
  clock = 0;
  content = none;
}

abbrev pub tid : Text
tid = codes "t1"

abbrev pub a_message : Message
a_message = record { tid = tid; peer_name = codes "a"; type = request_msg a_request }

pub Message-discrete : Discrete Message
Message-discrete = hlevel ℕ_discrete

-- An encoder that takes one message only.
abbrev pub only : Message → Proto
only m = record {
  marshal = λ n. ite (Message-discrete n m) (some (7 ∷ [])) none;
  unmarshal = λ raw. some m;
}

pub only-marshals : (m : Message) → (only m).marshal m ≡ some (7 ∷ [])
only-marshals m = if_pos (Message-discrete m m) refl (some (7 ∷ [])) none

pub only-ProtoLaws : (m : Message) → ProtoLaws (only m)
only-ProtoLaws m = record {
  decodes = λ n e. elim (Message-discrete n m) [
    | yes same ↦ ap some (sym same)
    | no apart ↦
        absurd
          (cc (e, if_neg {C = Option (List ℕ)} (Message-discrete n m) apart (some (7 ∷ [])) none))
  ];
}

-- A Mirror that agrees to everything.
abbrev pub agreeing : Mirror ℕ
agreeing = record {
  consult = λ disk r. returns (some ack_response);
  mirror = λ disk r. returns (suc disk, none);
}

abbrev pub env : Env ℕ
env = record {
  disk_api = agreeing;
  gzip = stored;
  level = default_compression;
  proto = only a_message;
}

abbrev pub peer : Text → Peer
peer name = record { name = name; address = codes "localhost" }

abbrev pub two_peers : List Peer
two_peers = peer (codes "b") ∷ peer (codes "c") ∷ []

-- The host a, and its replicator b, just started.
abbrev pub host_a : Host ℕ
host_a = new_host (peer (codes "a")) two_peers 0 0

abbrev pub host_b : Host ℕ
host_b = new_host (peer (codes "b")) (peer (codes "a") ∷ peer (codes "c") ∷ []) 0 0

abbrev pub missing : Response
missing = record { type = nack; error = some err_does_not_exist; error_msg = none }

pub missing-HasErrors : HasErrors (missing ∷ ack_response ∷ [])
unfolding is_nack ack_response
missing-HasErrors = ((λ _ h. cc), ((λ h. cc), tt))
