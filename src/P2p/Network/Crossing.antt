-- ===== src/P2p/Network/Crossing.antt =====
-- p2p/host.go: two peers whose requests cross, each of which replicates its own request while that of
-- the other arrives.
mod Answered
pub mod Exclusion
mod Tests
use replicated_file_system.Common.{
  ℕ, suc, ◌≡◌, ◌≢◌, refl, ap, ◌∙◌, Bool, true, false, not, ◌&&◌, Option, none, some, List, [], ◌∷◌,
  ◌++◌, Text, text_eq, text_eq_refl, length, any, if◌then◌else◌, Outcome, returns, panics, ◌>>=◌,
  arith, Bool-cases, inl, inr,
}
use replicated_file_system.Common.Dict
use replicated_file_system.Errors.{Cause, Err, plain, not_permitted}
use replicated_file_system.Config.{Peer}
use replicated_file_system.Protobuf.{
  Request, Response, Message, nack, err_transaction_conflict, is_ack, is_nack, get_request,
  new_message, request_msg, response_msg, new_response_message, nack_response,
}
use replicated_file_system.Protobuf.Wire.{ok, new_request_message, new_request_message_lem}
use replicated_file_system.P2p.Transactions.{Transactions, put, delete}
use replicated_file_system.P2p.Transactions.Laws.{lookup-put, lookup-delete}
use replicated_file_system.P2p.Conflicts.{
  beaten_by, check_transaction, detect_loop, detect_and_resolve_conflict,
}
use replicated_file_system.P2p.Conflicts.Order.{detect_one}
use replicated_file_system.P2p.Host.{Env, Host, initiator, Output, broadcasts, replicated, handled}
use replicated_file_system.P2p.Host.Steps.{
  conflict_message, check_conflict, permitted, begin_replicate,
}
use replicated_file_system.P2p.Host.Machine.{deliver_all, leave}
use replicated_file_system.P2p.Host.Collect.{gathering, put_all, response_messages}
use replicated_file_system.P2p.Host.Commit.{gathered_messages}
use replicated_file_system.P2p.Host.Ending.{request_message, begin-gathering, closed}
use replicated_file_system.P2p.Host.Verdicts.{handler_decides}

-- A host without transactions, of a network of two.
abbrev pub idle : {W : Type 0} → Host W → Peer → Host W
idle h peer = record h { transactions = []; processes = []; peers = peer ∷ [] }

abbrev pub conflict_nack : Response
conflict_nack = record {
  type = nack;
  error = some err_transaction_conflict;
  error_msg = some conflict_message;
}

-- The answer of a peer whose Mirror agrees.
abbrev pub answer_by : Bool → Response → Response
answer_by true opinion = conflict_nack
answer_by false opinion = opinion

module _ {W : Type 0} (env : Env W) where
  -- Replicate begins; the other's request arrives and its handler runs to its end.
  abbrev pub meet : Text → Request → Text → Text → Request → Host W → Outcome (Host W × List Output)
  meet tid request tid' name' request' h =
      begin_replicate env tid request none h >>= λ (begun, out).
      deliver_all env (request_message tid' name' request' ∷ []) begun >>= λ (told, out').
      leave env tid' told >>= λ (left, out''). returns (left, out')

  -- The other's answers arrive, and Replicate returns.
  abbrev pub conclude : Text → List Message → Host W → Outcome (W × List Output)
  conclude tid messages h = deliver_all env messages h >>= λ (told, out).
      leave env tid told >>= λ (left, out'). returns (left.disk, out')

-- Their own transaction does not stop them.
detect_pair :
    (a b : Message) (ra rb : Request)
    → a.type ≡ request_msg ra
    → b.type ≡ request_msg rb
    → text_eq a.tid b.tid ≡ false
    → text_eq b.tid a.tid ≡ false
    → detect_and_resolve_conflict (put b (put a []).0).0 b ≡ beaten_by ra a.peer_name b.peer_name rb
unfolding detect_and_resolve_conflict detect_loop check_transaction put get_request Dict.lookup
    Dict.insert beaten_by
detect_pair a b ra rb ta tb apart apart' = ground (arith, text_eq_refl b.peer_name)

calm_alone :
    (a : Message) (ra : Request)
    → a.type ≡ request_msg ra
    → detect_and_resolve_conflict (put a []).0 a ≡ returns false
unfolding beaten_by
calm_alone a ra ta = detect_one a a ra ra ta ta ∙ rw (text_eq_refl a.peer_name, beaten_by) refl

check_by :
    (ts : Transactions) (msg : Message) (opinion : Response) (c : Bool)
    → is_ack opinion.type ≡ true
    → detect_and_resolve_conflict ts msg ≡ returns c
    → check_conflict ts msg opinion ≡ returns (answer_by c opinion)
unfolding check_conflict nack_response
check_by ts msg opinion true agrees found = rw (agrees, found) refl
check_by ts msg opinion false agrees found = rw (agrees, found) refl

-- What the handler of the other's request leaves.
after_handler :
    {W : Type 0} (env : Env W) (k : Host W) (tid : Text) (request : Request) (opinion : Response)
    (conflict : Bool) (disk' : W) (e' : Option Cause) (out : List Output)
    → is_ack opinion.type ≡ true
    → env.disk_api.mirror k.disk request ≡ returns (disk', e')
    → ◌>>=◌ {A = Host W × List Output} {B = Host W × List Output}
        (if permitted (answer_by conflict opinion).type []
          then (env.disk_api.mirror k.disk request >>= λ result.
              returns (record k { disk = result.0 }, handled tid result.1 ∷ []))
          else returns (k, handled tid (some not_permitted) ∷ []))
        (λ (left, out'). returns (left, out))
      ≡ returns (record k { disk = if conflict then k.disk else disk' }, out)
unfolding permitted is_ack
after_handler env k tid request opinion true disk' e' out agrees mirrored = refl
after_handler env k tid request opinion false disk' e' out agrees mirrored =
    rw (agrees, mirrored) refl

-- The message that Replicate sends, with the content as compressed.
abbrev pub own : Text → Text → Request → Option (List ℕ) → Message
own tid name request content =
    new_message tid name (request_msg (record request { content = content }))

-- The map that the handler of the other's request leaves.
abbrev pub behind_handler :
    Text → Text → Request → Option (List ℕ) → Text → Text → Request → Transactions
behind_handler tid name request content tid' name' request' =
    delete tid'
      (put (request_message tid' name' request') (put (own tid name request content) []).0).0

module _ {W : Type 0} (env : Env W) (h : Host W) (peer : Peer) (tid tid' name' : Text)
    (request request' : Request) (content : Option (List ℕ)) where
  -- The host that waits for the answer to its own request.
  abbrev pub awaiting : W → Host W
  awaiting disk =
      gathering (record (idle h peer) { disk = disk }) tid
        (behind_handler tid h.name request content tid' name' request') (initiator none) 1

  pub meet_lem :
      (opinion : Response) (conflict : Bool) (disk' : W) (e' : Option Cause) {raw : List ℕ}
      → text_eq tid tid' ≡ false
      → text_eq tid' tid ≡ false
      → new_request_message env.gzip env.level tid h.name request
        ≡ ok (own tid h.name request content)
      → env.proto.marshal (own tid h.name request content) ≡ some raw
      → env.disk_api.consult h.disk request' ≡ returns (some opinion)
      → is_ack opinion.type ≡ true
      → beaten_by request h.name name' request' ≡ returns conflict
      → env.disk_api.mirror h.disk request' ≡ returns (disk', e')
      → meet env tid request tid' name' request' (idle h peer)
        ≡ returns (
          awaiting (if conflict then h.disk else disk'),
          broadcasts (new_response_message tid' h.name (answer_by conflict opinion)) ∷ [],
        )
  unfolding new_message Dict.lookup beaten_by
  meet_lem opinion conflict disk' e' apart apart' made encoded consulted agrees beaten mirrored =
      let m = own tid h.name request content in
      let msg = request_message tid' name' request' in
      let begun = gathering (idle h peer) tid (put m []).0 (initiator none) 1 in
      let began =
        begin-gathering env (idle h peer) tid tt request m made encoded (calm_alone m _ refl) in
      let (told, delivered, left) =
        handler_decides env begun tid' (apart, tt) [] [] name' request' opinion
          (answer_by conflict opinion) (lookup-put tid' m [] ∙ rw apart refl) refl consulted
          (check_by (put msg (put m []).0).0 msg opinion conflict agrees
            (detect_pair m msg _ _ refl refl apart apart' ∙ beaten)) in
      rw (began, delivered, left)
        (after_handler env (closed begun tid' (put msg (put m []).0).0) tid' request' opinion
          conflict disk' e'
          (broadcasts (new_response_message tid' h.name (answer_by conflict opinion)) ∷ []) agrees
          mirrored)
