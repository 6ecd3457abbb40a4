-- ===== src/P2p/Network/Crossing/Exclusion.antt =====
-- p2p/host.go and p2p/conflicts_resolver.go: two crossing requests for the same paths.
use replicated_file_system.Common.{
  ℕ, ◌≡◌, ◌≢◌, refl, sym, Bool, true, false, not, Option, some, List, [], ◌∷◌, Text, text_eq,
  text_eq_iff, if◌then◌else◌, Outcome, returns, ◌>>=◌, arith, Bool-cases, inl, inr,
}
use replicated_file_system.Errors.{Cause}
use replicated_file_system.Config.{Peer}
use replicated_file_system.Protobuf.{Request, Response, Message, Metadata, is_ack, is_nack}
use replicated_file_system.Protobuf.Wire.{ok, new_request_message}
use replicated_file_system.P2p.Conflicts.{beaten_by}
use replicated_file_system.P2p.Conflicts.Order.{beaten_by_exclusive}
use replicated_file_system.P2p.Responses.Verdict.{HasErrors}
use replicated_file_system.P2p.Host.{Env, Host, Output, broadcasts, replicated}
use replicated_file_system.P2p.Network.{commit_result}
use replicated_file_system.P2p.Network.Crossing.{idle, answer_by, meet, conclude, own, meet_lem}
use replicated_file_system.P2p.Network.Crossing.Answered.{conclude_lem}

abbrev pub sent : List Output → List Message
sent [] = []
sent (broadcasts message ∷ out) = message ∷ sent out
sent (_ ∷ out) = sent out

-- Both peers replicate, each hears the other's request and then the other's answer.
abbrev pub crossing :
    {W : Type 0}
    → Env W
    → Text
    → Request
    → Host W
    → Env W
    → Text
    → Request
    → Host W
    → Outcome ((W × List Output) × (W × List Output))
crossing env tid request h env' tid' request' h' =
    meet env tid request tid' h'.name request' h >>= λ (a, out).
    meet env' tid' request' tid h.name request h' >>= λ (b, out').
    conclude env tid (sent out') a >>= λ left.
    conclude env' tid' (sent out) b >>= λ right. returns (left, right)

vote-HasErrors :
    (conflict : Bool) (opinion : Response)
    → is_ack opinion.type ≡ true
    → HasErrors (answer_by conflict opinion ∷ [])
unfolding is_ack is_nack
vote-HasErrors true opinion agrees = ((λ _ h. cc), tt)
vote-HasErrors false opinion agrees = ((λ h. absurd (ground arith)), tt)

vote-nack :
    (conflict : Bool) (opinion : Response)
    → is_ack opinion.type ≡ true
    → is_nack (answer_by conflict opinion) ≡ conflict
unfolding is_ack is_nack
vote-nack true opinion agrees = refl
vote-nack false opinion agrees = ground arith

not-not : (b : Bool) → not (not b) ≡ b
not-not true = refl
not-not false = refl

apart_eq : (s t : Text) → s ≢ t → text_eq s t ≡ false
apart_eq s t ne = elim (Bool-cases (text_eq s t)) [
  | inl e ↦ absurd (ne ((text_eq_iff s t).0 e))
  | inr e ↦ e
]

-- One of the two peers: its host, its request with the identifier, the content as compressed and the
-- bytes, what its Mirror says to the other's request, and what mirroring that leaves.
pub record Contender (W : Type 0) : Type 1 where
  pub env : Env W
  pub host : Host W
  pub peer : Peer
  pub tid : Text
  pub request : Request
  pub content : Option (List ℕ)
  pub raw : List ℕ
  pub opinion : Response
  pub mirrored : W
  pub cause : Option Cause

module _ {W : Type 0} where
  -- Its request is encoded, and its Mirror agrees to the other's request, and can apply it.
  abbrev pub IsReady : Contender W → Contender W → Type 0
  IsReady c d =
      (new_request_message c.env.gzip c.env.level c.tid c.host.name c.request
        ≡ ok (own c.tid c.host.name c.request c.content))
      × (c.env.proto.marshal (own c.tid c.host.name c.request c.content) ≡ some c.raw)
      × (c.env.disk_api.consult c.host.disk d.request ≡ returns (some c.opinion))
      × (is_ack c.opinion.type ≡ true)
      × (c.env.disk_api.mirror c.host.disk d.request ≡ returns (c.mirrored, c.cause))

  abbrev pub meeting : Contender W → Contender W → Outcome ((W × List Output) × (W × List Output))
  meeting c d =
      crossing c.env c.tid c.request (idle c.host c.peer) d.env d.tid d.request (idle d.host d.peer)

  -- What is left on one side: its own request has committed, or the other's has.
  abbrev pub side : Bool → Contender W → W × List Output
  side wins c =
      (if wins then c.host.disk else c.mirrored, replicated c.tid (commit_result wins) ∷ [])

  decided :
      (c d : Contender W) (wins : Bool)
      → IsReady c d
      → IsReady d c
      → text_eq c.tid d.tid ≡ false
      → text_eq d.tid c.tid ≡ false
      → beaten_by c.request c.host.name d.host.name d.request ≡ returns wins
      → beaten_by d.request d.host.name c.host.name c.request ≡ returns (not wins)
      → meeting c d ≡ returns (side wins c, side (not wins) d)
  decided c d wins (made, encoded, consulted, agrees, mirrors)
        (made', encoded', consulted', agrees', mirrors') apart apart' beats loses =
      rw
        (
          meet_lem c.env c.host c.peer c.tid d.tid d.host.name c.request d.request c.content
              c.opinion wins c.mirrored c.cause apart apart' made encoded consulted agrees beats
              mirrors,
          meet_lem d.env d.host d.peer d.tid c.tid c.host.name d.request c.request d.content
              d.opinion (not wins) d.mirrored d.cause apart' apart made' encoded' consulted' agrees'
              loses mirrors',
          conclude_lem c.env c.host c.peer c.tid d.tid d.host.name c.request d.request c.content
              (if wins then c.host.disk else c.mirrored) (answer_by (not wins) d.opinion) apart'
              (vote-HasErrors (not wins) d.opinion agrees'),
          conclude_lem d.env d.host d.peer d.tid c.tid c.host.name d.request c.request d.content
              (if not wins then d.host.disk else d.mirrored) (answer_by wins c.opinion) apart
              (vote-HasErrors wins c.opinion agrees),
          vote-nack (not wins) d.opinion agrees',
          vote-nack wins c.opinion agrees,
        )
        (rw (not-not wins) refl)

-- Two peers of different names, in a network of two, each without open transactions, replicate
-- requests for the same paths under different identifiers. Each request is encoded, reaches the other
-- peer before that answers the own one, and is agreed to by the other's Mirror, which, asked to mirror
-- it, returns. Exactly one of the two commits: its Replicate returns nil and the other peer's disk is what mirroring it leaves; Replicate of the other returns
-- ErrNotPermitted, and the winner's disk stays as it is.
pub crossing_exclusive :
    {W : Type 0} (c d : Contender W) (m n : Metadata)
    → IsReady c d
    → IsReady d c
    → c.request.metadata ≡ some m
    → d.request.metadata ≡ some n
    → m.relative_path ≡ n.relative_path
    → m.new_relative_path ≡ n.new_relative_path
    → c.host.name ≢ d.host.name
    → c.tid ≢ d.tid
    → (wins : Bool) × (meeting c d ≡ returns (side wins c, side (not wins) d))
crossing_exclusive c d m n ready ready' has has' same same_new names tids =
    let apart = apart_eq c.tid d.tid tids in
    let apart' = apart_eq d.tid c.tid (λ e. tids (sym e)) in
    elim (beaten_by_exclusive c.host.name d.host.name c.request d.request m n has has' same same_new
      names) [
        | inl (beats, loses) ↦ (true, decided c d true ready ready' apart apart' beats loses)
        | inr (loses, beats) ↦ (false, decided c d false ready ready' apart apart' loses beats)
      ]
