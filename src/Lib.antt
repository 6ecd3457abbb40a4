-- ===== src/Lib.antt =====
-- replicated-file-system: a FUSE file system whose changes are agreed on by all peers before any of
-- them makes it. The program's parts, and the files that model them:
--
--   rfs/replicate.go, root.go, root_file.go    Rfs, Rfs/Root, Rfs/Handlers
--     A handler of the kernel's calls builds a request, asks this peer's Mirror (Consult) and its
--     Host (Replicate), and only then changes the local disk.
--   p2p/host.go                                P2p/Host, P2p/Host/Steps, P2p/Host/Machine, P2p/Responses
--     Host.Replicate opens a transaction, broadcasts the request and waits for a response of every
--     peer; Host.listen hands each message to its transaction; Host.handleTransaction consults the
--     Mirror, broadcasts the answer, waits for the other answers, and applies the request.
--   p2p/transaction.go                         P2p/Transactions
--   p2p/conflicts_resolver.go                  P2p/Conflicts
--   mirror/mirror.go                           Mirror (Consult), Mirror/Apply (Mirror)
--   protobuf/message.go, gzip.go, message.pb.go    Protobuf, Protobuf/Wire, Protobuf/Gzip
--   connection/perspective.go, net_op.go       Connection/Perspective, Connection/Frames
--     P2p/Network puts the hosts of a network side by side: Replicate on one, the handlers on the
--     others, and the atomic commit that they are to implement; P2p/Network/Crossing is two hosts that
--     replicate at the same time.
--   connection/connection.go                   Connection/Link (one connection, handleErrors),
--                                              Connection/Listening (Listen, WaitForOpen)
--   connection/pool.go                         Connection/Pool (with what Establish, Close, Recv and
--                                              Send do to the counter of the live connections),
--                                              Connection/Shutdown (handlers and Close),
--                                              Connection/Dialing (dial)
--   connection/backoff.go                      Connection/Backoff
--   connection/errors.go                       Errors, Errors/Messages
--   connection/tlsconf/tlsconf.go, cert/cert.go, quic.go, protocol.go
--                                              Connection/Secure
--   config/config.go, main.go                  Config, Start, Start/Run
--   rfs/fuse.go                                Rfs/Server
--   The parts put together                     System
--     A handler of rfs over the host of the same peer, and the network (System, System/Operations);
--     the same once the host is closed (System/Closed); a message on its way from one peer to listen
--     on another (System/Transport); and the channel of received messages between the connections and
--     the host (System/Receiving).
--
-- FilePaths is filepath.Join of Go's standard library, and Common holds what the files share.
--
-- The host is a machine of events, P2p/Host. An event is what one goroutine does between two waits:
-- Replicate up to its loop (begin_replicate), one message taken by listen and handed over to the
-- process that waits for it (listen), a wait that its context ends (expire), and a process that
-- leaves its loop (leave: end_replicate or end_handler, with the deferred Delete). Events come in
-- any order; what runs inside one is taken to be atomic. A channel of a transaction is unbuffered,
-- so it holds nothing between two events, and a hand-over that nobody waits for blocks the
-- listener. A panic of any goroutine ends the process: an Outcome that panics.
--
-- P2p/Host/Reach are the hosts that a new one becomes by events; P2p/Host/Heard counts with them the
-- messages that each transaction has got.
--
-- The pool is a state with operations. What a connection does under its mutex is one operation, and
-- Establish is two, since another goroutine may come between Resolve and the mutex; Shutdown adds the
-- goroutines of the handlers, whose Add, Load and Add of -1 are steps, and the steps of Close. What
-- the network does (an error, bytes, a status that is read) is an argument of an operation or part of
-- an event.
--
-- Numbers are natural numbers with the wrap-around of uint32 and uint64 written out; the int64
-- fields of a request are kept as their 64-bit patterns, and so are durations and the numbers of
-- float64. A Go map is an association list in its iteration order. A Go string is the list of its
-- bytes. Loops are structural recursion; only the rounds of Close over the connections and those of
-- Listen have fuel, and the theorems on them say how much is enough.
--
-- Parameters, because their code is not in the repository: the operating system (Mirror.Os), go-fuse
-- and syscall under the handlers (Rfs.Root.Loopback), compress/gzip (Protobuf.Gzip.Gzip), the
-- protobuf encoder (Protobuf.Wire.Proto). GzipLaws and ProtoLaws are what the round trips ask of the
-- last two: a reader gives back what was written, and decoding an encoded message gives it back.
-- Mirror.Truncation.FileLaws is what O_TRUNC and WriteAt do to the bytes of a file; a WriteAt of no
-- bytes has no effect. The arithmetic of
-- float64 and math/rand (Connection.Backoff), encoding/json, os, os/user and the validator
-- (Start.World) are parameters too.
-- The result of conn.Broadcast is part of the event in which Replicate calls it.
--
-- crypto/tls and crypto/x509 are parameters as well (Connection.Secure.Pki, and Handshake with
-- HandshakeLaws, which say whose certificates a handshake trusts), and os.MkdirAll with go-fuse's Mount
-- and Unmount (Rfs.Server.Fuse).
--
-- Not modelled: the contexts and their timeouts, but for the errors that they give; the declaration
-- of the command line's flags; idFromStat; logging; the allocation of the buffer that recv makes
-- for the size in a header, which panics for a size that no memory holds; a call of Backoff.Next on
-- a timer whose tick has not been received; and the reflection code of message.pb.go. The text of
-- an error is kept only where it is sent to a peer and in MultiErr; errors that are wrapped are
-- their causes. In System, the whole of a call of Replicate is one step of its handler, with the
-- answers that arrive meanwhile.
pub mod Common
pub mod Protobuf
pub mod Errors
pub mod Config
pub mod Start
pub mod FilePaths
pub mod P2p
pub mod Mirror
pub mod Rfs
pub mod Connection
pub mod System
