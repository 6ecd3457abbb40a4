-- ===== src/Mirror/Removal.antt =====
-- Request_RMDIR from mirror/mirror.go to the handler of p2p/host.go that consults it.
use replicated_file_system.Common.{ℕ, suc, ◌≡◌, ap, ◌∙◌, none, some, Text, length, panics}
use replicated_file_system.Common.Dict
use replicated_file_system.Protobuf.{Request, Metadata, rmdir}
use replicated_file_system.P2p.Host
use replicated_file_system.P2p.Host.{Env, Host}
use replicated_file_system.P2p.Host.Machine.{deliver}
use replicated_file_system.P2p.Host.Collect.{NoProcess}
use replicated_file_system.P2p.Host.Ending.{request_message}
use replicated_file_system.P2p.Host.Stray.{nil_opinion_panics}
use replicated_file_system.Mirror.{Os, FileType, found, stat_of}
use replicated_file_system.Mirror.Apply.{new_mirror}
use replicated_file_system.Mirror.Readiness.{consult_rmdir}

-- A host whose disk is behind NewMirror, and that has a peer, panics on a new request to remove a
-- directory whose path is there.
pub removal_panics :
    {W : Type 0} (os : Os W) (dir : Text) (env : Env W) (h : Host W) (tid name : Text) (r : Request)
    (m : Metadata) (t : FileType) (n : ℕ)
    → env.disk_api ≡ new_mirror os dir
    → NoProcess tid h.processes
    → Dict.lookup tid h.transactions ≡ none
    → length h.peers ≡ suc n
    → r.type ≡ rmdir
    → r.metadata ≡ some m
    → stat_of os dir h.disk m.relative_path ≡ found t
    → deliver env (request_message tid name r) h ≡ panics
removal_panics os dir env h tid name r m t n api alone fresh count k e s =
    nil_opinion_panics env h tid alone name r n fresh count
      (ap (λ (a : Host.Mirror _). a.consult h.disk r) api ∙ consult_rmdir os dir h.disk r m t k e s)
