-- ===== src/Start/Run.antt =====
-- main.go: run, from the host's choice to the signal that ends the program.
use replicated_file_system.Common.{
  ◌≡◌, refl, true, ap, ◌∙◌, ◌≢◌, Option, none, some, List, [], ◌∷◌, ◌++◌, Text, map, inl, inr,
  Outcome, returns, ◌>>=◌,
}
use replicated_file_system.Errors.{Cause}
use replicated_file_system.Protobuf.Gzip.{Level}
use replicated_file_system.Config.{
  Config, Connection, Peer, Popped, Paths, Started, goes_on, exits, crashes, ◌>>>◌,
}
use replicated_file_system.Config.Pop.{IsUnlisted}
use replicated_file_system.Connection.Pool.{Pool, new_pool}
use replicated_file_system.Connection.Secure.{Pki, TlsConfig, default_tls, pool_tls}
use replicated_file_system.P2p.Host.{Host}
use replicated_file_system.P2p.Host.Steps.{new_host}
use replicated_file_system.Rfs.Server.{Fuse, Server, new_server, mount, close_server}
use replicated_file_system.Start.{FlagValues, World, setup, choose_host, start, close_each, logged}
use replicated_file_system.Start.Choice.{start_listed}

-- The program once it waits for a signal: the state of the system, and what it has made.
pub record Program (pki : Pki) (W S : Type 0) : Type 0 where
  pub system : S
  pub host : Host W
  pub pool : Pool
  pub tls : TlsConfig pki
  pub server : Server

-- Pool.Run up to its listener: quic.ListenAddr on the host's address.
unfoldable pub listening : {S : Type 0} → S × Option Cause → Started S
listening (s, none) = goes_on s
listening (s, some e) = exits

-- A field behind a pointer that may be nil, like the FuseDir that is logged first.
unfoldable pub crashes_if_none : {A : Type 0} → Option A → Started A
crashes_if_none none = crashes
crashes_if_none (some a) = goes_on a

-- The TLS settings of a connection that may be nil.
unfoldable pub tls_of : (pki : Pki) → Option Connection → Started (TlsConfig pki)
unfolding default_tls
tls_of pki none = crashes
tls_of pki (some connection) = default_tls pki connection.tls

module _ {W S : Type 0} (pki : Pki) (fuse : Fuse S)
    (listen_addr : S → Text → S × Option Cause) where
  -- Mount, whose error run returns; main ends the program on it.
  unfoldable pub mounted_program : Program pki W S → Started (Program pki W S)
  unfolding mount
  mounted_program p =
      let (s, server, e) = mount fuse p.server p.system in
      elim e [ none ↦ goes_on (record p { system = s; server = server }) | some x ↦ exits ]

  -- run, up to the signal.
  unfoldable pub run_app : FlagValues → Config → W → S → Started (Program pki W S)
  unfolding crashes_if_none choose_host tls_of new_pool pool_tls new_host listening new_server
      mounted_program
  run_app flags conf disk s = crashes_if_none conf.paths >>> λ paths.
      choose_host flags conf >>> λ chosen. tls_of pki conf.connection >>> λ tls.
      let pool = new_pool (map (λ (peer : Peer). peer.name) chosen.sliced) in
      let host = new_host chosen.peer chosen.sliced disk conf.replication_timeout in
      listening (listen_addr s chosen.peer.address) >>> λ s'.
      new_server fuse (some paths) s' >>> λ (s'', server).
      mounted_program (record {
        system = s'';
        host = host;
        pool = pool;
        tls = pool_tls pool tls;
        server = server;
      })

  -- main: the flags, setup, and run. It ends the process on an error of either.
  unfoldable pub main : World → FlagValues → W → S → Started (Program pki W S)
  unfolding run_app
  main w flags disk s = setup w flags >>> λ r. elim r [
    | inl e ↦ exits
    | inr (conf, level) ↦ run_app flags conf disk s
  ]

  -- The second closer of closeOnSignal.
  unfoldable pub server_closer : Program pki W S → Outcome (Program pki W S × Option Cause)
  unfolding close_server
  server_closer p =
      close_server fuse p.server p.system >>= λ (s, e). returns (record p { system = s }, e)

  -- closeOnSignal(p2pHost, server), for what Host.Close does.
  unfoldable pub shut_down :
      (Program pki W S → Outcome (Program pki W S × Option Cause))
      → Program pki W S
      → Outcome (Program pki W S × List Cause)
  unfolding close_each server_closer
  shut_down close_host p = close_each (close_host ∷ server_closer ∷ []) p

  -- The program that has started.
  abbrev pub started : Config → Peer → List Peer → TlsConfig pki → Paths → W → S → Program pki W S
  started conf peer others tls paths disk s = record {
    system = s;
    host = new_host peer others disk conf.replication_timeout;
    pool = new_pool (map (λ (p : Peer). p.name) others);
    tls = pool_tls (new_pool (map (λ (p : Peer). p.name) others)) tls;
    server = record {
      fuse_dir = paths.fuse_dir;
      rfs_root = record { root_path = paths.mirror_dir; path = [] };
      mounted = true;
    };
  }

  run_chosen :
      (flags : FlagValues) (conf : Config) (p : Popped) (connection : Connection)
      (tls : TlsConfig pki) (paths : Paths) (disk : W) (s s1 s2 s3 : S)
      → choose_host flags conf ≡ goes_on p
      → conf.connection ≡ some connection
      → default_tls pki connection.tls ≡ goes_on tls
      → conf.paths ≡ some paths
      → listen_addr s p.peer.address ≡ (s1, none)
      → fuse.mkdir_all s1 paths.fuse_dir ≡ (s2, none)
      → fuse.mount s2 paths.fuse_dir (record { root_path = paths.mirror_dir; path = [] })
        ≡ (s3, none)
      → run_app flags conf disk s ≡ goes_on (started conf p.peer p.sliced tls paths disk s3)
  unfolding run_app crashes_if_none tls_of listening new_server mounted_program mount
  run_chosen flags conf p connection tls paths disk s s1 s2 s3 chosen conn made ps listens made_dir
        mounts =
      rw
        (
          ps, crashes_if_none, chosen, conn, tls_of, made, listens, new_server, made_dir,
          mounted_program, mount, mounts,
        )
        (rw (mount, mounts) refl)

  -- The first thing that closeOnSignal does is Close of the host; whatever error that gives, the file
  -- system is then unmounted.
  shut_down_lem :
      (close_host : Program pki W S → Outcome (Program pki W S × Option Cause))
      (p closed : Program pki W S) (e : Option Cause)
      → close_host p ≡ returns (closed, e)
      → closed.server.mounted ≡ true
      → shut_down close_host p
        ≡ returns (
          record closed { system = (fuse.unmount closed.system).0 },
          logged e ++ (logged (fuse.unmount closed.system).1 ++ []),
        )
  unfolding shut_down close_each server_closer close_server
  shut_down_lem close_host p closed e q up = rw (q, up, close_server) refl

  -- With a configuration that setup accepts and that lists a peer of the flag's name, and a system
  -- that has the certificates and lets the program listen, make its directory and mount: the program
  -- starts with a new host of that peer and a dead connection to each of the others, and serves the
  -- mirror directory. On a signal it closes the host, and then, whatever error that gives, it unmounts
  -- the file system.
  pub main_listed :
      (w : World) (flags : FlagValues) (conf : Config) (level : Level) (before : List Peer)
      (peer : Peer) (rest : List Peer) (connection : Connection) (tls : TlsConfig pki)
      (paths : Paths) (disk : W) (s s1 s2 s3 : S)
      (close_host : Program pki W S → Outcome (Program pki W S × Option Cause))
      (closed : Program pki W S) (e : Option Cause)
      → setup w flags ≡ goes_on (inr (conf, level))
      → conf.peers ≡ before ++ (peer ∷ rest)
      → IsUnlisted flags.name before
      → peer.name ≡ flags.name
      → flags.name ≢ []
      → conf.connection ≡ some connection
      → default_tls pki connection.tls ≡ goes_on tls
      → conf.paths ≡ some paths
      → listen_addr s peer.address ≡ (s1, none)
      → fuse.mkdir_all s1 paths.fuse_dir ≡ (s2, none)
      → fuse.mount s2 paths.fuse_dir (record { root_path = paths.mirror_dir; path = [] })
        ≡ (s3, none)
      → close_host (started conf peer (before ++ rest) tls paths disk s3) ≡ returns (closed, e)
      → closed.server.mounted ≡ true
      → (main w flags disk s ≡ goes_on (started conf peer (before ++ rest) tls paths disk s3))
        × (shut_down close_host (started conf peer (before ++ rest) tls paths disk s3)
            ≡ returns (
              record closed { system = (fuse.unmount closed.system).0 },
              logged e ++ (logged (fuse.unmount closed.system).1 ++ []),
            ))
  unfolding main start
  main_listed w flags conf level before peer rest connection tls paths disk s s1 s2 s3 close_host
        closed e ready peers before_is_not same given conn made ps listens made_dir mounts q up =
      let (p, begun, at, others) =
        start_listed w flags conf level before peer rest ready peers before_is_not same given in
      let chosen =
        run_chosen flags conf p connection tls paths disk s s1 s2 s3 (rw (ready, start) at begun)
          conn made ps (ap (λ (x : Peer). listen_addr s x.address) at ∙ listens) made_dir mounts in
      (
        rw ready (
            chosen
            ∙ (ap (λ x. goes_on (started conf x p.sliced tls paths disk s3)) at
                ∙ ap (λ x. goes_on (started conf peer x tls paths disk s3)) others)),
        shut_down_lem close_host _ closed e q up,
      )
