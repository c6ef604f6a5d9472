-- ===== src/Registry.antt =====
-- services/discovery/internal/registry/registry.go over Redis. The encoding of a peer as JSON is
-- the standard library's, so a parameter; the Prometheus gauges and `Ping` are not modelled.
pub mod Peers
pub mod Absent
pub mod Alive
pub mod Cleaner
pub mod Gauges
pub mod Gone
pub mod Listing
pub mod Stale
pub mod Sweeps
mod Tests
use gordion_vpn.Base.{ℕ, ◌+◌, ◌≡◌, Bool, true, false, Option, none, some, List, [], ◌∷◌, ◌++◌}
use gordion_vpn.Base.Bytes.{GoString, str}
use gordion_vpn.Grpc.{GoError, plain, wrap, foreign, Result, ok, err}
use gordion_vpn.Redis.{Redis, Reply, found, missing, failed}

abbrev pub peer_key : GoString → GoString
peer_key node = str "peer:" ++ node

abbrev pub peers_set_key : GoString
peers_set_key = str "peers:online"

pub record Peer : Type 0 where
  pub node_id : GoString
  pub public_key : GoString
  pub endpoint : GoString
  pub version : GoString
  pub peer_id : GoString
  pub p2p_addrs : List GoString
  pub is_exit_node : Bool
  pub last_seen : ℕ

-- `json.Marshal` and `json.Unmarshal` of a peer.
pub record Json : Type 0 where
  pub marshal : Peer → Option GoString
  pub unmarshal : GoString → Option Peer

-- What `json` promises of a peer whose strings are valid UTF-8: what it writes, it reads back.
pub record IsReadable (j : Json) (p : Peer) : Type 0 where
  pub text : GoString
  pub written : j.marshal p ≡ some text
  pub read : j.unmarshal text ≡ some p

abbrev pub redis_error : GoError
redis_error = foreign (str "redis")

abbrev pub stamped : ℕ → Peer → Peer
stamped clock p = record p { last_seen = clock }

abbrev pub peer_not_found : GoString → GoError
peer_not_found node = plain (str "peer not found: " ++ node)

module _ (r : Redis) (ttl : ℕ) where
  open r use {State, get, exists, set, del, expire, sadd, srem, smembers}

  pub finish : GoError → State × Bool → State × Result (Unit {0})
  finish e (s, true) = (s, ok tt)
  finish e (s, false) = (s, err e)

  finish_set : GoString → State × Bool → State × Result (Unit {0})
  unfolding finish
  finish_set node (s, true) =
      finish (wrap (str "redis sadd error") redis_error) (sadd peers_set_key node s)
  finish_set node (s, false) = (s, err (wrap (str "redis set error") redis_error))

  register_text : ℕ → GoString → Option GoString → State → State × Result (Unit {0})
  unfolding finish_set
  register_text now node none s = (s, err (wrap (str "marshal error") (foreign (str "json"))))
  register_text now node (some text) s = finish_set node (set now (peer_key node) text ttl s)

  -- `clock` is the service's clock, in seconds, and `now` the server's.
  unfoldable pub register : Json → ℕ → ℕ → Peer → State → State × Result (Unit {0})
  unfolding register_text
  register j clock now p s = register_text now p.node_id (j.marshal (stamped clock p)) s

  after_exists : ℕ → GoString → State × Reply Bool → State × Result (Unit {0})
  unfolding finish
  after_exists now node (s, found true) =
      finish (wrap (str "redis expire error") redis_error) (expire now (peer_key node) ttl s)
  after_exists now node (s, found false) = (s, err (peer_not_found node))
  after_exists now node (s, missing) = (s, err (wrap (str "redis exists error") redis_error))
  after_exists now node (s, failed) = (s, err (wrap (str "redis exists error") redis_error))

  -- The two commands of `Heartbeat` reach the server at `now` and `later`.
  unfoldable pub heartbeat : ℕ → ℕ → GoString → State → State × Result (Unit {0})
  unfolding after_exists
  heartbeat now later node s = after_exists later node (exists now (peer_key node) s)

  after_del : GoString → State × Bool → State × Result (Unit {0})
  unfolding finish
  after_del node (s, true) =
      finish (wrap (str "redis srem error") redis_error) (srem peers_set_key node s)
  after_del node (s, false) = (s, err (wrap (str "redis del error") redis_error))

  unfoldable pub unregister : GoString → State → State × Result (Unit {0})
  unfolding after_del
  unregister node s = after_del node (del (peer_key node) s)

  pub decoded : Option Peer → Result Peer
  decoded none = err (wrap (str "unmarshal error") (foreign (str "json")))
  decoded (some p) = ok p

  pub read_peer : Json → GoString → Reply GoString → Result Peer
  unfolding decoded
  read_peer j node (found text) = decoded (j.unmarshal text)
  read_peer j node missing = err (peer_not_found node)
  read_peer j node failed = err (wrap (str "redis get error") redis_error)

  unfoldable pub get_peer : Json → ℕ → GoString → State → State × Result Peer
  unfolding read_peer
  get_peer j now node s = let p = get now (peer_key node) s in (p.0, read_peer j node p.1)

  -- One round of the loop of `ListOnlinePeers`: a peer that cannot be read is taken off the set.
  pub after_get : GoString → State × Result Peer → State
  after_get node (s, ok p) = s
  after_get node (s, err e) = (srem peers_set_key node s).0

  pub keep : Result Peer → List Peer → List Peer
  keep (ok p) ps = p ∷ ps
  keep (err e) ps = ps

  unfoldable pub list_members : Json → ℕ → List GoString → State → State × List Peer
  unfolding after_get keep
  list_members j now [] s = (s, [])
  list_members j now (node ∷ nodes) s =
      let p = get_peer j now node s in
      let rest = list_members j now nodes (after_get node p) in (rest.0, keep p.1 rest.1)

  list_of : Json → ℕ → State × Reply (List GoString) → State × Result (List Peer)
  list_of j now (s, found nodes) = let p = list_members j now nodes s in (p.0, ok p.1)
  list_of j now (s, missing) = (s, err (wrap (str "redis smembers error") redis_error))
  list_of j now (s, failed) = (s, err (wrap (str "redis smembers error") redis_error))

  unfoldable pub list_online_peers : Json → ℕ → State → State × Result (List Peer)
  unfolding list_of
  list_online_peers j now s = list_of j now (smembers peers_set_key s)

  flag : Reply Bool → Option (List Bool) → Option (List Bool)
  flag (found b) (some bs) = some (b ∷ bs)
  flag (found b) none = none
  flag missing bs = none
  flag failed bs = none

  -- The pipeline of `EXISTS` commands: every answer, or the error of the whole.
  unfoldable pub exist_all : ℕ → List GoString → State → State × Option (List Bool)
  unfolding flag
  exist_all now [] s = (s, some [])
  exist_all now (node ∷ nodes) s =
      let p = exists now (peer_key node) s in
      let rest = exist_all now nodes p.0 in (rest.0, flag p.1 rest.1)

  -- The loop of `CleanupStale`, with the number of members removed.
  unfoldable pub sweep : List GoString → List Bool → State → State × ℕ
  sweep [] bs s = (s, 0)
  sweep (node ∷ nodes) [] s = (s, 0)
  sweep (node ∷ nodes) (true ∷ bs) s = sweep nodes bs s
  sweep (node ∷ nodes) (false ∷ bs) s =
      let p = sweep nodes bs (srem peers_set_key node s).0 in (p.0, p.1 + 1)

  sweep_found : List GoString → State × Option (List Bool) → State × Result ℕ
  sweep_found nodes (s, some bs) = let p = sweep nodes bs s in (p.0, ok p.1)
  sweep_found nodes (s, none) = (s, err (wrap (str "pipeline exec error") redis_error))

  clean_members : ℕ → State × Reply (List GoString) → State × Result ℕ
  unfolding sweep_found
  clean_members now (s, found []) = (s, ok 0)
  clean_members now (s, found (node ∷ nodes)) =
      sweep_found (node ∷ nodes) (exist_all now (node ∷ nodes) s)
  clean_members now (s, missing) = (s, err (wrap (str "redis smembers error") redis_error))
  clean_members now (s, failed) = (s, err (wrap (str "redis smembers error") redis_error))

  unfoldable pub cleanup_stale : ℕ → State → State × Result ℕ
  unfolding clean_members
  cleanup_stale now s = clean_members now (smembers peers_set_key s)
