-- ===== src/Discovery.antt =====
-- services/discovery/internal/grpc/handler.go and internal/matcher/matcher.go, over the registry.
-- `int` has 64 bits.
pub mod Endpoint
pub mod Lapsed
pub mod Limit
pub mod Matcher
pub mod Peers
pub mod Refused
use gordion_vpn.Base.{
  ℕ, Bool, true, false, ◌||◌, not, Option, none, some, List, [], ◌∷◌, ◌++◌, map, length, take, drop,
  if◌then◌else◌, ltb,
}
use gordion_vpn.Base.Bytes.{GoString, str, str_eq, is_empty}
use gordion_vpn.Base.Int.{ℤ, pos, negsuc}
use gordion_vpn.Grpc.{
  GoError, status, statusf, invalid_argument, unauthenticated, internal, not_found, Result, ok, err,
}
use gordion_vpn.Auth.{IdentityCall, resolve_node_id, extract_token}
use gordion_vpn.Redis.{Redis}
use gordion_vpn.Registry.{Peer, Json, register, heartbeat, list_online_peers}
use Endpoint.{endpoint, parse_endpoint}

pub record RegisterPeerRequest : Type 0 where
  pub token : GoString
  pub ip_address : GoString
  pub port : ℤ
  pub peer_id : GoString
  pub p2p_addrs : List GoString
  pub is_exit_node : Bool

-- The peer of `ListPeers`' answer.
pub record ListedPeer : Type 0 where
  pub node_id : GoString
  pub ip_address : GoString
  pub port : ℤ
  pub region : GoString
  pub peer_id : GoString
  pub p2p_addrs : List GoString
  pub is_exit_node : Bool
  pub last_seen : ℕ

-- The peer that a request registers; `last_seen` is set by the registry.
unfoldable pub new_peer : GoString → RegisterPeerRequest → Peer
new_peer node req = record {
  node_id = node;
  public_key = [];
  endpoint = endpoint req.ip_address req.port;
  version = str "1.0.0";
  peer_id = req.peer_id;
  p2p_addrs = req.p2p_addrs;
  is_exit_node = req.is_exit_node;
  last_seen = 0;
}

unfoldable pub listed : Peer → ListedPeer
listed p =
    let e = parse_endpoint p.endpoint in
    record {
      node_id = p.node_id;
      ip_address = e.0;
      port = e.1;
      region = p.version;
      peer_id = p.peer_id;
      p2p_addrs = p.p2p_addrs;
      is_exit_node = p.is_exit_node;
      last_seen = p.last_seen;
    }

-- `protoPeers[:limit]`, with a limit that is out of range taken for none.
unfoldable pub limited : ℤ → List ListedPeer → List ListedPeer
limited (negsuc n) ps = ps
limited (pos n) ps = if not (ltb 0 n) || ltb (length ps) n then ps else take n ps

-- `strings.TrimPrefix`.
unfoldable pub trim_prefix : GoString → GoString → GoString
trim_prefix prefix s = if str_eq (take (length prefix) s) prefix then drop (length prefix) s else s

-- `tokenFromMetadata`: the first value of the header, without "Bearer ".
unfoldable pub token_from_metadata : Option (List GoString) → GoString
unfolding trim_prefix extract_token
token_from_metadata md = trim_prefix (str "Bearer ") (extract_token md)

auth_error : GoError → GoError
auth_error e = statusf unauthenticated (str "auth failed") e

module _ (r : Redis) (ttl : ℕ) (auth : Option IdentityCall) where
  open r use {State}

  registered : State × Result (Unit {0}) → State × Result (Unit {0})
  registered (s, ok u) = (s, ok u)
  registered (s, err e) = (s, err (statusf internal (str "register failed") e))

  register_as :
      Json → ℕ → ℕ → RegisterPeerRequest → Result GoString → State → State × Result (Unit {0})
  unfolding registered auth_error
  register_as j clock now req (err e) s = (s, err (auth_error e))
  register_as j clock now req (ok node) s =
      registered (register r ttl j clock now (new_peer node req) s)

  unfoldable pub register_peer :
      Json → ℕ → ℕ → RegisterPeerRequest → State → State × Result (Unit {0})
  unfolding register_as
  register_peer j clock now req s =
      if is_empty req.token
      then (s, err (status invalid_argument (str "token is required")))
      else if is_empty req.ip_address
      then (s, err (status invalid_argument (str "ip_address is required")))
      else register_as j clock now req (resolve_node_id auth req.token) s

  answer : ℤ → State × Result (List Peer) → State × Result (List ListedPeer)
  answer limit (s, ok ps) = (s, ok (limited limit (map listed ps)))
  answer limit (s, err e) = (s, err (statusf internal (str "list peers failed") e))

  list_as : Json → ℕ → ℤ → Result GoString → State → State × Result (List ListedPeer)
  unfolding answer auth_error
  list_as j now limit (err e) s = (s, err (auth_error e))
  list_as j now limit (ok node) s = answer limit (list_online_peers r ttl j now s)

  unfoldable pub list_peers :
      Json → ℕ → Option (List GoString) → ℤ → State → State × Result (List ListedPeer)
  unfolding list_as
  list_peers j now md limit s =
      if is_empty (token_from_metadata md)
      then (s, err (status unauthenticated (str "authorization token required")))
      else list_as j now limit (resolve_node_id auth (token_from_metadata md)) s

  beaten : State × Result (Unit {0}) → State × Result ℕ
  beaten (s, ok u) = (s, ok 30)
  beaten (s, err e) = (s, err (statusf not_found (str "heartbeat failed") e))

  heartbeat_as : ℕ → ℕ → Result GoString → State → State × Result ℕ
  unfolding beaten auth_error
  heartbeat_as now later (err e) s = (s, err (auth_error e))
  heartbeat_as now later (ok node) s = beaten (heartbeat r ttl now later node s)

  -- The answer has the time to live that the service tells the agent, 30 seconds.
  unfoldable pub handle_heartbeat : ℕ → ℕ → GoString → State → State × Result ℕ
  unfolding heartbeat_as
  handle_heartbeat now later token s =
      if is_empty token
      then (s, err (status invalid_argument (str "token is required")))
      else heartbeat_as now later (resolve_node_id auth token) s
