-- ===== src/Agent.antt =====
-- services/agent/internal/agent/agent.go: the peer sync, the registration with retries and the
-- heartbeat's back-off. The calls of the services, of WireGuard and of libp2p are parameters: what
-- each answers during one sync. A Go map is an association list; it is walked in its order, where
-- Go's order is any.
pub mod Beat
pub mod Crowd
pub mod Exit
pub mod Start
pub mod Ends
pub mod Lapse
pub mod Refresh
pub mod Route
pub mod Sync
pub mod Unlisted
mod Tests
use gordion_vpn.Base.{
  ℕ, zero, suc, ◌+◌, ◌*◌, Bool, true, false, not, ◌&&◌, ◌||◌, Option, none, some, List, [], ◌∷◌,
  ◌++◌, if◌then◌else◌, ◌==◌, ltb,
}
use gordion_vpn.Base.Bytes.{GoString, str, str_eq, is_empty}
use gordion_vpn.Grpc.{GoError, wrap, foreign, Result, ok, err}
use gordion_vpn.Discovery.{ListedPeer}

abbrev pub Keys : Type 0
Keys = List (GoString × GoString)

pub record Config : Type 0 where
  pub node_id : GoString
  pub use_exit_node : Bool
  pub exit_node_id : GoString
  pub network_cidr : GoString

pub record PeerConfig : Type 0 where
  pub public_key : GoString
  pub proxy_port : ℕ
  pub allowed_ips : GoString

-- `GetPeerPublicKey`; the proxy port that `GetPeerInfo`, `ConnectAndPing` and the bridge's
-- `AddPeer` lead to, 0 if one fails; and whether WireGuard takes a peer, and gives one up.
pub record Calls : Type 0 where
  pub get_peer_public_key : GoString → Option GoString
  pub bridge_port : GoString → ℕ
  pub wg_add_peer : PeerConfig → Bool
  pub wg_remove_peer : GoString → Bool

abbrev pub has_key : Keys → GoString → Bool
has_key [] k = false
has_key ((j, v) ∷ xs) k = str_eq j k || has_key xs k

abbrev delete : GoString → Keys → Keys
delete k [] = []
delete k ((j, v) ∷ xs) = let rest = delete k xs in if str_eq j k then rest else (j, v) ∷ rest

abbrev pub put : GoString → GoString → Keys → Keys
put k v xs = (k, v) ∷ delete k xs

-- The loop that picks the exit node, with the one chosen so far.
unfoldable pub choose_exit : GoString → GoString → List ListedPeer → GoString → GoString
choose_exit wanted self [] chosen = chosen
choose_exit wanted self (p ∷ ps) chosen =
    let skip = choose_exit wanted self ps chosen in
    let take_it = choose_exit wanted self ps p.node_id in
    if not p.is_exit_node || str_eq p.node_id self
    then skip
    else if not (is_empty wanted) && str_eq p.node_id wanted
    then p.node_id
    else if is_empty wanted && is_empty chosen
    then take_it
    else skip

unfoldable pub exit_node : Config → List ListedPeer → GoString
unfolding choose_exit
exit_node cfg peers =
    if cfg.use_exit_node then choose_exit cfg.exit_node_id cfg.node_id peers [] else []

put_found : GoString → Option GoString → Keys → Keys
put_found node none online = online
put_found node (some key) online = put node key online

-- The peers of the listing, without the agent itself and those whose key is not known.
unfoldable pub online_keys : Config → Calls → List ListedPeer → Keys → Keys
unfolding put_found
online_keys cfg c [] online = online
online_keys cfg c (p ∷ ps) online =
    let skip = online_keys cfg c ps online in
    let on = online_keys cfg c ps (put_found p.node_id (c.get_peer_public_key p.node_id) online) in
    if str_eq p.node_id cfg.node_id then skip else on

-- The addresses and the VPN address that the listing has for a node.
unfoldable pub find_listed : GoString → List ListedPeer → List GoString × GoString
find_listed node [] = ([], [])
find_listed node (p ∷ ps) =
    let rest = find_listed node ps in
    if str_eq p.node_id node then (p.p2p_addrs, p.ip_address) else rest

unfoldable pub port_for : Calls → List GoString → ℕ
port_for c [] = 0
port_for c (addr ∷ addrs) = c.bridge_port addr

unfoldable pub allowed_ips : Config → GoString → GoString → GoString → GoString
allowed_ips cfg exit node ip =
    if str_eq node exit
    then str "0.0.0.0/0, ::/0"
    else if is_empty ip
    then cfg.network_cidr
    else ip ++ str "/32"

unfoldable pub add_peers :
    Config → Calls → List ListedPeer → GoString → Keys → Keys → Keys × List PeerConfig
unfolding find_listed port_for allowed_ips
add_peers cfg c peers exit [] active = (active, [])
add_peers cfg c peers exit ((node, key) ∷ online) active =
    let found = find_listed node peers in
    let port = port_for c found.0 in
    let config : PeerConfig = record {
      public_key = key;
      proxy_port = port;
      allowed_ips = allowed_ips cfg exit node found.1;
    } in
    let skip = add_peers cfg c peers exit online active in
    let on = add_peers cfg c peers exit online (put node key active) in
    if has_key active node || (port == 0) || not (c.wg_add_peer config)
    then skip
    else (on.0, config ∷ on.1)

unfoldable pub remove_peers : Calls → Keys → Keys → Keys
remove_peers c online [] = []
remove_peers c online ((node, key) ∷ active) =
    let rest = remove_peers c online active in
    if not (has_key online node) && c.wg_remove_peer key then rest else (node, key) ∷ rest

-- `syncPeers`: the active peers after it, and the configurations it gave to WireGuard.
unfoldable pub sync_peers :
    Config → Calls → Result (List ListedPeer) → Keys → Keys × List PeerConfig
unfolding exit_node online_keys add_peers remove_peers
sync_peers cfg c (err e) active = (active, [])
sync_peers cfg c (ok peers) active =
    let online = online_keys cfg c peers [] in
    let added = add_peers cfg c peers (exit_node cfg peers) online active in
    (remove_peers c online added.0, added.1)

pub record Registered : Type 0 where
  pub node_id : GoString
  pub token : GoString
  pub expires_at : ℕ

after_attempt : ℕ → Bool → Result Registered → Result Registered → Result Registered
after_attempt left cancelled (ok r) again = ok r
after_attempt zero cancelled (err e) again =
    err (wrap (str "registration failed after 5 attempts") e)
after_attempt (suc left) true (err e) again = err (foreign (str "context"))
after_attempt (suc left) false (err e) again = again

-- Attempt `i` of the loop of `retryRegister`, with the attempts left: what `Register` answers to
-- each attempt, and whether the context ends in the wait after it.
unfoldable pub retry_from : (ℕ → Result Registered) → (ℕ → Bool) → ℕ → ℕ → Result Registered
unfolding after_attempt
retry_from register cancelled zero i = err (foreign (str "unreachable"))
retry_from register cancelled (suc left) i =
    let again = retry_from register cancelled left (i + 1) in
    after_attempt left (cancelled i) (register i) again

unfoldable pub retry_register : (ℕ → Result Registered) → (ℕ → Bool) → Result Registered
unfolding retry_from
retry_register register cancelled = retry_from register cancelled 5 0

-- A tick of `heartbeatLoop`: the failures in a row, and the seconds that it sleeps.
unfoldable pub heartbeat_tick : Bool → ℕ → ℕ × ℕ
heartbeat_tick true failures = (0, 0)
heartbeat_tick false failures = let n = failures + 1 in (n, if ltb (n * n) 60 then n * n else 60)
