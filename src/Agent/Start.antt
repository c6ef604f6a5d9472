-- ===== src/Agent/Start.antt =====
-- `Start` and `Stop` of services/agent/internal/agent/agent.go: what the agent has done, in order,
-- and where it ends. What each call answers is an argument. The pings in the background and the
-- three loops are not part of a start.
use gordion_vpn.Base.{
  ℕ, Bool, true, false, not, ◌&&◌, Option, none, some, List, [], ◌∷◌, ◌++◌, if◌then◌else◌,
}
use gordion_vpn.Base.Bytes.{GoString, str, str_eq, is_empty}
use gordion_vpn.Grpc.{GoError, wrap, Result, ok, err}
use gordion_vpn.Discovery.{ListedPeer}
use gordion_vpn.Base.Decimal.{digits}
use gordion_vpn.Settings
use gordion_vpn.WireGuard
use gordion_vpn.WireGuard.Keys.{KeyPair}
use gordion_vpn.Agent.{Keys, put, Registered}

pub record Network : Type 0 where
  pub cidr : GoString
  pub mtu : ℕ
  pub dns_servers : List GoString

pub record Granted : Type 0 where
  pub ip : GoString
  pub subnet : GoString

-- `register` is what `retryRegister` comes to; `proxy_port` is what `GetPeerInfo` and
-- `GetProxyPort` say of an address; `mask_size` is `net.ParseIP` and `net.IPMask.Size`.
pub record Answers : Type 0 where
  pub p2p : Option GoError
  pub bridge : Option GoError
  pub keys : Result KeyPair
  pub register : Result Registered
  pub network : Result Network
  pub request_ip : Result Granted
  pub announce : Option GoError
  pub enable_error : Option GoError
  pub discover : Result (List ListedPeer)
  pub peer_key : GoString → Option GoString
  pub proxy_port : GoString → Option ℕ
  pub mask_size : GoString → Option ℕ
  pub configure_error : Option GoError

-- What the calls of `Stop` return, and whether the commands of the gateway's `Disable` all work: on
-- Linux it returns no error when one does not.
pub record StopAnswers : Type 0 where
  pub release_error : Option GoError
  pub down_error : Option GoError
  pub close_p2p_error : Option GoError
  pub disable_error : Option GoError
  pub rules_go : Bool

-- The fields of `Agent` that `Start` sets.
pub record Agent : Type 0 where
  pub has_p2p : Bool
  pub has_bridge : Bool
  pub public_key : GoString
  pub node_id : GoString
  pub token : GoString
  pub expires_at : ℕ
  pub vpn_ip : GoString
  pub active_peers : Keys

abbrev pub new_agent : Agent
new_agent = record {
  has_p2p = false;
  has_bridge = false;
  public_key = [];
  node_id = [];
  token = [];
  expires_at = 0;
  vpn_ip = [];
  active_peers = [];
}

-- The calls that change something outside the agent. Where the agent goes on after an error, the call
-- comes with the error that it returns.
pub data Action : Type 0 where
  opens_p2p opens_bridge : Action
  requests_ip : GoString → GoString → GoString → Action  -- token, node, the address granted
  updates_cli_state : GoString → GoString → Action
  announces : GoString → Action
  enables_gateway : Option GoError → Action
  configures : WireGuard.Config → Option GoError → Action
  releases_ip : GoString → GoString → GoString → Option GoError → Action
  takes_tunnel_down closes_p2p : Option GoError → Action
  disables_gateway : Option GoError → Bool → Action
  closes_bridge closes_client : Action

pub data Ending : Type 0 where
  running : Ending
  failed : GoError → Ending
  panicked : Ending  -- an index out of range

abbrev pub Run : Type 0
Run = Agent × (List Action × Ending)

abbrev pub after : Action → Run → Run
after a (agent, (actions, ending)) = (agent, (a ∷ actions, ending))

abbrev pub ending_with : GoError → Agent → Run
ending_with e agent = (agent, ([], failed e))

-- The peers that `Start` gives to WireGuard: `none` when it panics.
abbrev pub with_port :
    ListedPeer
    → GoString
    → Option ℕ
    → Keys × List WireGuard.PeerConfig
    → Keys × List WireGuard.PeerConfig
with_port p key none rest = rest
with_port p key (some port) (active, configs) =
    let config : WireGuard.PeerConfig = record {
      public_key = key;
      endpoint = str "127.0.0.1:" ++ digits 20 port;
      allowed_ips = p.ip_address ++ str "/32";
    } in
    (put p.node_id key active, config ∷ configs)

abbrev pub with_addrs :
    Answers
    → ListedPeer
    → GoString
    → List GoString
    → Option (Keys × List WireGuard.PeerConfig)
    → Option (Keys × List WireGuard.PeerConfig)
with_addrs a p key [] rest = none
with_addrs a p key (addr ∷ addrs) none = none
with_addrs a p key (addr ∷ addrs) (some rest) = some (with_port p key (a.proxy_port addr) rest)

abbrev pub with_key :
    Answers
    → ListedPeer
    → Option GoString
    → Option (Keys × List WireGuard.PeerConfig)
    → Option (Keys × List WireGuard.PeerConfig)
with_key a p none rest = rest
with_key a p (some key) rest = with_addrs a p key p.p2p_addrs rest

-- A node that is listed twice has one key, so the order in which the peers are entered is free.
unfoldable pub start_peers :
    Answers → GoString → List ListedPeer → Option (Keys × List WireGuard.PeerConfig)
start_peers a self [] = some ([], [])
start_peers a self (p ∷ ps) =
    let rest = start_peers a self ps in
    if str_eq p.node_id self then rest else with_key a p (a.peer_key p.node_id) rest

abbrev pub joined : List GoString → GoString
joined [] = []
joined (s ∷ []) = s
joined (s ∷ t ∷ ts) = s ++ str ", " ++ joined (t ∷ ts)

-- `maskToCIDR`.
unfoldable pub mask_to_cidr : Option ℕ → ℕ
mask_to_cidr none = 24
mask_to_cidr (some ones) = ones

abbrev pub listed : Result (List ListedPeer) → List ListedPeer
listed (ok peers) = peers
listed (err e) = []

module _ (cfg : Settings.Config) (port : ℕ) (a : Answers) where
  abbrev pub wg_config : KeyPair → Network → Granted → List WireGuard.PeerConfig → WireGuard.Config
  wg_config keys net ip peers = record {
    private_key = keys.private_key;
    listen_port = port;
    address = ip.ip ++ str "/" ++ digits 20 (mask_to_cidr (a.mask_size ip.subnet));
    mtu = net.mtu;
    dns = if cfg.use_exit_node then cfg.exit_node_dns else joined net.dns_servers;
    peers = peers;
  }

  abbrev pub peered :
      KeyPair → Network → Granted → Agent → Option (Keys × List WireGuard.PeerConfig) → Run
  peered keys net ip agent none = (agent, ([], panicked))
  peered keys net ip agent (some (active, configs)) = (
    record agent { active_peers = active },
    (configures (wg_config keys net ip configs) a.configure_error ∷ [], running),
  )

  abbrev pub with_gateway : Run → Run
  with_gateway run = if cfg.is_exit_node then after (enables_gateway a.enable_error) run else run

  abbrev pub announced : KeyPair → Network → Granted → Agent → Option GoError → Run
  announced keys net ip agent (some e) = ending_with e agent
  announced keys net ip agent none =
      let found = start_peers a agent.node_id (listed a.discover) in
      after (announces ip.ip) (with_gateway (peered keys net ip agent found))

  abbrev pub addressed : KeyPair → Network → Agent → Result Granted → Run
  addressed keys net agent (err e) = ending_with e agent
  addressed keys net agent (ok ip) = after (requests_ip agent.token agent.node_id ip.ip) (
      after (updates_cli_state ip.ip agent.token)
        (announced keys net ip (record agent { vpn_ip = ip.ip }) a.announce))

  abbrev pub networked : KeyPair → Agent → Result Network → Run
  networked keys agent (err e) = ending_with e agent
  networked keys agent (ok net) = addressed keys net agent a.request_ip

  abbrev pub registered : KeyPair → Agent → Result Registered → Run
  registered keys agent (err e) = ending_with e agent
  registered keys agent (ok r) =
      networked keys
        (record agent { node_id = r.node_id; token = r.token; expires_at = r.expires_at }) a.network

  abbrev pub keyed : Agent → Result KeyPair → Run
  keyed agent (err e) = ending_with e agent
  keyed agent (ok keys) = registered keys (record agent { public_key = keys.public_key }) a.register

  abbrev pub bridged : Agent → Option GoError → Run
  bridged agent (some e) = ending_with (wrap (str "failed to create bridge") e) agent
  bridged agent none = after opens_bridge (keyed (record agent { has_bridge = true }) a.keys)

  abbrev pub hosted : Option GoError → Run
  hosted (some e) = ending_with (wrap (str "failed to start p2p host") e) new_agent
  hosted none = after opens_p2p (bridged (record new_agent { has_p2p = true }) a.bridge)

  unfoldable pub start : Run
  start = hosted a.p2p

abbrev pub only_if : Bool → Action → List Action → List Action
only_if true a actions = a ∷ actions
only_if false a actions = actions

-- `Stop`, when the loops have ended. It logs an error and goes on.
unfoldable pub stop : Settings.Config → StopAnswers → Agent → List Action
stop cfg a agent =
    only_if (not (is_empty agent.vpn_ip) && not (is_empty agent.token))
      (releases_ip agent.token agent.node_id agent.vpn_ip a.release_error)
      (takes_tunnel_down a.down_error
        ∷ only_if agent.has_bridge closes_bridge (
            only_if agent.has_p2p (closes_p2p a.close_p2p_error) (
              only_if cfg.is_exit_node (disables_gateway a.disable_error a.rules_go)
                (closes_client ∷ []))))
