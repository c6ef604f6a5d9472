-- ===== src/Agent/Ends.antt =====
-- What a start leaves, and what a stop takes back.
use gordion_vpn.Base.{
  ℕ, ◌≡◌, refl, subst, Bool, true, false, Option, none, some, List, [], ◌∷◌, arith, if◌then◌else◌,
}
use gordion_vpn.Base.Bytes.{GoString, str_eq, is_empty, str_eq_refl}
use gordion_vpn.Grpc.{GoError, Result, ok, err}
use gordion_vpn.Settings
use gordion_vpn.WireGuard
use gordion_vpn.WireGuard.Keys.{KeyPair}
use gordion_vpn.Agent.{Keys, Registered}
use gordion_vpn.Agent.Start.{
  Network, Granted, Answers, StopAnswers, Agent, new_agent, Action, opens_p2p, opens_bridge,
  requests_ip, updates_cli_state, announces, enables_gateway, configures, releases_ip,
  takes_tunnel_down, closes_bridge, closes_p2p, disables_gateway, closes_client, running, failed,
  ending_with, Run, after, start_peers, listed, peered, with_gateway, announced, addressed,
  networked, registered, keyed, bridged, hosted, start, stop,
}

-- The rules and the forwarding of the gateway. Where a command of `Enable` or `Disable` failed, some
-- of them may be there; `Disable` does nothing after an `Enable` that failed.
pub data GatewayState : Type 0 where
  off on partly_on : GatewayState

-- What is open outside the agent, or may be.
pub record Open : Type 0 where
  pub host : Bool
  pub bridge : Bool
  pub gateway : GatewayState
  pub tunnel : Bool
  pub address : Option GoString

abbrev pub nothing : Open
nothing = record { host = false; bridge = false; gateway = off; tunnel = false; address = none }

abbrev enabled : Option GoError → GatewayState
enabled none = on
enabled (some e) = partly_on

abbrev disabled : Option GoError → Bool → GatewayState → GatewayState
disabled none true on = off
disabled none false on = partly_on
disabled (some e) _ on = partly_on
disabled _ _ partly_on = partly_on
disabled _ _ off = off

-- A call that fails may leave open what it was to close.
abbrev closed_by : Option GoError → Bool → Bool
closed_by none b = false
closed_by (some e) b = b

abbrev given_back : GoString → Option GoString → Option GoString
given_back ip none = none
given_back ip (some held) = if str_eq ip held then none else some held

abbrev released : Option GoError → GoString → Option GoString → Option GoString
released none ip held = given_back ip held
released (some e) ip held = held

abbrev pub apply : Action → Open → Open
apply opens_p2p o = record o { host = true }
apply opens_bridge o = record o { bridge = true }
apply (requests_ip token node ip) o = record o { address = some ip }
apply (updates_cli_state ip token) o = o
apply (announces ip) o = o
apply (enables_gateway e) o = record o { gateway = enabled e }
apply (configures cfg e) o = record o { tunnel = true }
apply (releases_ip token node ip e) o = record o { address = released e ip o.address }
apply (takes_tunnel_down e) o = record o { tunnel = closed_by e o.tunnel }
apply closes_bridge o = record o { bridge = false }
apply (closes_p2p e) o = record o { host = closed_by e o.host }
apply (disables_gateway e works) o = record o { gateway = disabled e works o.gateway }
apply closes_client o = o

unfoldable pub applied : List Action → Open → Open
applied [] o = o
applied (a ∷ actions) o = applied actions (apply a o)

abbrev pub is_failed : Option GoError → Bool
is_failed none = false
is_failed (some e) = true

-- The gateway, off for a node that is no exit node, and otherwise if nothing failed in `Enable` and
-- `Disable`.
abbrev pub gateway_left : Bool → Option GoError → Option GoError → Bool → GatewayState
gateway_left true none none true = off
gateway_left true _ _ _ = partly_on
gateway_left false _ _ _ = off

-- What failing calls leave of an agent with address `ip`.
abbrev pub left : Settings.Config → Answers → StopAnswers → GoString → Open
left cfg a f ip = record {
  host = is_failed f.close_p2p_error;
  bridge = false;
  gateway = gateway_left cfg.is_exit_node a.enable_error f.disable_error f.rules_go;
  tunnel = is_failed f.down_error;
  address = if is_failed f.release_error then some ip else none;
}

module _ (cfg : Settings.Config) (a : Answers) (f : StopAnswers) where
  -- If the run ends well, then a stop closes what is open after it, but for what failing calls leave.
  abbrev IsUndone : Open → Run → Type 0
  IsUndone o (agent, (actions, ending)) =
      ending ≡ running
      → is_empty agent.vpn_ip ≡ false
      → is_empty agent.token ≡ false
      → applied (stop cfg f agent) (applied actions o) ≡ left cfg a f agent.vpn_ip

  after-IsUndone :
      (a : Action) (o : Open) (run : Run) → IsUndone (apply a o) run → IsUndone o (after a run)
  unfolding applied
  after-IsUndone a o run u = u

  abbrev up_to : GatewayState → GoString → Open
  up_to gateway ip = record {
    host = true;
    bridge = true;
    gateway = gateway;
    tunnel = false;
    address = some ip;
  }

  abbrev gateway_of : Bool → GatewayState
  gateway_of true = enabled a.enable_error
  gateway_of false = off

  module _ (port : ℕ) where
    peered-IsUndone :
        (keys : KeyPair) (net : Network) (ip : Granted) (agent : Agent)
        (found : Option (Keys × List WireGuard.PeerConfig))
        → agent.vpn_ip ≡ ip.ip
        → agent.has_p2p ≡ true
        → agent.has_bridge ≡ true
        → IsUndone
            (up_to (gateway_of cfg.is_exit_node) ip.ip)
            (peered cfg port a keys net ip agent found)
    unfolding applied stop
    peered-IsUndone keys net ip agent none v p b e x g = cc
    peered-IsUndone keys net ip agent (some (active, configs)) v p b e x g =
        ground (arith, v, p, b, x, g, str_eq_refl ip.ip)

    gated :
        (exits : Bool) (ip : GoString) (run : Run)
        → IsUndone (up_to (gateway_of exits) ip) run
        → IsUndone
            (up_to off ip)
            (if exits then after (enables_gateway a.enable_error) run else run)
    unfolding applied
    gated true ip run u = u
    gated false ip run u = u

    failed-IsUndone : (o : Open) (e : GoError) (agent : Agent) → IsUndone o (ending_with e agent)
    failed-IsUndone o e agent x y g = cc

    announced-IsUndone :
        (keys : KeyPair) (net : Network) (ip : Granted) (agent : Agent) (r : Option GoError)
        → agent.vpn_ip ≡ ip.ip
        → agent.has_p2p ≡ true
        → agent.has_bridge ≡ true
        → IsUndone (up_to off ip.ip) (announced cfg port a keys net ip agent r)
    announced-IsUndone keys net ip agent (some e) v p b = failed-IsUndone _ e agent
    announced-IsUndone keys net ip agent none v p b =
        let found = start_peers a agent.node_id (listed a.discover) in
        let run = peered cfg port a keys net ip agent found in
        let peers = peered-IsUndone keys net ip agent found v p b in
        after-IsUndone (announces ip.ip) (up_to off ip.ip) (with_gateway cfg port a run)
          (gated cfg.is_exit_node ip.ip run peers)

    abbrev listening : Open
    listening = record nothing { host = true; bridge = true }

    addressed-IsUndone :
        (keys : KeyPair) (net : Network) (agent : Agent) (r : Result Granted)
        → agent.has_p2p ≡ true
        → agent.has_bridge ≡ true
        → IsUndone listening (addressed cfg port a keys net agent r)
    unfolding applied
    addressed-IsUndone keys net agent (err e) p b = failed-IsUndone _ e agent
    addressed-IsUndone keys net agent (ok ip) p b =
        announced-IsUndone keys net ip (record agent { vpn_ip = ip.ip }) a.announce refl p b

    networked-IsUndone :
        (keys : KeyPair) (agent : Agent) (r : Result Network)
        → agent.has_p2p ≡ true
        → agent.has_bridge ≡ true
        → IsUndone listening (networked cfg port a keys agent r)
    networked-IsUndone keys agent (err e) p b = failed-IsUndone _ e agent
    networked-IsUndone keys agent (ok net) p b = addressed-IsUndone keys net agent a.request_ip p b

    registered-IsUndone :
        (keys : KeyPair) (agent : Agent) (r : Result Registered)
        → agent.has_p2p ≡ true
        → agent.has_bridge ≡ true
        → IsUndone listening (registered cfg port a keys agent r)
    registered-IsUndone keys agent (err e) p b = failed-IsUndone _ e agent
    registered-IsUndone keys agent (ok r) p b = networked-IsUndone keys _ a.network p b

    keyed-IsUndone :
        (agent : Agent) (r : Result KeyPair)
        → agent.has_p2p ≡ true
        → agent.has_bridge ≡ true
        → IsUndone listening (keyed cfg port a agent r)
    keyed-IsUndone agent (err e) p b = failed-IsUndone _ e agent
    keyed-IsUndone agent (ok keys) p b = registered-IsUndone keys _ a.register p b

    bridged-IsUndone :
        (agent : Agent) (r : Option GoError)
        → agent.has_p2p ≡ true
        → IsUndone (record nothing { host = true }) (bridged cfg port a agent r)
    unfolding applied
    bridged-IsUndone agent (some e) p = failed-IsUndone _ _ agent
    bridged-IsUndone agent none p =
        keyed-IsUndone (record agent { has_bridge = true }) a.keys p refl

    hosted-IsUndone : (r : Option GoError) → IsUndone nothing (hosted cfg port a r)
    unfolding applied
    hosted-IsUndone (some e) = failed-IsUndone _ _ new_agent
    hosted-IsUndone none = bridged-IsUndone (record new_agent { has_p2p = true }) a.bridge refl

    -- After a start that ends well, with an address and a token that are not empty, a stop closes the
    -- bridge, and it closes the libp2p host, takes the tunnel down and gives the address back, each
    -- unless the call that does so fails, whatever else fails; what a failing call was to close counts
    -- as open. The gateway of an exit node is off then if `Enable` and `Disable` returned no error and
    -- the commands of `Disable` worked; otherwise part of it may be left.
    pub stop_undoes_start :
        (agent : Agent) (actions : List Action)
        → start cfg port a ≡ (agent, (actions, running))
        → is_empty agent.vpn_ip ≡ false
        → is_empty agent.token ≡ false
        → applied (stop cfg f agent) (applied actions nothing) ≡ left cfg a f agent.vpn_ip
    unfolding start
    stop_undoes_start agent actions e x g =
        subst (λ run. IsUndone nothing run) e (hosted-IsUndone a.p2p) refl x g

    -- A start that fails when it announces itself to the discovery service has been granted an
    -- address, and has not given it back.
    pub failed_start_keeps_ip :
        (keys : KeyPair) (r : Registered) (net : Network) (ip : Granted) (e : GoError)
        → a.p2p ≡ none
        → a.bridge ≡ none
        → a.keys ≡ ok keys
        → a.register ≡ ok r
        → a.network ≡ ok net
        → a.request_ip ≡ ok ip
        → a.announce ≡ some e
        → let (agent, (actions, ending)) = start cfg port a in
          (ending ≡ failed e) × ((applied actions nothing).address ≡ some ip.ip)
    unfolding start applied
    failed_start_keeps_ip keys r net ip e p b k g n i x = rw (p, b, k, g, n, i, x) (refl, refl)
