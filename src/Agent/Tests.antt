-- ===== src/Agent/Tests.antt =====
-- The agent's choice of an exit node, and runs that follow the source.
use gordion_vpn.Base.{
  ℕ, zero, suc, ◌≡◌, ◌≢◌, refl, Bool, true, false, none, some, All, arith, List, [], ◌∷◌,
}
use gordion_vpn.Base.Bytes.{GoString, str, str_eq}
use gordion_vpn.Base.Int.{pos}
use gordion_vpn.Grpc.{foreign, Result, ok, err}
use gordion_vpn.Discovery.{ListedPeer}
use gordion_vpn.Agent.{
  Keys, Config, Calls, Registered, choose_exit, exit_node, online_keys, find_listed, port_for,
  allowed_ips, add_peers, remove_peers, sync_peers, retry_from, retry_register, heartbeat_tick,
}
use gordion_vpn.Settings
use gordion_vpn.WireGuard.Keys.{KeyPair}
use gordion_vpn.Agent.Start.{Network, Granted, Answers, StopAnswers, start, stop, start_peers}
use gordion_vpn.Agent.Ends.{applied, nothing, left, stop_undoes_start}
use gordion_vpn.Agent.Route.{default_route, sync_all, active_exit_never_routed}

abbrev peer : GoString → Bool → ListedPeer
peer node exit = record {
  node_id = node;
  ip_address = str "10.8.0.9";
  port = pos 51820;
  region = [];
  peer_id = [];
  p2p_addrs = str "addr" ∷ [];
  is_exit_node = exit;
  last_seen = 0;
}

abbrev listing : List ListedPeer
listing = peer (str "me") true ∷ peer (str "a") false ∷ peer (str "b") true ∷ []

abbrev config : Config
config = record {
  node_id = str "me";
  use_exit_node = true;
  exit_node_id = [];
  network_cidr = str "10.8.0.0/16";
}

picks_b : exit_node config listing ≡ str "b"
unfolding exit_node choose_exit str_eq
picks_b = refl

-- Everything succeeds, and `gone` is no longer listed.
abbrev calls : Calls
calls = record {
  get_peer_public_key = λ node. some node;
  bridge_port = λ addr. 40000;
  wg_add_peer = λ c. true;
  wg_remove_peer = λ key. true;
}

synced :
    (sync_peers config calls (ok listing) ((str "gone", str "gone") ∷ [])).0
    ≡ (str "a", str "a") ∷ (str "b", str "b") ∷ []
unfolding sync_peers exit_node choose_exit online_keys find_listed port_for allowed_ips add_peers
    remove_peers str_eq
synced = refl

abbrev third : ℕ → Result Registered
third zero = err (foreign (str "down"))
third (suc zero) = err (foreign (str "down"))
third (suc (suc n)) = ok (record { node_id = str "id"; token = str "t"; expires_at = 9 })

third_attempt :
    retry_register third (λ i. false)
    ≡ ok (record { node_id = str "id"; token = str "t"; expires_at = 9 })
unfolding retry_register retry_from
third_attempt = refl

backs_off : (heartbeat_tick false 3 ≡ (4, 16)) × (heartbeat_tick false 8 ≡ (9, 60))
unfolding heartbeat_tick
backs_off = (refl, refl)

abbrev settings : Settings.Config
settings = record {
  identity_addr = [];
  discovery_addr = [];
  config_addr = [];
  log_level = [];
  heartbeat = pos 25;
  peer_sync_interval = pos 60;
  dry_run = some true;
  wire_guard_port = pos 51820;
  p2p_port = pos 4001;
  tls_ca_cert = [];
  network_secret = [];
  is_exit_node = true;
  use_exit_node = false;
  exit_node_id = [];
  exit_node_dns = [];
}

abbrev key_pair : KeyPair
key_pair = record { private_key = str "private"; public_key = str "public" }

abbrev registration : Registered
registration = record { node_id = str "me"; token = str "token"; expires_at = 1000 }

abbrev network : Network
network = record {
  cidr = str "10.8.0.0/16";
  mtu = 1420;
  dns_servers = str "1.1.1.1" ∷ str "8.8.8.8" ∷ [];
}

abbrev granted : Granted
granted = record { ip = str "10.8.0.2"; subnet = str "255.255.0.0" }

abbrev answers : Answers
answers = record {
  p2p = none;
  bridge = none;
  keys = ok key_pair;
  register = ok registration;
  network = ok network;
  request_ip = ok granted;
  announce = none;
  enable_error = none;
  discover = ok listing;
  peer_key = λ node. some node;
  proxy_port = λ addr. some 40000;
  mask_size = λ mask. some 16;
  configure_error = none;
}

-- The config service does not answer at the end.
abbrev stop_answers : StopAnswers
stop_answers = record {
  release_error = some (foreign (str "deadline"));
  down_error = none;
  close_p2p_error = none;
  disable_error = none;
  rules_go = true;
}

stop_undoes_start_example :
    applied
      (stop settings stop_answers (start settings 51820 answers).0)
      (applied (start settings 51820 answers).1.0 nothing)
    ≡ left settings answers stop_answers (str "10.8.0.2")
unfolding start start_peers str_eq
stop_undoes_start_example =
    stop_undoes_start settings answers stop_answers 51820 (start settings 51820 answers).0
      (start settings 51820 answers).1.0 refl refl refl

-- `b` is the exit node, and active since the start.
abbrev active_b : Keys
active_b = (str "b", str "b") ∷ []

active_exit_never_routed_example :
    All
      (λ p. p.allowed_ips ≢ default_route)
      (sync_all config ((calls, listing) ∷ (calls, listing) ∷ []) active_b).1
unfolding exit_node choose_exit online_keys str_eq
active_exit_never_routed_example =
    active_exit_never_routed config ((calls, listing) ∷ (calls, listing) ∷ []) (str "b") active_b
      (λ e. ground (arith, e)) refl ((refl, refl), ((refl, refl), tt))
