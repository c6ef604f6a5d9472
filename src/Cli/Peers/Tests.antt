-- ===== src/Cli/Peers/Tests.antt =====
-- `exit-node list` in a network of 101 nodes, of which the last one listed is an exit node.
use gordion_vpn.Base.{
  ℕ, zero, suc, ◌≡◌, refl, Bool, false, none, some, List, [], ◌∷◌, take, drop, All, ◌==◌,
}
use gordion_vpn.Base.Bytes.{GoString, str, str_eq}
use gordion_vpn.Base.Int.{pos}
use gordion_vpn.Grpc.{ok}
use gordion_vpn.Auth.{resolve_node_id, extract_token}
use gordion_vpn.Redis.Store.{Store, mem_get, mem_smembers}
use gordion_vpn.Redis.Memory.{memory}
use gordion_vpn.Registry.{Peer, Json, list_online_peers, list_members, get_peer}
use gordion_vpn.Discovery.{token_from_metadata, trim_prefix}
use gordion_vpn.Settings.Cli.{CliConfig}
use gordion_vpn.Cli.{State, zero_state}
use gordion_vpn.Cli.Peers.{none_found, at_registry, exit_node_list, exit_node_list_misses}

abbrev crowd : ℕ → List GoString
crowd zero = []
crowd (suc n) = (n ∷ []) ∷ crowd n

abbrev is_exit : GoString → Bool
is_exit [] = false
is_exit (b ∷ bs) = b == 0

abbrev peer : GoString → Peer
peer node = record {
  node_id = node;
  public_key = [];
  endpoint = str "10.8.0.2:51820";
  version = str "1.0.0";
  peer_id = [];
  p2p_addrs = [];
  is_exit_node = is_exit node;
  last_seen = 500;
}

abbrev peers_of : List GoString → List Peer
peers_of [] = []
peers_of (n ∷ ns) = peer n ∷ peers_of ns

abbrev store : Store
store = record {
  strings = λ k. some (record { value = k; expires = none });
  sets = λ k. crowd 101;
  fates = [];
}

abbrev names : Json
names = record { marshal = λ p. some p.node_id; unmarshal = λ t. some (peer (drop 5 t)) }

all_online : (list_online_peers memory 30 names 200 store).1 ≡ ok (peers_of (crowd 101))
unfolding list_online_peers list_members get_peer mem_smembers mem_get
all_online = refl

none_of_100 : All (λ p. p.is_exit_node ≡ false) (take 100 (peers_of (crowd 101)))
none_of_100 = (search)

abbrev token : GoString
token = str "observer"

token_of_me : resolve_node_id none (token_from_metadata (some (token ∷ []))) ≡ ok token
unfolding resolve_node_id token_from_metadata trim_prefix extract_token str_eq
token_of_me = refl

abbrev state : State
state = record zero_state { token = token }

abbrev config : CliConfig
config = record {
  identity_addr = str "localhost:8001";
  discovery_addr = str "localhost:8002";
  config_addr = str "localhost:8003";
  network_secret = [];
  tls_ca_cert = [];
  log_level = str "info";
  dry_run = none;
  wire_guard_port = pos 51820;
  p2p_port = pos 4001;
  is_exit_node = false;
  use_exit_node = false;
  exit_node_id = [];
  exit_node_dns = [];
}

reports_none :
    exit_node_list (at_registry memory 30 none names config state 600 200 store) ≡ none_found
unfolding token_from_metadata trim_prefix extract_token str_eq
reports_none =
    exit_node_list_misses memory 30 none names config state 600 200 store token
      (peers_of (crowd 101)) refl refl token_of_me all_online none_of_100
