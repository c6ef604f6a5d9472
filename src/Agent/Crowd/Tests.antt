-- ===== src/Agent/Crowd/Tests.antt =====
-- A network of 51 nodes, over a Redis server in memory.
use gordion_vpn.Base.{
  ℕ, zero, suc, ◌≡◌, refl, true, false, none, some, List, [], ◌∷◌, take, drop, All,
}
use gordion_vpn.Base.Bytes.{GoString, str, str_eq}
use gordion_vpn.Base.Int.{pos}
use gordion_vpn.Grpc.{ok}
use gordion_vpn.Auth.{resolve_node_id}
use gordion_vpn.Redis.Store.{Store, mem_get, mem_smembers}
use gordion_vpn.Redis.Memory.{memory}
use gordion_vpn.Registry.{Peer, Json, list_online_peers, list_members, get_peer}
use gordion_vpn.Discovery.{token_from_metadata, trim_prefix, list_peers}
use gordion_vpn.Auth.{extract_token}
use gordion_vpn.Agent.{Config, Calls, has_key, sync_peers}
use gordion_vpn.Agent.Crowd.{sync_forgets_beyond_limit}

abbrev crowd : ℕ → List GoString
crowd zero = []
crowd (suc n) = (n ∷ []) ∷ crowd n

abbrev peer : GoString → Peer
peer node = record {
  node_id = node;
  public_key = [];
  endpoint = str "10.8.0.2:51820";
  version = str "1.0.0";
  peer_id = [];
  p2p_addrs = [];
  is_exit_node = false;
  last_seen = 500;
}

abbrev peers : List GoString → List Peer
peers [] = []
peers (n ∷ ns) = peer n ∷ peers ns

-- A key holds its own name.
abbrev store : Store
store = record {
  strings = λ k. some (record { value = k; expires = none });
  sets = λ k. crowd 51;
  fates = [];
}

abbrev names : Json
names = record { marshal = λ p. some p.node_id; unmarshal = λ t. some (peer (drop 5 t)) }

all_online : (list_online_peers memory 30 names 200 store).1 ≡ ok (peers (crowd 51))
unfolding list_online_peers list_members get_peer mem_smembers mem_get
all_online = refl

abbrev last : GoString
last = 0 ∷ []

is_last : All (λ p. str_eq p.node_id last ≡ false) (take 50 (peers (crowd 51)))
unfolding str_eq
is_last = (search)

-- Without an identity service, the first eight bytes of the token are the node.
abbrev token : GoString
token = str "observer"

token_of_me : resolve_node_id none (token_from_metadata (some (token ∷ []))) ≡ ok token
unfolding resolve_node_id token_from_metadata trim_prefix extract_token str_eq
token_of_me = refl

abbrev config : Config
config = record {
  node_id = token;
  use_exit_node = false;
  exit_node_id = [];
  network_cidr = str "10.8.0.0/16";
}

abbrev calls : Calls
calls = record {
  get_peer_public_key = λ node. some node;
  bridge_port = λ addr. 40000;
  wg_add_peer = λ c. true;
  wg_remove_peer = λ key. true;
}

-- The last node of the listing is online and an active peer, and the sync removes it.
sync_forgets_beyond_limit_example :
    let answer = (list_peers memory 30 none names 200 (some (token ∷ [])) (pos 50) store).1 in
    has_key (sync_peers config calls answer ((last, last) ∷ [])).0 last ≡ false
unfolding token_from_metadata trim_prefix extract_token str_eq
sync_forgets_beyond_limit_example =
    sync_forgets_beyond_limit memory 30 none names 200 token token last (peers (crowd 51)) config
      calls ((last, last) ∷ []) store refl token_of_me all_online is_last (λ key. refl)
