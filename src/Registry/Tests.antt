-- ===== src/Registry/Tests.antt =====
-- The registry's theorems over a Redis server in memory, and runs that follow the source.
use gordion_vpn.Base.{none, false, ◌⊎◌, ◌≡◌, ◌≢◌, refl, true, false, some, List, [], ◌∷◌, arith}
use gordion_vpn.Base.Bytes.{GoString, str, str_eq}
use gordion_vpn.Grpc.{GoError, ok, err}
use gordion_vpn.Redis.{failed, found, live}
use gordion_vpn.Redis.Store.{
  mem_get, mem_exists, mem_smembers, mem_sadd, mem_set, mem_srem, mem_expire, mem_has, empty, Store,
}
use gordion_vpn.Redis.Memory.{memory}
use gordion_vpn.Registry.{
  peers_set_key, Peer, Json, IsReadable, stamped, peer_key, register, heartbeat, get_peer,
  after_get, read_peer, decoded, list_members, list_online_peers, exist_all, sweep, cleanup_stale,
}
use gordion_vpn.Registry.Peers.{presence, is_member}
use gordion_vpn.Registry.Alive.{stop, beat, Beats-get_peer}
use gordion_vpn.Registry.Listing.{online, peer_of, list_online_peers-online}
use gordion_vpn.Registry.Stale.{is_online, flags, count_stale, cleanup_stale-keeps}

-- An encoding that keeps the node's name only, and so is faithful for this peer.
abbrev relay : GoString → Peer
relay node = record {
  node_id = node;
  public_key = [];
  endpoint = str "10.8.0.2:51820";
  version = str "1.0.0";
  peer_id = [];
  p2p_addrs = [];
  is_exit_node = false;
  last_seen = 500;
}

abbrev names : Json
names = record { marshal = λ p. some p.node_id; unmarshal = λ t. some (relay t) }

relay-IsReadable : (node : GoString) → IsReadable names (stamped 500 (relay node))
relay-IsReadable node = record { text = node; written = refl; read = refl }

abbrev one : Peer
one = relay (str "a")

-- After one registration at time 100, for 30 seconds.
abbrev start : Store
start = (register memory 30 names 500 100 one (empty [])).0

register_ok : (register memory 30 names 500 100 one (empty [])).1 ≡ ok tt
unfolding register mem_set mem_sadd
register_ok = refl

answered_get : (mem_get 129 (peer_key (str "a")) start).1 ≢ failed
unfolding register mem_set mem_sadd mem_get str_eq
answered_get e = cc

-- A heartbeat at 120, which reaches the server in full at 121.
abbrev renewed : Store
renewed = (heartbeat memory 30 120 121 (str "a") start).0

renewed_ok : (heartbeat memory 30 120 121 (str "a") start).1 ≡ ok tt
unfolding register mem_set mem_sadd mem_exists mem_expire heartbeat str_eq
renewed_ok = refl

answered_later : (mem_get 150 (peer_key (str "a")) renewed).1 ≢ failed
unfolding register mem_set mem_sadd mem_get mem_exists mem_expire heartbeat str_eq
answered_later e = cc

Beats-get_peer_example : (get_peer memory 30 names 150 (str "a") renewed).1 ≡ ok (stamped 500 one)
Beats-get_peer_example =
    Beats-get_peer memory 30 names 500 100 121 150 one (empty []) renewed (omega arith)
      (relay-IsReadable (str "a")) register_ok (beat 120 121 (omega arith) renewed_ok stop)
      (omega arith) answered_later

-- At 200 nothing is left of `a`, and `b` has registered.
abbrev both : Store
both = (register memory 30 names 500 190 (relay (str "b")) start).0

abbrev both_names : List GoString
both_names = str "b" ∷ str "a" ∷ []

list_online_peers-online_example :
    let p = list_online_peers memory 30 names 200 both in
    (p.1 ≡ ok (online memory 30 names 200 both both_names))
    × ((k : GoString) → presence memory 30 p.0 k ≡ presence memory 30 both k)
    × ((m : GoString)
        → (is_member memory 30 p.0 m ≡ is_member memory 30 both m)
          ⊎ (peer_of names (live 200 (presence memory 30 both m)) ≡ none))
unfolding register mem_set mem_sadd mem_smembers mem_get get_peer after_get read_peer decoded str_eq
list_online_peers-online_example =
    list_online_peers-online memory 30 names 200 both_names both refl ((λ e. cc), ((λ e. cc), tt))

only_b_online : online memory 30 names 200 both both_names ≡ relay (str "b") ∷ []
unfolding register mem_set mem_sadd online str_eq
only_b_online = refl

a_taken_off : is_member memory 30 (list_online_peers memory 30 names 200 both).0 (str "a") ≡ false
unfolding register mem_set mem_sadd mem_smembers mem_get mem_srem mem_has list_online_peers
    list_members get_peer str_eq
a_taken_off = refl

cleanup_stale-keeps_example :
    let p = cleanup_stale memory 30 200 both in
    ((m : GoString) → presence memory 30 p.0 m ≡ presence memory 30 both m)
    × (((nodes : List GoString) × ((mem_smembers peers_set_key both).1 ≡ found nodes)
          × (p.1 ≡ ok (count_stale memory 30 200 (flags memory 30 200 both nodes))))
        ⊎ ((e : GoError) × (p.1 ≡ err e)))
    × ((m : GoString)
        → (is_member memory 30 p.0 m ≡ is_member memory 30 both m)
          ⊎ (is_online memory 30 200 both m ≡ false))
cleanup_stale-keeps_example = cleanup_stale-keeps memory 30 200 both

one_removed : (cleanup_stale memory 30 200 both).1 ≡ ok 1
unfolding register mem_set mem_sadd mem_smembers mem_exists mem_srem cleanup_stale sweep exist_all
    str_eq
one_removed = refl

sent : memory.carried start ≡ true
unfolding register mem_set mem_sadd
sent = refl
