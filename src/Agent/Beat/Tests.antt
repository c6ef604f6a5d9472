-- ===== src/Agent/Beat/Tests.antt =====
-- An agent that has lost its key, over a Redis server in memory.
use gordion_vpn.Base.{
  ◌+◌, ◌*◌, ◌≡◌, ◌≢◌, refl, true, false, Option, some, List, [], ◌∷◌, ◌++◌, map, length, inl, arith,
  All,
}
use gordion_vpn.Base.Bytes.{GoString, str, str_eq}
use gordion_vpn.Grpc.{ok, err}
use gordion_vpn.Auth.{IdentityCall, ValidateTokenResponse, resolve_node_id, validate_token, checked}
use gordion_vpn.Redis.{failed}
use gordion_vpn.Redis.Store.{
  mem_get, mem_exists, mem_smembers, mem_sadd, mem_set, mem_srem, empty, Store,
}
use gordion_vpn.Redis.Memory.{memory}
use gordion_vpn.Registry.{
  Peer, Json, peer_key, peer_not_found, register, heartbeat, get_peer, exist_all, cleanup_stale,
  sweep,
}
use gordion_vpn.Registry.Peers.{is_member}
use gordion_vpn.Registry.Cleaner.{clean_loop, clean_tick, cleanup_interval, Carried}
use gordion_vpn.Discovery.{handle_heartbeat}
use gordion_vpn.Agent.{heartbeat_tick}
use gordion_vpn.Agent.Beat.{Event, IsLate, beats, registers, Loop, on_event, run, count_beats, beat}
use gordion_vpn.Agent.Lapse.{lapse_is_final}
use gordion_vpn.Agent.Unlisted.{between, cleanup_unlists_lapsed}

abbrev relay : GoString → Peer
relay node = record {
  node_id = node;
  public_key = [];
  endpoint = str "10.8.0.2:51820";
  version = str "1.0.0";
  peer_id = [];
  p2p_addrs = [];
  is_exit_node = false;
  last_seen = 500;
}

abbrev names : Json
names = record { marshal = λ p. some p.node_id; unmarshal = λ t. some (relay t) }

abbrev a_valid : ValidateTokenResponse
a_valid = record { valid = true; node_id = str "a" }

abbrev auth : Option IdentityCall
auth = some (λ token. ok a_valid)

token_of_a : resolve_node_id auth (str "jwt") ≡ ok (str "a")
unfolding resolve_node_id validate_token checked
token_of_a = refl

-- `a` registers at 100, for 30 seconds; its heartbeat at 125 gets lost, and the key is gone at 130.
abbrev started : Store
started = (register memory 30 names 500 100 (relay (str "a")) (empty [])).0

abbrev loop : Loop memory 30 auth names
loop = record { failures = 1; sleeps = 1; store = started }

-- The heartbeat at 150 reaches the service, the one at 175 does not, and `b` registers.
abbrev events : List Event
events =
    beats (str "jwt") true true 150 150
    ∷ registers 600 160 (relay (str "b"))
    ∷ beats (str "jwt") false true 175 175
    ∷ []

events-IsLate : All (IsLate memory 30 auth names 130 (str "a")) events
unfolding str_eq
events-IsLate = (
  (omega arith, omega arith, inl token_of_a),
  (refl, ((omega arith, omega arith, inl token_of_a), tt)),
)

answered :
    (mem_get 200 (peer_key (str "a")) (run memory 30 auth names events loop).store).1 ≢ failed
unfolding register mem_set mem_sadd mem_exists mem_get run on_event beat handle_heartbeat heartbeat
    resolve_node_id validate_token checked heartbeat_tick str_eq
answered e = cc

lapse_is_final_example :
    ((run memory 30 auth names events loop).failures
      ≡ loop.failures + count_beats memory 30 auth names events)
    × ((get_peer memory 30 names 200 (str "a") (run memory 30 auth names events loop).store).1
        ≡ err (peer_not_found (str "a")))
unfolding register mem_set mem_sadd str_eq
lapse_is_final_example =
    lapse_is_final memory 30 auth names 130 (str "a") events loop 200 refl events-IsLate
      (omega arith) answered

-- The tick at 140 is the third; nothing happens before it.
abbrev quiet : List (List Event)
quiet = [] ∷ [] ∷ []

tick-Carried :
    Carried memory 30
      (20 + length (map (between memory 30 auth names) quiet) * cleanup_interval 30)
      (str "a" ∷ [])
      (false ∷ [])
      (clean_loop memory 30 (map (between memory 30 auth names) quiet) 20 started).0
unfolding cleanup_interval clean_loop clean_tick between run register mem_set mem_sadd mem_smembers
    mem_exists mem_srem exist_all cleanup_stale sweep str_eq
tick-Carried = record { listed = refl; told = refl; done = (refl, tt) }

cleanup_unlists_lapsed_example :
    let steps =
      map (between memory 30 auth names) quiet ++ (between memory 30 auth names events ∷ []) in
    is_member memory 30 (clean_loop memory 30 steps 20 started).0 (str "a") ≡ false
unfolding register mem_set mem_sadd str_eq cleanup_interval
cleanup_unlists_lapsed_example =
    cleanup_unlists_lapsed memory 30 auth names 130 (str "a") quiet [] events 20 started
      (str "a" ∷ []) (false ∷ []) (tt, (tt, tt)) events-IsLate tt refl (omega arith) tick-Carried
