-- ===== src/ConfigService/Tests.antt =====
-- The config service's theorems at concrete requests, and runs that follow the source.
use gordion_vpn.Base.{◌≡◌, refl, true, false, some, List, [], ◌∷◌, arith, if◌then◌else◌, ◌==◌}
use gordion_vpn.Base.Bytes.{str}
use gordion_vpn.Base.Int.{pos}
use gordion_vpn.Grpc.{ok, err, foreign}
use gordion_vpn.Auth.{IdentityCall, resolve_node_id, validate_token}
use gordion_vpn.Allocator.{new}
use gordion_vpn.Allocator.Ip.{Network}
use gordion_vpn.Redis.Store.{empty}
use gordion_vpn.Redis.Memory.{memory}
use gordion_vpn.Settings.Servers.{ConfigServer}
use gordion_vpn.ConfigService.Server.{Signal, hangup, serve, serve_keeps_allocations}
use gordion_vpn.ConfigService.{request_ip, ConfigHandler, new_config_handler, get_config}
use gordion_vpn.ConfigService.Versions.{Settings, reload_all, answer_after, get_config-reloads}

abbrev net : Network
net = record { base = 10 ∷ 8 ∷ 0 ∷ 0 ∷ []; prefix_len = 16 }

-- An identity service that knows two tokens.
abbrev identity : IdentityCall
identity [] = ok (record { valid = false; node_id = [] })
identity (c ∷ cs) =
    if c == 65
    then ok (record { valid = true; node_id = str "a" })
    else if c == 66
    then ok (record { valid = true; node_id = str "b" })
    else ok (record { valid = false; node_id = [] })

abbrev first : Settings
first = record { cidr = str "10.8.0.0/16"; mtu = pos 1420; dns = str "1.1.1.1" ∷ [] }

abbrev second : Settings
second = record { cidr = str "10.8.0.0/16"; mtu = pos 1380; dns = str "1.1.1.1" ∷ [] }

abbrev handler : ConfigHandler
handler = new_config_handler (new net) (some identity) first.cidr first.mtu first.dns

accepted_a : resolve_node_id (some identity) (str "A") ≡ ok (str "a")
unfolding resolve_node_id validate_token
accepted_a = refl

get_config-reloads_example :
    let h' = reload_all (second ∷ []) (reload_all [] handler) in
    get_config (str "A") (reload_all [] handler).config_version h'
    ≡ ok (answer_after (second ∷ []) h')
get_config-reloads_example =
    get_config-reloads (new net) (some identity) first (str "A") (str "a") [] (second ∷ []) refl
      accepted_a (omega arith)

abbrev other_network : ConfigServer
other_network = record {
  grpc_port = pos 8003;
  network_cidr = str "10.9.0.0/16";
  mtu = pos 1420;
  dns_servers = [];
  redis_url = [];
  log_level = [];
}

abbrev signals : List Signal
signals = hangup (err (foreign (str "yaml"))) ∷ hangup (ok other_network) ∷ []

serve_keeps_allocations_example :
    ((serve signals handler).0.network_cidr ≡ str "10.9.0.0/16")
    × (request_ip memory 0 (str "A") (str "a") (serve signals handler).0 (empty [])
        ≡ request_ip memory 0 (str "A") (str "a") handler (empty []))
serve_keeps_allocations_example =
    serve_keeps_allocations memory signals 0 (str "A") (str "a") handler (empty [])
