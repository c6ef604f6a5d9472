-- ===== src/Server/Tests.antt =====
-- Runs of the servers' chain and start-up, and the theorems over them.
use gordion_vpn.Base.{
  ℕ, ◌+◌, ◌≡◌, refl, Bool, true, false, Option, none, some, List, [], ◌∷◌, if◌then◌else◌, leb,
}
use gordion_vpn.Base.Bytes.{GoString, str, str_eq}
use gordion_vpn.Base.Int.{pos}
use gordion_vpn.Grpc.{
  GoError, Code, not_found, unavailable, status, statusf, foreign, plain, wrap, ok, err,
}
use gordion_vpn.Limiter
use gordion_vpn.Limiter.{Limiter, allow, answer, intercept, client_key}
use gordion_vpn.Auth.{IdentityCall, ValidateTokenResponse}
use gordion_vpn.Redis.Store.{empty}
use gordion_vpn.Redis.Memory.{memory}
use gordion_vpn.Registry.{Json}
use gordion_vpn.Discovery.{RegisterPeerRequest, register_peer, handle_heartbeat, list_peers}
use gordion_vpn.Discovery.Refused.{IsRefused}
use gordion_vpn.Allocator.{new}
use gordion_vpn.Allocator.Ip.{Network}
use gordion_vpn.ConfigService.{ConfigHandler, new_config_handler, request_ip}
use gordion_vpn.Settings.Servers.{ConfigServer, DiscoveryServer, IdentityServer}
use gordion_vpn.Server.Trace.{hex_encode, trace_of, trace_id_from_context}
use gordion_vpn.Server.{new_monitor, Call}
use gordion_vpn.Server.Chain.{Service, serve_all, alone, told_all, tally, serve_all-alone}
use gordion_vpn.Server.Health.{HealthServer, serving, not_serving, check}
use gordion_vpn.Server.Startup.{
  plaintext, tls, Environment, cert_file, loaded_tls, server_credentials, choose_transport, Dialled,
  dialled, new_client, kept, auth_client, Running, bound, secured, opened, identity_main,
  discovery_main, config_main,
}
use gordion_vpn.Server.Locked.{Wire, NeedsTls, asks, tls_locks_out}

abbrev codes : GoError → Option Code
codes (status c text) = some c
codes (statusf c text e) = some c
codes (plain text) = none
codes (wrap text e) = none
codes (foreign text) = none

abbrev texts : Code → GoString
texts c = str "error"

-- A client's three calls within a minute, of which the limiter lets two through: the service counts
-- its calls, and does not know the second.
abbrev call_at : ℕ → Call
call_at now = record {
  peer = some (str "10.0.0.1:50000");
  method = str "/Get";
  incoming = some (str "abc" ∷ []);
  trace_bytes = 1 ∷ 171 ∷ [];
  request_bytes = 255 ∷ [];
  now = now;
  logged_from = 0;
  measured_from = 1;
  measured_to = 3;
  logged_to = 4;
}

abbrev counting : Service ℕ GoString
counting ctx n =
    (n + 1, if leb 1 n then err (status not_found (str "gone")) else ok (trace_id_from_context ctx))

abbrev calls : List (Call × Service ℕ GoString)
calls = (call_at 10, counting) ∷ (call_at 20, counting) ∷ (call_at 30, counting) ∷ []

abbrev limiter : Limiter
limiter = Limiter.new 2 60

serve_all-alone_example :
    let p = serve_all codes texts (str "config") calls limiter (0, new_monitor) in
    let q = alone codes texts (str "config") calls limiter 0 in
    (p.0.0 ≡ q.0)
    × (p.1 ≡ told_all codes texts (str "config") q.1)
    × (p.0.1.active_connections ≡ new_monitor.active_connections)
    × (p.0.1.requests_total (str "/Get") (str "success")
        ≡ new_monitor.requests_total (str "/Get") (str "success")
          + tally codes texts (str "config") (str "/Get") (str "success") q.1)
serve_all-alone_example =
    serve_all-alone codes texts (str "config") calls limiter 0 new_monitor (str "/Get")
      (str "success")

two_reached : (alone codes texts (str "config") calls limiter 0).0 ≡ 2
unfolding alone allow Limiter.new client_key str_eq
two_reached = refl

-- `hex.EncodeToString` of the bytes 1 and 171.
new_trace : trace_of (1 ∷ 171 ∷ []) none ≡ str "01ab"
unfolding trace_of hex_encode
new_trace = refl

abbrev health : Bool → HealthServer
health up = record { service_name = str "config"; checker = some (λ u. up) }

checks :
    (check (health true) [] ≡ ok serving)
    × (check (health false) (str "config") ≡ ok not_serving)
    × (check (health true) (str "identity") ≡ err (status not_found (str "unknown service")))
unfolding check str_eq
checks = (refl, refl, refl)

abbrev no_errors : Environment
no_errors = record {
  getenv = λ name. [];
  exists_file = λ file. true;
  load_key_pair = λ cert key. none;
  read_file = λ file. ok [];
  is_pem = λ pem. true;
  new_grpc_client = λ addr. none;
  listen = λ port. none;
}

abbrev identity_config : IdentityServer
identity_config = record {
  grpc_port = pos 8001;
  database_url = str "db";
  log_level = str "info";
  jwt_secret = str "secret";
  token_duration = pos 24;
  network_secret = [];
}

abbrev discovery_config : DiscoveryServer
discovery_config = record {
  grpc_port = pos 8002;
  redis_url = str "redis";
  log_level = str "info";
  heartbeat_ttl = pos 30;
}

abbrev config_config : ConfigServer
config_config = record {
  grpc_port = pos 8003;
  network_cidr = str "10.8.0.0/16";
  mtu = pos 1420;
  dns_servers = [];
  redis_url = str "redis";
  log_level = str "info";
}

abbrev cert : GoString
cert = str "../../certs/server-cert.pem"

abbrev key : GoString
key = str "../../certs/server-key.pem"

abbrev dialled_identity : Option Dialled
dialled_identity = some (record { addr = str "localhost:8001"; ca_file = none })

abbrev identity_server : Running IdentityServer
identity_server = record { config = identity_config; transport = tls cert key; identity = none }

abbrev discovery_server : Running DiscoveryServer
discovery_server = record {
  config = discovery_config;
  transport = tls cert key;
  identity = dialled_identity;
}

abbrev config_server : Running ConfigServer
config_server = record {
  config = config_config;
  transport = tls cert key;
  identity = dialled_identity;
}

identity_starts : identity_main no_errors (ok identity_config) none ≡ ok identity_server
unfolding identity_main opened secured bound choose_transport loaded_tls server_credentials
    cert_file
identity_starts = refl

discovery_starts : discovery_main no_errors (ok discovery_config) none ≡ ok discovery_server
unfolding discovery_main opened secured bound choose_transport loaded_tls server_credentials
    cert_file auth_client new_client dialled kept
discovery_starts = refl

config_starts : config_main no_errors (ok config_config) none ≡ ok config_server
unfolding config_main opened secured bound choose_transport loaded_tls server_credentials cert_file
    auth_client new_client dialled kept
config_starts = refl

-- A connection on which TLS has to meet TLS.
abbrev wire : Wire
wire plaintext none call = call
wire plaintext (some ca) call = λ token. err (status unavailable (str "first record"))
wire (tls c k) none call = λ token. err (status unavailable (str "connection closed"))
wire (tls c k) (some ca) call = call

wire_needs : NeedsTls wire
wire_needs c k call token = (_, refl)

abbrev everyone : IdentityCall
everyone = λ token.
    let yes_a : ValidateTokenResponse = record { valid = true; node_id = str "a" } in ok yes_a

abbrev names : Json
names = record { marshal = λ p. some p.node_id; unmarshal = λ t. none }

abbrev request : RegisterPeerRequest
request = record {
  token = str "jwt";
  ip_address = str "10.8.0.2";
  port = pos 51820;
  peer_id = [];
  p2p_addrs = [];
  is_exit_node = false;
}

abbrev net : Network
net = record { base = 10 ∷ 8 ∷ 0 ∷ 0 ∷ []; prefix_len = 16 }

abbrev handler : ConfigHandler
handler =
    new_config_handler (new net) (asks wire (tls cert key) everyone dialled_identity)
      (str "10.8.0.0/16") (pos 1420) []

asked : handler.auth_client ≡ asks wire identity_server.transport everyone config_server.identity
unfolding new_config_handler
asked = refl

tls_locks_out_example :
    let auth = asks wire (tls cert key) everyone dialled_identity in
    IsRefused (empty []) (register_peer memory 30 auth names 500 100 request (empty []))
    × IsRefused (empty []) (handle_heartbeat memory 30 auth 500 100 (str "jwt") (empty []))
    × IsRefused
        (empty [])
        (list_peers memory 30 auth names 100 (some (str "jwt" ∷ [])) (pos 50) (empty []))
    × IsRefused (empty []) (request_ip memory 100 (str "jwt") (str "a") handler (empty []))
unfolding cert_file
tls_locks_out_example =
    tls_locks_out wire wire_needs everyone no_errors no_errors no_errors (ok identity_config) none
      (ok discovery_config) (ok config_config) none none identity_server discovery_server
      config_server memory 30 names 500 100 request (some (str "jwt" ∷ [])) (pos 50) (str "jwt")
      (str "a") handler (empty []) refl (λ addr. refl) (λ addr. refl) identity_starts
      discovery_starts config_starts asked
