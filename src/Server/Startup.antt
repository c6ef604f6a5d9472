-- ===== src/Server/Startup.antt =====
-- `main` of the three servers, services/*/cmd/server/main.go, up to the signals: what ends the
-- start, and what a server that serves has been given. Calls of the libraries and of the file
-- system are parameters. `logger.Fatalf` and `os.Exit` end the process.
use gordion_vpn.Base.{Bool, Option, none, some, [], if◌then◌else◌}
use gordion_vpn.Base.Bytes.{GoString, str, is_empty}
use gordion_vpn.Base.Int.{ℤ}
use gordion_vpn.Grpc.{GoError, plain, wrap, Result, ok, err}
use gordion_vpn.Settings.Servers.{ConfigServer, DiscoveryServer, IdentityServer}

-- The certificate and the key that a server shows, or none.
pub data Transport : Type 0 where
  plaintext : Transport
  tls : GoString → GoString → Transport

-- `os.Getenv`, whether `os.Stat` finds a file, `os.ReadFile`, `AppendCertsFromPEM`, and the errors of
-- `tls.LoadX509KeyPair`, `grpc.NewClient` and `net.Listen` on a port.
pub record Environment : Type 0 where
  pub getenv : GoString → GoString
  pub exists_file : GoString → Bool
  pub load_key_pair : GoString → GoString → Option GoError
  pub read_file : GoString → Result GoString
  pub is_pem : GoString → Bool
  pub new_grpc_client : GoString → Option GoError
  pub listen : ℤ → Option GoError

abbrev pub or_default : GoString → GoString → GoString
or_default s d = if is_empty s then d else s

-- `tlsutil.ServerCredentials`.
unfoldable pub server_credentials : Environment → GoString → GoString → Option GoError
server_credentials env cert key = elim (env.load_key_pair cert key) [
  | none ↦ none
  | some e ↦ some (wrap (str "failed to load server cert") e)
]

-- The file of the certificate.
unfoldable pub cert_file : Environment → GoString
cert_file env = or_default (env.getenv (str "TLS_CERT")) (str "../../certs/server-cert.pem")

unfoldable pub loaded_tls : GoString → GoString → Option GoError → Result Transport
loaded_tls cert key none = ok (tls cert key)
loaded_tls cert key (some e) = err (wrap (str "Failed to load TLS") e)

-- The transport of a server: TLS exactly if the file of the certificate is there.
unfoldable pub choose_transport : Environment → Result Transport
unfolding loaded_tls server_credentials cert_file
choose_transport env =
    let cert = cert_file env in
    let key = or_default (env.getenv (str "TLS_KEY")) (str "../../certs/server-key.pem") in
    if env.exists_file cert
    then loaded_tls cert key (server_credentials env cert key)
    else ok plaintext

-- A connection to the identity service: its address, and the file of the certificates that the
-- client trusts, none for a connection without TLS.
pub record Dialled : Type 0 where
  pub addr : GoString
  pub ca_file : Option GoString

unfoldable pub dialled : GoString → Option GoString → Option GoError → Result Dialled
dialled addr ca none = ok (record { addr = addr; ca_file = ca })
dialled addr ca (some e) = err (wrap (str "failed to connect to identity service") e)

with_credentials : Environment → GoString → GoString → Option GoError → Result Dialled
unfolding dialled
with_credentials env addr ca none = dialled addr (some ca) (env.new_grpc_client addr)
with_credentials env addr ca (some e) = err (wrap (str "failed to load TLS creds") e)

pem_error : Environment → Result GoString → Option GoError
pem_error env (err e) = some (wrap (str "failed to read CA cert") e)
pem_error env (ok pem) =
    if env.is_pem pem then none else some (plain (str "failed to parse CA cert"))

-- `tlsutil.ClientCredentials`.
unfoldable pub client_credentials : Environment → GoString → Option GoError
unfolding pem_error
client_credentials env ca = pem_error env (env.read_file ca)

-- `auth.NewClient`.
unfoldable pub new_client : Environment → GoString → GoString → Result Dialled
unfolding with_credentials dialled
new_client env addr ca =
    if is_empty ca
    then dialled addr none (env.new_grpc_client addr)
    else with_credentials env addr ca (client_credentials env ca)

unfoldable pub kept : Result Dialled → Option Dialled
kept (ok d) = some d
kept (err e) = none

-- A client that cannot be made is left out, with a warning.
unfoldable pub auth_client : Environment → Option Dialled
unfolding new_client kept
auth_client env =
    let addr = or_default (env.getenv (str "IDENTITY_ADDR")) (str "localhost:8001") in
    kept (new_client env addr [])

-- A server that serves: its configuration, its transport and its client of the identity service.
pub record Running (C : Type 0) : Type 0 where
  pub config : C
  pub transport : Transport
  pub identity : Option Dialled

unfoldable pub bound :
    {C : Type 0} → C → Option Dialled → Transport → Option GoError → Result (Running C)
bound c d t none = ok (record { config = c; transport = t; identity = d })
bound c d t (some e) = err (wrap (str "Failed to listen") e)

unfoldable pub secured :
    {C : Type 0} → Environment → ℤ → C → Option Dialled → Result Transport → Result (Running C)
unfolding bound
secured env port c d (err e) = err e
secured env port c d (ok t) = bound c d t (env.listen port)

unfoldable pub opened :
    {C : Type 0}
    → GoString
    → Environment
    → ℤ
    → C
    → Option Dialled
    → Option GoError
    → Result (Running C)
unfolding secured
opened text env port c d (some e) = err (wrap text e)
opened text env port c d none = secured env port c d (choose_transport env)

-- Each `main`, with what its loader answers, and the error of opening its store.
unfoldable pub identity_main :
    Environment → Result IdentityServer → Option GoError → Result (Running IdentityServer)
unfolding opened
identity_main env (err e) store = err (wrap (str "Failed to load config") e)
identity_main env (ok c) store =
    opened (str "Failed to connect to database") env c.grpc_port c none store

unfoldable pub discovery_main :
    Environment → Result DiscoveryServer → Option GoError → Result (Running DiscoveryServer)
unfolding opened
discovery_main env (err e) redis = err (wrap (str "Failed to load config") e)
discovery_main env (ok c) redis =
    opened (str "Failed to connect to Redis") env c.grpc_port c (auth_client env) redis

unfoldable pub config_main :
    Environment → Result ConfigServer → Option GoError → Result (Running ConfigServer)
unfolding opened
config_main env (err e) redis = err (wrap (str "Failed to load config") e)
config_main env (ok c) redis =
    opened (str "Failed to initialize allocator") env c.grpc_port c (auth_client env) redis
