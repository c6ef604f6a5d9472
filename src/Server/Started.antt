-- ===== src/Server/Started.antt =====
-- What a server of services/*/cmd/server/main.go that serves has been started with.
use gordion_vpn.Base.{◌≡◌, ap, inl, inr, true, Option, none, some, arith, Option-cases}
use gordion_vpn.Base.Bytes.{GoString, str}
use gordion_vpn.Base.Int.{ℤ}
use gordion_vpn.Grpc.{GoError, Result, ok, err}
use gordion_vpn.Settings.Servers.{ConfigServer, DiscoveryServer, IdentityServer}
use gordion_vpn.Server.Startup.{
  Transport, tls, Environment, or_default, server_credentials, cert_file, loaded_tls,
  choose_transport, Dialled, dialled, new_client, kept, auth_client, Running, bound, secured,
  opened, identity_main, discovery_main, config_main,
}

secured-Running :
    {C : Type 0} (env : Environment) (port : ℤ) (c : C) (d : Option Dialled) (t : Result Transport)
    (run : Running C)
    → secured env port c d t ≡ ok run
    → (t ≡ ok run.transport) × (run.identity ≡ d)
unfolding secured bound
secured-Running env port c d (err e) run h = cc
secured-Running env port c d (ok t) run h = elim (Option-cases (env.listen port)) [
  | inl n ↦ ground (arith, h, n)
  | inr (e, n) ↦ ground (arith, h, n)
]

opened-Running :
    {C : Type 0} (text : GoString) (env : Environment) (port : ℤ) (c : C) (d : Option Dialled)
    (store : Option GoError) (run : Running C)
    → opened text env port c d store ≡ ok run
    → (choose_transport env ≡ ok run.transport) × (run.identity ≡ d)
unfolding opened
opened-Running text env port c d (some e) run h = cc
opened-Running text env port c d none run h =
    secured-Running env port c d (choose_transport env) run h

pub identity_main-transport :
    (env : Environment) (cfg : Result IdentityServer) (store : Option GoError)
    (run : Running IdentityServer)
    → identity_main env cfg store ≡ ok run
    → choose_transport env ≡ ok run.transport
unfolding identity_main
identity_main-transport env (err e) store run h = cc
identity_main-transport env (ok c) store run h =
    (opened-Running _ env c.grpc_port c none store run h).0

pub discovery_main-identity :
    (env : Environment) (cfg : Result DiscoveryServer) (redis : Option GoError)
    (run : Running DiscoveryServer)
    → discovery_main env cfg redis ≡ ok run
    → run.identity ≡ auth_client env
unfolding discovery_main
discovery_main-identity env (err e) redis run h = cc
discovery_main-identity env (ok c) redis run h =
    (opened-Running _ env c.grpc_port c (auth_client env) redis run h).1

pub config_main-identity :
    (env : Environment) (cfg : Result ConfigServer) (redis : Option GoError)
    (run : Running ConfigServer)
    → config_main env cfg redis ≡ ok run
    → run.identity ≡ auth_client env
unfolding config_main
config_main-identity env (err e) redis run h = cc
config_main-identity env (ok c) redis run h =
    (opened-Running _ env c.grpc_port c (auth_client env) redis run h).1

loaded_tls-tls :
    (cert key : GoString) (e : Option GoError) (t : Transport)
    → loaded_tls cert key e ≡ ok t
    → t ≡ tls cert key
unfolding loaded_tls
loaded_tls-tls cert key none t h = ground (arith, h)
loaded_tls-tls cert key (some e) t h = cc

pub choose_transport-tls :
    (env : Environment) (t : Transport)
    → env.exists_file (cert_file env) ≡ true
    → choose_transport env ≡ ok t
    → (key : GoString) × (t ≡ tls (cert_file env) key)
unfolding choose_transport
choose_transport-tls env t e h =
    let key = or_default (env.getenv (str "TLS_KEY")) (str "../../certs/server-key.pem") in
    let answer = server_credentials env (cert_file env) key in
    let loaded : loaded_tls (cert_file env) key answer ≡ ok t = ground (arith, h, e) in
    (key, loaded_tls-tls (cert_file env) key answer t loaded)

pub auth_client-dialled :
    (env : Environment)
    → ((addr : GoString) → env.new_grpc_client addr ≡ none)
    → (addr : GoString) × (auth_client env ≡ some (record { addr = addr; ca_file = none }))
unfolding auth_client new_client dialled kept
auth_client-dialled env h =
    let addr = or_default (env.getenv (str "IDENTITY_ADDR")) (str "localhost:8001") in
    (addr, ap (λ e. kept (dialled addr none e)) (h addr))
