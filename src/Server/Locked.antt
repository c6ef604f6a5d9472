-- ===== src/Server/Locked.antt =====
-- The servers with TLS, and the calls by which they check tokens. `wire` is what a call comes to
-- between the transport that a server has and the certificates that its client trusts.
use gordion_vpn.Base.{ℕ, ◌≡◌, ◌∙◌, ap, true, Option, none, some, List, [], inr}
use gordion_vpn.Base.Bytes.{GoString}
use gordion_vpn.Base.Int.{ℤ}
use gordion_vpn.Grpc.{GoError, Result, ok, err}
use gordion_vpn.Auth.{IdentityCall, resolve_node_id, validate_token, checked}
use gordion_vpn.Redis.{Redis}
use gordion_vpn.Registry.{Json}
use gordion_vpn.Discovery.{
  RegisterPeerRequest, register_peer, list_peers, token_from_metadata, handle_heartbeat,
}
use gordion_vpn.Discovery.Refused.{
  IsRefused, register_peer-IsRefused, list_peers-IsRefused, handle_heartbeat-IsRefused,
}
use gordion_vpn.ConfigService.{ConfigHandler, request_ip}
use gordion_vpn.ConfigService.Access.{denied_requests_fail}
use gordion_vpn.Settings.Servers.{ConfigServer, DiscoveryServer, IdentityServer}
use gordion_vpn.Server.Startup.{
  Transport, tls, Environment, cert_file, choose_transport, Dialled, auth_client, Running,
  identity_main, discovery_main, config_main,
}
use gordion_vpn.Server.Started.{
  choose_transport-tls, identity_main-transport, discovery_main-identity, config_main-identity,
  auth_client-dialled,
}

abbrev pub Wire : Type 0
Wire = Transport → Option GoString → IdentityCall → IdentityCall

-- A client without TLS gets no answer from a server with TLS.
abbrev pub NeedsTls : Wire → Type 0
NeedsTls wire =
    (cert key : GoString) (call : IdentityCall) (token : GoString)
    → (e : GoError) × (wire (tls cert key) none call token ≡ err e)

-- By what the handlers check tokens, when the identity service has transport `t`.
abbrev pub asks : Wire → Transport → IdentityCall → Option Dialled → Option IdentityCall
asks wire t call none = none
asks wire t call (some d) = some (wire t d.ca_file call)

module _ (wire : Wire) (needs : NeedsTls wire) (call : IdentityCall) where
  asks-err :
      (env env' : Environment) (t : Transport) (d : Option Dialled) (token : GoString)
      → env.exists_file (cert_file env) ≡ true
      → choose_transport env ≡ ok t
      → ((addr : GoString) → env'.new_grpc_client addr ≡ none)
      → d ≡ auth_client env'
      → (e : GoError) × (resolve_node_id (asks wire t call d) token ≡ err e)
  unfolding resolve_node_id validate_token checked
  asks-err env env' t d token here chosen dials same =
      let (key, secure) = choose_transport-tls env t here chosen in
      let (addr, known) = auth_client-dialled env' dials in
      let (e, fails) = needs (cert_file env) key call token in
      (
        _,
        ap (λ x. resolve_node_id (asks wire x call d) token) secure
            ∙ ap (λ x. resolve_node_id (asks wire (tls (cert_file env) key) call x) token)
                (same ∙ known)
            ∙ ap checked fails,
      )

  -- When the identity service finds its certificate, and so serves with TLS, no token is accepted
  -- any more: a discovery and a config service that serve, whatever they have been configured with,
  -- refuse every registration of a peer, every heartbeat and every listing, and every request of an
  -- address, and nothing changes; for they dial the identity service without TLS. The calls of
  -- `grpc.NewClient` succeed, as they do not connect yet.
  pub tls_locks_out :
      (env denv cenv : Environment) (icfg : Result IdentityServer) (store : Option GoError)
      (dcfg : Result DiscoveryServer) (ccfg : Result ConfigServer) (dredis credis : Option GoError)
      (identity : Running IdentityServer) (discovery : Running DiscoveryServer)
      (config : Running ConfigServer) (r : Redis) (ttl : ℕ) (j : Json) (clock now : ℕ)
      (req : RegisterPeerRequest) (md : Option (List GoString)) (limit : ℤ) (token node : GoString)
      (h : ConfigHandler) (s : r.State)
      → env.exists_file (cert_file env) ≡ true
      → ((addr : GoString) → denv.new_grpc_client addr ≡ none)
      → ((addr : GoString) → cenv.new_grpc_client addr ≡ none)
      → identity_main env icfg store ≡ ok identity
      → discovery_main denv dcfg dredis ≡ ok discovery
      → config_main cenv ccfg credis ≡ ok config
      → h.auth_client ≡ asks wire identity.transport call config.identity
      → let auth = asks wire identity.transport call discovery.identity in
        IsRefused s (register_peer r ttl auth j clock now req s)
        × IsRefused s (handle_heartbeat r ttl auth clock now token s)
        × IsRefused s (list_peers r ttl auth j now md limit s)
        × IsRefused s (request_ip r now token node h s)
  tls_locks_out env denv cenv icfg store dcfg ccfg dredis credis identity discovery config r ttl j
        clock now req md limit token node h s here ddials cdials istart dstart cstart asked =
      let t = identity.transport in
      let auth = asks wire t call discovery.identity in
      let chosen = identity_main-transport env icfg store identity istart in
      let refused = λ (x : GoString).
        asks-err env denv t discovery.identity x here chosen ddials
          (discovery_main-identity denv dcfg dredis discovery dstart) in
      let (e, denied) =
        asks-err env cenv t config.identity token here chosen cdials
          (config_main-identity cenv ccfg credis config cstart) in
      let (e1, h1) = refused req.token in
      let (e2, h2) = refused token in
      let (e3, h3) = refused (token_from_metadata md) in
      (
        register_peer-IsRefused r ttl auth j clock now req s e1 h1,
        handle_heartbeat-IsRefused r ttl auth clock now token s e2 h2,
        list_peers-IsRefused r ttl auth j now md limit s e3 h3,
        (denied_requests_fail r now token node [] h s
            (inr (inr (e, ap (λ a. resolve_node_id a token) asked ∙ denied)))).0,
      )
