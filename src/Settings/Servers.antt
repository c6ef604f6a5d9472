-- ===== src/Settings/Servers.antt =====
-- The configuration of the three services (services/*/internal/config/config.go) and the loader of
-- pkg/config/config.go. Reading the file, YAML and `os.Getenv` are parameters.
use gordion_vpn.Base.{Bool, false, List, [], ◌∷◌, if◌then◌else◌, ◌==◌}
use gordion_vpn.Base.Bytes.{GoString, str, is_empty}
use gordion_vpn.Base.Int.{ℤ, pos, negsuc}
use gordion_vpn.Grpc.{GoError, wrap, plain, Result, ok, err}
use gordion_vpn.Settings.{or_text, or_int, parse}

pub record ConfigServer : Type 0 where
  pub grpc_port : ℤ
  pub network_cidr : GoString
  pub mtu : ℤ
  pub dns_servers : List GoString
  pub redis_url : GoString
  pub log_level : GoString

abbrev or_servers : List GoString → List GoString
or_servers [] = str "1.1.1.1" ∷ str "8.8.8.8" ∷ []
or_servers (s ∷ ss) = s ∷ ss

unfoldable pub config_defaults : ConfigServer → ConfigServer
config_defaults c = record {
  grpc_port = or_int c.grpc_port 8003;
  network_cidr = or_text c.network_cidr (str "10.8.0.0/16");
  mtu = or_int c.mtu 1420;
  dns_servers = or_servers c.dns_servers;
  redis_url = or_text c.redis_url (str "localhost:6379");
  log_level = or_text c.log_level (str "debug");
}

pub record DiscoveryServer : Type 0 where
  pub grpc_port : ℤ
  pub redis_url : GoString
  pub log_level : GoString
  pub heartbeat_ttl : ℤ

unfoldable pub discovery_defaults : DiscoveryServer → DiscoveryServer
discovery_defaults c = record {
  grpc_port = or_int c.grpc_port 8002;
  redis_url = or_text c.redis_url (str "localhost:6379");
  log_level = or_text c.log_level (str "debug");
  heartbeat_ttl = or_int c.heartbeat_ttl 30;
}

pub record IdentityServer : Type 0 where
  pub grpc_port : ℤ
  pub database_url : GoString
  pub log_level : GoString
  pub jwt_secret : GoString
  pub token_duration : ℤ
  pub network_secret : GoString

abbrev pub is_zero : ℤ → Bool
is_zero (pos n) = n == 0
is_zero (negsuc n) = false

-- `Validate`, which also fills in the duration of a token.
unfoldable pub validate_server : IdentityServer → Result IdentityServer
validate_server c =
    if is_zero c.grpc_port
    then err (plain (str "grpc_port is required"))
    else if is_empty c.database_url
    then err (plain (str "database_url is required"))
    else if is_empty c.jwt_secret
    then err (plain (str "jwt_secret is required"))
    else ok (record c { token_duration = or_int c.token_duration 24 })

abbrev pub checked : Result IdentityServer → Result IdentityServer
checked (ok c) = ok c
checked (err e) = err (wrap (str "invalid config") e)

abbrev pub validated : Result IdentityServer → Result IdentityServer
validated (err e) = err e
validated (ok c) = checked (validate_server c)

-- `pkg/config.Config`, and any other configuration.
pub record BaseConfig : Type 0 where
  pub log_level : GoString
  pub environment : GoString

module _ (getenv : GoString → GoString) where
  abbrev pub config_env : Result ConfigServer → Result ConfigServer
  config_env (err e) = err e
  config_env (ok c) =
      let d = config_defaults c in
      ok (record d { redis_url = or_text (getenv (str "REDIS_URL")) d.redis_url })

  abbrev pub discovery_env : Result DiscoveryServer → Result DiscoveryServer
  discovery_env (err e) = err e
  discovery_env (ok c) =
      let d = discovery_defaults c in
      ok (record d { redis_url = or_text (getenv (str "REDIS_URL")) d.redis_url })

  abbrev pub identity_env : Result IdentityServer → Result IdentityServer
  identity_env (err e) = err e
  identity_env (ok c) = ok (record c {
    database_url = or_text (getenv (str "DATABASE_URL")) c.database_url;
    jwt_secret = or_text (getenv (str "JWT_SECRET")) c.jwt_secret;
    network_secret = or_text (getenv (str "NETWORK_SECRET")) c.network_secret;
  })

  abbrev base_env : BaseConfig → BaseConfig
  base_env c = record {
    log_level = or_text (getenv (str "LOG_LEVEL")) c.log_level;
    environment = or_text (getenv (str "ENVIRONMENT")) c.environment;
  }

  -- `LoadWithDefaults` of a `Config` that holds `c` before. `is_not_exist` is `os.IsNotExist`;
  -- what `Load` has filled in when it fails is lost here, for the caller gets an error or,
  -- when the file is missing, what it had.
  abbrev pub or_missing : (GoError → Bool) → BaseConfig → Result BaseConfig → Result BaseConfig
  or_missing is_not_exist c (ok c') = ok (base_env c')
  or_missing is_not_exist c (err e) = if is_not_exist e then ok (base_env c) else err e

  module _ {B : Type 0} where
    unfoldable pub load_config : (B → Result ConfigServer) → Result B → Result ConfigServer
    load_config unmarshal file =
        config_env (parse unmarshal (str "config read error") (str "config parse error") file)

    unfoldable pub load_discovery : (B → Result DiscoveryServer) → Result B → Result DiscoveryServer
    load_discovery unmarshal file =
        discovery_env (parse unmarshal (str "config read error") (str "config parse error") file)

    unfoldable pub load_identity : (B → Result IdentityServer) → Result B → Result IdentityServer
    load_identity unmarshal file =
        let read_text = str "failed to read config file" in
        validated (parse unmarshal read_text (str "failed to parse config") file)

    unfoldable pub load_from_env : (B → Result IdentityServer) → Result B → Result IdentityServer
    load_from_env unmarshal file = identity_env (load_identity unmarshal file)

    unfoldable pub load_with_defaults :
        (GoError → Bool) → (B → Result BaseConfig) → BaseConfig → Result B → Result BaseConfig
    load_with_defaults is_not_exist unmarshal c file =
        let read_text = str "failed to read config file" in
        or_missing is_not_exist c (parse unmarshal read_text (str "failed to parse config") file)
