-- ===== src/Settings/Layers.antt =====
-- How the layers of the configurations go together: file, defaults, environment, and the two readers
-- of the agent's file.
use gordion_vpn.Base.{◌≡◌, refl, sym, subst, Bool, true, false, not, ◌&&◌, Option, [], arith}
use gordion_vpn.Base.Bytes.{GoString, str, is_empty, str_eq}
use gordion_vpn.Base.Int.{ℤ}
use gordion_vpn.Grpc.{GoError, wrap, Result, ok, err}
use gordion_vpn.Settings.{Config, set_defaults, override_from_env, load}
use gordion_vpn.Settings.Cli.{CliConfig, Found, contents, apply_defaults, load_first}
use gordion_vpn.Settings.Cli
use gordion_vpn.Settings.Servers.{
  IdentityServer, BaseConfig, is_zero, validate_server, load_identity, load_from_env,
  load_with_defaults,
}

-- The fields of the agent's file that the command line reads too.
abbrev pub view : Config → CliConfig
view c = record {
  identity_addr = c.identity_addr;
  discovery_addr = c.discovery_addr;
  config_addr = c.config_addr;
  network_secret = c.network_secret;
  tls_ca_cert = c.tls_ca_cert;
  log_level = c.log_level;
  dry_run = c.dry_run;
  wire_guard_port = c.wire_guard_port;
  p2p_port = c.p2p_port;
  is_exit_node = c.is_exit_node;
  use_exit_node = c.use_exit_node;
  exit_node_id = c.exit_node_id;
  exit_node_dns = c.exit_node_dns;
}

-- Equal but for the level of the log and the dry run, which the command line leaves unset.
abbrev pub Agrees : CliConfig → Config → Type 0
Agrees c d = c ≡ record (view d) { log_level = c.log_level; dry_run = c.dry_run }

override-empty :
    (atoi : GoString → Option ℤ) (getenv : GoString → GoString) (c : Config)
    → ((name : GoString) → getenv name ≡ [])
    → override_from_env atoi getenv c ≡ c
unfolding override_from_env str_eq
override-empty atoi getenv c no_env =
    subst (λ g. override_from_env atoi g c ≡ c) (λ i name. sym (no_env name) i) refl

-- Without overrides in the environment, the agent and the command line read the same addresses,
-- ports, secrets and exit node settings out of one file.
pub load-Agrees :
    {B : Type 0} (atoi : GoString → Option ℤ) (getenv : GoString → GoString)
    (unmarshal : B → Result Config) (cli_unmarshal : B → Result CliConfig)
    (files : GoString → Found B) (home path : GoString) (b : B) (c : Config)
    → ((name : GoString) → getenv name ≡ [])
    → is_empty path ≡ false
    → files path ≡ contents b
    → unmarshal b ≡ ok c
    → cli_unmarshal b ≡ ok (view c)
    → (load atoi getenv unmarshal (ok b) ≡ ok (set_defaults c))
      × (Cli.load cli_unmarshal files home path ≡ ok (apply_defaults (view c)))
      × Agrees (apply_defaults (view c)) (set_defaults c)
unfolding load Cli.load load_first apply_defaults set_defaults
load-Agrees atoi getenv unmarshal cli_unmarshal files home path b c no_env p f u v =
    (rw (u, override-empty atoi getenv (set_defaults c) no_env), rw (p, f, v, p), refl)

abbrev pub is_ok : {A : Type 0} → Result A → Bool
is_ok (ok a) = true
is_ok (err e) = false

-- The identity service starts from a file exactly if the file itself gives the port, the database
-- and the secret, whatever the environment holds: the overrides come after the validation.
pub load_from_env_needs_file :
    {B : Type 0} (getenv : GoString → GoString) (unmarshal : B → Result IdentityServer) (b : B)
    (c : IdentityServer)
    → unmarshal b ≡ ok c
    → is_ok (load_from_env getenv unmarshal (ok b))
      ≡ not (is_zero c.grpc_port) && not (is_empty c.database_url) && not (is_empty c.jwt_secret)
unfolding load_from_env load_identity validate_server
load_from_env_needs_file getenv unmarshal b c u = ground (arith, u)

-- `os.IsNotExist` does not look into errors made by `%w`: the loader with defaults then fails on a
-- file that is missing, as `Load` does.
pub load_with_defaults-missing :
    {B : Type 0} (getenv : GoString → GoString) (is_not_exist : GoError → Bool)
    (unmarshal : B → Result BaseConfig) (c : BaseConfig) (e : GoError)
    → ((text : GoString) (cause : GoError) → is_not_exist (wrap text cause) ≡ false)
    → load_with_defaults getenv is_not_exist unmarshal c (err e)
      ≡ err (wrap (str "failed to read config file") e)
unfolding load_with_defaults
load_with_defaults-missing getenv is_not_exist unmarshal c e h =
    ground (arith, h (str "failed to read config file") e)
