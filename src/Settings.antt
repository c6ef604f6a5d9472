-- ===== src/Settings.antt =====
-- services/agent/internal/config/config.go: the agent's configuration file, its defaults and the
-- environment that overrides it. Reading the file, YAML, `os.Getenv` (`[]` when unset) and
-- `strconv.Atoi` are parameters.
pub mod Cli
pub mod Servers
pub mod Layers
use gordion_vpn.Base.{ℕ, Bool, true, false, Option, none, some, List, [], ◌∷◌, if◌then◌else◌, ◌==◌}
use gordion_vpn.Base.Bytes.{GoString, str, str_eq, is_empty}
use gordion_vpn.Base.Int.{ℤ, pos, negsuc}
use gordion_vpn.Grpc.{GoError, wrap, Result, ok, err}

pub record Config : Type 0 where
  pub identity_addr : GoString
  pub discovery_addr : GoString
  pub config_addr : GoString
  pub log_level : GoString
  pub heartbeat : ℤ
  pub peer_sync_interval : ℤ
  pub dry_run : Option Bool
  pub wire_guard_port : ℤ
  pub p2p_port : ℤ
  pub tls_ca_cert : GoString
  pub network_secret : GoString
  pub is_exit_node : Bool
  pub use_exit_node : Bool
  pub exit_node_id : GoString
  pub exit_node_dns : GoString

-- `if v == "" { v = d }` and `if n == 0 { n = d }`.
abbrev pub or_text : GoString → GoString → GoString
or_text s d = if is_empty s then d else s

abbrev pub or_int : ℤ → ℕ → ℤ
or_int (pos n) d = if n == 0 then pos d else pos n
or_int (negsuc n) d = negsuc n

abbrev or_true : Option Bool → Option Bool
or_true none = some true
or_true (some b) = some b

unfoldable pub set_defaults : Config → Config
set_defaults c = record c {
  identity_addr = or_text c.identity_addr (str "localhost:8001");
  discovery_addr = or_text c.discovery_addr (str "localhost:8002");
  config_addr = or_text c.config_addr (str "localhost:8003");
  log_level = or_text c.log_level (str "debug");
  heartbeat = or_int c.heartbeat 25;
  dry_run = or_true c.dry_run;
  wire_guard_port = or_int c.wire_guard_port 51820;
  p2p_port = or_int c.p2p_port 4001;
  peer_sync_interval = or_int c.peer_sync_interval 60;
  exit_node_dns = or_text c.exit_node_dns (str "1.1.1.1, 1.0.0.1");
}

module _ (atoi : GoString → Option ℤ) (getenv : GoString → GoString) where
  -- `if v := os.Getenv(name); v != "" { field = v }`.
  abbrev pub env_text : GoString → GoString → GoString
  env_text name field = or_text (getenv name) field

  abbrev or_number : Option ℤ → ℤ → ℤ
  or_number none field = field
  or_number (some n) field = n

  -- The same for a port, which is left alone when the value is not a number.
  abbrev pub env_port : GoString → ℤ → ℤ
  env_port name field =
      let v = getenv name in if is_empty v then field else or_number (atoi v) field

  abbrev pub env_flag : GoString → Bool → Bool
  env_flag name field = if str_eq (getenv name) (str "true") then true else field

  unfoldable pub override_from_env : Config → Config
  override_from_env c = record c {
    identity_addr = env_text (str "IDENTITY_ADDR") c.identity_addr;
    discovery_addr = env_text (str "DISCOVERY_ADDR") c.discovery_addr;
    config_addr = env_text (str "CONFIG_ADDR") c.config_addr;
    p2p_port = env_port (str "P2P_PORT") c.p2p_port;
    wire_guard_port = env_port (str "WIREGUARD_PORT") c.wire_guard_port;
    tls_ca_cert = env_text (str "TLS_CA_CERT") c.tls_ca_cert;
    network_secret = env_text (str "NETWORK_SECRET") c.network_secret;
    is_exit_node = env_flag (str "IS_EXIT_NODE") c.is_exit_node;
    use_exit_node = env_flag (str "USE_EXIT_NODE") c.use_exit_node;
    exit_node_id = env_text (str "EXIT_NODE_ID") c.exit_node_id;
    exit_node_dns = env_text (str "EXIT_NODE_DNS") c.exit_node_dns;
  }

-- `os.ReadFile` of the path, and `yaml.Unmarshal` of what is there.
abbrev parsed : {C : Type 0} → GoString → Result C → Result C
parsed text (err e) = err (wrap text e)
parsed text (ok c) = ok c

abbrev pub parse : {B C : Type 0} → (B → Result C) → GoString → GoString → Result B → Result C
parse unmarshal read_text parse_text (err e) = err (wrap read_text e)
parse unmarshal read_text parse_text (ok b) = parsed parse_text (unmarshal b)

module _ (atoi : GoString → Option ℤ) (getenv : GoString → GoString) where
  abbrev pub layered : Result Config → Result Config
  layered (err e) = err e
  layered (ok c) = ok (override_from_env atoi getenv (set_defaults c))

  unfoldable pub load : {B : Type 0} → (B → Result Config) → Result B → Result Config
  load unmarshal file =
      layered (parse unmarshal (str "config read error") (str "config parse error") file)
