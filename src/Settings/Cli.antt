-- ===== src/Settings/Cli.antt =====
-- cli/internal/cliconfig/config.go: the agent's configuration file as the command line reads it.
use gordion_vpn.Base.{Bool, Option, none, some, List, [], ◌∷◌, ◌++◌, if◌then◌else◌}
use gordion_vpn.Base.Bytes.{GoString, str, is_empty}
use gordion_vpn.Base.Int.{ℤ}
use gordion_vpn.Grpc.{GoError, wrap, plain, Result, ok, err}
use gordion_vpn.Settings.{or_text, or_int}

pub record CliConfig : Type 0 where
  pub identity_addr : GoString
  pub discovery_addr : GoString
  pub config_addr : GoString
  pub network_secret : GoString
  pub tls_ca_cert : GoString
  pub log_level : GoString
  pub dry_run : Option Bool
  pub wire_guard_port : ℤ
  pub p2p_port : ℤ
  pub is_exit_node : Bool
  pub use_exit_node : Bool
  pub exit_node_id : GoString
  pub exit_node_dns : GoString

unfoldable pub apply_defaults : CliConfig → CliConfig
apply_defaults c = record c {
  identity_addr = or_text c.identity_addr (str "localhost:8001");
  discovery_addr = or_text c.discovery_addr (str "localhost:8002");
  config_addr = or_text c.config_addr (str "localhost:8003");
  wire_guard_port = or_int c.wire_guard_port 51820;
  p2p_port = or_int c.p2p_port 4001;
  exit_node_dns = or_text c.exit_node_dns (str "1.1.1.1, 1.0.0.1");
}

-- `home` is the directory that `os.UserHomeDir` finds; paths are joined with a slash.
abbrev pub default_paths : GoString → List GoString
default_paths home =
    str "configs/agent.dev.yaml"
    ∷ str "../configs/agent.dev.yaml"
    ∷ (home ++ str "/.gordion/config.yaml")
    ∷ str "/etc/gordion/config.yaml"
    ∷ []

-- What `os.ReadFile` finds at a path.
pub data Found (B : Type 0) : Type 0 where
  missing : Found B
  unreadable : GoError → Found B
  contents : B → Found B

module _ {B : Type 0} (unmarshal : B → Result CliConfig) (files : GoString → Found B) where
  abbrev pub parsed : GoString → Result CliConfig → Result CliConfig
  unfolding apply_defaults
  parsed path (err e) = err (wrap (str "parse config " ++ path) e)
  parsed path (ok c) = ok (apply_defaults c)

  -- One round of the loop: `none` goes on with the next path.
  abbrev pub at_path : GoString → Found B → Option (Result CliConfig)
  at_path path missing = none
  at_path path (unreadable e) = some (err (wrap (str "read config " ++ path) e))
  at_path path (contents b) = some (parsed path (unmarshal b))

  abbrev pub or_next : Option (Result CliConfig) → Result CliConfig → Result CliConfig
  or_next none next = next
  or_next (some r) next = r

  unfoldable pub load_first : List GoString → Result CliConfig
  load_first [] = err (plain (str "no config file found"))
  load_first (path ∷ paths) =
      let next = load_first paths in
      if is_empty path then next else or_next (at_path path (files path)) next

  unfoldable pub load : GoString → GoString → Result CliConfig
  load home cfg_file = load_first (if is_empty cfg_file then default_paths home else cfg_file ∷ [])
