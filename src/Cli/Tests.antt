-- ===== src/Cli/Tests.antt =====
-- Runs of the commands. A file's contents are a state, or `none` when they are not JSON.
use gordion_vpn.Base.{◌≡◌, ◌≢◌, refl, true, false, Option, none, some, List, [], ◌∷◌, arith}
use gordion_vpn.Base.Bytes.{GoString, str}
use gordion_vpn.Base.Int.{pos}
use gordion_vpn.Grpc.{Result, plain, err, ok}
use gordion_vpn.Settings.Cli.{CliConfig, missing}
use gordion_vpn.Cli.{
  State, zero_state, Json, World, Launch, Stop, already_running, read, is_running, up,
}
use gordion_vpn.Cli.Commands.{restart, exit_node_set, exit_node_unset}
use gordion_vpn.WireGuard.Keys.{KeyPair, clamp}
use gordion_vpn.Settings.Cli
use gordion_vpn.Cli.Init.{Files, Setup, created, init, generate_wire_guard_keys}
use gordion_vpn.Cli.FirstRun.{init_then_load_fails}
use gordion_vpn.Cli.Tracked.{IsTracked, idle, up_again}
use gordion_vpn.Cli.Agents.{Event, ups, downs, sets, dies, updates, run, run-IsTracked}
use gordion_vpn.Cli.ExitNode.{restart_forgets_exit_node}

abbrev states : Json (Option State)
states = record {
  marshal = some;
  unmarshal = λ b. elim b [ none ↦ (zero_state, false) | some s ↦ (s, true) ];
  unmarshal-marshal = λ s. refl;
}

abbrev cfg : CliConfig
cfg = record {
  identity_addr = str "localhost:8001";
  discovery_addr = str "localhost:8002";
  config_addr = str "localhost:8003";
  network_secret = [];
  tls_ca_cert = [];
  log_level = [];
  dry_run = none;
  wire_guard_port = pos 51820;
  p2p_port = pos 4001;
  is_exit_node = false;
  use_exit_node = false;
  exit_node_id = [];
  exit_node_dns = [];
}

abbrev launch : Launch (Option State)
launch = record {
  read_error = none;
  cfg_file = [];
  load = ok cfg;
  binary = ok (str "gordion-agent");
  log_dir = none;
  log_opens = true;
  log_path = str "/tmp/gordion/agent.log";
  start = λ args. ok 42;
  now = 1000;
  config_path = [];
  write_fault = none;
}

abbrev stop : Stop
stop = record {
  read_error = none;
  signal_error = none;
  exits = true;
  kill_works = true;
  delete_works = true;
}

abbrev agent_42 : State
agent_42 = record zero_state {
  pid = 42;
  started_at = 1000;
  log_file = str "/tmp/gordion/agent.log";
}

abbrev nothing : World (Option State)
nothing = record { file = none; running = [] }

abbrev one_agent : World (Option State)
one_agent = record { file = some (some agent_42); running = 42 ∷ [] }

up_again_example : up states launch one_agent ≡ (one_agent, ok (already_running 42 []))
unfolding read is_running
up_again_example = up_again states launch one_agent agent_42 refl refl refl

abbrev day : List (Event states)
day =
    ups launch
    ∷ updates (str "10.8.0.2") (str "token") false false []
    ∷ sets (some (str "node-b"))
    ∷ dies 42
    ∷ ups launch
    ∷ downs stop
    ∷ []

never_zero : (args : List GoString) → launch.start args ≢ ok 0
never_zero args e = ground (arith, e)

run-IsTracked_example : IsTracked states (run states day nothing)
run-IsTracked_example =
    run-IsTracked states day nothing (idle refl)
      ((refl, refl, never_zero), (tt, (tt, (tt, ((refl, refl, never_zero), (refl, tt))))))

restart_forgets_exit_node_example :
    (restart states stop launch (exit_node_set states none none (some (str "node-b")) one_agent).0
      ≡ restart states stop launch one_agent)
    × (restart states stop launch (exit_node_unset states none none one_agent).0
        ≡ restart states stop launch one_agent)
unfolding read is_running
restart_forgets_exit_node_example =
    restart_forgets_exit_node states stop launch (some (str "node-b")) agent_42 one_agent refl refl
      refl refl refl

abbrev setup : Setup
setup = record {
  home = str "/root";
  cfg_file = [];
  secret = str "secret";
  force = false;
  random = ok (7 ∷ 7 ∷ []);
  base_mult = λ key. ok key;
  encode = λ key. key;
  keys_dir_error = none;
  out_dir_error = none;
  write_error = λ path. none;
}

abbrev no_files : Files
no_files path = missing

abbrev no_yaml : GoString → Result CliConfig
no_yaml text = ok cfg

abbrev setup_keys : KeyPair
setup_keys = record { private_key = clamp (7 ∷ 7 ∷ []); public_key = clamp (7 ∷ 7 ∷ []) }

init_then_load_fails_example :
    ((init setup no_files).1 ≡ ok (created (str "configs/agent.yaml")))
    × (Cli.load no_yaml (init setup no_files).0 (str "/root") []
        ≡ err (plain (str "no config file found")))
unfolding generate_wire_guard_keys
init_then_load_fails_example =
    init_then_load_fails setup no_files no_yaml setup_keys refl refl
      (refl, (refl, (refl, (refl, tt)))) refl refl refl (λ path. refl)
