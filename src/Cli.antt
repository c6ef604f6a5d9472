-- ===== src/Cli.antt =====
-- cli/internal/state/state.go, the command that starts the agent (cli/cmd/up.go), and what the agent
-- itself writes to the state file (services/agent/internal/agent/clistate.go). JSON is a library: the
-- contents of a file are a type of their own, with its two functions. Whether a call of the system
-- works is an argument. A write that fails leaves contents of any kind. Process ids are natural
-- numbers.
pub mod Commands
pub mod Tracked
pub mod Agents
pub mod ExitNode
pub mod Order
pub mod Paths
pub mod Peers
pub mod Init
pub mod FirstRun
pub mod Follow
pub mod Status
pub mod Text
pub mod Doctor
pub mod Verdict
mod Tests
use gordion_vpn.Base.{
  ℕ, ◌≡◌, Bool, true, false, not, ◌&&◌, Option, none, some, List, [], ◌∷◌, ◌++◌, if◌then◌else◌,
  ◌==◌,
}
use gordion_vpn.Base.Bytes.{GoString, str, is_empty}
use gordion_vpn.Grpc.{GoError, wrap, plain, foreign, Result, ok, err}
use gordion_vpn.Settings.Cli.{CliConfig}

-- `state.State`; the agent's `cliState` has the same fields.
pub record State : Type 0 where
  pub pid : ℕ
  pub vpn_addr : GoString
  pub token : GoString
  pub log_file : GoString
  pub started_at : ℕ
  pub config_file : GoString
  pub is_exit_node : Bool
  pub use_exit_node : Bool
  pub exit_node_id : GoString

abbrev pub zero_state : State
zero_state = record {
  pid = 0;
  vpn_addr = [];
  token = [];
  log_file = [];
  started_at = 0;
  config_file = [];
  is_exit_node = false;
  use_exit_node = false;
  exit_node_id = [];
}

-- `json.MarshalIndent` and `json.Unmarshal`: what the latter has filled in, and whether it worked.
pub record Json (B : Type 0) : Type 0 where
  pub marshal : State → B
  pub unmarshal : B → State × Bool
  pub unmarshal-marshal : (s : State) → unmarshal (marshal s) ≡ (s, true)

-- The state file, and the processes of agents that run.
pub record World (B : Type 0) : Type 0 where
  pub file : Option B
  pub running : List ℕ

abbrev pub is_in : ℕ → List ℕ → Bool
is_in p [] = false
is_in p (q ∷ qs) = if p == q then true else is_in p qs

abbrev pub without : ℕ → List ℕ → List ℕ
without p [] = []
without p (q ∷ qs) = let rest = without p qs in if p == q then rest else q ∷ rest

-- How a write goes: `some` is an error, with what it leaves.
abbrev pub WriteFault : Type 0 → Type 0
WriteFault B = Option (GoError × Option B)

-- What a start of the agent meets.
pub record Launch (B : Type 0) : Type 0 where
  pub read_error : Option GoError
  pub cfg_file : GoString
  pub load : Result CliConfig
  pub binary : Result GoString
  pub log_dir : Option GoError
  pub log_opens : Bool
  pub log_path : GoString
  pub start : List GoString → Result ℕ
  pub now : ℕ
  pub config_path : GoString
  pub write_fault : WriteFault B

-- What a stop of the agent meets.
pub record Stop : Type 0 where
  pub read_error : Option GoError
  pub signal_error : Option GoError
  pub exits : Bool  -- within ten seconds of the signal
  pub kill_works : Bool
  pub delete_works : Bool

pub data Report : Type 0 where
  already_running : ℕ → GoString → Report
  started : ℕ → Report
  not_running : Report
  cleaned_up : ℕ → Report
  stopped : Report
  force_killed : Report
  exit_node : GoString → Report
  exit_node_off : Report
  connected : State → Report
  disconnected : Report

-- The three bytes of a dash.
abbrev pub em_dash : GoString
em_dash = 226 ∷ 128 ∷ 148 ∷ []

abbrev pub not_started : GoError
not_started =
    plain (str "Gordion is not running " ++ em_dash ++ str " start it first with `gordion up`")

-- How far `up` has come when the agent runs and the state file is not written yet.
pub data Begun : Type 0 where
  answered : Report → Begun
  launched : State → Begun

module _ {B : Type 0} (json : Json B) where
  abbrev pub parsed : State × Bool → Result (Option State)
  parsed (s, true) = ok (some s)
  parsed (s, false) = err (wrap (str "parse state file") (foreign (str "json")))

  abbrev pub contents : Option B → Result (Option State)
  contents none = ok none
  contents (some b) = parsed (json.unmarshal b)

  unfoldable pub read : Option GoError → World B → Result (Option State)
  read (some e) w = err e
  read none w = contents w.file

  unfoldable pub write : WriteFault B → State → World B → World B × Result (Unit {0})
  write none s w = (record w { file = some (json.marshal s) }, ok tt)
  write (some (e, left)) s w = (record w { file = left }, err e)

  unfoldable pub delete : Bool → World B → World B
  delete works w = if works then record w { file = none } else w

  unfoldable pub is_running : World B → State → Bool
  is_running w s = not (s.pid == 0) && is_in s.pid w.running

  abbrev log_of : Launch B → GoString
  log_of l = if l.log_opens then l.log_path else []

  abbrev args_of : Launch B → List GoString
  args_of l = if is_empty l.cfg_file then [] else str "--config" ∷ l.cfg_file ∷ []

  abbrev first_state : Launch B → CliConfig → ℕ → State
  first_state l cfg pid = record zero_state {
    pid = pid;
    started_at = l.now;
    log_file = log_of l;
    config_file = l.config_path;
    is_exit_node = cfg.is_exit_node;
    use_exit_node = cfg.use_exit_node;
    exit_node_id = cfg.exit_node_id;
  }

  abbrev pub spawned : Launch B → CliConfig → Result ℕ → World B → World B × Result Begun
  spawned l cfg (err e) w = (w, err (wrap (str "failed to start agent") e))
  spawned l cfg (ok pid) w =
      (record w { running = pid ∷ w.running }, ok (launched (first_state l cfg pid)))

  abbrev pub logged : Launch B → CliConfig → Option GoError → World B → World B × Result Begun
  logged l cfg (some e) w = (w, err (wrap (str "create log dir") e))
  logged l cfg none w = spawned l cfg (l.start (args_of l)) w

  abbrev pub with_binary : Launch B → CliConfig → Result GoString → World B → World B × Result Begun
  with_binary l cfg (err e) w = (w, err e)
  with_binary l cfg (ok binary) w = logged l cfg l.log_dir w

  abbrev pub loaded : Launch B → Result CliConfig → World B → World B × Result Begun
  loaded l (err e) w = (w, err (wrap (str "load config") e))
  loaded l (ok cfg) w = with_binary l cfg l.binary w

  -- `up` until the agent runs. An error of the read is ignored.
  abbrev pub begun : Launch B → Result (Option State) → World B → World B × Result Begun
  begun l (ok (some s)) w =
      if is_running w s
      then (w, ok (answered (already_running s.pid s.vpn_addr)))
      else loaded l l.load w
  begun l (ok none) w = loaded l l.load w
  begun l (err e) w = loaded l l.load w

  unfoldable pub up_begin : Launch B → World B → World B × Result Begun
  up_begin l w = begun l (read l.read_error w) w

  -- The rest of `up`; an error of the write is a warning.
  unfoldable pub up_end : WriteFault B → World B × Result Begun → World B × Result Report
  up_end fault (w, err e) = (w, err e)
  up_end fault (w, ok (answered r)) = (w, ok r)
  up_end fault (w, ok (launched s)) = ((write fault s w).0, ok (started s.pid))

  unfoldable pub up : Launch B → World B → World B × Result Report
  up l w = up_end l.write_fault (up_begin l w)

  -- The state that `updateCLIState` starts from: what `Unmarshal` fills in, errors or not.
  abbrev pub existing : Bool → Option B → State
  existing true (some b) = (json.unmarshal b).0
  existing _ _ = zero_state

  -- The agent's write, with the exit node settings of the agent's own configuration.
  unfoldable pub update_cli_state :
      Bool → WriteFault B → GoString → GoString → Bool → Bool → GoString → World B → World B
  update_cli_state reads fault vpn_addr token is_exit use_exit exit_id w =
      let s = existing reads w.file in
      (write fault
        (record s {
          vpn_addr = vpn_addr;
          token = token;
          is_exit_node = is_exit;
          use_exit_node = use_exit;
          exit_node_id = exit_id;
        })
        w).0
