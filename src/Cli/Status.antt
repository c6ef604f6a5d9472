-- ===== src/Cli/Status.antt =====
-- What cli/cmd/status.go shows of the state, as JSON and as rows; the styles are left out.
use gordion_vpn.Base.{
  ℕ, ◌-◌, ◌≡◌, refl, Bool, true, false, Option, none, some, List, [], ◌∷◌, if◌then◌else◌, ◌==◌,
}
use gordion_vpn.Base.Bytes.{GoString, str, is_empty}
use gordion_vpn.Gateway.{format_duration}
use gordion_vpn.Base.Decimal.{digits}
use gordion_vpn.Cli.{State, em_dash}

pub record StatusOutput : Type 0 where
  pub connected : Bool
  pub pid : ℕ
  pub vpn_addr : GoString
  pub uptime_sec : ℕ
  pub is_exit_node : Bool
  pub use_exit_node : Bool
  pub exit_node_id : GoString
  pub log_file : GoString
  pub config_file : GoString

abbrev off : Bool → StatusOutput
off running = record {
  connected = running;
  pid = 0;
  vpn_addr = [];
  uptime_sec = 0;
  is_exit_node = false;
  use_exit_node = false;
  exit_node_id = [];
  log_file = [];
  config_file = [];
}

-- `printStatusJSON` at `now`, in seconds.
unfoldable pub status_json : ℕ → Option State → Bool → StatusOutput
status_json now none running = off running
status_json now (some s) false = off false
status_json now (some s) true = record {
  connected = true;
  pid = s.pid;
  vpn_addr = s.vpn_addr;
  uptime_sec = now - s.started_at;
  is_exit_node = s.is_exit_node;
  use_exit_node = s.use_exit_node;
  exit_node_id = s.exit_node_id;
  log_file = s.log_file;
  config_file = s.config_file;
}

-- `strings.TrimSpace` leaves nothing: the ASCII spaces.
unfoldable pub is_blank : GoString → Bool
is_blank [] = true
is_blank (c ∷ cs) =
    let rest = is_blank cs in
    if c == 32
    then rest
    else if c == 9
    then rest
    else if c == 10
    then rest
    else if c == 11
    then rest
    else if c == 12
    then rest
    else if c == 13
    then rest
    else false

unfoldable pub or_dash : GoString → GoString
unfolding is_blank
or_dash s = if is_blank s then em_dash else s

abbrev Row : Type 0
Row = GoString × GoString

unfoldable pub mode_row : State → Row
mode_row s =
    let target = if is_empty s.exit_node_id then str "auto" else s.exit_node_id in
    if s.is_exit_node
    then (str "Role", str "Exit Node (routing internet traffic)")
    else if s.use_exit_node
    then (str "Exit Node", target)
    else (str "Mode", str "Mesh VPN (no exit node)")

abbrev row_if : GoString → GoString → List Row → List Row
row_if label text rows = if is_empty text then rows else (label, text) ∷ rows

-- The rows of `printConnected`.
unfoldable pub connected_rows : ℕ → State → List Row
unfolding mode_row or_dash
connected_rows now s =
    (str "VPN Address", or_dash s.vpn_addr)
    ∷ (str "Uptime", format_duration (now - s.started_at))
    ∷ (str "PID", digits 20 s.pid)
    ∷ mode_row s
    ∷ row_if (str "Config") s.config_file (row_if (str "Logs") s.log_file [])

-- The JSON of a state without a process that runs says no more than that of no state.
pub status_json-stopped :
    (now : ℕ) (s : Option State) → status_json now s false ≡ status_json now none false
unfolding status_json
status_json-stopped now none = refl
status_json-stopped now (some s) = refl
