-- ===== src/WireGuard.antt =====
-- services/agent/internal/wireguard/wireguard.go: the text of the configuration and the commands.
-- What a command answers and what opening the file gives are arguments. Ports and the MTU are
-- natural numbers.
pub mod Render
pub mod Quiet
pub mod Keys
mod Tests
use gordion_vpn.Base.{
  ℕ, Bool, true, false, Option, none, some, List, [], ◌∷◌, ◌++◌, if◌then◌else◌, length, ltb,
}
use gordion_vpn.Base.Bytes.{GoString, str, is_empty}
use gordion_vpn.Grpc.{GoError, wrap, plain}
use gordion_vpn.Base.Decimal.{digits}

pub record PeerConfig : Type 0 where
  pub public_key : GoString
  pub endpoint : GoString
  pub allowed_ips : GoString

pub record Config : Type 0 where
  pub private_key : GoString
  pub listen_port : ℕ
  pub address : GoString
  pub mtu : ℕ
  pub dns : GoString
  pub peers : List PeerConfig

pub record Manager : Type 0 where
  pub iface : GoString
  pub config_dir : GoString
  pub dry_run : Bool

-- `runtime.GOOS`.
pub data Os : Type 0 where
  linux darwin windows : Os
  other_os : GoString → Os

abbrev iface_of : Os → GoString
iface_of windows = str "gordion"
iface_of _ = str "wg0"

-- `user_dir` is the directory of the user's configuration when it is there and can be made.
abbrev dir_of : GoString → Option GoString → GoString
dir_of temp none = temp
dir_of temp (some dir) = dir ++ str "/gordion"

unfoldable pub new_manager : Os → GoString → Option GoString → Bool → Manager
new_manager os temp user_dir dry_run = record {
  iface = iface_of os;
  config_dir = dir_of temp user_dir;
  dry_run = dry_run;
}

-- A text and the end of its line, before the rest.
abbrev pub line : GoString → GoString → GoString
line text rest = text ++ (10 ∷ rest)

-- The template: `range` over the peers, and the whole.
unfoldable pub render_peers : List PeerConfig → GoString
render_peers [] = []
render_peers (p ∷ ps) = line (str "[Peer]") (
    line (str "PublicKey = " ++ p.public_key) (
      line (str "Endpoint = " ++ p.endpoint) (
        line (str "AllowedIPs = " ++ p.allowed_ips)
          (line (str "PersistentKeepalive = 25") (line [] (render_peers ps))))))

abbrev pub dns_text : GoString → GoString
dns_text dns = if is_empty dns then [] else str "DNS = " ++ dns

unfoldable pub render : Config → GoString
render c = line (str "[Interface]") (
    line (str "PrivateKey = " ++ c.private_key) (
      line (str "ListenPort = " ++ digits 20 c.listen_port) (
        line (str "Address = " ++ c.address) (
          line (str "MTU = " ++ digits 20 c.mtu)
            (line (dns_text c.dns) (line [] (render_peers c.peers)))))))

-- The file of the configuration, and the commands that ran, the newest first.
pub record System : Type 0 where
  pub file : Option GoString
  pub ran : List (List GoString)

pub data Outcome : Type 0 where
  done : Outcome
  failed : GoError → Outcome
  panicked : Outcome  -- a slice out of range

module _ (exec : List GoString → Option GoError) (os : Os) where
  abbrev result_of : GoString → Option GoError → Outcome
  result_of name none = done
  result_of name (some e) = failed (wrap (name ++ str " failed") e)

  abbrev pub run_cmd : GoString → List GoString → System → System × Outcome
  run_cmd name args sys =
      (record sys { ran = (name ∷ args) ∷ sys.ran }, result_of name (exec (name ∷ args)))

  abbrev unsupported : GoString → System → System × Outcome
  unsupported name sys = (sys, failed (plain (str "unsupported OS: " ++ name)))

  abbrev pub config_path : Manager → GoString
  config_path m = m.config_dir ++ str "/" ++ m.iface ++ str ".conf"

  abbrev pub up_on : Os → GoString → System → System × Outcome
  up_on linux path sys = run_cmd (str "wg-quick") (str "up" ∷ path ∷ []) sys
  up_on darwin path sys = run_cmd (str "wg-quick") (str "up" ∷ path ∷ []) sys
  up_on windows path sys = run_cmd (str "wireguard") (str "/installtunnelservice" ∷ path ∷ []) sys
  up_on (other_os name) path sys = unsupported name sys

  abbrev pub down_on : Os → Manager → System → System × Outcome
  down_on linux m sys = run_cmd (str "wg-quick") (str "down" ∷ config_path m ∷ []) sys
  down_on darwin m sys = run_cmd (str "wg-quick") (str "down" ∷ config_path m ∷ []) sys
  down_on windows m sys =
      run_cmd (str "wireguard") (str "/uninstalltunnelservice" ∷ m.iface ∷ []) sys
  down_on (other_os name) m sys = unsupported name sys

  -- The second argument is the error of opening the file, which leaves it alone.
  unfoldable pub configure : Manager → Option GoError → Config → System → System × Outcome
  configure m (some e) cfg sys = (sys, failed (wrap (str "config file create error") e))
  configure m none cfg sys =
      let written = record sys { file = some (render cfg) } in
      if m.dry_run then (written, done) else up_on os (config_path m) written

  -- The log of a dry run cuts the key at eight bytes.
  abbrev pub logged_key : GoString → Outcome
  logged_key key = if ltb (length key) 8 then panicked else done

  unfoldable pub add_peer : Manager → PeerConfig → System → System × Outcome
  add_peer m p sys =
      if m.dry_run
      then (sys, logged_key p.public_key)
      else run_cmd (str "wg")
          (str "set"
            ∷ m.iface
            ∷ str "peer"
            ∷ p.public_key
            ∷ str "endpoint"
            ∷ p.endpoint
            ∷ str "allowed-ips"
            ∷ p.allowed_ips
            ∷ str "persistent-keepalive"
            ∷ str "25"
            ∷ [])
          sys

  unfoldable pub remove_peer : Manager → GoString → System → System × Outcome
  remove_peer m key sys =
      if m.dry_run
      then (sys, logged_key key)
      else run_cmd (str "wg") (str "set" ∷ m.iface ∷ str "peer" ∷ key ∷ str "remove" ∷ []) sys

  unfoldable pub down : Manager → System → System × Outcome
  down m sys = if m.dry_run then (sys, done) else down_on os m sys
