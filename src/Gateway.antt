-- ===== src/Gateway.antt =====
-- services/agent/internal/gateway/gateway.go, and the two texts that cli/cmd/peers.go and status.go
-- make of times. Whether the system's commands succeed is an argument.
pub mod Linux
pub mod Restore
pub mod Systems
mod Tests
use gordion_vpn.Base.{ℕ, zero, suc, ◌/◌, ◌%◌, Bool, true, false, ◌++◌, [], if◌then◌else◌, ltb}
use gordion_vpn.Base.Bytes.{GoString, str, is_empty}
use gordion_vpn.Grpc.{wrap, foreign, Result, ok, err}
use gordion_vpn.Base.Decimal.{digits}

pub record Manager : Type 0 where
  pub iface : GoString
  pub out_iface : GoString
  pub enabled : Bool

unfoldable pub default_iface : Bool → GoString
default_iface true = str "gordion"
default_iface false = str "wg0"

unfoldable pub new_manager : Bool → GoString → Manager
unfolding default_iface
new_manager is_windows wg_iface = record {
  iface = if is_empty wg_iface then default_iface is_windows else wg_iface;
  out_iface = [];
  enabled = false;
}

switch : Bool → GoString → Bool → Manager → Manager × Result (Unit {0})
switch to text true m = (record m { enabled = to }, ok tt)
switch to text false m = (m, err (wrap text (foreign (str "command"))))

-- `Enable` and `Disable`; the argument says whether the commands succeed.
unfoldable pub enable : Bool → Manager → Manager × Result (Unit {0})
unfolding switch
enable works m = if m.enabled then (m, ok tt) else switch true (str "gateway enable failed") works m

unfoldable pub disable : Bool → Manager → Manager × Result (Unit {0})
unfolding switch
disable works m =
    if m.enabled then switch false (str "gateway disable failed") works m else (m, ok tt)

-- What `onlineDot` shows of an age in seconds.
pub data Dot : Type 0 where
  online idle offline : Dot

unfoldable pub online_dot : ℕ → Dot
online_dot age = if ltb age 60 then online else if ltb age 300 then idle else offline

unfoldable pub format_last_seen : ℕ → GoString
format_last_seen age =
    if ltb age 5
    then str "just now"
    else if ltb age 60
    then digits 20 age ++ str "s ago"
    else if ltb age 3600
    then digits 20 (age / 60) ++ str "m ago"
    else digits 20 (age / 3600) ++ str "h ago"

-- `formatDuration` of a number of whole seconds.
unfoldable pub format_duration : ℕ → GoString
format_duration seconds =
    let h = seconds / 3600 in
    let m = seconds / 60 % 60 in
    let s = seconds % 60 in
    if ltb 0 h
    then digits 20 h ++ str "h " ++ digits 20 m ++ str "m " ++ digits 20 s ++ str "s"
    else if ltb 0 m
    then digits 20 m ++ str "m " ++ digits 20 s ++ str "s"
    else digits 20 s ++ str "s"
