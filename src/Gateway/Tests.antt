-- ===== src/Gateway/Tests.antt =====
-- Runs of the gateway and of the texts that follow the source.
use gordion_vpn.Base.{◌≡◌, refl, true, false, List, [], ◌∷◌}
use gordion_vpn.Base.Bytes.{GoString, str, str_eq}
use gordion_vpn.Base.Decimal.{digits}
use gordion_vpn.Grpc.{Result, ok}
use gordion_vpn.Gateway.Linux.{
  Works, Kernel, masquerade, dev_field, default_outbound_iface, enable_linux, disable_linux,
}
use gordion_vpn.Gateway.Restore.{disable-enable}
use gordion_vpn.Gateway.{
  Manager, new_manager, enable, disable, online, idle, online_dot, format_last_seen,
  format_duration,
}

-- A gateway that fails to start is not enabled, and one that is enabled stays so on a second call.
starts :
    ((enable false (new_manager false [])).0.enabled ≡ false)
    × ((enable false (enable true (new_manager false [])).0).0.enabled ≡ true)
    × ((disable true (enable true (new_manager false [])).0).0.enabled ≡ false)
unfolding enable disable new_manager
starts = (refl, refl, refl)

texts :
    (format_duration 3725 ≡ str "1h 2m 5s")
    × (format_last_seen 125 ≡ str "2m ago")
    × (online_dot 59 ≡ online)
    × (online_dot 60 ≡ idle)
unfolding format_duration format_last_seen online_dot digits
texts = (refl, refl, refl, refl)

abbrev route : Result (List GoString)
route = ok (str "8.8.8.8" ∷ str "via" ∷ str "10.0.0.1" ∷ str "dev" ∷ str "eth0" ∷ [])

abbrev all_work : Works
all_work = record { sysctl = true; nat = true; forward_in = true; forward_out = true }

abbrev off : Manager
off = record { iface = str "wg0"; out_iface = []; enabled = false }

abbrev eth1_rules : Kernel
eth1_rules = record { ip_forward = true; postrouting = masquerade (str "eth1") ∷ []; forward = [] }

disable-enable_example :
    let (m', k') = (enable_linux route all_work off eth1_rules).0 in
    (disable_linux route m' k').1
    ≡ record { ip_forward = false; postrouting = masquerade (str "eth1") ∷ []; forward = [] }
unfolding default_outbound_iface dev_field str_eq
disable-enable_example =
    disable-enable route route all_work off eth1_rules (str "eth0") refl refl refl refl refl refl
      refl
