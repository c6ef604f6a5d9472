-- ===== src/Gateway/Linux.antt =====
-- services/agent/internal/gateway/linux.go: forwarding and the rules of iptables that the gateway
-- adds and removes. `-A` appends a rule to a chain, `-D` removes the first one that is the same.
-- Which commands succeed, and the fields that `ip route get` prints, are arguments.
use gordion_vpn.Base.{
  Bool, true, false, not, Option, none, some, List, [], ◌∷◌, ◌++◌, if◌then◌else◌,
}
use gordion_vpn.Base.Bytes.{GoString, str, str_eq, is_empty}
use gordion_vpn.Grpc.{GoError, wrap, plain, foreign, Result, ok, err}
use gordion_vpn.Gateway.{Manager}

pub data Rule : Type 0 where
  masquerade : GoString → Rule  -- of what leaves by the interface
  accept_in : GoString → Rule
  accept_related : GoString → Rule

abbrev pub same_rule : Rule → Rule → Bool
same_rule (masquerade a) (masquerade b) = str_eq a b
same_rule (accept_in a) (accept_in b) = str_eq a b
same_rule (accept_related a) (accept_related b) = str_eq a b
same_rule _ _ = false

pub record Kernel : Type 0 where
  pub ip_forward : Bool
  pub postrouting : List Rule
  pub forward : List Rule

-- Which of the four commands of `enableForwarding` succeed.
pub record Works : Type 0 where
  pub sysctl : Bool
  pub nat : Bool
  pub forward_in : Bool
  pub forward_out : Bool

-- The field after `dev`.
unfoldable pub dev_field : List GoString → Option GoString
dev_field [] = none
dev_field (f ∷ []) = none
dev_field (f ∷ g ∷ fs) =
    let rest = dev_field (g ∷ fs) in if str_eq f (str "dev") then some g else rest

abbrev dev_of : Option GoString → Result GoString
dev_of none = err (plain (str "no dev field in: "))
dev_of (some iface) = ok iface

unfoldable pub default_outbound_iface : Result (List GoString) → Result GoString
default_outbound_iface (err e) = err (wrap (str "ip route get") e)
default_outbound_iface (ok fields) = dev_of (dev_field fields)

abbrev pub command_failed : GoString → GoError
command_failed name = wrap name (foreign (str "exit status"))

-- The four commands, each only if those before it have succeeded.
abbrev pub enabled_on : Works → Manager → Kernel → GoString → Kernel × Result Manager
enabled_on w m k iface =
    let k1 = record k { ip_forward = true } in
    let k2 = record k1 { postrouting = k.postrouting ++ (masquerade iface ∷ []) } in
    let k3 = record k2 { forward = k.forward ++ (accept_in m.iface ∷ []) } in
    let k4 = record k3 { forward = k3.forward ++ (accept_related m.iface ∷ []) } in
    if not w.sysctl
    then (k, err (command_failed (str "sysctl")))
    else if not w.nat
    then (k1, err (command_failed (str "iptables")))
    else if not w.forward_in
    then (k2, err (command_failed (str "iptables")))
    else if not w.forward_out
    then (k3, err (command_failed (str "iptables")))
    else (k4, ok (record m { out_iface = iface }))

abbrev pub detected : Works → Manager → Kernel → Result GoString → Kernel × Result Manager
detected w m k (err e) = (k, err (wrap (str "detect outbound iface") e))
detected w m k (ok iface) = enabled_on w m k iface

unfoldable pub enable_forwarding :
    Result (List GoString) → Works → Manager → Kernel → Kernel × Result Manager
enable_forwarding route w m k = detected w m k (default_outbound_iface route)

abbrev pub remove_first : Rule → List Rule → List Rule
remove_first r [] = []
remove_first r (x ∷ xs) = let rest = remove_first r xs in if same_rule x r then xs else x ∷ rest

abbrev ok_or_empty : Result GoString → GoString
ok_or_empty (ok iface) = iface
ok_or_empty (err e) = []

-- The four commands, whose errors are ignored; a removal that works.
unfoldable pub disable_forwarding : Result (List GoString) → Manager → Kernel → Kernel
disable_forwarding route m k =
    let found = ok_or_empty (default_outbound_iface route) in
    let iface = if is_empty m.out_iface then found else m.out_iface in
    record {
      ip_forward = false;
      postrouting = remove_first (masquerade iface) k.postrouting;
      forward = remove_first (accept_related m.iface) (remove_first (accept_in m.iface) k.forward);
    }

-- `Enable` and `Disable` with the commands of Linux.
abbrev pub settled : Manager → Kernel × Result Manager → (Manager × Kernel) × Result (Unit {0})
settled m (k, err e) = ((m, k), err (wrap (str "gateway enable failed") e))
settled m (k, ok m') = ((record m' { enabled = true }, k), ok tt)

unfoldable pub enable_linux :
    Result (List GoString) → Works → Manager → Kernel → (Manager × Kernel) × Result (Unit {0})
enable_linux route w m k =
    if m.enabled then ((m, k), ok tt) else settled m (enable_forwarding route w m k)

unfoldable pub disable_linux : Result (List GoString) → Manager → Kernel → Manager × Kernel
disable_linux route m k =
    if m.enabled then (record m { enabled = false }, disable_forwarding route m k) else (m, k)
