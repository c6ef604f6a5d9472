-- ===== src/Gateway/Systems.antt =====
-- services/agent/internal/gateway/darwin.go and windows.go: the commands that the gateway runs there.
-- Whether a command succeeds is an argument; what it does to the system is outside.
use gordion_vpn.Base.{◌≡◌, refl, Bool, true, false, List, [], ◌∷◌, ◌++◌, if◌then◌else◌}
use gordion_vpn.Base.Bytes.{GoString, str, is_empty}
use gordion_vpn.Grpc.{wrap, plain, Result, ok, err}
use gordion_vpn.Gateway.{Manager}
use gordion_vpn.Gateway.Linux.{command_failed}

pub record Command : Type 0 where
  pub name : GoString
  pub args : List GoString

abbrev pub Works : Type 0
Works = Command → Bool

-- The commands run, in their order, and what the call returns.
abbrev pub Ran : Type 0
Ran = List Command × Result (Unit {0})

abbrev pub and_then : Command → Ran → Ran
and_then c (cs, a) = (c ∷ cs, a)

-- `runCmd`, whose error ends the call with `text`, or else `rest` follows.
unfoldable pub run_cmd : Works → Command → GoString → Ran → Ran
run_cmd works c text rest =
    if works c then and_then c rest else (c ∷ [], err (wrap text (command_failed c.name)))

abbrev pub done : Ran
done = ([], ok tt)

abbrev sysctl : GoString → Command
sysctl value = record {
  name = str "sysctl";
  args = str "-w" ∷ (str "net.inet.ip.forwarding=" ++ value) ∷ [];
}

-- The rule ends with a line break.
abbrev pf_rule : Manager → GoString
pf_rule m = str "nat on en0 from " ++ m.iface ++ str ":network to any -> (en0)" ++ (10 ∷ [])

abbrev load_rules : Manager → Command
load_rules m = record {
  name = str "sh";
  args = str "-c" ∷ (str "echo '" ++ pf_rule m ++ str "' | pfctl -f - && pfctl -e") ∷ [];
}

unfoldable pub enable_darwin : Works → Manager → Ran
unfolding run_cmd
enable_darwin works m =
    run_cmd works (sysctl (str "1")) (str "sysctl forwarding failed")
      (run_cmd works (load_rules m) (str "pfctl NAT failed") done)

unfoldable pub disable_darwin : Manager → Ran
disable_darwin m =
    (record { name = str "pfctl"; args = str "-d" ∷ [] } ∷ sysctl (str "0") ∷ [], ok tt)

abbrev powershell : GoString → Command
powershell script = record {
  name = str "powershell";
  args = str "-NoProfile" ∷ str "-Command" ∷ script ∷ [];
}

-- `TrimSpace` of what `Get-NetRoute` prints.
unfoldable pub outbound_windows : Result GoString → Result GoString
outbound_windows (err e) = err (wrap (str "Get-NetRoute") e)
outbound_windows (ok iface) =
    if is_empty iface then err (plain (str "no default route found")) else ok iface

abbrev set_forwarding : GoString → Manager → Command
set_forwarding to m = powershell (
    str "Set-NetIPInterface -InterfaceAlias '"
    ++ m.iface
    ++ str "' -Forwarding "
    ++ to
    ++ str " -ErrorAction SilentlyContinue")

-- A line break and `n` tabs, as in the text of the script.
abbrev new_line : GoString
new_line = 10 ∷ 9 ∷ 9 ∷ []

abbrev new_nat : Command
new_nat = powershell (
    new_line
    ++ str "if (-not (Get-NetNat -Name 'GordionNAT' -ErrorAction SilentlyContinue)) {"
    ++ new_line
    ++ (9 ∷ [])
    ++ str "New-NetNat -Name 'GordionNAT' -InternalIPInterfaceAddressPrefix '10.8.0.0/16'"
    ++ new_line
    ++ str "}")

-- The error of the first command is ignored.
unfoldable pub enable_windows : Works → Manager → Ran
unfolding run_cmd
enable_windows works m =
    and_then (set_forwarding (str "Enabled") m)
      (run_cmd works new_nat (str "New-NetNat (run as Administrator)") done)

unfoldable pub disable_windows : Manager → Ran
disable_windows m = (
  powershell (str "Remove-NetNat -Name 'GordionNAT' -Confirm:$false -ErrorAction SilentlyContinue")
      ∷ set_forwarding (str "Disabled") m
      ∷ [],
  ok tt,
)

-- A command that fails is the last one, so the commands before it stay in effect.
pub enable_darwin-partial :
    (works : Works) (m : Manager)
    → works (sysctl (str "1")) ≡ true
    → works (load_rules m) ≡ false
    → enable_darwin works m ≡ (
      sysctl (str "1") ∷ load_rules m ∷ [],
      err (wrap (str "pfctl NAT failed") (command_failed (str "sh"))),
    )
unfolding enable_darwin run_cmd
enable_darwin-partial works m a b = rw (a, b) refl
