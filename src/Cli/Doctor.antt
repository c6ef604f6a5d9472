-- ===== src/Cli/Doctor.antt =====
-- cli/cmd/doctor.go: the checks of `gordion doctor`. What the system answers is an argument, and so
-- are the texts that `err.Error()` and `fmt` make of errors and numbers.
use gordion_vpn.Base.{
  Bool, true, false, ◌&&◌, Option, none, some, List, [], ◌∷◌, ◌++◌, if◌then◌else◌,
}
use gordion_vpn.Base.Bytes.{GoString, str}
use gordion_vpn.Base.Int.{ℤ, pos}
use gordion_vpn.Grpc.{GoError, Result, ok, err}
use gordion_vpn.Settings.Cli.{CliConfig}
use gordion_vpn.Cli.{State, Json, World, read, is_running, em_dash}
use gordion_vpn.Cli.Text.{contains_any}

pub record CheckResult : Type 0 where
  pub name : GoString
  pub ok : Bool
  pub message : GoString

-- What a service is asked: whether the connection can be made, and the error of the call.
pub data Probe : Type 0 where
  no_connection : GoError → Probe
  called : Option GoError → Probe

pub record Surroundings : Type 0 where
  pub identity : Probe
  pub discovery : Probe
  pub config : Probe
  pub udp_error : Option GoError  -- of listening on the WireGuard port
  pub tcp_error : Option GoError  -- of listening on the port of libp2p
  pub wg_found : Bool

-- `state.Read` with its error dropped, and `s != nil && s.IsRunning()`.
abbrev pub known : Result (Option State) → Option State
known (ok s) = s
known (err e) = none

abbrev pub runs : {B : Type 0} → Json B → World B → Option State → Bool
runs json w none = false
runs json w (some s) = is_running json w s

module _ (error : GoError → GoString) where
  abbrev any_code : GoString → List GoString → Bool
  any_code text [] = false
  any_code text (code ∷ codes) =
      let rest = any_code text codes in if contains_any text (code ∷ []) then true else rest

  unfoldable pub is_grpc_alive : Option GoError → Bool
  is_grpc_alive none = true
  is_grpc_alive (some e) =
      any_code (error e) (
        str "Unauthenticated"
        ∷ str "InvalidArgument"
        ∷ str "PermissionDenied"
        ∷ str "NotFound"
        ∷ [])

  abbrev pub judged : GoString → GoString → Bool → Option GoError → CheckResult
  judged name addr true e = record {
    name = name;
    ok = true;
    message = str "OK (" ++ addr ++ str ")";
  }
  judged name addr false none = record {
    name = name;
    ok = true;
    message = str "OK (" ++ addr ++ str ")";
  }
  judged name addr false (some e) = record {
    name = name;
    ok = false;
    message = str "unreachable (" ++ addr ++ str "): " ++ error e;
  }

  unfoldable pub grpc_check : GoString → GoString → Probe → CheckResult
  grpc_check name addr (no_connection e) = record {
    name = name;
    ok = false;
    message = str "cannot connect to " ++ addr ++ str ": " ++ error e;
  }
  grpc_check name addr (called e) = judged name addr (is_grpc_alive e) e

  module _ (sprint : ℤ → GoString) where
    abbrev pub agent_check : Option State → Bool → CheckResult
    agent_check (some s) true = record {
      name = str "Agent process";
      ok = true;
      message = str "Running (PID " ++ sprint (pos s.pid) ++ str ")";
    }
    agent_check _ _ = record {
      name = str "Agent process";
      ok = false;
      message = str "Not running " ++ em_dash ++ str " start with `gordion up`";
    }

    abbrev port_text : ℤ → GoString → GoString
    port_text port text = str "Port " ++ sprint port ++ text

    abbrev pub udp_check : Bool → ℤ → Option GoError → CheckResult
    udp_check true port e = record {
      name = str "WireGuard port";
      ok = true;
      message = port_text port (str " in use by agent (expected)");
    }
    udp_check false port (some e) = record {
      name = str "WireGuard port";
      ok = false;
      message = port_text port (str " unavailable: " ++ error e);
    }
    udp_check false port none = record {
      name = str "WireGuard port";
      ok = true;
      message = port_text port (str " is free");
    }

    -- `err != nil && s == nil`.
    abbrev pub tcp_check : Option State → ℤ → Option GoError → CheckResult
    tcp_check none port (some e) = record {
      name = str "P2P port";
      ok = false;
      message = port_text port (str " unavailable: " ++ error e);
    }
    tcp_check _ port _ = record {
      name = str "P2P port";
      ok = true;
      message = port_text port (str " OK");
    }

    abbrev pub binary_check : Bool → CheckResult
    binary_check true = record {
      name = str "WireGuard binary";
      ok = true;
      message = str "Found in PATH";
    }
    binary_check false = record {
      name = str "WireGuard binary";
      ok = false;
      message = str "Not found in PATH";
    }

    module _ {B : Type 0} (json : Json B) where
      unfoldable pub run_checks :
          Option GoError → Surroundings → CliConfig → World B → List CheckResult
      run_checks read_error sys cfg w =
          let s = known (read json read_error w) in
          let running = runs json w s in
          agent_check s running
          ∷ grpc_check (str "Identity Service") cfg.identity_addr sys.identity
          ∷ grpc_check (str "Discovery Service") cfg.discovery_addr sys.discovery
          ∷ grpc_check (str "Config Service") cfg.config_addr sys.config
          ∷ udp_check running cfg.wire_guard_port sys.udp_error
          ∷ tcp_check s cfg.p2p_port sys.tcp_error
          ∷ binary_check sys.wg_found
          ∷ []

-- `allOK` of `printDoctorResults`.
unfoldable pub all_ok : List CheckResult → Bool
all_ok [] = true
all_ok (c ∷ cs) = c.ok && all_ok cs
