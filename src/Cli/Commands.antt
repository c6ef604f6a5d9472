-- ===== src/Cli/Commands.antt =====
-- The commands that stop the agent, restart it, change its exit node or show it: down.go,
-- restart.go, exitnode.go and status.go of cli/cmd.
use gordion_vpn.Base.{Bool, true, false, Option, none, some, [], if◌then◌else◌}
use gordion_vpn.Base.Bytes.{GoString, str}
use gordion_vpn.Grpc.{GoError, wrap, Result, ok, err}
use gordion_vpn.Cli.{
  State, Json, World, WriteFault, Launch, Stop, Report, not_running, cleaned_up, stopped,
  force_killed, exit_node, exit_node_off, connected, disconnected, not_started, read, write, delete,
  is_running, up, without,
}

module _ {B : Type 0} (json : Json B) where
  -- The signal is sent; `Kill` follows when the agent is still there.
  abbrev pub signalled : Stop → State → Option GoError → World B → World B × Result Report
  signalled d s (some e) w = (w, err (wrap (str "send stop signal") e))
  signalled d s none w =
      let after = record w { running = if d.exits then without s.pid w.running else w.running } in
      let killed = record w {
        running = if d.kill_works then without s.pid w.running else w.running;
      } in
      if is_running json after s
      then (delete json d.delete_works killed, ok force_killed)
      else (delete json d.delete_works after, ok stopped)

  abbrev pub stopping : Stop → Result (Option State) → World B → World B × Result Report
  stopping d (err e) w = (w, err (wrap (str "read state") e))
  stopping d (ok none) w = (w, ok not_running)
  stopping d (ok (some s)) w =
      if is_running json w s
      then signalled d s d.signal_error w
      else (delete json d.delete_works w, ok (cleaned_up s.pid))

  unfoldable pub down : Stop → World B → World B × Result Report
  down d w = stopping d (read json d.read_error w) w

  -- An error of `down` is a warning.
  unfoldable pub restart : Stop → Launch B → World B → World B × Result Report
  restart d l w = up json l (down d w).0

  abbrev pub saved : Report → World B × Result (Unit {0}) → World B × Result Report
  saved r (w, ok _) = (w, ok r)
  saved r (w, err e) = (w, err (wrap (str "write state") e))

  abbrev pub changed :
      (State → State)
      → WriteFault B
      → Report
      → Result (Option State)
      → World B
      → World B × Result Report
  changed f fault r (err e) w = (w, err (wrap (str "read state") e))
  changed f fault r (ok none) w = (w, err not_started)
  changed f fault r (ok (some s)) w =
      if is_running json w s then saved r (write json fault (f s) w) else (w, err not_started)

  unfoldable pub exit_node_set :
      Option GoError → WriteFault B → Option GoString → World B → World B × Result Report
  exit_node_set e fault none w =
      changed (λ s. record s { use_exit_node = true; exit_node_id = [] }) fault (exit_node [])
        (read json e w) w
  exit_node_set e fault (some id) w =
      changed (λ s. record s { use_exit_node = true; exit_node_id = id }) fault (exit_node id)
        (read json e w) w

  unfoldable pub exit_node_unset : Option GoError → WriteFault B → World B → World B × Result Report
  exit_node_unset e fault w =
      changed (λ s. record s { use_exit_node = false; exit_node_id = [] }) fault exit_node_off
        (read json e w) w

  abbrev pub shown : Bool → Result (Option State) → World B → World B × Result Report
  shown works (err e) w = (w, err (wrap (str "read state") e))
  shown works (ok none) w = (w, ok disconnected)
  shown works (ok (some s)) w =
      if is_running json w s then (w, ok (connected s)) else (delete json works w, ok disconnected)

  unfoldable pub status : Option GoError → Bool → World B → World B × Result Report
  status e works w = shown works (read json e w) w
