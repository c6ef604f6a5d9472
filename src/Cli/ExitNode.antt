-- ===== src/Cli/ExitNode.antt =====
-- `exit-node set` and `exit-node off` followed by the restart that they ask for.
use gordion_vpn.Base.{◌≡◌, Bool, true, false, Option, none, some, []}
use gordion_vpn.Base.Bytes.{GoString}
use gordion_vpn.Grpc.{ok}
use gordion_vpn.Cli.{State, Json, World, Launch, Stop, read, write, delete, is_running, Report}
use gordion_vpn.Cli.Commands.{signalled, changed, down, restart, exit_node_set, exit_node_unset}
use gordion_vpn.Cli.Tracked.{read_back}

-- What the two commands do to the state.
abbrev pub routed : Bool → GoString → State → State
routed use_exit id s = record s { use_exit_node = use_exit; exit_node_id = id }

module _ {B : Type 0} (json : Json B) where
  signalled_same :
      (d : Stop) (s : State) (use_exit : Bool) (id : GoString) (b : B) (w : World B)
      → d.delete_works ≡ true
      → signalled json d (routed use_exit id s) none (record w { file = some b })
        ≡ signalled json d s none w
  unfolding delete is_running
  signalled_same d s use_exit id b w x = rw x

  down_same :
      (d : Stop) (s : State) (use_exit : Bool) (id : GoString) (w : World B)
      → d.read_error ≡ none
      → d.signal_error ≡ none
      → d.delete_works ≡ true
      → read json none w ≡ ok (some s)
      → is_running json w s ≡ true
      → down json d (record w { file = some (json.marshal (routed use_exit id s)) }) ≡ down json d w
  unfolding down is_running
  down_same d s use_exit id w e f x r z =
      rw (e, f, r, z, read_back json (routed use_exit id s) w.running, z)
        (signalled_same d s use_exit id (json.marshal (routed use_exit id s)) w x)

  changed_file :
      (s : State) (use_exit : Bool) (id : GoString) (rep : Report) (w : World B)
      → read json none w ≡ ok (some s)
      → is_running json w s ≡ true
      → (changed json (routed use_exit id) none rep (read json none w) w).0
        ≡ record w { file = some (json.marshal (routed use_exit id s)) }
  unfolding write
  changed_file s use_exit id rep w r z = rw (r, z)

  restart-changed :
      (d : Stop) (l : Launch B) (use_exit : Bool) (id : GoString) (rep : Report) (s : State)
      (w : World B)
      → d.read_error ≡ none
      → d.signal_error ≡ none
      → d.delete_works ≡ true
      → read json none w ≡ ok (some s)
      → is_running json w s ≡ true
      → restart json d l (changed json (routed use_exit id) none rep (read json none w) w).0
        ≡ restart json d l w
  unfolding restart
  restart-changed d l use_exit id rep s w e f x r z =
      rw (changed_file s use_exit id rep w r z, down_same d s use_exit id w e f x r z)

  -- A choice of exit node, or giving it up, while the agent runs is gone after the restart that the
  -- command asks for: what the restart leaves and reports is the same as without the choice, when
  -- the agent gets the signal and the state file can be read and deleted.
  pub restart_forgets_exit_node :
      (d : Stop) (l : Launch B) (id : Option GoString) (s : State) (w : World B)
      → d.read_error ≡ none
      → d.signal_error ≡ none
      → d.delete_works ≡ true
      → read json none w ≡ ok (some s)
      → is_running json w s ≡ true
      → (restart json d l (exit_node_set json none none id w).0 ≡ restart json d l w)
        × (restart json d l (exit_node_unset json none none w).0 ≡ restart json d l w)
  unfolding exit_node_set exit_node_unset
  restart_forgets_exit_node d l none s w e f x r z =
      (restart-changed d l true [] _ s w e f x r z, restart-changed d l false [] _ s w e f x r z)
  restart_forgets_exit_node d l (some id) s w e f x r z =
      (restart-changed d l true id _ s w e f x r z, restart-changed d l false [] _ s w e f x r z)
