-- ===== src/Cli/Agents.antt =====
-- Which agents run after commands, deaths of agents and writes of agents, in any order.
use gordion_vpn.Base.{ℕ, ◌≡◌, refl, Bool, true, Option, none, List, [], ◌∷◌}
use gordion_vpn.Base.Bytes.{GoString}
use gordion_vpn.Cli.Tracked.{
  IsTracked, Launches, up-IsTracked, down-IsTracked, set-IsTracked, status-IsTracked,
  changed-IsTracked, update-IsTracked, dies-IsTracked,
}
use gordion_vpn.Cli.{Json, World, Launch, Stop, without, up, update_cli_state}
use gordion_vpn.Cli.Commands.{down, restart, exit_node_set, exit_node_unset, status}

module _ {B : Type 0} (json : Json B) where
  -- What happens to an agent and to the state file. No read and no write of the commands fails.
  pub data Event : Type 0 where
    ups : Launch B → Event
    downs : Stop → Event
    restarts : Stop → Launch B → Event
    sets : Option GoString → Event
    unsets : Event
    shows : Bool → Event
    updates : GoString → GoString → Bool → Bool → GoString → Event
    dies : ℕ → Event

  abbrev pub step : Event → World B → World B
  step (ups l) w = (up json l w).0
  step (downs d) w = (down json d w).0
  step (restarts d l) w = (restart json d l w).0
  step (sets id) w = (exit_node_set json none none id w).0
  step unsets w = (exit_node_unset json none none w).0
  step (shows works) w = (status json none works w).0
  step (updates addr token is_exit use_exit id) w =
      update_cli_state json true none addr token is_exit use_exit id w
  step (dies pid) w = record w { running = without pid w.running }

  unfoldable pub run : List Event → World B → World B
  run [] w = w
  run (e ∷ es) w = run es (step e w)

  abbrev pub Works : Event → Type 0
  Works (ups l) = Launches json l
  Works (downs d) = d.kill_works ≡ true
  Works (restarts d l) = (d.kill_works ≡ true) × Launches json l
  Works _ = Unit

  abbrev pub AllWork : List Event → Type 0
  AllWork [] = Unit
  AllWork (e ∷ es) = Works e × AllWork es

  step-IsTracked :
      (e : Event) (w : World B) → Works e → IsTracked json w → IsTracked json (step e w)
  unfolding restart exit_node_unset
  step-IsTracked (ups l) w f v = up-IsTracked json l w f v
  step-IsTracked (downs d) w f v = down-IsTracked json d w f v
  step-IsTracked (restarts d l) w f v =
      up-IsTracked json l (down json d w).0 f.1 (down-IsTracked json d w f.0 v)
  step-IsTracked (sets id) w f v = set-IsTracked json id w v
  step-IsTracked unsets w f v = changed-IsTracked json _ _ w (λ s. refl) v
  step-IsTracked (shows works) w f v = status-IsTracked json works w v
  step-IsTracked (updates addr token is_exit use_exit id) w f v =
      update-IsTracked json addr token is_exit use_exit id w v
  step-IsTracked (dies pid) w f v = dies-IsTracked json pid w v

  -- If at first no agent runs, or the one that the state file names, then at most one agent runs after any
  -- sequence of `up`, `down`, `restart`, `exit-node set`, `exit-node off`, `status`, writes of the
  -- agent and deaths of processes, and it is the one whose id the state file holds, so that `down`
  -- finds it; provided that reads and writes of the file work and a kill that `down` sends does too.
  pub run-IsTracked :
      (es : List Event) (w : World B) → IsTracked json w → AllWork es → IsTracked json (run es w)
  unfolding run
  run-IsTracked [] w v f = v
  run-IsTracked (e ∷ es) w v f = run-IsTracked es (step e w) (step-IsTracked e w f.0 v) f.1
