-- ===== src/Cli/Order.antt =====
-- `up` starts the agent first and writes the state file then; the agent writes it too.
use gordion_vpn.Base.{ℕ, ◌≡◌, refl, subst, Bool, true, false, Option, none, some, [], if◌then◌else◌}
use gordion_vpn.Base.Bytes.{GoString}
use gordion_vpn.Grpc.{GoError, Result, ok, err}
use gordion_vpn.Settings.Cli.{CliConfig}
use gordion_vpn.Cli.{
  State, Json, World, Launch, Begun, answered, launched, Report, read, write, is_running, spawned,
  logged, with_binary, loaded, begun, args_of, up_begin, up_end, update_cli_state,
}
use gordion_vpn.Cli.Tracked.{read_back}

module _ {B : Type 0} (json : Json B) where
  -- What `up` is about to write has no token and no address.
  abbrev IsBlank : Result Begun → Type 0
  IsBlank (ok (launched s)) = (s.token ≡ []) × (s.vpn_addr ≡ [])
  IsBlank _ = Unit

  spawned-IsBlank :
      (l : Launch B) (cfg : CliConfig) (r : Result ℕ) (w : World B)
      → IsBlank (spawned json l cfg r w).1
  spawned-IsBlank l cfg (err e) w = tt
  spawned-IsBlank l cfg (ok pid) w = (refl, refl)

  logged-IsBlank :
      (l : Launch B) (cfg : CliConfig) (r : Option GoError) (w : World B)
      → IsBlank (logged json l cfg r w).1
  logged-IsBlank l cfg (some e) w = tt
  logged-IsBlank l cfg none w = spawned-IsBlank l cfg (l.start (args_of json l)) w

  with_binary-IsBlank :
      (l : Launch B) (cfg : CliConfig) (r : Result GoString) (w : World B)
      → IsBlank (with_binary json l cfg r w).1
  with_binary-IsBlank l cfg (err e) w = tt
  with_binary-IsBlank l cfg (ok b) w = logged-IsBlank l cfg l.log_dir w

  loaded-IsBlank :
      (l : Launch B) (r : Result CliConfig) (w : World B) → IsBlank (loaded json l r w).1
  loaded-IsBlank l (err e) w = tt
  loaded-IsBlank l (ok cfg) w = with_binary-IsBlank l cfg l.binary w

  answered-IsBlank :
      (b : Bool) (rep : Report) (w : World B) (p : World B × Result Begun)
      → IsBlank p.1
      → IsBlank (if b then (w, ok (answered rep)) else p).1
  answered-IsBlank true rep w p v = tt
  answered-IsBlank false rep w p v = v

  begun-IsBlank :
      (l : Launch B) (r : Result (Option State)) (w : World B) → IsBlank (begun json l r w).1
  begun-IsBlank l (err e) w = loaded-IsBlank l l.load w
  begun-IsBlank l (ok none) w = loaded-IsBlank l l.load w
  begun-IsBlank l (ok (some s)) w =
      answered-IsBlank (is_running json w s) _ w (loaded json l l.load w)
        (loaded-IsBlank l l.load w)

  up_begin-IsBlank : (l : Launch B) (w : World B) → IsBlank (up_begin json l w).1
  unfolding up_begin
  up_begin-IsBlank l w = begun-IsBlank l (read json l.read_error w) w

  -- When the agent that `up` has just started writes its address and token before `up` writes the
  -- state file, the file ends without them, until the agent starts again; the other way round it
  -- has both.
  pub late_write_loses_token :
      (l : Launch B) (w w1 : World B) (s : State) (addr token : GoString) (is_exit use_exit : Bool)
      (id : GoString)
      → up_begin json l w ≡ (w1, ok (launched s))
      → let update = update_cli_state json true none addr token is_exit use_exit id in
        let late = (up_end json none (update w1, ok (launched s))).0 in
        let early = update (up_end json none (w1, ok (launched s))).0 in
        (read json none late ≡ ok (some s))
        × (s.token ≡ [])
        × (s.vpn_addr ≡ [])
        × (read json none early
            ≡ ok (
                some (record s {
                  vpn_addr = addr;
                  token = token;
                  is_exit_node = is_exit;
                  use_exit_node = use_exit;
                  exit_node_id = id;
                })))
  unfolding up_end update_cli_state write
  late_write_loses_token l w w1 s addr token is_exit use_exit id e =
      let blank = subst (λ p. IsBlank p.1) e (up_begin-IsBlank l w) in
      (
        read_back json s w1.running,
        blank.0,
        blank.1,
        rw (json.unmarshal-marshal s) (read_back json _ w1.running),
      )
