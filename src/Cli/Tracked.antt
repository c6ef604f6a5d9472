-- ===== src/Cli/Tracked.antt =====
-- The agent that runs is the one of the state file: what each command does to that.
use gordion_vpn.Base.{
  ℕ, ◌≡◌, ◌≢◌, refl, ap, ◌∙◌, sym, Bool, true, false, Option, none, some, List, [], ◌∷◌, arith, inl,
  inr, Bool-cases, ◌==◌,
}
use gordion_vpn.Base.Bytes.{GoString}
use gordion_vpn.Grpc.{GoError, Result, ok, err}
use gordion_vpn.Settings.Cli.{CliConfig}
use gordion_vpn.Cli.{
  State, spawned, parsed, contents, existing, already_running, logged, with_binary, loaded, begun,
  first_state, args_of, Json, World, Launch, Stop, Report, read, write, delete, is_running, without,
  up, up_begin, up_end, update_cli_state,
}
use gordion_vpn.Cli.Commands.{changed, shown, stopping, signalled, down, exit_node_set, status}

module _ {B : Type 0} (json : Json B) where
  -- No agent runs, or the one that the state file names.
  pub data IsTracked (w : World B) : Type 0 where
    idle : w.running ≡ [] → IsTracked w
    one :
        (s : State)
        → read json none w ≡ ok (some s)
        → w.running ≡ s.pid ∷ []
        → s.pid ≢ 0
        → IsTracked w

  -- The state file can be read and written, and no process has the id 0.
  abbrev pub Launches : Launch B → Type 0
  Launches l =
      (l.read_error ≡ none)
      × (l.write_fault ≡ none)
      × ((args : List GoString) → l.start args ≢ ok 0)

  pub read_back :
      (s : State) (running : List ℕ)
      → read json none (record { file = some (json.marshal s); running = running }) ≡ ok (some s)
  unfolding read
  read_back s running = rw (json.unmarshal-marshal s)

  idle_running : (w : World B) (s : State) → w.running ≡ [] → is_running json w s ≡ false
  unfolding is_running
  idle_running w s r = ground (arith, r)

  one_running :
      (w : World B) (s : State) → w.running ≡ s.pid ∷ [] → s.pid ≢ 0 → is_running json w s ≡ true
  unfolding is_running
  one_running w s r p = ground (arith, r, p)

  spawned-IsTracked :
      (l : Launch B) (cfg : CliConfig) (r : Result ℕ) (w : World B)
      → w.running ≡ []
      → r ≢ ok 0
      → IsTracked (up_end json none (spawned json l cfg r w)).0
  unfolding up_end write
  spawned-IsTracked l cfg (err e) w i z = idle i
  spawned-IsTracked l cfg (ok pid) w i z =
      one (first_state json l cfg pid) (read_back (first_state json l cfg pid) (pid ∷ w.running))
        (ap (λ qs. pid ∷ qs) i) (λ e. z (ap ok e))

  logged-IsTracked :
      (l : Launch B) (cfg : CliConfig) (r : Option GoError) (w : World B)
      → w.running ≡ []
      → Launches l
      → IsTracked (up_end json none (logged json l cfg r w)).0
  unfolding up_end
  logged-IsTracked l cfg (some e) w i f = idle i
  logged-IsTracked l cfg none w i f = spawned-IsTracked l cfg (l.start (args_of json l)) w i (f.2 _)

  with_binary-IsTracked :
      (l : Launch B) (cfg : CliConfig) (r : Result GoString) (w : World B)
      → w.running ≡ []
      → Launches l
      → IsTracked (up_end json none (with_binary json l cfg r w)).0
  unfolding up_end
  with_binary-IsTracked l cfg (err e) w i f = idle i
  with_binary-IsTracked l cfg (ok b) w i f = logged-IsTracked l cfg l.log_dir w i f

  loaded-IsTracked :
      (l : Launch B) (r : Result CliConfig) (w : World B)
      → w.running ≡ []
      → Launches l
      → IsTracked (up_end json none (loaded json l r w)).0
  unfolding up_end
  loaded-IsTracked l (err e) w i f = idle i
  loaded-IsTracked l (ok cfg) w i f = with_binary-IsTracked l cfg l.binary w i f

  begun_idle :
      (l : Launch B) (r : Result (Option State)) (w : World B)
      → w.running ≡ []
      → begun json l r w ≡ loaded json l l.load w
  begun_idle l (err e) w i = refl
  begun_idle l (ok none) w i = refl
  begun_idle l (ok (some s)) w i = rw (idle_running w s i)

  -- While the agent that the state file names runs, `up` starts no second one: it changes nothing.
  pub up_again :
      (l : Launch B) (w : World B) (s : State)
      → l.read_error ≡ none
      → read json none w ≡ ok (some s)
      → is_running json w s ≡ true
      → up json l w ≡ (w, ok (already_running s.pid s.vpn_addr))
  unfolding up up_begin up_end
  up_again l w s f r p = rw (f, r, p)

  pub up-IsTracked :
      (l : Launch B) (w : World B) → Launches l → IsTracked w → IsTracked (up json l w).0
  unfolding up up_begin
  up-IsTracked l w f (idle i) =
      rw (f.1, begun_idle l (read json l.read_error w) w i) (loaded-IsTracked l l.load w i f)
  up-IsTracked l w f (one s r i p) = rw (up_again l w s f.0 r (one_running w s i p)) (one s r i p)

  delete-running : (works : Bool) (w : World B) → (delete json works w).running ≡ w.running
  unfolding delete
  delete-running true w = refl
  delete-running false w = refl

  stopping-IsTracked :
      (d : Stop) (r : Result (Option State)) (w : World B)
      → w.running ≡ []
      → IsTracked (stopping json d r w).0
  stopping-IsTracked d (err e) w i = idle i
  stopping-IsTracked d (ok none) w i = idle i
  stopping-IsTracked d (ok (some s)) w i =
      rw (idle_running w s i) (idle (delete-running d.delete_works w ∙ i))

  signalled-running :
      (d : Stop) (s : State) (w : World B)
      → d.kill_works ≡ true
      → w.running ≡ s.pid ∷ []
      → s.pid ≢ 0
      → (signalled json d s none w).0.running ≡ []
  unfolding delete is_running
  signalled-running d s w k i p = ground (arith, k, i, p)

  signalled-IsTracked :
      (d : Stop) (s : State) (e : Option GoError) (w : World B)
      → d.kill_works ≡ true
      → read json none w ≡ ok (some s)
      → w.running ≡ s.pid ∷ []
      → s.pid ≢ 0
      → IsTracked (signalled json d s e w).0
  signalled-IsTracked d s (some e) w k r i p = one s r i p
  signalled-IsTracked d s none w k r i p = idle (signalled-running d s w k i p)

  stopping_one :
      (d : Stop) (s : State) (e : Option GoError) (w : World B)
      → d.kill_works ≡ true
      → read json none w ≡ ok (some s)
      → w.running ≡ s.pid ∷ []
      → s.pid ≢ 0
      → IsTracked (stopping json d (read json e w) w).0
  unfolding read
  stopping_one d s (some e) w k r i p = one s r i p
  stopping_one d s none w k r i p =
      rw (r, one_running w s i p) (signalled-IsTracked d s d.signal_error w k r i p)

  pub down-IsTracked :
      (d : Stop) (w : World B) → d.kill_works ≡ true → IsTracked w → IsTracked (down json d w).0
  unfolding down
  down-IsTracked d w k (idle i) = stopping-IsTracked d (read json d.read_error w) w i
  down-IsTracked d w k (one s r i p) = stopping_one d s d.read_error w k r i p

  changed_idle :
      (f : State → State) (rep : Report) (r : Result (Option State)) (w : World B)
      → w.running ≡ []
      → (changed json f none rep r w).0 ≡ w
  changed_idle f rep (err e) w i = refl
  changed_idle f rep (ok none) w i = refl
  changed_idle f rep (ok (some s)) w i = rw (idle_running w s i)

  pub changed-IsTracked :
      (f : State → State) (rep : Report) (w : World B)
      → ((s : State) → (f s).pid ≡ s.pid)
      → IsTracked w
      → IsTracked (changed json f none rep (read json none w) w).0
  unfolding write
  changed-IsTracked f rep w same (idle i) = rw (changed_idle f rep (read json none w) w i) (idle i)
  changed-IsTracked f rep w same (one s r i p) =
      let names = i ∙ ap (λ q. q ∷ []) (sym (same s)) in
      rw (r, one_running w s i p)
        (one (f s) (read_back (f s) w.running) names (λ e. p (sym (same s) ∙ e)))

  shown-IsTracked :
      (works : Bool) (r : Result (Option State)) (w : World B)
      → w.running ≡ []
      → IsTracked (shown json works r w).0
  shown-IsTracked works (err e) w i = idle i
  shown-IsTracked works (ok none) w i = idle i
  shown-IsTracked works (ok (some s)) w i =
      rw (idle_running w s i) (idle (delete-running works w ∙ i))

  pub set-IsTracked :
      (id : Option GoString) (w : World B)
      → IsTracked w
      → IsTracked (exit_node_set json none none id w).0
  unfolding exit_node_set
  set-IsTracked none w v = changed-IsTracked _ _ w (λ s. refl) v
  set-IsTracked (some id) w v = changed-IsTracked _ _ w (λ s. refl) v

  pub status-IsTracked :
      (works : Bool) (w : World B) → IsTracked w → IsTracked (status json none works w).0
  unfolding status
  status-IsTracked works w (idle i) = shown-IsTracked works (read json none w) w i
  status-IsTracked works w (one s r i p) = rw (r, one_running w s i p) (one s r i p)

  parsed_state : (q : State × Bool) (s : State) → parsed json q ≡ ok (some s) → q.0 ≡ s
  parsed_state (q, true) s e = cc
  parsed_state (q, false) s e = cc

  existing_state :
      (file : Option B) (s : State) → contents json file ≡ ok (some s) → existing json true file ≡ s
  existing_state none s e = cc
  existing_state (some b) s e = parsed_state (json.unmarshal b) s e

  pub update-IsTracked :
      (addr token : GoString) (is_exit use_exit : Bool) (id : GoString) (w : World B)
      → IsTracked w
      → IsTracked (update_cli_state json true none addr token is_exit use_exit id w)
  unfolding update_cli_state write read
  update-IsTracked addr token is_exit use_exit id w (idle i) = idle i
  update-IsTracked addr token is_exit use_exit id w (one s r i p) =
      let known = ap (λ (q : State). q.pid) (existing_state w.file s r) in
      one _ (read_back _ w.running) (i ∙ ap (λ q. q ∷ []) (sym known)) (λ e. p (sym known ∙ e))

  pub dies-IsTracked :
      (pid : ℕ) (w : World B)
      → IsTracked w
      → IsTracked (record w { running = without pid w.running })
  unfolding read
  dies-IsTracked pid w (idle i) = idle (ap (without pid) i)
  dies-IsTracked pid w (one s r i p) = elim (Bool-cases (pid == s.pid)) [
    | inl same ↦ idle (ap (without pid) i ∙ ground (arith, same))
    | inr other ↦ one s r (ap (without pid) i ∙ ground (arith, other)) p
  ]
