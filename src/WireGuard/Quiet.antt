-- ===== src/WireGuard/Quiet.antt =====
-- The dry run: calls of the manager one after the other.
use gordion_vpn.Base.{◌≤◌, ◌≡◌, refl, ◌∙◌, true, Option, none, List, [], ◌∷◌, arith, length}
use gordion_vpn.Base.Bytes.{GoString}
use gordion_vpn.Grpc.{GoError}
use gordion_vpn.WireGuard.{
  PeerConfig, Config, Manager, Os, System, Outcome, done, configure, add_peer, remove_peer, down,
}

pub data Op : Type 0 where
  configures : Option GoError → Config → Op
  adds : PeerConfig → Op
  removes : GoString → Op
  downs : Op

module _ (exec : List GoString → Option GoError) (os : Os) (m : Manager) where
  abbrev pub step : Op → System → System × Outcome
  step (configures e cfg) sys = configure exec os m e cfg sys
  step (adds p) sys = add_peer exec os m p sys
  step (removes key) sys = remove_peer exec os m key sys
  step downs sys = down exec os m sys

  unfoldable pub run : List Op → System → System × List Outcome
  run [] sys = (sys, [])
  run (o ∷ ops) sys =
      let (sys', out) = step o sys in let (last, outs) = run ops sys' in (last, out ∷ outs)

-- The file can be opened, and a key has the eight bytes that the log shows.
abbrev pub IsShown : Op → Type 0
IsShown (configures e cfg) = e ≡ none
IsShown (adds p) = 8 ≤ length p.public_key
IsShown (removes key) = 8 ≤ length key
IsShown downs = Unit

abbrev pub AllShown : List Op → Type 0
AllShown [] = Unit
AllShown (o ∷ ops) = IsShown o × AllShown ops

abbrev pub all_done : List Op → List Outcome
all_done [] = []
all_done (o ∷ ops) = done ∷ all_done ops

module _ (exec : List GoString → Option GoError) (os : Os) (m : Manager) where
  step_quiet :
      (o : Op) (sys : System)
      → m.dry_run ≡ true
      → IsShown o
      → let q = step exec os m o sys in (q.0.ran ≡ sys.ran) × (q.1 ≡ done)
  unfolding configure add_peer remove_peer down
  step_quiet (configures e cfg) sys d s = rw (s, d) (refl, refl)
  step_quiet (adds p) sys d s = ground (arith, d, s)
  step_quiet (removes key) sys d s = ground (arith, d, s)
  step_quiet downs sys d s = rw d (refl, refl)

  -- A dry run runs no command and every call succeeds, whatever is configured, added, removed and
  -- taken down, as long as the file can be opened and the keys have at least eight bytes.
  pub run_quiet :
      (ops : List Op) (sys : System)
      → m.dry_run ≡ true
      → AllShown ops
      → let q = run exec os m ops sys in (q.0.ran ≡ sys.ran) × (q.1 ≡ all_done ops)
  unfolding run
  run_quiet [] sys d s = (refl, refl)
  run_quiet (o ∷ ops) sys d (s, ss) =
      let (a, b) = step_quiet o sys d s in
      let (e, f) = run_quiet ops (step exec os m o sys).0 d ss in (e ∙ a, rw (b, f))
