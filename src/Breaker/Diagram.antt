-- ===== src/Breaker/Diagram.antt =====
-- The transitions that `transition` reports to `OnStateChange`.
use gordion_vpn.Base.{◌≡◌, refl, true, List, [], ◌∷◌, arith, ◌⊎◌, inl, inr}
use gordion_vpn.Breaker.{
  State, closed, open_, half_open, Config, CircuitBreaker, new, allow, record_success,
  record_failure,
}
use gordion_vpn.Breaker.Invariant.{Op, allows, succeeds, fails, step, run}

-- The arrows of the state diagram.
pub data Edge : State → State → Type 0 where
  trip : Edge closed open_
  probe : Edge open_ half_open
  heal : Edge half_open closed
  relapse : Edge half_open open_

-- A log, newest first, of arrows that lead from `closed` to the state `s`.
abbrev pub Trail : State → List (State × State) → Type 0
Trail s [] = s ≡ closed
Trail s ((from, to) ∷ log) = (to ≡ s) × Edge from to × Trail from log

abbrev pub IsTraced : CircuitBreaker → Type 0
IsTraced cb = Trail cb.state cb.notified

ruleset edges = (trip, probe, heal, relapse)

module _ (cb : CircuitBreaker) (watched : cb.cfg.on_state_change ≡ true) where
  pub step-watched : (o : Op) → (step o cb).cfg.on_state_change ≡ true
  unfolding step allow record_success record_failure
  step-watched (allows now) = ground arith
  step-watched succeeds = ground arith
  step-watched (fails now) = ground arith

  -- A call reports nothing and stays, or reports the one arrow that it takes.
  step-moves :
      (o : Op)
      → (((step o cb).state ≡ cb.state) × ((step o cb).notified ≡ cb.notified))
        ⊎ (Edge cb.state (step o cb).state
            × ((step o cb).notified ≡ (cb.state, (step o cb).state) ∷ cb.notified))
  unfolding step allow record_success record_failure
  step-moves (allows now) = grind (arith, edges)
  step-moves succeeds = grind (arith, edges)
  step-moves (fails now) = grind (arith, edges)

step-Trail :
    (o : Op) (cb : CircuitBreaker)
    → cb.cfg.on_state_change ≡ true
    → IsTraced cb
    → IsTraced (step o cb)
step-Trail o cb w t = elim (step-moves cb w o) [
  | inl (same, log) ↦ rw (same, log) t
  | inr (edge, log) ↦ rw log (refl, edge, t)
]

run-Trail :
    (os : List Op) (cb : CircuitBreaker)
    → cb.cfg.on_state_change ≡ true
    → IsTraced cb
    → IsTraced (run os cb)
unfolding run
run-Trail [] cb w t = t
run-Trail (o ∷ os) cb w t = run-Trail os (step o cb) (step-watched cb w o) (step-Trail o cb w t)

-- The calls of `OnStateChange` on a breaker made by `New` form one path through the diagram: each
-- starts where the one before ended, the first at CLOSED, the last ends in the present state, and
-- the only arrows are to OPEN from CLOSED and HALF_OPEN, and from OPEN to HALF_OPEN to CLOSED.
pub notified-Trail :
    (cfg : Config) (os : List Op) → cfg.on_state_change ≡ true → IsTraced (run os (new cfg))
unfolding new
notified-Trail cfg os w = run-Trail os (new cfg) w refl
