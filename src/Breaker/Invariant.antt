-- ===== src/Breaker/Invariant.antt =====
-- What holds of a circuit breaker between two calls of its methods, made by any number of
-- goroutines of which none runs during a callback.
use gordion_vpn.Base.{ℕ, ◌+◌, ◌≤◌, ◌<◌, ◌≡◌, List, [], ◌∷◌, arith, length}
use gordion_vpn.Breaker.{
  closed, open_, half_open, Config, CircuitBreaker, new, allow, record_success, record_failure,
}

pub record IsValid (cb : CircuitBreaker) : Type 0 where
  pub max_failures_pos : 0 < cb.cfg.max_failures
  pub half_open_max_pos : 0 < cb.cfg.half_open_max
  pub closed_below : cb.state ≡ closed → cb.failures < cb.cfg.max_failures
  pub closed_clear : cb.state ≡ closed → (cb.half_open_req ≡ 0) × (cb.successes ≡ 0)
  pub open_clear : cb.state ≡ open_ → (cb.half_open_req ≡ 0) × (cb.successes ≡ 0)
  pub probes_some : cb.state ≡ half_open → 0 < cb.half_open_req
  pub probes_bounded : cb.state ≡ half_open → cb.half_open_req ≤ cb.cfg.half_open_max
  pub successes_below : cb.state ≡ half_open → cb.successes < cb.cfg.half_open_max

-- The calls of the methods that change the state, with the instant that each reads.
pub data Op : Type 0 where
  allows : ℕ → Op
  succeeds : Op
  fails : ℕ → Op

unfoldable pub step : Op → CircuitBreaker → CircuitBreaker
step (allows now) cb = (allow now cb).0
step succeeds cb = record_success cb
step (fails now) cb = record_failure now cb

unfoldable pub run : List Op → CircuitBreaker → CircuitBreaker
run [] cb = cb
run (o ∷ os) cb = run os (step o cb)

pub new-IsValid : (cfg : Config) → IsValid (new cfg)
unfolding new
new-IsValid cfg = ground arith

pub step-IsValid : (o : Op) (cb : CircuitBreaker) → IsValid cb → IsValid (step o cb)
unfolding step allow record_success record_failure
step-IsValid (allows now) cb v = ground arith
step-IsValid succeeds cb v = ground arith
step-IsValid (fails now) cb v = ground arith

run-IsValid : (os : List Op) (cb : CircuitBreaker) → IsValid cb → IsValid (run os cb)
unfolding run
run-IsValid [] cb v = v
run-IsValid (o ∷ os) cb v = run-IsValid os (step o cb) (step-IsValid o cb v)

-- Whatever methods are called on a new breaker, in any order and at any times, it stays valid:
-- closed means fewer failures in a row than `MaxFailures`; half-open means between one and
-- `HalfOpenMax` probes let through and fewer successes than that; and no probe or success is
-- remembered while it is closed or open.
pub run-new-IsValid : (cfg : Config) (os : List Op) → IsValid (run os (new cfg))
run-new-IsValid cfg os = run-IsValid os (new cfg) (new-IsValid cfg)

counters-step :
    (o : Op) (cb : CircuitBreaker)
    → IsValid cb
    → ((step o cb).failures ≤ cb.failures + 1)
      × ((step o cb).successes ≤ cb.successes + 1)
      × ((step o cb).half_open_req ≤ cb.half_open_req + 1)
unfolding step allow record_success record_failure
counters-step (allows now) cb v = ground arith
counters-step succeeds cb v = ground arith
counters-step (fails now) cb v = ground arith

counters-run :
    (os : List Op) (cb : CircuitBreaker)
    → IsValid cb
    → ((run os cb).failures ≤ cb.failures + length os)
      × ((run os cb).successes ≤ cb.successes + length os)
      × ((run os cb).half_open_req ≤ cb.half_open_req + length os)
unfolding run
counters-run [] cb v = omega arith
counters-run (o ∷ os) cb v =
    omega (arith, counters-step o cb v, counters-run os (step o cb) (step-IsValid o cb v))

-- No counter is above the number of calls made, so none overflows an `int` in fewer than 2 ^ 63.
pub counters-run-new :
    (cfg : Config) (os : List Op)
    → ((run os (new cfg)).failures ≤ length os)
      × ((run os (new cfg)).successes ≤ length os)
      × ((run os (new cfg)).half_open_req ≤ length os)
unfolding new
counters-run-new cfg os = omega (arith, counters-run os (new cfg) (new-IsValid cfg))
