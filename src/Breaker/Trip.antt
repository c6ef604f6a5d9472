-- ===== src/Breaker/Trip.antt =====
-- When the breaker opens, and what it does then (`RecordFailure`, `RecordSuccess`, `Execute`).
use gordion_vpn.Base.{
  ℕ, ◌+◌, ◌-◌, ◌<◌, ◌≡◌, refl, Option, List, [], ◌∷◌, ◌++◌, map, arith, length, ltb, if◌then◌else◌,
  Bool-cases, inl, inr, All,
}
use gordion_vpn.Grpc.{Code}
use gordion_vpn.Breaker.{
  closed, open_, Config, CircuitBreaker, new, allow, record_success, record_failure, Call, refused,
  execute, execute_all,
}
use gordion_vpn.Breaker.Invariant.{
  IsValid, Op, allows, succeeds, fails, step, run, run-new-IsValid, step-IsValid,
}

pub run-append : (os ps : List Op) (cb : CircuitBreaker) → run (os ++ ps) cb ≡ run ps (run os cb)
unfolding run
run-append [] ps cb = refl
run-append (o ∷ os) ps cb = run-append os ps (step o cb)

pub run-cfg : (os : List Op) (cb : CircuitBreaker) → (run os cb).cfg ≡ cb.cfg
unfolding run step allow record_success record_failure
run-cfg [] cb = refl
run-cfg (allows now ∷ os) cb = ground (arith, run-cfg os (step (allows now) cb))
run-cfg (succeeds ∷ os) cb = ground (arith, run-cfg os (step succeeds cb))
run-cfg (fails now ∷ os) cb = ground (arith, run-cfg os (step (fails now) cb))

fails_closed :
    (now : ℕ) (cb : CircuitBreaker)
    → cb.state ≡ closed
    → let cb' = step (fails now) cb in
      (cb'.cfg ≡ cb.cfg)
      × (cb'.failures ≡ cb.failures + 1)
      × (cb'.state ≡ (if ltb (cb.failures + 1) cb.cfg.max_failures then closed else open_))
unfolding step record_failure
fails_closed now cb c = ground arith

fails_open :
    (times : List ℕ) (cb : CircuitBreaker)
    → cb.state ≡ open_
    → (run (map fails times) cb).state ≡ open_
unfolding run step record_failure
fails_open [] cb o = o
fails_open (t ∷ ts) cb o = fails_open ts (step (fails t) cb) (ground arith)

fails_run :
    (times : List ℕ) (cb : CircuitBreaker)
    → IsValid cb
    → cb.state ≡ closed
    → (run (map fails times) cb).state
      ≡ (if ltb (cb.failures + length times) cb.cfg.max_failures then closed else open_)
unfolding run
fails_run [] cb v c = ground arith
fails_run (t ∷ ts) cb v c = elim (Bool-cases (ltb (cb.failures + 1) cb.cfg.max_failures)) [
  | inl below ↦
      ground
        (arith, fails_closed t cb c, step-IsValid (fails t) cb v, fails_run ts (step (fails t) cb))
  | inr reached ↦ ground (arith, fails_closed t cb c, fails_open ts (step (fails t) cb))
]

success_closed :
    (cb : CircuitBreaker)
    → cb.state ≡ closed
    → let cb' = step succeeds cb in (cb'.state ≡ closed) × (cb'.failures ≡ 0) × (cb'.cfg ≡ cb.cfg)
unfolding step record_success
success_closed cb c = ground arith

-- After any history that leaves the breaker closed, and then one success, failures in a row open
-- it exactly when there are at least `MaxFailures` of them: what failed before a success never
-- counts.
pub trips_on_streak :
    (cfg : Config) (before : List Op) (times : List ℕ)
    → (run before (new cfg)).state ≡ closed
    → (run (before ++ succeeds ∷ map fails times) (new cfg)).state
      ≡ (if ltb (length times) (new cfg).cfg.max_failures then closed else open_)
unfolding run
trips_on_streak cfg before times c =
    let cb = run before (new cfg) in
    let v = step-IsValid succeeds cb (run-new-IsValid cfg before) in
    ground (
      arith,
      run-append before (succeeds ∷ map fails times) (new cfg),
      run-cfg before (new cfg),
      success_closed cb c,
      fails_run times (step succeeds cb) v,
    )

module _ {E : Type 0} (from_error : E → Option Code) where
  execute_open :
      (c : Call E) (cb : CircuitBreaker)
      → cb.state ≡ open_
      → c.start - cb.last_failure < cb.cfg.open_timeout
      → execute from_error c cb ≡ (cb, refused)
  unfolding execute allow
  execute_open c cb o early = ground arith

  -- While the breaker is open and `OpenTimeout` has not passed since the last failure, every call
  -- is refused without running `fn`, and nothing changes, not even the time to wait.
  pub open_refuses :
      (cs : List (Call E)) (cb : CircuitBreaker)
      → cb.state ≡ open_
      → All (λ c. c.start - cb.last_failure < cb.cfg.open_timeout) cs
      → execute_all from_error cs cb ≡ (cb, map (λ c. refused) cs)
  unfolding execute_all
  open_refuses [] cb o early = refl
  open_refuses (c ∷ cs) cb o early = rw (execute_open c cb o early.0, open_refuses cs cb o early.1)
