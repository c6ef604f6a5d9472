-- ===== src/Breaker/Race.antt =====
-- `Allow` when goroutines overlap. `transition` releases the mutex around the callback, if one is set,
-- so another goroutine can run between `allow_begin` and `allow_end`.
use gordion_vpn.Base.{
  ℕ, zero, suc, ◌+◌, ◌-◌, ◌*◌, ◌≤◌, ◌<◌, ◌≡◌, refl, sym, ap, ◌∙◌, List, [], ◌∷◌, ◌++◌, arith,
  replicate, true,
}
use mathlib.Core.Path.{subst}
use gordion_vpn.Breaker.Invariant
use gordion_vpn.Breaker.Invariant.{Op, IsValid, step-IsValid, new-IsValid}
use gordion_vpn.Breaker.{
  State, open_, half_open, CircuitBreaker, Progress, granted, denied, in_callback, allow_begin,
  allow_end, allow, new, Config, record_success, record_failure,
}

-- `pending` goroutines are inside the callback of `Allow`; `admitted` calls have been let through
-- since the breaker last became half-open.
pub record System : Type 0 where
  pub breaker : CircuitBreaker
  pub pending : ℕ
  pub admitted : ℕ

-- What one goroutine does between two points where it holds the mutex.
pub data Event : Type 0 where
  arrives : ℕ → Event  -- calls `Allow`, up to its return or its callback
  resumes : Event  -- comes back from the callback, and returns true
  succeeds : Event
  fails : ℕ → Event

-- The count of admitted calls starts again with the call that ends the open state.
abbrev admitted_before : State → ℕ → ℕ
admitted_before open_ n = 0
admitted_before _ n = n

abbrev admit : System → CircuitBreaker × Progress → System
admit s (cb, granted) = record s {
  breaker = cb;
  admitted = admitted_before s.breaker.state s.admitted + 1;
}
admit s (cb, denied) = record s { breaker = cb }
admit s (cb, in_callback) = record s { breaker = cb; pending = s.pending + 1; admitted = 1 }

abbrev resume : ℕ → System → System
resume zero s = s
resume (suc n) s = record s { breaker = allow_end s.breaker; pending = n }

unfoldable pub step : Event → System → System
step (arrives now) s = admit s (allow_begin now s.breaker)
step resumes s = resume s.pending s
step succeeds s = record s { breaker = record_success s.breaker }
step (fails now) s = record s { breaker = record_failure now s.breaker }

unfoldable pub run : List Event → System → System
run [] s = s
run (e ∷ es) s = run es (step e s)

run-append : (es fs : List Event) (s : System) → run (es ++ fs) s ≡ run fs (run es s)
unfolding run
run-append [] fs s = refl
run-append (e ∷ es) fs s = run-append es fs (step e s)

-- While `k` probes are free, `k` arrivals get through.
arrivals :
    (now k : ℕ) (s : System)
    → s.breaker.state ≡ half_open
    → s.breaker.half_open_req + k ≤ s.breaker.cfg.half_open_max
    → let t = run (replicate k (arrives now)) s in
      (t.breaker.state ≡ half_open)
      × (t.breaker.half_open_req ≡ s.breaker.half_open_req + k)
      × (t.breaker.cfg ≡ s.breaker.cfg)
      × (t.pending ≡ s.pending)
      × (t.admitted ≡ s.admitted + k)
unfolding run step allow_begin
arrivals now zero s h room = ground arith
arrivals now (suc k) s h room = ground (arith, arrivals now k (step (arrives now) s))

first_arrival :
    (now : ℕ) (s : System)
    → s.breaker.state ≡ open_
    → s.breaker.cfg.open_timeout ≤ now - s.breaker.last_failure
    → s.breaker.half_open_req ≡ 0
    → s.breaker.cfg.on_state_change ≡ true
    → let t = step (arrives now) s in
      (t.breaker.state ≡ half_open)
      × (t.breaker.half_open_req ≡ 0)
      × (t.breaker.cfg ≡ s.breaker.cfg)
      × (t.pending ≡ s.pending + 1)
      × (t.admitted ≡ 1)
unfolding step allow_begin
first_arrival now s o late z callback = ground arith

resumption :
    (s : System)
    → 0 < s.pending
    → let t = step resumes s in
      (t.breaker.state ≡ s.breaker.state)
      × (t.breaker.half_open_req ≡ 1)
      × (t.breaker.cfg ≡ s.breaker.cfg)
      × (t.admitted ≡ s.admitted)
unfolding step allow_end
resumption s p = ground arith

-- One goroutine moves the open breaker to half-open and runs its callback; meanwhile `max` others
-- arrive; it resumes, and `rest` more arrive.
abbrev pub overlap : ℕ → ℕ → ℕ → List Event
overlap now max rest =
    arrives now ∷ replicate max (arrives now) ++ resumes ∷ replicate rest (arrives now)

overlap-stages :
    (now max rest : ℕ) (s : System)
    → run (overlap now max rest) s
      ≡ run
          (replicate rest (arrives now))
          (step resumes (run (replicate max (arrives now)) (step (arrives now) s)))
unfolding run
overlap-stages now max rest s =
    run-append (replicate max (arrives now)) (resumes ∷ replicate rest (arrives now))
      (step (arrives now) s)

-- With that overlap a breaker that has a callback, and whose wait is over, lets through twice `HalfOpenMax` probes in one
-- half-open phase, and counts only `HalfOpenMax` of them.
pub overlap_admits_twice :
    (now rest : ℕ) (s : System)
    → s.breaker.state ≡ open_
    → s.breaker.cfg.open_timeout ≤ now - s.breaker.last_failure
    → s.breaker.half_open_req ≡ 0
    → s.breaker.cfg.half_open_max ≡ suc rest
    → s.breaker.cfg.on_state_change ≡ true
    → let t = run (overlap now (suc rest) rest) s in
      (t.breaker.state ≡ half_open)
      × (t.admitted ≡ 2 * s.breaker.cfg.half_open_max)
      × (t.breaker.half_open_req ≡ s.breaker.cfg.half_open_max)
overlap_admits_twice now rest s o late z m callback =
    let a = step (arrives now) s in
    let b = run (replicate (suc rest) (arrives now)) a in
    rw (overlap-stages now (suc rest) rest s) (
      ground (
        arith,
        first_arrival now s o late z callback,
        arrivals now (suc rest) a,
        resumption b,
        arrivals now rest (step resumes b),
      ))

-- A history in which every callback returns before the next call of a method.
abbrev pub sequential : List Op → List Event
sequential [] = []
sequential (Op.allows now ∷ os) = arrives now ∷ resumes ∷ sequential os
sequential (Op.succeeds ∷ os) = succeeds ∷ sequential os
sequential (Op.fails now ∷ os) = fails now ∷ sequential os

-- Nobody is in a callback, and the breaker counts what it lets through.
record IsQuiet (s : System) : Type 0 where
  valid : IsValid s.breaker
  quiet : s.pending ≡ 0
  counted : s.breaker.state ≡ half_open → s.admitted ≡ s.breaker.half_open_req

-- One call of a method, its callback included.
abbrev events : Op → List Event
events (Op.allows now) = arrives now ∷ resumes ∷ []
events Op.succeeds = succeeds ∷ []
events (Op.fails now) = fails now ∷ []

events-breaker :
    (o : Op) (s : System)
    → IsQuiet s
    → let t = run (events o) s in
      (t.breaker ≡ Invariant.step o s.breaker)
      × (t.pending ≡ 0)
      × (t.breaker.state ≡ half_open → t.admitted ≡ t.breaker.half_open_req)
unfolding run step allow_begin allow_end allow record_success record_failure Invariant.step
events-breaker (Op.allows now) s q = ground arith
events-breaker Op.succeeds s q = ground arith
events-breaker (Op.fails now) s q = ground arith

events-IsQuiet : (o : Op) (s : System) → IsQuiet s → IsQuiet (run (events o) s)
events-IsQuiet o s q =
    let (same, none_pending, counted) = events-breaker o s q in
    record {
      valid = subst IsValid (sym same) (step-IsValid o s.breaker q.valid);
      quiet = none_pending;
      counted = counted;
    }

sequential-cons :
    (o : Op) (os : List Op) (s : System)
    → run (sequential (o ∷ os)) s ≡ run (sequential os) (run (events o) s)
unfolding run
sequential-cons (Op.allows now) os s = refl
sequential-cons Op.succeeds os s = refl
sequential-cons (Op.fails now) os s = refl

sequential-run :
    (os : List Op) (s : System)
    → IsQuiet s
    → ((run (sequential os) s).breaker ≡ Invariant.run os s.breaker)
      × IsQuiet (run (sequential os) s)
unfolding run Invariant.run
sequential-run [] s q = (refl, q)
sequential-run (o ∷ os) s q =
    let (same, quiet) = sequential-run os (run (events o) s) (events-IsQuiet o s q) in
    rw (sequential-cons o os s) (same ∙ ap (Invariant.run os) (events-breaker o s q).0, quiet)

abbrev pub start : Config → System
start cfg = record { breaker = new cfg; pending = 0; admitted = 0 }

-- Where callbacks are not overlapped, the goroutines' steps compute what `Allow`, `RecordSuccess`
-- and `RecordFailure` compute one after the other, and a half-open phase of a breaker made by
-- `New` lets through at most `HalfOpenMax` probes.
pub sequential-refines :
    (cfg : Config) (os : List Op)
    → let t = run (sequential os) (start cfg) in
      (t.breaker ≡ Invariant.run os (new cfg))
      × (t.breaker.state ≡ half_open → t.admitted ≤ t.breaker.cfg.half_open_max)
unfolding new
sequential-refines cfg os =
    let (same, q) =
      sequential-run os (start cfg)
        (record { valid = new-IsValid cfg; quiet = refl; counted = λ h. ground arith }) in
    (same, λ h. omega (arith, q.counted h, q.valid.probes_bounded h))
