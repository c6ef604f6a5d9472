-- ===== src/Breaker/Tests.antt =====
-- The breaker's theorems at concrete calls, and runs that follow the source.
use gordion_vpn.Base.{
  ℕ, ◌+◌, ◌≤◌, ◌≡◌, refl, true, Option, none, some, List, [], ◌∷◌, ◌*◌, map, arith,
}
use gordion_vpn.Grpc.{Code, deadline_exceeded, internal}
use gordion_vpn.Breaker.{
  open_, half_open, Config, CircuitBreaker, new, allow, record_failure, is_ignored, Call, refused,
  settle, execute, execute_all, second,
}
use gordion_vpn.Breaker.Invariant.{IsValid, allows, succeeds, fails, step, run, run-new-IsValid}
use gordion_vpn.Breaker.Trip.{trips_on_streak}
use gordion_vpn.Breaker.Recovery.{IsFresh, recovers, abandoned_probes_block}
use gordion_vpn.Breaker.Race
use gordion_vpn.Breaker.Race.{overlap_admits_twice, sequential-refines}

-- services/agent/internal/client/client.go, newCBConfig.
abbrev client_config : Config
client_config = record {
  max_failures = 5;
  open_timeout = 30 * second;
  half_open_max = 1;
  on_state_change = true;
}

abbrev burst : List ℕ
burst = 1 ∷ 2 ∷ 3 ∷ 4 ∷ 5 ∷ []

abbrev tripped : CircuitBreaker
tripped = run (map fails burst) (new client_config)

tripped_open : tripped.state ≡ open_
unfolding run step record_failure new
tripped_open = refl

run-new-IsValid_example : IsValid (run (fails 1 ∷ fails 2 ∷ allows 3 ∷ []) (new client_config))
run-new-IsValid_example = run-new-IsValid client_config (fails 1 ∷ fails 2 ∷ allows 3 ∷ [])

trips_on_streak_example :
    (run (fails 0 ∷ succeeds ∷ map fails burst) (new client_config)).state ≡ open_
unfolding run step record_failure new
trips_on_streak_example = trips_on_streak client_config (fails 0 ∷ []) burst refl

-- A library error is told apart by its code.
abbrev from_error : Code → Option Code
from_error c = some c

abbrev call_at : ℕ → Option Code → Call Code
call_at t r = record { start = t; result = r; finish_at = t + 1 }

tripped-IsValid : IsValid tripped
tripped-IsValid = run-new-IsValid client_config (map fails burst)

abbrev late : ℕ
late = 31 * second

recovers_example : IsFresh (execute_all from_error (call_at late none ∷ []) tripped).0
unfolding run step record_failure new
recovers_example =
    recovers from_error (call_at late none) [] tripped tripped-IsValid refl (omega arith) refl
      (refl, tt)

abbrev timed_out : Call Code
timed_out = call_at late (some deadline_exceeded)

abandoned_probes_block_example :
    let cb = (execute_all from_error (timed_out ∷ []) tripped).0 in
    (cb.state ≡ half_open)
    × (execute_all from_error (call_at (1000 * late) none ∷ []) cb ≡ (cb, refused ∷ []))
unfolding run step record_failure new is_ignored
abandoned_probes_block_example =
    abandoned_probes_block from_error timed_out [] (call_at (1000 * late) none ∷ []) tripped refl
      (omega arith) refl ((deadline_exceeded, refl, refl), tt)

overlap_admits_twice_example :
    let t =
      Race.run (Race.overlap late 1 0) (record { breaker = tripped; pending = 0; admitted = 0 }) in
    (t.breaker.state ≡ half_open) × (t.admitted ≡ 2) × (t.breaker.half_open_req ≡ 1)
unfolding run step record_failure new
overlap_admits_twice_example =
    overlap_admits_twice late 0 (record { breaker = tripped; pending = 0; admitted = 0 }) refl
      (omega arith) refl refl refl

sequential-refines_example :
    let t = Race.run (Race.sequential (fails 1 ∷ allows late ∷ [])) (Race.start client_config) in
    (t.breaker ≡ run (fails 1 ∷ allows late ∷ []) (new client_config))
    × (t.breaker.state ≡ half_open → t.admitted ≤ t.breaker.cfg.half_open_max)
sequential-refines_example = sequential-refines client_config (fails 1 ∷ allows late ∷ [])

-- A deadline leaves the failures of a closed breaker alone; another error counts.
counted_errors :
    let cb =
      (execute_all from_error
        (call_at 1 (some deadline_exceeded) ∷ call_at 2 (some internal) ∷ [])
        (new client_config)).0 in
    (cb.failures ≡ 1) × (cb.last_failure ≡ 3)
unfolding execute_all execute allow settle is_ignored record_failure new
counted_errors = (refl, refl)
