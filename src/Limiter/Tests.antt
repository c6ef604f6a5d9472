-- ===== src/Limiter/Tests.antt =====
-- The limiter's theorems at concrete events, and runs that follow the source.
use gordion_vpn.Base.{ℕ, ◌≤◌, ◌≡◌, refl, some, List, [], ◌∷◌, arith}
use gordion_vpn.Base.Bytes.{GoString, str, str_eq}
use gordion_vpn.Grpc.{ok, err, status, resource_exhausted}
use gordion_vpn.Limiter.{new, allow, cleanup, intercept}
use gordion_vpn.Limiter.Bounds.{Event, request, cleans, step, admits, admitted, span_bound}
use gordion_vpn.Limiter.Cleanup.{drop_cleans, cleanup_transparent}

abbrev alice : GoString
alice = str "10.0.0.7:4001"

abbrev bob : GoString
bob = str "10.0.0.8:4001"

abbrev events : List Event
events =
    request alice 10
    ∷ request bob 11
    ∷ request alice 12
    ∷ request alice 13
    ∷ cleans 30
    ∷ request alice 31
    ∷ []

events_admitted : (admitted alice events (new 2 15) ≡ 3) × (admitted bob events (new 2 15) ≡ 1)
unfolding admitted admits step allow cleanup new str_eq
events_admitted = (refl, refl)

span_bound_example : admitted alice events (new 2 30) ≤ 4
unfolding new
span_bound_example = span_bound alice 10 events (new 2 30) (omega arith) (omega arith)

cleanup_transparent_example :
    admitted alice events (new 2 15) ≡ admitted alice (drop_cleans events) (new 2 15)
cleanup_transparent_example = cleanup_transparent alice 0 events (new 2 15) (omega arith)

-- The key holds the port, so a second connection of one host starts a window of its own.
refused_and_served :
    let l = (allow alice 1 (new 1 100)).0 in
    ((intercept {A = ℕ} (some alice) 2 (ok 7) l).1
      ≡ err (status resource_exhausted (str "rate limit exceeded")))
    × ((intercept {A = ℕ} (some (str "10.0.0.7:4002")) 2 (ok 7) l).1 ≡ ok 7)
unfolding intercept allow new str_eq
refused_and_served = (refl, refl)
