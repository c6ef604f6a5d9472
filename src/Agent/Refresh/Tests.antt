-- ===== src/Agent/Refresh/Tests.antt =====
-- Two refreshes of tokens that live for 100 seconds.
use gordion_vpn.Base.{◌<◌, ℕ, ◌*◌, ◌/◌, refl, List, [], ◌∷◌, arith, All}
use gordion_vpn.Base.Bytes.{str}
use gordion_vpn.Grpc.{ok}
use gordion_vpn.Breaker.{second}
use gordion_vpn.Agent.{Registered}
use gordion_vpn.Agent.Refresh.{
  Session, Round, set_token, refresh_in, refresh_loop, IsScaling, IsServed, refresh_loop_in_time,
}

-- The product with the constant 0.8 of `float64`, not rounded further.
abbrev scaled : ℕ → ℕ
scaled x = x * 7205759403792794 / 9007199254740992

scaled-IsScaling : IsScaling scaled
scaled-IsScaling x = omega arith

abbrev start : Session
start = record { token = str "t0"; expires_at = 100 }

abbrev until : ℕ → Registered
until t = record { node_id = str "a"; token = str "t"; expires_at = t }

-- The loop asks at 80 s, and at 160.2 s.
abbrev rounds : List Round
rounds =
    record { delay = second; answer = ok (until 180) }
    ∷ record { delay = 2 * second; answer = ok (until 261) }
    ∷ []

served : IsServed scaled (100 * second) rounds 0 start
unfolding refresh_in set_token
served =
    (until 180, refl, omega arith, omega arith, (until 261, refl, omega arith, omega arith, tt))

refresh_loop_in_time_example :
    All (λ f. f.done < f.before.expires_at * second) (refresh_loop scaled rounds 0 start)
refresh_loop_in_time_example =
    refresh_loop_in_time scaled rounds (100 * second) 0 start scaled-IsScaling (omega arith)
      (omega arith) served
