-- ===== src/Agent/Refresh.antt =====
-- `tokenRefreshLoop` of services/agent/internal/agent/agent.go. Instants are nanoseconds, and
-- `expires_at` is a Unix time in seconds. `scaled` is what `float64(d) * 0.8` comes to as a
-- `Duration`; a token that has expired leaves 0 here, which the test for 30 seconds takes alike. What
-- `retryRegister` answers in a round, and the time that it takes, are part of the round.
mod Tests
use gordion_vpn.Base.{
  ℕ, ◌+◌, ◌-◌, ◌*◌, ◌≤◌, ◌<◌, ◌≡◌, List, [], ◌∷◌, if◌then◌else◌, ltb, arith, All, Bool, true, false,
  Bool-cases, inl, inr,
}
use gordion_vpn.Base.Bytes.{GoString}
use gordion_vpn.Grpc.{Result, ok, err}
use gordion_vpn.Breaker.{second}
use gordion_vpn.Agent.{Registered}

-- What `setToken` keeps.
pub record Session : Type 0 where
  pub token : GoString
  pub expires_at : ℕ

pub record Round : Type 0 where
  pub delay : ℕ
  pub answer : Result Registered

-- `2 ^ 50`.
abbrev pub rounding : ℕ
rounding = 1125899906842624

unfoldable pub set_token : Result Registered → Session → Session
set_token (ok r) s = record { token = r.token; expires_at = r.expires_at }
set_token (err e) s = s

module _ (scaled : ℕ → ℕ) where
  -- How long the loop waits, at `now`.
  unfoldable pub refresh_in : ℕ → Session → ℕ
  refresh_in now s =
      let wait = scaled (s.expires_at * second - now) in
      if ltb wait (30 * second) then 30 * second else wait

  -- A token that the loop has asked for: when it has got the answer, and the one that it had.
  pub record Refresh : Type 0 where
    pub done : ℕ
    pub before : Session

  unfoldable pub refresh_loop : List Round → ℕ → Session → List Refresh
  unfolding set_token
  refresh_loop [] now s = []
  refresh_loop (round ∷ rounds) now s =
      let done = now + refresh_in now s + round.delay in
      let refresh : Refresh = record { done = done; before = s } in
      refresh ∷ refresh_loop rounds done (set_token round.answer s)

  -- `float64(d) * 0.8`: the conversion, the constant and the product are each rounded, by one part in
  -- `2 ^ 53` at most, so the result can exceed four fifths of the duration by one part in `2 ^ 50`.
  abbrev pub IsScaling : Type 0
  IsScaling = (x : ℕ) → 5 * (rounding * scaled x) ≤ 4 * ((rounding + 1) * x)

  -- The service answers soon, with a token for `life` from the time it is asked at.
  abbrev pub IsServed : ℕ → List Round → ℕ → Session → Type 0
  IsServed life [] now s = Unit
  IsServed life (round ∷ rounds) now s =
      let asked = now + refresh_in now s in
      (r : Registered) × (round.answer ≡ ok r)
      × (8 * round.delay ≤ life)
      × (asked + life ≤ r.expires_at * second)
      × IsServed life rounds (asked + round.delay) (set_token round.answer s)

  refresh_in-le :
      (now life : ℕ) (s : Session)
      → IsScaling
      → 60 * second ≤ life
      → 5 * now + 4 * life ≤ 5 * (s.expires_at * second)
      → 8 * refresh_in now s + life < 8 * (s.expires_at * second - now)
  unfolding refresh_in
  refresh_in-le now life s scaling long left =
      let x = s.expires_at * second - now in
      let bound = scaling x in
      elim (Bool-cases (ltb (scaled x) (30 * second))) [
        | inl e ↦ rw e (omega (arith, long, left))
        | inr e ↦ rw e (omega (arith, bound, long, left))
      ]

  arrives_in_time :
      (done expires now : ℕ) (wait delay life : ℕ)
      → done ≡ now + wait + delay
      → 8 * wait + life < 8 * (expires - now)
      → 8 * delay ≤ life
      → done < expires
  arrives_in_time done expires now wait delay life e w d = omega (arith, e, w, d)

  -- The agent always has a token that has not expired: if it starts with four fifths of a token's
  -- lifetime left, tokens live for a minute at least, and the identity service answers every
  -- request of the loop, within an eighth of that lifetime and with a token that lives that long from
  -- the request on, then each new token arrives before the one that it replaces expires. That holds
  -- with the rounding of the product of floating-point numbers, of one part in `2 ^ 50` at most.
  pub refresh_loop_in_time :
      (rounds : List Round) (life now : ℕ) (s : Session)
      → IsScaling
      → 60 * second ≤ life
      → 5 * now + 4 * life ≤ 5 * (s.expires_at * second)
      → IsServed life rounds now s
      → All (λ f. f.done < f.before.expires_at * second) (refresh_loop rounds now s)
  unfolding refresh_loop set_token
  refresh_loop_in_time [] life now s scaling long left served = tt
  refresh_loop_in_time (round ∷ rounds) life now s scaling long left (r, e, soon, lives, more) =
      let wait = refresh_in now s in
      let w = refresh_in-le now life s scaling long left in
      let asked = now + wait in
      let done = asked + round.delay in
      let next = set_token round.answer s in
      let same : next.expires_at ≡ r.expires_at = ground (arith, e) in
      (
        arrives_in_time done (s.expires_at * second) now wait round.delay life (omega arith) w soon,
        refresh_loop_in_time rounds life done next scaling long (omega (arith, same, soon, lives))
            more,
      )
