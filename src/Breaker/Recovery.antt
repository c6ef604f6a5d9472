-- ===== src/Breaker/Recovery.antt =====
-- How the breaker leaves the open state (`Allow`, `Execute`), and how it can fail to.
use gordion_vpn.Base.{
  suc, ◌+◌, ◌-◌, ◌≤◌, ◌<◌, ◌≡◌, refl, true, Option, none, some, List, [], ◌∷◌, map, arith, length,
  All, ap,
}
use gordion_vpn.Grpc.{Code}
use gordion_vpn.Breaker.{
  Config, closed, open_, half_open, CircuitBreaker, allow, record_success, is_ignored, Call,
  refused, settle, execute, execute_all,
}
use gordion_vpn.Breaker.Invariant.{IsValid}

-- Closed, with every counter at 0.
pub record IsFresh (cb : CircuitBreaker) : Type 0 where
  pub is_closed : cb.state ≡ closed
  pub no_failures : cb.failures ≡ 0
  pub no_successes : cb.successes ≡ 0
  pub no_probes : cb.half_open_req ≡ 0

module _ {E : Type 0} (from_error : E → Option Code) where
  success_opens :
      (c : Call E) (cb : CircuitBreaker)
      → cb.state ≡ open_
      → cb.cfg.open_timeout ≤ c.start - cb.last_failure
      → cb.successes ≡ 0
      → c.result ≡ none
      → let cb' = (execute from_error c cb).0 in
        (cb'.cfg ≡ cb.cfg)
        × ((cb.cfg.half_open_max ≤ 1 → IsFresh cb')
            × (1 < cb.cfg.half_open_max
                → (cb'.state ≡ half_open) × (cb'.half_open_req ≡ 1) × (cb'.successes ≡ 1)))
  unfolding execute allow settle record_success
  success_opens c cb o late z r = (ground arith, (λ h. ground arith, λ h. ground arith))

  success_probe :
      (c : Call E) (cb : CircuitBreaker)
      → cb.state ≡ half_open
      → cb.half_open_req < cb.cfg.half_open_max
      → c.result ≡ none
      → let cb' = (execute from_error c cb).0 in
        (cb'.cfg ≡ cb.cfg)
        × ((cb.cfg.half_open_max ≤ cb.successes + 1 → IsFresh cb')
            × (cb.successes + 1 < cb.cfg.half_open_max
                → (cb'.state ≡ half_open)
                  × (cb'.half_open_req ≡ cb.half_open_req + 1)
                  × (cb'.successes ≡ cb.successes + 1)))
  unfolding execute allow settle record_success
  success_probe c cb o room r = (ground arith, (λ h. ground arith, λ h. ground arith))

  success_probes :
      (c : Call E) (cs : List (Call E)) (cb : CircuitBreaker)
      → cb.state ≡ half_open
      → cb.half_open_req ≡ cb.successes
      → cb.successes + suc (length cs) ≡ cb.cfg.half_open_max
      → All (λ d. d.result ≡ none) (c ∷ cs)
      → IsFresh (execute_all from_error (c ∷ cs) cb).0
  unfolding execute_all
  success_probes c [] cb h e n a = (success_probe c cb h (omega arith) a.0).1.0 (omega arith)
  success_probes c (d ∷ cs) cb h e n a =
      let p = success_probe c cb h (omega arith) a.0 in
      let (h', r', s') = p.1.1 (omega arith) in
      success_probes d cs (execute from_error c cb).0 h' (omega arith)
        (omega (arith, s', ap (λ (cfg : Config). cfg.half_open_max) p.0)) a.1

  -- Once `OpenTimeout` has passed since the last failure, `HalfOpenMax` successful calls in a row
  -- close a valid open breaker, with every counter back at 0.
  pub recovers :
      (c : Call E) (cs : List (Call E)) (cb : CircuitBreaker)
      → IsValid cb
      → cb.state ≡ open_
      → cb.cfg.open_timeout ≤ c.start - cb.last_failure
      → length (c ∷ cs) ≡ cb.cfg.half_open_max
      → All (λ d. d.result ≡ none) (c ∷ cs)
      → IsFresh (execute_all from_error (c ∷ cs) cb).0
  unfolding execute_all
  recovers c [] cb v o late n a =
      (success_opens c cb o late (v.open_clear o).1 a.0).1.0 (omega arith)
  recovers c (d ∷ cs) cb v o late n a =
      let p = success_opens c cb o late (v.open_clear o).1 a.0 in
      let (h', r', s') = p.1.1 (omega arith) in
      success_probes d cs (execute from_error c cb).0 h' (omega arith)
        (omega (arith, s', ap (λ (cfg : Config). cfg.half_open_max) p.0)) a.1

  -- The calls whose `fn` ran out of time, or was cancelled by the caller.
  abbrev pub IsAbandoned : Call E → Type 0
  IsAbandoned c = (e : E) × (c.result ≡ some e) × (is_ignored (from_error e) ≡ true)

  abandoned_opens :
      (c : Call E) (cb : CircuitBreaker)
      → cb.state ≡ open_
      → cb.cfg.open_timeout ≤ c.start - cb.last_failure
      → IsAbandoned c
      → let cb' = (execute from_error c cb).0 in
        (cb'.state ≡ half_open) × (cb'.half_open_req ≡ 1) × (cb'.cfg ≡ cb.cfg)
  unfolding execute allow settle
  abandoned_opens c cb o late (e, r, i) = ground arith

  abandoned_probe :
      (c : Call E) (cb : CircuitBreaker)
      → cb.state ≡ half_open
      → cb.half_open_req < cb.cfg.half_open_max
      → IsAbandoned c
      → let cb' = (execute from_error c cb).0 in
        (cb'.state ≡ half_open) × (cb'.half_open_req ≡ cb.half_open_req + 1) × (cb'.cfg ≡ cb.cfg)
  unfolding execute allow settle
  abandoned_probe c cb h room (e, r, i) = ground arith

  no_probe_left :
      (c : Call E) (cb : CircuitBreaker)
      → cb.state ≡ half_open
      → cb.cfg.half_open_max ≤ cb.half_open_req
      → execute from_error c cb ≡ (cb, refused)
  unfolding execute allow
  no_probe_left c cb h full = ground arith

  abandoned_probes :
      (cs : List (Call E)) (cb : CircuitBreaker)
      → cb.state ≡ half_open
      → cb.half_open_req + length cs ≡ cb.cfg.half_open_max
      → All IsAbandoned cs
      → let cb' = (execute_all from_error cs cb).0 in
        (cb'.state ≡ half_open) × (cb'.half_open_req ≡ cb'.cfg.half_open_max)
  unfolding execute_all
  abandoned_probes [] cb h n a = (h, omega arith)
  abandoned_probes (c ∷ cs) cb h n a =
      let (h', r', g') = abandoned_probe c cb h (omega arith) a.0 in
      abandoned_probes cs (execute from_error c cb).0 h'
        (omega (arith, r', ap (λ (cfg : Config). cfg.half_open_max) g')) a.1

  full_refuses :
      (cs : List (Call E)) (cb : CircuitBreaker)
      → cb.state ≡ half_open
      → cb.cfg.half_open_max ≤ cb.half_open_req
      → execute_all from_error cs cb ≡ (cb, map (λ c. refused) cs)
  unfolding execute_all
  full_refuses [] cb h full = refl
  full_refuses (c ∷ cs) cb h full = rw (no_probe_left c cb h full, full_refuses cs cb h full)

  -- If all `HalfOpenMax` probes of a breaker that leaves the open state are cancelled or run out
  -- of time, it is stuck: it stays half-open, and refuses every later call at any time, for ever.
  pub abandoned_probes_block :
      (c : Call E) (cs later : List (Call E)) (cb : CircuitBreaker)
      → cb.state ≡ open_
      → cb.cfg.open_timeout ≤ c.start - cb.last_failure
      → length (c ∷ cs) ≡ cb.cfg.half_open_max
      → All IsAbandoned (c ∷ cs)
      → let cb' = (execute_all from_error (c ∷ cs) cb).0 in
        (cb'.state ≡ half_open)
        × (execute_all from_error later cb' ≡ (cb', map (λ d. refused) later))
  unfolding execute_all
  abandoned_probes_block c cs later cb o late n a =
      let (h', r', g') = abandoned_opens c cb o late a.0 in
      let p =
        abandoned_probes cs (execute from_error c cb).0 h'
          (omega (arith, r', ap (λ (cfg : Config). cfg.half_open_max) g')) a.1 in
      (p.0, full_refuses later _ p.0 (omega (arith, p.1)))
