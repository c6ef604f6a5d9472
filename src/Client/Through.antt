-- ===== src/Client/Through.antt =====
-- A call of a service through `Execute`, and calls one after the other.
use gordion_vpn.Base.{
  ℕ, ◌≡◌, refl, sym, ap, ◌∙◌, subst, true, Option, none, some, List, [], ◌∷◌, arith,
}
use gordion_vpn.Base.Bytes.{str}
use gordion_vpn.Grpc.{Code, GoError, status, unavailable, Result, ok, err}
use gordion_vpn.Breaker.{
  CircuitBreaker, closed, Call, Outcome, refused, returned, execute, allow, settle, is_ignored,
  record_success,
}

-- When a call starts, and when its answer is there.
pub record Timing : Type 0 where
  pub start : ℕ
  pub finish_at : ℕ

abbrev pub error_of : {A : Type 0} → Result A → Option GoError
error_of (ok a) = none
error_of (err e) = some e

-- The error of `Execute` itself.
abbrev pub breaker_is_open : GoError
breaker_is_open = status unavailable (str "circuit breaker is OPEN")

abbrev pub answer_of : {S A : Type 0} → Outcome GoError → S → S × Result A → S × Result A
answer_of refused s p = (s, err breaker_is_open)
answer_of (returned e) s p = p

-- An answer that does not count as a failure.
abbrev pub IsBenign : {A : Type 0} → (GoError → Option Code) → Result A → Type 0
IsBenign from_error (ok a) = Unit
IsBenign from_error (err e) = is_ignored (from_error e) ≡ true

-- Requests one after the other, straight to the service.
unfoldable pub direct_all :
    {S A : Type 0} → List (Timing × (S → S × Result A)) → S → S × List (Result A)
direct_all [] s = (s, [])
direct_all ((t, remote) ∷ rs) s =
    let (s', a) = remote s in let (end, answers) = direct_all rs s' in (end, a ∷ answers)

module _ (from_error : GoError → Option Code) {S A : Type 0} where
  -- `cb.Execute(func() error { resp, e = service(...); return e })`.
  unfoldable pub through :
      Timing → (S → S × Result A) → CircuitBreaker → S → CircuitBreaker × (S × Result A)
  through t remote cb s =
      let p = remote s in
      let call : Call GoError = record {
        start = t.start;
        result = error_of p.1;
        finish_at = t.finish_at;
      } in
      let q = execute from_error call cb in (q.0, answer_of q.1 s p)

  -- Requests one after the other, through the breaker.
  unfoldable pub through_all :
      List (Timing × (S → S × Result A))
      → CircuitBreaker
      → S
      → CircuitBreaker × (S × List (Result A))
  through_all [] cb s = (cb, (s, []))
  through_all ((t, remote) ∷ rs) cb s =
      let (cb', (s', a)) = through t remote cb s in
      let (last, (end, answers)) = through_all rs cb' s' in (last, (end, a ∷ answers))

  abbrev pub AllBenign : List (Timing × (S → S × Result A)) → S → Type 0
  AllBenign [] s = Unit
  AllBenign ((t, remote) ∷ rs) s = IsBenign from_error (remote s).1 × AllBenign rs (remote s).0

  settled-benign :
      (t : Timing) (cb : CircuitBreaker) (s : S) (p : S × Result A)
      → cb.state ≡ closed
      → IsBenign from_error p.1
      → let call : Call GoError = record {
        start = t.start;
        result = error_of p.1;
        finish_at = t.finish_at;
      } in
        let q = execute from_error call cb in (q.0.state ≡ closed) × (answer_of q.1 s p ≡ p)
  unfolding execute allow settle record_success
  settled-benign t cb s (s', ok a) c b = ground arith
  settled-benign t cb s (s', err e) c b = ground arith

  through-benign :
      (t : Timing) (remote : S → S × Result A) (cb : CircuitBreaker) (s : S)
      → cb.state ≡ closed
      → IsBenign from_error (remote s).1
      → let (cb', r) = through t remote cb s in (cb'.state ≡ closed) × (r ≡ remote s)
  unfolding through
  through-benign t remote cb s c b = settled-benign t cb s (remote s) c b

  -- As long as a service answers no call with an error other than Canceled or DeadlineExceeded, a
  -- closed breaker is not noticed: every call reaches the service, in order, its answer is the
  -- caller's, and the breaker stays closed.
  pub through_all-direct_all :
      (rs : List (Timing × (S → S × Result A))) (cb : CircuitBreaker) (s : S)
      → cb.state ≡ closed
      → AllBenign rs s
      → let (cb', end) = through_all rs cb s in (end ≡ direct_all rs s) × (cb'.state ≡ closed)
  unfolding through_all direct_all
  through_all-direct_all [] cb s c b = (refl, c)
  through_all-direct_all ((t, remote) ∷ rs) cb s c (b, bs) =
      let (c', e) = through-benign t remote cb s c b in
      let one = through t remote cb s in
      let (f, k) =
        through_all-direct_all rs one.0 one.1.0 c' (subst (λ r. AllBenign rs r.0) (sym e) bs) in
      let first_then : S × List (Result A) → S × List (Result A) = λ x. (x.0, one.1.1 ∷ x.1) in
      let sent : S × Result A → S × List (Result A) =
        λ r. ((direct_all rs r.0).0, r.1 ∷ (direct_all rs r.0).1) in
      (ap first_then f ∙ ap sent e, k)
