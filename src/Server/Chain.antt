-- ===== src/Server/Chain.antt =====
-- A server's calls through its chain of interceptors, compared with the handlers behind the rate
-- limit alone.
use gordion_vpn.Base.{
  ℕ, ◌+◌, ◌≡◌, refl, ap, ◌∙◌, Bool, true, false, ◌&&◌, Option, none, some, List, [], ◌∷◌, inl, inr,
  if◌then◌else◌, arith, Bool-cases,
}
use gordion_vpn.Base.Bytes.{GoString, str, str_eq}
use gordion_vpn.Grpc.{GoError, Code, status, resource_exhausted, Result, ok, err}
use gordion_vpn.Limiter.{Limiter, answer, allow, client_key, intercept}
use gordion_vpn.Server.Trace.{Context, trace_of, with_trace, with_request_id}
use gordion_vpn.Server.{
  Monitor, adding, Call, Handler, fresh, status_label, metrics_interceptor, logging_interceptor,
  server_interceptor, chain, passed_on, serve,
}

-- A handler of a service: it does not touch the metrics of the chain.
abbrev pub Service : Type 0 → Type 0 → Type 0
Service S A = Context → S → S × Result A

abbrev pub lift : {S A : Type 0} → Service S A → Handler S A
lift h ctx (s, m) = let (t, a) = h ctx s in ((t, m), a)

-- The context that a handler gets.
abbrev pub context_of : Call → Context
context_of c =
    with_request_id c.request_bytes (with_trace (trace_of c.trace_bytes c.incoming) (fresh c))

abbrev pub refusal : GoError
refusal = status resource_exhausted (str "rate limit exceeded")

module _ (from_error : GoError → Option Code) (code_text : Code → GoString)
    (service : GoString) where
  unfoldable pub serve_all :
      {S A : Type 0}
      → List (Call × Service S A)
      → Limiter
      → S × Monitor
      → (S × Monitor) × List (Result A)
  serve_all [] l w = (w, [])
  serve_all ((c, h) ∷ cs) l w =
      let p = serve from_error code_text service c (lift h) l w in
      let rest = serve_all cs p.0 p.1.0 in (rest.0, p.1.1 ∷ rest.1)

  -- The handlers behind the limiter alone: what each call's handler answers, if it is reached.
  unfoldable pub alone :
      {S A : Type 0}
      → List (Call × Service S A)
      → Limiter
      → S
      → S × List (GoString × Option (Result A))
  alone [] l s = (s, [])
  alone ((c, h) ∷ cs) l s =
      let a = allow (client_key c.peer) c.now l in
      let q = h (context_of c) s in
      let on = alone cs a.0 q.0 in
      let off = alone cs a.0 s in
      if a.1 then (on.0, (c.method, some q.1) ∷ on.1) else (off.0, (c.method, none) ∷ off.1)

  abbrev pub told : {A : Type 0} → Option (Result A) → Result A
  told none = err refusal
  told (some a) = a

  unfoldable pub told_all : {A : Type 0} → List (GoString × Option (Result A)) → List (Result A)
  told_all [] = []
  told_all ((m, a) ∷ outcomes) = told a ∷ told_all outcomes

  -- How many calls of a method reached their handler and got the given status.
  unfoldable pub tally :
      {A : Type 0} → GoString → GoString → List (GoString × Option (Result A)) → ℕ
  tally method label [] = 0
  tally method label ((m, none) ∷ outcomes) = tally method label outcomes
  tally method label ((m, some a) ∷ outcomes) =
      let rest = tally method label outcomes in
      if str_eq m method && str_eq (status_label from_error code_text service a) label
      then rest + 1
      else rest

  -- What a call that the limiter lets through leaves of the monitor.
  record Counted {A : Type 0} (c : Call) (a : Result A) (m n : Monitor) : Type 0 where
    gauge : n.active_connections ≡ m.active_connections
    total :
        (method label : GoString)
        → n.requests_total method label
          ≡ adding m.requests_total c.method
              (status_label from_error code_text service a)
              method
              label

  module _ {S A : Type 0} where
    chain-Counted :
        (c : Call) (h : Service S A) (s : S) (m : Monitor)
        → let q = h (context_of c) s in
          (n : Monitor) × (chain from_error code_text service c (lift h) (fresh c) (s, m)
            ≡ ((q.0, n), q.1))
          × Counted c q.1 m n
    unfolding chain server_interceptor logging_interceptor metrics_interceptor
    chain-Counted c h s m = (_, refl, record { gauge = omega arith; total = λ method label. refl })

    passed_on-answer :
        (p : Limiter × Bool) (handled : (S × Monitor) × Result A) (w : S × Monitor)
        → passed_on from_error code_text service w (answer p (ok handled))
          ≡ (p.0, if p.1 then handled else (w, err refusal))
    unfolding passed_on answer
    passed_on-answer (l, true) handled w = refl
    passed_on-answer (l, false) handled w = refl

    serve-if :
        (c : Call) (h : Service S A) (l : Limiter) (w : S × Monitor)
        → let a = allow (client_key c.peer) c.now l in
          serve from_error code_text service c (lift h) l w ≡ (
            a.0,
            if a.1
                then chain from_error code_text service c (lift h) (fresh c) w
                else (w, err refusal),
          )
    unfolding serve intercept
    serve-if c h l w = passed_on-answer (allow (client_key c.peer) c.now l) _ w

    -- The chain is transparent: over any calls, a service ends in the same state, and the callers
    -- get the same answers, as with the rate limit alone. Afterwards the gauge of active connections
    -- is what it was, and the counter of a method and a status has grown by the number of calls of
    -- that method that were let through and answered with that status; refused calls are not counted.
    pub serve_all-alone :
        (cs : List (Call × Service S A)) (l : Limiter) (s : S) (m : Monitor)
        (method label : GoString)
        → let p = serve_all cs l (s, m) in
          let q = alone cs l s in
          (p.0.0 ≡ q.0)
          × (p.1 ≡ told_all q.1)
          × (p.0.1.active_connections ≡ m.active_connections)
          × (p.0.1.requests_total method label
              ≡ m.requests_total method label + tally method label q.1)
    unfolding serve_all alone told_all tally
    serve_all-alone [] l s m method label = (refl, refl, refl, omega arith)
    serve_all-alone ((c, h) ∷ cs) l s m method label =
        let a = allow (client_key c.peer) c.now l in
        let q = h (context_of c) s in
        let e = serve-if c h l (s, m) in
        elim (Bool-cases a.1) [
          | inl y ↦
              let (n, done, counted) = chain-Counted c h s m in
              let through : serve from_error code_text service c (lift h) l (s, m)
                  ≡ (a.0, ((q.0, n), q.1)) =
                ground (arith, e, y, done) in
              let (ih_s, ih_a, ih_g, ih_t) = serve_all-alone cs a.0 q.0 n method label in
              rw (through, y)
                (
                  ih_s,
                  ap (λ xs. q.1 ∷ xs) ih_a,
                  ih_g ∙ counted.gauge,
                  ground (arith, ih_t, counted.total method label),
                )
          | inr y ↦
              let through : serve from_error code_text service c (lift h) l (s, m)
                  ≡ (a.0, ((s, m), err refusal)) =
                ground (arith, e, y) in
              let (ih_s, ih_a, ih_g, ih_t) = serve_all-alone cs a.0 s m method label in
              rw (through, y) (ih_s, ap (λ xs. err refusal ∷ xs) ih_a, ih_g, ih_t)
        ]
