-- ===== src/Server.antt =====
-- The chain of interceptors that the three servers run every call through
-- (services/*/cmd/server/main.go): pkg/ratelimit, pkg/tracing, pkg/middleware and the
-- `MetricsInterceptor` of services/*/internal/grpc. `status.FromError` and `Code.String` are
-- parameters. Prometheus' counters are functions of their labels, and the histogram is the list of
-- what it has observed.
pub mod Chain
pub mod Health
pub mod Locked
pub mod Started
pub mod Startup
pub mod Stop
pub mod Trace
mod Tests
use gordion_vpn.Base.{
  ℕ, ◌+◌, ◌-◌, Bool, true, false, ◌&&◌, Option, none, some, List, [], ◌∷◌, ◌++◌, if◌then◌else◌,
}
use gordion_vpn.Base.Bytes.{GoString, str, str_eq}
use gordion_vpn.Grpc.{GoError, Code, unknown, Result, ok, err}
use gordion_vpn.Limiter.{Limiter, intercept}
use Trace.{Context, trace_of, with_trace, with_request_id, hex_encode}

pub data Line : Type 0 where
  trace_begins : GoString → GoString → GoString → Line  -- trace, service, method
  trace_fails : GoString → GoString → GoString → GoError → Line
  trace_ends : GoString → GoString → GoString → Line
  request_begins : GoString → GoString → Line  -- request, method
  request_fails : GoString → GoString → Code → ℕ → GoError → Line
  request_ends : GoString → GoString → ℕ → Line

-- The metrics of one service, and its log with the newest line last.
pub record Monitor : Type 0 where
  pub active_connections : ℕ
  pub requests_total : GoString → GoString → ℕ  -- method, status
  pub request_duration : GoString → List ℕ
  pub log : List Line

unfoldable pub new_monitor : Monitor
new_monitor = record {
  active_connections = 0;
  requests_total = λ method label. 0;
  request_duration = λ method. [];
  log = [];
}

abbrev say : Line → Monitor → Monitor
say line m = record m { log = m.log ++ (line ∷ []) }

abbrev pub adding : (GoString → GoString → ℕ) → GoString → GoString → GoString → GoString → ℕ
adding f method label m l = if str_eq method m && str_eq label l then f m l + 1 else f m l

-- One call: who calls, what it carries, the random bytes that it draws, and the instants at which
-- the interceptors look at the clock.
pub record Call : Type 0 where
  pub peer : Option GoString
  pub method : GoString
  pub incoming : Option (List GoString)
  pub trace_bytes : List ℕ
  pub request_bytes : List ℕ
  pub now : ℕ
  pub logged_from : ℕ
  pub measured_from : ℕ
  pub measured_to : ℕ
  pub logged_to : ℕ

-- A handler, or what is left of the chain.
abbrev pub Handler : Type 0 → Type 0 → Type 0
Handler S A = Context → S × Monitor → (S × Monitor) × Result A

abbrev pub fresh : Call → Context
fresh c = record { incoming = c.incoming; outgoing = []; trace_id = none; request_id = none }

module _ (from_error : GoError → Option Code) (code_text : Code → GoString)
    (service : GoString) where
  -- `status.Code`.
  unfoldable pub code_of : GoError → Code
  code_of e = elim (from_error e) [ none ↦ unknown | some c ↦ c ]

  unfoldable pub status_label : {A : Type 0} → Result A → GoString
  unfolding code_of
  status_label (ok a) = str "success"
  status_label (err e) = code_text (code_of e)

  abbrev measured : {A : Type 0} → Call → Result A → Monitor → Monitor
  measured c a m = record m {
    active_connections = m.active_connections - 1;
    requests_total = adding m.requests_total c.method (status_label a);
    request_duration = λ method.
        if str_eq c.method method
        then m.request_duration method ++ ((c.measured_to - c.measured_from) ∷ [])
        else m.request_duration method;
  }

  unfoldable pub metrics_interceptor : {S A : Type 0} → Call → Handler S A → Handler S A
  unfolding status_label
  metrics_interceptor c handler ctx (s, m) =
      let ((t, n), a) =
        handler ctx (s, record m { active_connections = m.active_connections + 1 }) in
      ((t, measured c a n), a)

  abbrev request_line : {A : Type 0} → GoString → Call → Result A → Line
  request_line id c (ok a) = request_ends id c.method (c.logged_to - c.logged_from)
  request_line id c (err e) = request_fails id c.method (code_of e) (c.logged_to - c.logged_from) e

  unfoldable pub logging_interceptor : {S A : Type 0} → Call → Handler S A → Handler S A
  unfolding code_of
  logging_interceptor c handler ctx (s, m) =
      let id = hex_encode c.request_bytes in
      let ((t, n), a) =
        handler (with_request_id c.request_bytes ctx) (s, say (request_begins id c.method) m) in
      ((t, say (request_line id c a) n), a)

  abbrev trace_line : {A : Type 0} → GoString → Call → Result A → Line
  trace_line id c (ok a) = trace_ends id service c.method
  trace_line id c (err e) = trace_fails id service c.method e

  unfoldable pub server_interceptor : {S A : Type 0} → Call → Handler S A → Handler S A
  server_interceptor c handler ctx (s, m) =
      let id = trace_of c.trace_bytes ctx.incoming in
      let ((t, n), a) = handler (with_trace id ctx) (s, say (trace_begins id service c.method) m) in
      ((t, say (trace_line id c a) n), a)

  unfoldable pub chain : {S A : Type 0} → Call → Handler S A → Handler S A
  chain c handler = server_interceptor c (logging_interceptor c (metrics_interceptor c handler))

  pub passed_on :
      {S A : Type 0}
      → S × Monitor
      → Limiter × Result ((S × Monitor) × Result A)
      → Limiter × ((S × Monitor) × Result A)
  passed_on w (l, ok r) = (l, r)
  passed_on w (l, err e) = (l, (w, err e))

  -- A call as the server takes it.
  unfoldable pub serve :
      {S A : Type 0}
      → Call
      → Handler S A
      → Limiter
      → S × Monitor
      → Limiter × ((S × Monitor) × Result A)
  unfolding passed_on
  serve c handler l w = passed_on w (intercept c.peer c.now (ok (chain c handler (fresh c) w)) l)
