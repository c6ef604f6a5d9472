-- ===== src/Server/Trace.antt =====
-- pkg/tracing/tracing.go, and the identifiers of pkg/middleware/logging.go. The random bytes are
-- arguments. Of a call's metadata, only the values under "x-trace-id" matter.
use gordion_vpn.Base.{
  ℕ, ◌+◌, ◌/◌, ◌%◌, false, ◌≡◌, Option, none, some, List, [], ◌∷◌, ◌++◌, if◌then◌else◌, ltb, arith,
}
use gordion_vpn.Base.Bytes.{GoString, str, is_empty}

-- `hex.EncodeToString`.
abbrev hex_digit : ℕ → ℕ
hex_digit n = if ltb n 10 then 48 + n else 87 + n

unfoldable pub hex_encode : List ℕ → GoString
hex_encode [] = []
hex_encode (b ∷ bs) = hex_digit (b / 16) ∷ hex_digit (b % 16) ∷ hex_encode bs

-- What the interceptors keep in a context, and the metadata that has come with the call and that
-- goes out with the next.
pub record Context : Type 0 where
  pub incoming : Option (List GoString)
  pub outgoing : List GoString
  pub trace_id : Option GoString
  pub request_id : Option GoString

unfoldable pub trace_id_from_context : Context → GoString
trace_id_from_context ctx = elim ctx.trace_id [ none ↦ [] | some id ↦ id ]

unfoldable pub request_id_from_context : Context → GoString
request_id_from_context ctx = elim ctx.request_id [ none ↦ str "unknown" | some id ↦ id ]

first_value : Option (List GoString) → GoString
first_value none = []
first_value (some []) = []
first_value (some (v ∷ vs)) = v

-- The trace that `ServerInterceptor` gives to a call: the caller's, or a new one.
unfoldable pub trace_of : List ℕ → Option (List GoString) → GoString
unfolding first_value hex_encode
trace_of random incoming =
    if is_empty (first_value incoming) then hex_encode random else first_value incoming

unfoldable pub with_trace : GoString → Context → Context
with_trace id ctx = record ctx { trace_id = some id }

unfoldable pub with_request_id : List ℕ → Context → Context
unfolding hex_encode
with_request_id random ctx = record ctx { request_id = some (hex_encode random) }

-- `ClientInterceptor`.
unfoldable pub client_interceptor : Context → Context
client_interceptor ctx = elim ctx.trace_id [
  | none ↦ ctx
  | some id ↦ if is_empty id then ctx else record ctx { outgoing = ctx.outgoing ++ (id ∷ []) }
]

-- The context in which the server that is called starts.
unfoldable pub received : Context → Context
received ctx = record {
  incoming = some ctx.outgoing;
  outgoing = [];
  trace_id = none;
  request_id = none;
}

-- A call under `ClientInterceptor` carries its trace to the service that it calls, whose own calls
-- carry it on: a trace that is not empty is the trace of the whole chain, if nothing else puts a
-- trace into the metadata.
pub trace_of-client_interceptor :
    (random : List ℕ) (ctx : Context) (id : GoString)
    → ctx.trace_id ≡ some id
    → is_empty id ≡ false
    → ctx.outgoing ≡ []
    → trace_id_from_context (
        with_trace
          (trace_of random (received (client_interceptor ctx)).incoming)
          (received (client_interceptor ctx)))
      ≡ id
unfolding trace_id_from_context with_trace trace_of received client_interceptor first_value
trace_of-client_interceptor random ctx id t n o = ground (arith, t, n, o)
