-- ===== src/Breaker.antt =====
-- pkg/circuitbreaker/circuitbreaker.go. Times and durations are nanoseconds as numbers; each
-- method takes the instant that its `time.Now()` returns. `time.Since` saturates in Go, and an
-- elapsed time below zero is below every timeout: `now - last` compares alike. An `int` or
-- `Duration` at or below 0 in a `Config` is written 0, since `new` replaces both alike.
pub mod Invariant
pub mod Trip
pub mod Recovery
pub mod Race
pub mod Diagram
mod Tests
use gordion_vpn.Grpc.{Code, canceled, deadline_exceeded}
use gordion_vpn.Base.{
  ℕ, ◌+◌, ◌-◌, ◌*◌, Bool, true, false, Option, none, some, List, [], ◌∷◌, leb, ltb, ◌==◌,
  if◌then◌else◌,
}

pub data State : Type 0 where
  closed open_ half_open : State

pub State-discrete : Discrete State
State-discrete = hlevel

pub record Config : Type 0 where
  pub max_failures : ℕ
  pub open_timeout : ℕ
  pub half_open_max : ℕ
  pub on_state_change : Bool  -- is a callback set?

abbrev pub second : ℕ
second = 1000000000

unfoldable pub default_config : Config
default_config = record {
  max_failures = 5;
  open_timeout = 30 * second;
  half_open_max = 1;
  on_state_change = false;
}

-- `notified` is what the callback has been called with, newest first.
pub record CircuitBreaker : Type 0 where
  pub cfg : Config
  pub state : State
  pub failures : ℕ
  pub successes : ℕ
  pub last_failure : ℕ
  pub half_open_req : ℕ
  pub notified : List (State × State)

abbrev or_default : ℕ → ℕ → ℕ
or_default n d = if n == 0 then d else n

unfoldable pub new : Config → CircuitBreaker
unfolding default_config
new cfg = record {
  cfg = record cfg {
    max_failures = or_default cfg.max_failures default_config.max_failures;
    open_timeout = or_default cfg.open_timeout default_config.open_timeout;
    half_open_max = or_default cfg.half_open_max default_config.half_open_max;
  };
  state = closed;
  failures = 0;
  successes = 0;
  last_failure = 0;
  half_open_req = 0;
  notified = [];
}

abbrev same_state : State → State → Bool
same_state closed closed = true
same_state open_ open_ = true
same_state half_open half_open = true
same_state _ _ = false

-- The callback runs with the mutex released: see `allow_begin` and `Breaker.Race`.
unfoldable pub transition : State → CircuitBreaker → CircuitBreaker
transition to cb = if same_state cb.state to then cb else record cb {
  state = to;
  notified = if cb.cfg.on_state_change then (cb.state, to) ∷ cb.notified else cb.notified;
}

-- How far `Allow` has come when it gives the mutex up for the first time: at its return, or around
-- the callback, if there is one.
pub data Progress : Type 0 where
  granted denied in_callback : Progress

-- The rest of `Allow` after `transition`.
unfoldable pub allow_end : CircuitBreaker → CircuitBreaker
allow_end cb = record cb { half_open_req = 1 }

allow_begin_in : State → ℕ → CircuitBreaker → CircuitBreaker × Progress
unfolding transition allow_end
allow_begin_in closed now cb = (cb, granted)
allow_begin_in open_ now cb =
    if leb cb.cfg.open_timeout (now - cb.last_failure)
    then if cb.cfg.on_state_change
      then (transition half_open cb, in_callback)
      else (allow_end (transition half_open cb), granted)
    else (cb, denied)
allow_begin_in half_open now cb =
    if ltb cb.half_open_req cb.cfg.half_open_max
    then (record cb { half_open_req = cb.half_open_req + 1 }, granted)
    else (cb, denied)

-- `Allow` up to the return, or to the callback inside `transition`.
unfoldable pub allow_begin : ℕ → CircuitBreaker → CircuitBreaker × Progress
unfolding allow_begin_in
allow_begin now cb = allow_begin_in cb.state now cb

finish : CircuitBreaker × Progress → CircuitBreaker × Bool
unfolding allow_end
finish (cb, granted) = (cb, true)
finish (cb, denied) = (cb, false)
finish (cb, in_callback) = (allow_end cb, true)

-- `Allow` when no other goroutine runs during the callback.
unfoldable pub allow : ℕ → CircuitBreaker → CircuitBreaker × Bool
unfolding finish allow_begin
allow now cb = finish (allow_begin now cb)

unfoldable pub record_success : CircuitBreaker → CircuitBreaker
unfolding transition
record_success cb =
    let zeroed = record cb { failures = 0 } in
    let counted = record zeroed { successes = cb.successes + 1 } in
    if same_state cb.state half_open
    then if leb cb.cfg.half_open_max counted.successes
      then transition closed (record counted { successes = 0; half_open_req = 0 })
      else counted
    else zeroed

record_failure_in : State → CircuitBreaker → CircuitBreaker
unfolding transition
record_failure_in closed cb =
    let counted = record cb { failures = cb.failures + 1 } in
    if leb cb.cfg.max_failures counted.failures
    then transition open_ (record counted { successes = 0; half_open_req = 0 })
    else counted
record_failure_in half_open cb =
    transition open_ (record cb { failures = cb.failures + 1; successes = 0; half_open_req = 0 })
record_failure_in open_ cb = cb

unfoldable pub record_failure : ℕ → CircuitBreaker → CircuitBreaker
unfolding record_failure_in
record_failure now cb = record_failure_in cb.state (record cb { last_failure = now })

unfoldable pub current_state : CircuitBreaker → State
current_state cb = cb.state

-- Errors that `Execute` does not count, by the code that `status.FromError` finds.
unfoldable pub is_ignored : Option Code → Bool
is_ignored (some canceled) = true
is_ignored (some deadline_exceeded) = true
is_ignored _ = false

-- What `Execute` returns: its own Unavailable error, or what `fn` returned (`none` is nil).
pub data Outcome (E : Type 0) : Type 0 where
  refused : Outcome E
  returned : Option E → Outcome E

-- One call of `Execute`: when it starts, what `fn` returns if it is run, and when that is.
pub record Call (E : Type 0) : Type 0 where
  pub start : ℕ
  pub result : Option E
  pub finish_at : ℕ

-- `status.FromError` is the gRPC library's: the code that an error carries, if it does.
module _ {E : Type 0} (from_error : E → Option Code) where
  unfoldable pub settle : Option E → ℕ → CircuitBreaker → CircuitBreaker
  settle none now cb = record_success cb
  settle (some e) now cb = if is_ignored (from_error e) then cb else record_failure now cb

  after_allow : Call E → CircuitBreaker × Bool → CircuitBreaker × Outcome E
  after_allow c (cb, false) = (cb, refused)
  after_allow c (cb, true) = (settle c.result c.finish_at cb, returned c.result)

  unfoldable pub execute : Call E → CircuitBreaker → CircuitBreaker × Outcome E
  unfolding after_allow
  execute c cb = after_allow c (allow c.start cb)

  -- Calls one after the other: the breaker after them, and what they returned.
  unfoldable pub execute_all : List (Call E) → CircuitBreaker → CircuitBreaker × List (Outcome E)
  execute_all [] cb = (cb, [])
  execute_all (c ∷ cs) cb =
      let (cb', out) = execute c cb in let (last, outs) = execute_all cs cb' in (last, out ∷ outs)
