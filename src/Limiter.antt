-- ===== src/Limiter.antt =====
-- pkg/ratelimit/ratelimit.go. Instants are nanoseconds as numbers, and each method takes the one
-- that its `time.Now()` returns. The map of clients is a function; a limit below 0 is written 0,
-- since a count is never below 1 and the test `count >= maxReqs` then comes out alike.
pub mod Bounds
pub mod Cleanup
mod Tests
use gordion_vpn.Base.{ℕ, ◌+◌, Bool, true, false, Option, none, some, if◌then◌else◌, ltb, leb}
use gordion_vpn.Base.Bytes.{GoString, str, str_eq}
use gordion_vpn.Grpc.{GoError, status, resource_exhausted, Result, err}

pub record Window : Type 0 where
  pub count : ℕ
  pub reset_at : ℕ

pub record Limiter : Type 0 where
  pub clients : GoString → Option Window
  pub max_reqs : ℕ
  pub interval : ℕ

abbrev pub update {ℓ} : {A : Type ℓ} → (GoString → A) → GoString → A → GoString → A
update f k v j = if str_eq k j then v else f j

unfoldable pub new : ℕ → ℕ → Limiter
new max_reqs interval = record { clients = λ ip. none; max_reqs = max_reqs; interval = interval }

abbrev put : GoString → ℕ → ℕ → Limiter → Limiter
put ip count reset_at l = record l {
  clients = update l.clients ip (some (record { count = count; reset_at = reset_at }));
}

allow_found : Option Window → GoString → ℕ → Limiter → Limiter × Bool
allow_found none ip now l = (put ip 1 (now + l.interval) l, true)
allow_found (some w) ip now l =
    if ltb w.reset_at now
    then (put ip 1 (now + l.interval) l, true)
    else if leb l.max_reqs w.count
    then (l, false)
    else (put ip (w.count + 1) w.reset_at l, true)

unfoldable pub allow : GoString → ℕ → Limiter → Limiter × Bool
unfolding allow_found
allow ip now l = allow_found (l.clients ip) ip now l

keep_live : ℕ → Option Window → Option Window
keep_live now none = none
keep_live now (some w) = if ltb w.reset_at now then none else some w

unfoldable pub cleanup : ℕ → Limiter → Limiter
unfolding keep_live
cleanup now l = record l { clients = λ ip. keep_live now (l.clients ip) }

-- The key of a request: the text of the peer's address, which holds the port too.
unfoldable pub client_key : Option GoString → GoString
client_key none = str "unknown"
client_key (some addr) = addr

unfoldable pub answer : {A : Type 0} → Limiter × Bool → Result A → Limiter × Result A
answer (l, true) handled = (l, handled)
answer (l, false) handled = (l, err (status resource_exhausted (str "rate limit exceeded")))

-- `UnaryInterceptor`; `handled` is what the handler returns if it is reached.
unfoldable pub intercept :
    {A : Type 0} → Option GoString → ℕ → Result A → Limiter → Limiter × Result A
unfolding answer allow client_key
intercept addr now handled l = answer (allow (client_key addr) now l) handled
