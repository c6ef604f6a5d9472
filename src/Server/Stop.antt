-- ===== src/Server/Stop.antt =====
-- How a server of services/*/cmd/server/main.go ends, once it serves: an endpoint fails, or SIGINT or
-- SIGTERM comes. SIGHUP, which the config server reloads at, is in ConfigService/Server.
use gordion_vpn.Base.{Bool, true, false, List, [], ◌∷◌, ◌≡◌, refl, if◌then◌else◌}

pub data Main : Type 0 where
  identity discovery config : Main

-- The metrics endpoint or the gRPC endpoint fails, or a signal comes; then the argument says whether
-- the calls in progress end within ten seconds.
pub data Event : Type 0 where
  metrics_fails serve_fails : Event
  terminates : Bool → Event

pub data Ending : Type 0 where
  serving died graceful forced : Ending

-- What the server does on the way: the identity server cleans its tokens before it stops.
pub data Step : Type 0 where
  warns cleans_tokens stops_gracefully stops_by_force : Step

-- `logger.Fatalf`, or a warning in the discovery server.
unfoldable pub is_fatal : Main → Bool
is_fatal identity = true
is_fatal discovery = false
is_fatal config = true

unfoldable pub shutdown : Main → Bool → List Step × Ending
shutdown identity true = (cleans_tokens ∷ stops_gracefully ∷ [], graceful)
shutdown identity false = (cleans_tokens ∷ stops_by_force ∷ [], forced)
shutdown discovery true = (stops_gracefully ∷ [], graceful)
shutdown discovery false = (stops_by_force ∷ [], forced)
shutdown config true = (stops_gracefully ∷ [], graceful)
shutdown config false = (stops_by_force ∷ [], forced)

abbrev after_warning : List Step × Ending → List Step × Ending
after_warning (steps, ending) = (warns ∷ steps, ending)

unfoldable pub live : Main → List Event → List Step × Ending
unfolding is_fatal shutdown
live m [] = ([], serving)
live m (metrics_fails ∷ es) =
    let on = live m es in if is_fatal m then ([], died) else after_warning on
live m (serve_fails ∷ es) = ([], died)
live m (terminates in_time ∷ es) = shutdown m in_time

abbrev is_end : Ending → Bool
is_end serving = false
is_end died = true
is_end graceful = true
is_end forced = true

abbrev has_signal : List Event → Bool
has_signal [] = false
has_signal (metrics_fails ∷ es) = has_signal es
has_signal (serve_fails ∷ es) = has_signal es
has_signal (terminates in_time ∷ es) = true

-- A server to which a signal comes ends, whatever else happens and whether its calls end in time.
pub live-is_end : (m : Main) (es : List Event) → has_signal es ≡ true → is_end (live m es).1 ≡ true
unfolding live shutdown is_fatal
live-is_end m [] h = cc
live-is_end identity (metrics_fails ∷ es) h = refl
live-is_end discovery (metrics_fails ∷ es) h = live-is_end discovery es h
live-is_end config (metrics_fails ∷ es) h = refl
live-is_end m (serve_fails ∷ es) h = refl
live-is_end identity (terminates true ∷ es) h = refl
live-is_end identity (terminates false ∷ es) h = refl
live-is_end discovery (terminates true ∷ es) h = refl
live-is_end discovery (terminates false ∷ es) h = refl
live-is_end config (terminates true ∷ es) h = refl
live-is_end config (terminates false ∷ es) h = refl
