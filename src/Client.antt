-- ===== src/Client.antt =====
-- services/agent/internal/client/client.go: the agent's calls of the three services, each through
-- the circuit breaker of its service. A service is a function of its own state, so that a call which
-- is not sent leaves that state alone. `New` dials and is not modelled but for the breakers.
pub mod Dial
pub mod Through
pub mod Outage
mod Tests
use gordion_vpn.Base.{ℕ, ◌*◌, true, Option, none, some, List, [], ◌∷◌}
use gordion_vpn.Base.Bytes.{GoString, str}
use gordion_vpn.Base.Int.{ℤ, pos}
use gordion_vpn.Grpc.{Code, GoError, wrap, Result, ok, err}
use gordion_vpn.Breaker
use gordion_vpn.Breaker.{CircuitBreaker, second}
use gordion_vpn.Identity.{Request, Registration}
use gordion_vpn.ConfigService.{GetConfigResponse, RequestIpResponse}
use gordion_vpn.Discovery.{RegisterPeerRequest, ListedPeer}
use Through.{Timing, through}

abbrev pub new_cb_config : Breaker.Config
new_cb_config = record {
  max_failures = 5;
  open_timeout = 30 * second;
  half_open_max = 1;
  on_state_change = true;
}

pub record Client : Type 0 where
  pub cb_identity : CircuitBreaker
  pub cb_discovery : CircuitBreaker
  pub cb_config : CircuitBreaker

unfoldable pub new_client : Client
new_client = record {
  cb_identity = Breaker.new new_cb_config;
  cb_discovery = Breaker.new new_cb_config;
  cb_config = Breaker.new new_cb_config;
}

abbrev wrapped : {A : Type 0} → GoString → Result A → Result A
wrapped text (ok a) = ok a
wrapped text (err e) = err (wrap text e)

module _ (from_error : GoError → Option Code) {S : Type 0} (t : Timing) where
  abbrev by_identity : {A : Type 0} → (S → S × Result A) → Client → S → Client × (S × Result A)
  by_identity remote c s =
      let (cb, r) = through from_error t remote c.cb_identity s in
      (record c { cb_identity = cb }, r)

  abbrev by_discovery : {A : Type 0} → (S → S × Result A) → Client → S → Client × (S × Result A)
  by_discovery remote c s =
      let (cb, r) = through from_error t remote c.cb_discovery s in
      (record c { cb_discovery = cb }, r)

  abbrev by_config : {A : Type 0} → (S → S × Result A) → Client → S → Client × (S × Result A)
  by_config remote c s =
      let (cb, r) = through from_error t remote c.cb_config s in (record c { cb_config = cb }, r)

  abbrev failing : {A : Type 0} → GoString → Client × (S × Result A) → Client × (S × Result A)
  failing text (c, (s, a)) = (c, (s, wrapped text a))

  unfoldable pub register :
      (Request → S → S × Result Registration)
      → GoString
      → GoString
      → GoString
      → Client
      → S
      → Client × (S × Result Registration)
  register remote public_key peer_id secret c s =
      let req : Request = record {
        public_key = public_key;
        version = str "1.0.0";
        peer_id = peer_id;
        network_secret = secret;
      } in
      failing (str "register failed") (by_identity (remote req) c s)

  unfoldable pub get_peer_public_key :
      (GoString → S → S × Result GoString) → GoString → Client → S → Client × (S × Result GoString)
  get_peer_public_key remote node c s =
      failing (str "get public key failed") (by_identity (remote node) c s)

  -- The request leaves the version that the client has at 0.
  unfoldable pub get_network_config :
      (GoString → ℤ → S → S × Result GetConfigResponse)
      → GoString
      → Client
      → S
      → Client × (S × Result GetConfigResponse)
  get_network_config remote token c s =
      failing (str "get config failed") (by_config (remote token (pos 0)) c s)

  unfoldable pub request_ip :
      (GoString → GoString → S → S × Result RequestIpResponse)
      → GoString
      → GoString
      → Client
      → S
      → Client × (S × Result RequestIpResponse)
  request_ip remote token node c s =
      failing (str "request IP failed") (by_config (remote token node) c s)

  unfoldable pub release_ip :
      (GoString → GoString → GoString → S → S × Result (Unit {0}))
      → GoString
      → GoString
      → GoString
      → Client
      → S
      → Client × (S × Result (Unit {0}))
  release_ip remote token node ip c s = by_config (remote token node ip) c s

  -- The region and the bandwidth of the request are constants that the service ignores.
  unfoldable pub register_peer :
      (RegisterPeerRequest → S → S × Result (Unit {0}))
      → RegisterPeerRequest
      → Client
      → S
      → Client × (S × Result (Unit {0}))
  register_peer remote req c s = by_discovery (remote req) c s

  -- The token goes into the metadata of the call.
  unfoldable pub discover_peers :
      (Option (List GoString) → ℤ → S → S × Result (List ListedPeer))
      → GoString
      → ℤ
      → Client
      → S
      → Client × (S × Result (List ListedPeer))
  discover_peers remote token limit c s =
      failing (str "discover peers failed") (by_discovery (remote (some (token ∷ [])) limit) c s)

  unfoldable pub heartbeat :
      (GoString → S → S × Result ℕ) → GoString → Client → S → Client × (S × Result ℕ)
  heartbeat remote token c s = by_discovery (remote token) c s
