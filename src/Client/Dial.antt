-- ===== src/Client/Dial.antt =====
-- `New` and `Close` of services/agent/internal/client/client.go: the connections that it opens and
-- closes. `grpc.NewClient` and `tlsutil.ClientCredentials` are parameters.
use gordion_vpn.Base.{
  ◌≡◌, Bool, true, false, Option, none, some, List, [], ◌∷◌, ◌++◌, if◌then◌else◌, not, arith,
}
use gordion_vpn.Base.Bytes.{GoString, str, is_empty}
use gordion_vpn.Grpc.{GoError, wrap}

pub data Conn : Type 0 where
  identity discovery config : Conn

pub data Action : Type 0 where
  opens closes : Conn → Action

-- The addresses, and what the calls answer.
pub record Dialer : Type 0 where
  pub ca_file : GoString
  pub credentials : GoString → Option GoError
  pub new_client : Conn → Option GoError

abbrev Dialled : Type 0
Dialled = List Action × Option GoError

abbrev closing : List Conn → List Action
closing [] = []
closing (c ∷ cs) = closes c ∷ closing cs

-- Opens a connection, or closes those that are open and returns the error; then goes on.
abbrev opening : Conn → GoString → List Conn → Option GoError → Dialled → Dialled
opening c text open_ones (some e) rest = (closing open_ones, some (wrap text e))
opening c text open_ones none (actions, e) = (opens c ∷ actions, e)

abbrev dial_all : Dialer → Dialled
dial_all d = opening identity (str "identity connection failed") [] (d.new_client identity) (
    opening discovery (str "discovery connection failed") (identity ∷ []) (d.new_client discovery) (
      opening config (str "config connection failed") (identity ∷ discovery ∷ [])
        (d.new_client config) ([], none)))

abbrev with_credentials : Dialer → Option GoError → Dialled
with_credentials d (some e) = ([], some (wrap (str "failed to load TLS CA cert") e))
with_credentials d none = dial_all d

unfoldable pub dial : Dialer → Dialled
dial d = if is_empty d.ca_file then dial_all d else with_credentials d (d.credentials d.ca_file)

unfoldable pub close : List Action
close = closing (identity ∷ discovery ∷ config ∷ [])

abbrev same_conn : Conn → Conn → Bool
same_conn identity identity = true
same_conn discovery discovery = true
same_conn config config = true
same_conn _ _ = false

-- Whether a connection is open after some actions, when it was or was not before.
abbrev pub is_open : Conn → List Action → Bool → Bool
is_open c [] b = b
is_open c (opens o ∷ actions) b = is_open c actions (if same_conn o c then true else b)
is_open c (closes o ∷ actions) b = is_open c actions (if same_conn o c then false else b)

abbrev failed : Option GoError → Bool
failed none = false
failed (some e) = true

-- A `New` that fails leaves no connection open, one that succeeds leaves all three open, and `Close`
-- then closes them all.
pub dial-is_open :
    (d : Dialer) (c : Conn)
    → (is_open c (dial d).0 false ≡ not (failed (dial d).1))
      × (is_open c ((dial d).0 ++ close) false ≡ false)
unfolding dial close
dial-is_open d identity = (ground arith, ground arith)
dial-is_open d discovery = (ground arith, ground arith)
dial-is_open d config = (ground arith, ground arith)
