-- ===== src/Auth.antt =====
-- pkg/auth: the client of the identity service and the interceptor, and `resolveNodeID`, which the
-- handlers of the config and of the discovery service share.
use gordion_vpn.Base.{Bool, Option, none, some, List, [], ◌∷◌, length, take, ltb, if◌then◌else◌}
use gordion_vpn.Base.Bytes.{GoString, str, is_empty}
use gordion_vpn.Grpc.{plain, wrap, statusf, unauthenticated, Result, ok, err}

pub record ValidateTokenResponse : Type 0 where
  pub valid : Bool
  pub node_id : GoString

-- The call of `ValidateToken` on the identity service, whatever the service answers at the moment.
abbrev pub IdentityCall : Type 0
IdentityCall = GoString → Result ValidateTokenResponse

unfoldable pub checked : Result ValidateTokenResponse → Result GoString
checked (err e) = err (wrap (str "identity service error") e)
checked (ok resp) = if resp.valid then ok resp.node_id else err (plain (str "invalid token"))

unfoldable pub validate_token : IdentityCall → GoString → Result GoString
unfolding checked
validate_token identity token = checked (identity token)

-- With no client configured (development) the first eight bytes of the token are the node's id.
unfoldable pub resolve_node_id : Option IdentityCall → GoString → Result GoString
unfolding validate_token
resolve_node_id (some identity) token = validate_token identity token
resolve_node_id none token =
    if ltb (length token) 8 then err (plain (str "token too short")) else ok (take 8 token)

-- `metadata.FromIncomingContext` and `md.Get("authorization")`: no metadata, or the values.
unfoldable pub extract_token : Option (List GoString) → GoString
extract_token none = []
extract_token (some []) = []
extract_token (some (t ∷ ts)) = t

-- A handler under the interceptor: the node id in its context, if there is one, gives its result.
after_validate : {A : Type 0} → (Option GoString → Result A) → Result GoString → Result A
after_validate handler (err e) = err (statusf unauthenticated (str "authentication failed") e)
after_validate handler (ok node) = handler (some node)

unfoldable pub auth_interceptor :
    {A : Type 0} → IdentityCall → Option (List GoString) → (Option GoString → Result A) → Result A
unfolding after_validate extract_token
auth_interceptor identity md handler =
    let token = extract_token md in
    if is_empty token then handler none else after_validate handler (validate_token identity token)
