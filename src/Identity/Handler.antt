-- ===== src/Identity/Handler.antt =====
-- services/identity/internal/grpc/handler.go, and the whole way of a token from `RegisterNode` to
-- the services that ask about it.
use gordion_vpn.Base.{ℕ, Bool, if◌then◌else◌}
use gordion_vpn.Base.Bytes.{GoString, str, is_empty}
use gordion_vpn.Grpc.{status, statusf, invalid_argument, internal, not_found, Result, ok, err}
use gordion_vpn.Auth.{ValidateTokenResponse}
use gordion_vpn.Identity.{
  Storage, Jwt, IdentityService, Registration, Request, register_node, Answer, validate,
  get_public_key,
}

registered : Storage × Result Registration → Storage × Result Registration
registered (db, ok reg) = (db, ok reg)
registered (db, err e) = (db, err (statusf internal (str "failed to register node") e))

unfoldable pub handle_register_node :
    Jwt
    → Bool
    → Bool
    → IdentityService
    → ℕ
    → GoString
    → Request
    → Storage
    → Storage × Result Registration
unfolding registered
handle_register_node j node_up token_up s now fresh req db =
    if is_empty req.public_key
    then (db, err (status invalid_argument (str "public_key is required")))
    else if is_empty req.version
    then (db, err (status invalid_argument (str "version is required")))
    else registered (register_node j node_up token_up s now fresh req db)

answered : Answer → Result ValidateTokenResponse
answered (ok (node, valid)) = ok (record { valid = valid; node_id = node })
answered (err e) = err (statusf internal (str "failed to validate token") e)

unfoldable pub handle_validate_token :
    Jwt → Bool → IdentityService → ℕ → Storage → GoString → Result ValidateTokenResponse
unfolding answered
handle_validate_token j up s now db token =
    if is_empty token
    then err (status invalid_argument (str "token is required"))
    else answered (validate j up s now token db)

key_answer : Result GoString → Result GoString
key_answer (ok key) = ok key
key_answer (err e) = err (statusf not_found (str "node not found") e)

unfoldable pub handle_get_public_key : Bool → GoString → Storage → Result GoString
unfolding key_answer
handle_get_public_key up node db =
    if is_empty node
    then err (status invalid_argument (str "node_id is required"))
    else key_answer (get_public_key up node db)
