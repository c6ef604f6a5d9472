-- ===== src/ConfigService/Access.antt =====
-- Who may ask for what: the guards of `RequestIP` and `ReleaseIP`.
use gordion_vpn.Base.{ℕ, ◌≡◌, true, false, ◌⊎◌, inl, inr, arith, Bool-cases}
use gordion_vpn.Base.Bytes.{GoString, is_empty}
use gordion_vpn.Grpc.{GoError, ok, err}
use gordion_vpn.Auth.{resolve_node_id}
use gordion_vpn.Redis.{Redis}
use gordion_vpn.ConfigService.{
  ConfigHandler, token_required, node_id_required, auth_failed, request_ip, handle_release_ip,
}

-- A request that names a node, with a token that the identity service accepts.
pub record IsAllowed (h : ConfigHandler) (token node : GoString) : Type 0 where
  pub has_token : is_empty token ≡ false
  pub has_node : is_empty node ≡ false
  pub caller : GoString
  pub accepted : resolve_node_id h.auth_client token ≡ ok caller

abbrev pub IsDenied : ConfigHandler → GoString → GoString → Type 0
IsDenied h token node =
    (is_empty token ≡ true)
    ⊎ (is_empty node ≡ true)
    ⊎ ((e : GoError) × (resolve_node_id h.auth_client token ≡ err e))

module _ (r : Redis) (now : ℕ) (token node ip : GoString) (h : ConfigHandler) (s : r.State) where
  -- A request without token or node, or with a token that is not accepted, fails, and no command
  -- is sent to Redis.
  pub denied_requests_fail :
      IsDenied h token node
      → ((e : GoError) × (request_ip r now token node h s ≡ (s, err e)))
        × ((e : GoError) × (handle_release_ip r token node ip h s ≡ (s, err e)))
  unfolding request_ip handle_release_ip
  denied_requests_fail d = elim (Bool-cases (is_empty token)) [
    | inl t ↦ ((token_required, ground arith), (token_required, ground arith))
    | inr t ↦ elim (Bool-cases (is_empty node)) [
      | inl n ↦ ((node_id_required, ground arith), (node_id_required, ground arith))
      | inr n ↦ elim d [
        | inl t' ↦ ((token_required, ground arith), (token_required, ground arith))
        | inr (inl n') ↦ ((token_required, ground arith), (token_required, ground arith))
        | inr (inr (e, a)) ↦ ((auth_failed e, ground arith), (auth_failed e, ground arith))
      ]
    ]
  ]

  -- Nothing compares the caller with the node of the request: any two accepted tokens get the same
  -- address for a node, and release the same addresses, whosever they are.
  pub callers_interchangeable :
      (other : GoString)
      → IsAllowed h token node
      → IsAllowed h other node
      → (request_ip r now token node h s ≡ request_ip r now other node h s)
        × (handle_release_ip r token node ip h s ≡ handle_release_ip r other node ip h s)
  unfolding request_ip handle_release_ip
  callers_interchangeable other a b = ground arith
