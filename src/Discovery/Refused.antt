-- ===== src/Discovery/Refused.antt =====
-- The handler of services/discovery/internal/grpc/handler.go when the token is not accepted.
use gordion_vpn.Base.{ℕ, ◌≡◌, refl, Option, Bool-cases, inl, inr, List}
use gordion_vpn.Base.Bytes.{GoString, is_empty}
use gordion_vpn.Base.Int.{ℤ}
use gordion_vpn.Grpc.{GoError, Result, err}
use gordion_vpn.Auth.{IdentityCall, resolve_node_id}
use gordion_vpn.Redis.{Redis}
use gordion_vpn.Registry.{Json}
use gordion_vpn.Discovery.{
  RegisterPeerRequest, register_as, register_peer, list_as, list_peers, token_from_metadata,
  heartbeat_as, handle_heartbeat,
}

-- The service answers with an error, and nothing has changed.
abbrev pub IsRefused : {S A : Type 0} → S → S × Result A → Type 0
IsRefused s p = (e : GoError) × (p ≡ (s, err e))

module _ (r : Redis) (ttl : ℕ) (auth : Option IdentityCall) where
  open r use {State}

  pub register_peer-IsRefused :
      (j : Json) (clock now : ℕ) (req : RegisterPeerRequest) (s : State) (x : GoError)
      → resolve_node_id auth req.token ≡ err x
      → IsRefused s (register_peer r ttl auth j clock now req s)
  unfolding register_peer register_as
  register_peer-IsRefused j clock now req s x h = elim (Bool-cases (is_empty req.token)) [
    | inl e ↦ rw e (_, refl)
    | inr e ↦ elim (Bool-cases (is_empty req.ip_address)) [
      | inl f ↦ rw (e, f) (_, refl)
      | inr f ↦ rw (e, f, h) (_, refl)
    ]
  ]

  pub list_peers-IsRefused :
      (j : Json) (now : ℕ) (md : Option (List GoString)) (limit : ℤ) (s : State) (x : GoError)
      → resolve_node_id auth (token_from_metadata md) ≡ err x
      → IsRefused s (list_peers r ttl auth j now md limit s)
  unfolding list_peers list_as
  list_peers-IsRefused j now md limit s x h =
      elim (Bool-cases (is_empty (token_from_metadata md))) [
        | inl e ↦ rw e (_, refl)
        | inr e ↦ rw (e, h) (_, refl)
      ]

  pub handle_heartbeat-IsRefused :
      (now later : ℕ) (token : GoString) (s : State) (x : GoError)
      → resolve_node_id auth token ≡ err x
      → IsRefused s (handle_heartbeat r ttl auth now later token s)
  unfolding handle_heartbeat heartbeat_as
  handle_heartbeat-IsRefused now later token s x h = elim (Bool-cases (is_empty token)) [
    | inl e ↦ rw e (_, refl)
    | inr e ↦ rw (e, h) (_, refl)
  ]
