-- ===== src/Discovery/Lapsed.antt =====
-- `Heartbeat` of services/discovery/internal/grpc/handler.go for a node whose key has expired.
use gordion_vpn.Base.{ℕ, ◌≡◌, refl, ◌∙◌, Option, ◌⊎◌, inl, inr, Bool-cases, arith}
use gordion_vpn.Base.Bytes.{GoString, is_empty}
use gordion_vpn.Grpc.{GoError, Result, ok, err}
use gordion_vpn.Auth.{IdentityCall, resolve_node_id}
use gordion_vpn.Redis.{Redis}
use gordion_vpn.Registry.{heartbeat}
use gordion_vpn.Registry.Peers.{presence, is_member, heartbeat-is_member}
use gordion_vpn.Registry.Gone.{IsGone, heartbeat-presence_gone, heartbeat-err}
use gordion_vpn.Discovery.{beaten, heartbeat_as, handle_heartbeat}

-- The token is the node's, or no token at all any more.
abbrev pub IsTokenOf : Option IdentityCall → GoString → GoString → Type 0
IsTokenOf auth node token =
    (resolve_node_id auth token ≡ ok node) ⊎ ((e : GoError) × (resolve_node_id auth token ≡ err e))

module _ (r : Redis) (ttl : ℕ) (auth : Option IdentityCall) where
  open r use {State}

  beaten-presence :
      (p : State × Result (Unit {0})) (m : GoString)
      → presence r ttl (beaten r ttl auth p).0 m ≡ presence r ttl p.0 m
  unfolding beaten
  beaten-presence (s, ok u) m = refl
  beaten-presence (s, err e) m = refl

  heartbeat_as-presence :
      (now later : ℕ) (who : Result GoString) (s : State) (m : GoString)
      → IsGone r ttl later s m
      → presence r ttl (heartbeat_as r ttl auth now later who s).0 m ≡ presence r ttl s m
  unfolding heartbeat_as
  heartbeat_as-presence now later (ok node) s m g =
      beaten-presence (heartbeat r ttl now later node s) m
      ∙ heartbeat-presence_gone r ttl now later node s m g
  heartbeat_as-presence now later (err e) s m g = refl

  pub handle_heartbeat-presence :
      (now later : ℕ) (token : GoString) (s : State) (m : GoString)
      → IsGone r ttl later s m
      → presence r ttl (handle_heartbeat r ttl auth now later token s).0 m ≡ presence r ttl s m
  unfolding handle_heartbeat
  handle_heartbeat-presence now later token s m g = elim (Bool-cases (is_empty token)) [
    | inl e ↦ rw e refl
    | inr e ↦ rw e (heartbeat_as-presence now later (resolve_node_id auth token) s m g)
  ]

  beaten-err :
      (p : State × Result (Unit {0})) (e : GoError)
      → p.1 ≡ err e
      → (x : GoError) × ((beaten r ttl auth p).1 ≡ err x)
  unfolding beaten
  beaten-err (s, ok u) e h = cc
  beaten-err (s, err e') e h = (_, refl)

  heartbeat_as-err :
      (now later : ℕ) (node : GoString) (who : Result GoString) (s : State)
      → IsGone r ttl now s node
      → (who ≡ ok node) ⊎ ((e : GoError) × (who ≡ err e))
      → (x : GoError) × ((heartbeat_as r ttl auth now later who s).1 ≡ err x)
  unfolding heartbeat_as
  heartbeat_as-err now later node (ok n) s g (inl h) =
      let (e, failed) = heartbeat-err r ttl now later node s g in
      beaten-err (heartbeat r ttl now later n s) e (ground (arith, h, failed))
  heartbeat_as-err now later node (ok n) s g (inr (e, h)) = cc
  heartbeat_as-err now later node (err e) s g h = (_, refl)

  pub handle_heartbeat-err :
      (now later : ℕ) (node token : GoString) (s : State)
      → IsGone r ttl now s node
      → IsTokenOf auth node token
      → (x : GoError) × ((handle_heartbeat r ttl auth now later token s).1 ≡ err x)
  unfolding handle_heartbeat
  handle_heartbeat-err now later node token s g h = elim (Bool-cases (is_empty token)) [
    | inl e ↦ rw e (_, refl)
    | inr e ↦ rw e (heartbeat_as-err now later node (resolve_node_id auth token) s g h)
  ]

  beaten-is_member :
      (p : State × Result (Unit {0})) (m : GoString)
      → is_member r ttl (beaten r ttl auth p).0 m ≡ is_member r ttl p.0 m
  unfolding beaten
  beaten-is_member (s, ok u) m = refl
  beaten-is_member (s, err e) m = refl

  heartbeat_as-is_member :
      (now later : ℕ) (who : Result GoString) (s : State) (m : GoString)
      → is_member r ttl (heartbeat_as r ttl auth now later who s).0 m ≡ is_member r ttl s m
  unfolding heartbeat_as
  heartbeat_as-is_member now later (ok node) s m =
      beaten-is_member (heartbeat r ttl now later node s) m
      ∙ heartbeat-is_member r ttl now later node s m
  heartbeat_as-is_member now later (err e) s m = refl

  pub handle_heartbeat-is_member :
      (now later : ℕ) (token : GoString) (s : State) (m : GoString)
      → is_member r ttl (handle_heartbeat r ttl auth now later token s).0 m ≡ is_member r ttl s m
  unfolding handle_heartbeat
  handle_heartbeat-is_member now later token s m = elim (Bool-cases (is_empty token)) [
    | inl e ↦ rw e refl
    | inr e ↦ rw e (heartbeat_as-is_member now later (resolve_node_id auth token) s m)
  ]
