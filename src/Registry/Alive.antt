-- ===== src/Registry/Alive.antt =====
-- A node that keeps sending heartbeats stays online.
use gordion_vpn.Base.{ℕ, ◌+◌, ◌<◌, ◌≡◌, ◌≢◌, ◌∙◌, some, arith}
use gordion_vpn.Base.Bytes.{GoString, str_eq_refl}
use gordion_vpn.Grpc.{ok}
use gordion_vpn.Redis.{Redis, failed}
use gordion_vpn.Registry.{
  Peer, Json, IsReadable, stamped, peer_key, register, heartbeat, read_peer, decoded, get_peer,
}
use gordion_vpn.Registry.Peers.{presence, register-Published, heartbeat-presence, live-get_peer}

module _ (r : Redis) (ttl : ℕ) where
  open r use {State, get}

  -- From state `s`, in which the node's key was last renewed at `last`, the node sends heartbeats
  -- that succeed, each sooner than the time to live after the one before; what happens in between
  -- leaves its key as it is. `end` is the last renewal, and `t` the state reached.
  pub data Beats (node : GoString) : ℕ → State → ℕ → State → Type 0 where
    stop : {last : ℕ} {s : State} → Beats node last s last s
    beat :
        (now later : ℕ) {last end : ℕ} {s t : State}
        → later < last + ttl
        → (heartbeat r ttl now later node s).1 ≡ ok tt
        → Beats node later (heartbeat r ttl now later node s).0 end t
        → Beats node last s end t
    other :
        {last end : ℕ} {s u t : State}
        → presence r ttl u node ≡ presence r ttl s node
        → Beats node last u end t
        → Beats node last s end t

  Beats-presence :
      {node text : GoString} {last end : ℕ} {s t : State}
      → presence r ttl s node ≡ some (record { value = text; expires = some (last + ttl) })
      → Beats node last s end t
      → presence r ttl t node ≡ some (record { value = text; expires = some (end + ttl) })
  Beats-presence e stop = e
  Beats-presence {node} {last = last} {s = s} e (beat now later l h more) =
      Beats-presence
        (ground (arith, (heartbeat-presence r ttl now later node s node h).1, e, str_eq_refl node))
        more
  Beats-presence e (other same more) = Beats-presence (same ∙ e) more

  -- A peer that registers and then keeps sending heartbeats in time is returned by every `GetPeer`
  -- that Redis answers before its time to live has passed since the last of them; the time it was
  -- last seen is still that of the registration.
  pub Beats-get_peer :
      (j : Json) (clock now end later : ℕ) (p : Peer) (s t : State)
      → 0 < ttl
      → IsReadable j (stamped clock p)
      → (register r ttl j clock now p s).1 ≡ ok tt
      → Beats p.node_id now (register r ttl j clock now p s).0 end t
      → later < end + ttl
      → (get later (peer_key p.node_id) t).1 ≢ failed
      → (get_peer r ttl j later p.node_id t).1 ≡ ok (stamped clock p)
  unfolding read_peer decoded
  Beats-get_peer j clock now end later p s t z q h b l a =
      let d = register-Published r ttl j clock now p s q h in
      let start : presence r ttl (register r ttl j clock now p s).0 p.node_id
          ≡ some (record { value = q.text; expires = some (now + ttl) }) =
        ground (arith, d.present) in
      let e = Beats-presence start b in
      ground (arith, live-get_peer r ttl j later p.node_id t a, e, q.read)
