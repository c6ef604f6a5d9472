-- ===== src/Agent/Lapse.antt =====
-- An agent whose key in the registry has expired: `heartbeatLoop` of
-- services/agent/internal/agent/agent.go never registers with the discovery service again.
use gordion_vpn.Base.{ℕ, ◌+◌, ◌≤◌, ◌≡◌, ◌≢◌, refl, Option, List, [], ◌∷◌, arith, All}
use gordion_vpn.Base.Bytes.{GoString}
use gordion_vpn.Grpc.{err}
use gordion_vpn.Auth.{IdentityCall}
use gordion_vpn.Redis.{Redis, failed}
use gordion_vpn.Registry.{Json, peer_key, peer_not_found, get_peer}
use gordion_vpn.Registry.Peers.{presence}
use gordion_vpn.Registry.Gone.{
  IsGone, live_later, same-IsGone, register-presence, heartbeat-presence_gone, unregister-IsGone,
  list_online_peers-presence, cleanup_stale-presence, gone-get_peer,
}
use gordion_vpn.Agent.Beat.{
  Event, beats, registers, renews, unregisters, lists, cleans, Loop, on_event, run, count_beats,
  IsLate, beat-IsGone,
}

module _ (r : Redis) (ttl : ℕ) (auth : Option IdentityCall) (j : Json) (since : ℕ)
    (node : GoString) where
  open r use {get}

  abbrev beat_of : Event → ℕ
  beat_of e = count_beats r ttl auth j (e ∷ [])

  on_event-IsGone :
      (e : Event) (l : Loop r ttl auth j)
      → IsGone r ttl since l.store node
      → IsLate r ttl auth j since node e
      → ((on_event r ttl auth j e l).failures ≡ l.failures + beat_of e)
        × IsGone r ttl since (on_event r ttl auth j e l).store node
  unfolding on_event count_beats
  on_event-IsGone (beats token sent answered now later) l g (a, b, t) =
      let (failed_again, gone) =
        beat-IsGone r ttl auth j since node token sent answered now later l g a b t in
      (ground (arith, failed_again), gone)
  on_event-IsGone (registers clock now p) l g n = (
    omega arith,
    same-IsGone r ttl since l.store _ node (register-presence r ttl j clock now p l.store node n) g,
  )
  on_event-IsGone (renews now later m) l g b = (
    omega arith,
    same-IsGone r ttl since l.store _ node
        (heartbeat-presence_gone r ttl now later m l.store node
          (live_later (presence r ttl l.store node) since later g b))
        g,
  )
  on_event-IsGone (unregisters m) l g tt =
      (omega arith, unregister-IsGone r ttl since m node l.store g)
  on_event-IsGone (lists now) l g tt = (
    omega arith,
    same-IsGone r ttl since l.store _ node (list_online_peers-presence r ttl j now l.store node) g,
  )
  on_event-IsGone (cleans now) l g tt = (
    omega arith,
    same-IsGone r ttl since l.store _ node (cleanup_stale-presence r ttl now l.store node) g,
  )

  count_beats-cons :
      (e : Event) (es : List Event)
      → count_beats r ttl auth j (e ∷ es) ≡ beat_of e + count_beats r ttl auth j es
  unfolding count_beats
  count_beats-cons (beats token sent answered now later) es = omega arith
  count_beats-cons (registers clock now p) es = omega arith
  count_beats-cons (renews now later m) es = omega arith
  count_beats-cons (unregisters m) es = omega arith
  count_beats-cons (lists now) es = omega arith
  count_beats-cons (cleans now) es = omega arith

  pub run-IsGone :
      (es : List Event) (l : Loop r ttl auth j)
      → IsGone r ttl since l.store node
      → All (IsLate r ttl auth j since node) es
      → ((run r ttl auth j es l).failures ≡ l.failures + count_beats r ttl auth j es)
        × IsGone r ttl since (run r ttl auth j es l).store node
  unfolding run
  run-IsGone [] l g late = (omega (arith, count), g)
    where
      count : count_beats r ttl auth j [] ≡ 0
      count = unfold count_beats in refl
  run-IsGone (e ∷ es) l g (here, later) =
      let (failed_here, gone) = on_event-IsGone e l g here in
      let (failed_later, stays) = run-IsGone es (on_event r ttl auth j e l) gone later in
      (omega (arith, failed_here, failed_later, count_beats-cons e es), stays)

  -- Once the key of an agent that has registered has expired, at `since`, every later heartbeat of
  -- the loop fails, whether it is sent and answered or not, with a token of the node or one that is
  -- refused; and every `GetPeer` that Redis answers reports the node as missing. That holds for
  -- ever, whatever other nodes register, whoever sends heartbeats, unregisters, lists peers or
  -- cleans up.
  pub lapse_is_final :
      (es : List Event) (l : Loop r ttl auth j) (now : ℕ)
      → IsGone r ttl since l.store node
      → All (IsLate r ttl auth j since node) es
      → since ≤ now
      → (get now (peer_key node) (run r ttl auth j es l).store).1 ≢ failed
      → ((run r ttl auth j es l).failures ≡ l.failures + count_beats r ttl auth j es)
        × ((get_peer r ttl j now node (run r ttl auth j es l).store).1 ≡ err (peer_not_found node))
  lapse_is_final es l now g late h a =
      let (failures, gone) = run-IsGone es l g late in
      (
        failures,
        gone-get_peer r ttl j now node (run r ttl auth j es l).store
            (live_later (presence r ttl (run r ttl auth j es l).store node) since now gone h) a,
      )
