-- ===== src/Agent/Beat.antt =====
-- `heartbeatLoop` of services/agent/internal/agent/agent.go, with the handler of the discovery
-- service that it calls, while other clients use the registry and the service cleans it. A beat is
-- one round of the loop: the call may be refused by the breaker or lost on the way (`sent` is false),
-- and its answer may be lost.
mod Tests
use gordion_vpn.Base.{
  ℕ, ◌+◌, ◌≤◌, ◌≡◌, ◌≢◌, refl, ap, ◌∙◌, Bool, true, false, ◌&&◌, Option, List, [], ◌∷◌, arith,
}
use gordion_vpn.Base.Bytes.{GoString, str_eq}
use gordion_vpn.Grpc.{GoError, Result, ok, err}
use gordion_vpn.Auth.{IdentityCall, resolve_node_id}
use gordion_vpn.Redis.{Redis, Entry, failed, live}
use gordion_vpn.Registry.{
  Peer, Json, peer_key, peer_not_found, register, heartbeat, unregister, get_peer,
  list_online_peers, cleanup_stale,
}
use gordion_vpn.Registry.Peers.{presence, is_member}
use gordion_vpn.Registry.Gone.{
  IsGone, live_later, same-IsGone, register-presence, heartbeat-presence_gone, heartbeat-err,
  unregister-IsGone, list_online_peers-presence, cleanup_stale-presence, gone-get_peer,
}
use gordion_vpn.Discovery.{handle_heartbeat}
use gordion_vpn.Discovery.Lapsed.{
  IsTokenOf, handle_heartbeat-presence, handle_heartbeat-err, handle_heartbeat-is_member,
}
use gordion_vpn.Agent.{heartbeat_tick}

pub data Event : Type 0 where
  beats : GoString → Bool → Bool → ℕ → ℕ → Event  -- token, sent, answered, and the two instants
  registers : ℕ → ℕ → Peer → Event
  renews : ℕ → ℕ → GoString → Event
  unregisters : GoString → Event
  lists cleans : ℕ → Event

abbrev is_ok : {A : Type 0} → Result A → Bool
is_ok (ok a) = true
is_ok (err e) = false

module _ (r : Redis) (ttl : ℕ) (auth : Option IdentityCall) (j : Json) where
  open r use {State, get}

  -- `failures` is the loop's `failCount`, and `sleeps` the seconds of its last back-off.
  pub record Loop : Type 0 where
    pub failures : ℕ
    pub sleeps : ℕ
    pub store : State

  ticked : Bool → State → Loop → Loop
  ticked succeeded s l =
      let (failures, sleeps) = heartbeat_tick succeeded l.failures in
      record { failures = failures; sleeps = sleeps; store = s }

  answered_by : Bool → State × Result ℕ → Loop → Loop
  unfolding ticked
  answered_by answered (s, a) l = ticked (answered && is_ok a) s l

  unfoldable pub beat : GoString → Bool → Bool → ℕ → ℕ → Loop → Loop
  unfolding ticked answered_by
  beat token false answered now later l = ticked false l.store l
  beat token true answered now later l =
      answered_by answered (handle_heartbeat r ttl auth now later token l.store) l

  unfoldable pub on_event : Event → Loop → Loop
  on_event (beats token sent answered now later) l = beat token sent answered now later l
  on_event (registers clock now p) l = record l { store = (register r ttl j clock now p l.store).0 }
  on_event (renews now later node) l = record l {
    store = (heartbeat r ttl now later node l.store).0;
  }
  on_event (unregisters node) l = record l { store = (unregister r ttl node l.store).0 }
  on_event (lists now) l = record l { store = (list_online_peers r ttl j now l.store).0 }
  on_event (cleans now) l = record l { store = (cleanup_stale r ttl now l.store).0 }

  unfoldable pub run : List Event → Loop → Loop
  run [] l = l
  run (e ∷ es) l = run es (on_event e l)

  unfoldable pub count_beats : List Event → ℕ
  count_beats [] = 0
  count_beats (beats token sent answered now later ∷ es) = count_beats es + 1
  count_beats (registers clock now p ∷ es) = count_beats es
  count_beats (renews now later node ∷ es) = count_beats es
  count_beats (unregisters node ∷ es) = count_beats es
  count_beats (lists now ∷ es) = count_beats es
  count_beats (cleans now ∷ es) = count_beats es

  -- From `since` on: the agent's tokens are the node's or refused, and the others registered are
  -- other nodes. An agent registers with the discovery service only when it starts.
  abbrev pub IsLate : ℕ → GoString → Event → Type 0
  IsLate since node (beats token sent answered now later) =
      (since ≤ now) × (since ≤ later) × IsTokenOf auth node token
  IsLate since node (registers clock now p) = str_eq p.node_id node ≡ false
  IsLate since node (renews now later m) = since ≤ later
  IsLate since node (unregisters m) = Unit
  IsLate since node (lists now) = Unit
  IsLate since node (cleans now) = Unit

  answered_by-err :
      (answered : Bool) (p : State × Result ℕ) (e : GoError) (l : Loop)
      → p.1 ≡ err e
      → ((answered_by answered p l).failures ≡ l.failures + 1)
        × ((answered_by answered p l).store ≡ p.0)
  unfolding answered_by ticked heartbeat_tick
  answered_by-err answered (s, ok n) e l h = cc
  answered_by-err true (s, err x) e l h = (refl, refl)
  answered_by-err false (s, err x) e l h = (refl, refl)

  pub beat-IsGone :
      (since : ℕ) (node token : GoString) (sent answered : Bool) (now later : ℕ) (l : Loop)
      → IsGone r ttl since l.store node
      → since ≤ now
      → since ≤ later
      → IsTokenOf auth node token
      → ((beat token sent answered now later l).failures ≡ l.failures + 1)
        × IsGone r ttl since (beat token sent answered now later l).store node
  unfolding beat ticked heartbeat_tick
  beat-IsGone since node token false answered now later l g a b t = (refl, g)
  beat-IsGone since node token true answered now later l g a b t =
      let p = handle_heartbeat r ttl auth now later token l.store in
      let at = λ (x : ℕ) (h : since ≤ x). live_later (presence r ttl l.store node) since x g h in
      let (e, h) = handle_heartbeat-err r ttl auth now later node token l.store (at now a) t in
      let (failed_again, kept) = answered_by-err answered p e l h in
      (
        failed_again,
        same-IsGone r ttl since l.store _ node
            (ap (λ s. presence r ttl s node) kept
              ∙ handle_heartbeat-presence r ttl auth now later token l.store node (at later b))
            g,
      )

  answered_by-store :
      (answered : Bool) (p : State × Result ℕ) (l : Loop) → (answered_by answered p l).store ≡ p.0
  unfolding answered_by
  answered_by-store answered (s, a) l = refl

  pub beat-is_member :
      (token : GoString) (sent answered : Bool) (now later : ℕ) (l : Loop) (m : GoString)
      → is_member r ttl (beat token sent answered now later l).store m ≡ is_member r ttl l.store m
  unfolding beat
  beat-is_member token false answered now later l m = refl
  beat-is_member token true answered now later l m =
      let p = handle_heartbeat r ttl auth now later token l.store in
      ap (λ s. is_member r ttl s m) (answered_by-store answered p l)
      ∙ handle_heartbeat-is_member r ttl auth now later token l.store m
