-- ===== src/Agent/Unlisted.antt =====
-- An agent whose key has expired, and the loop of services/discovery/cmd/server/main.go that cleans
-- the registry.
use gordion_vpn.Base.{
  ℕ, ◌+◌, ◌*◌, ◌≤◌, ◌≡◌, ◌∙◌, Bool, false, Option, List, [], ◌∷◌, ◌++◌, map, length, All,
}
use gordion_vpn.Base.Bytes.{GoString}
use gordion_vpn.Auth.{IdentityCall}
use gordion_vpn.Redis.{Redis}
use gordion_vpn.Registry.{Json}
use gordion_vpn.Registry.Peers.{is_member, heartbeat-is_member}
use gordion_vpn.Registry.Gone.{IsGone}
use gordion_vpn.Registry.Absent.{
  IsAbsent, register-IsAbsent, unregister-IsAbsent, list_online_peers-IsAbsent,
  cleanup_stale-IsAbsent,
}
use gordion_vpn.Registry.Cleaner.{clean_loop, cleanup_interval, Carried}
use gordion_vpn.Registry.Sweeps.{Keeps, clean_loop-removes}
use gordion_vpn.Agent.Beat.{
  Event, beats, registers, renews, unregisters, lists, cleans, Loop, on_event, run, IsLate,
  beat-is_member,
}
use gordion_vpn.Agent.Lapse.{run-IsGone}

module _ (r : Redis) (ttl : ℕ) (auth : Option IdentityCall) (j : Json) where
  open r use {State}

  -- The registry after some events.
  unfoldable pub between : List Event → State → State
  between es s = (run r ttl auth j es (record { failures = 0; sleeps = 0; store = s })).store

  module _ (since : ℕ) (node : GoString) where
    on_event-IsAbsent :
        (e : Event) (l : Loop r ttl auth j)
        → IsLate r ttl auth j since node e
        → IsAbsent r ttl l.store node
        → IsAbsent r ttl (on_event r ttl auth j e l).store node
    unfolding on_event
    on_event-IsAbsent (beats token sent answered now later) l h a =
        beat-is_member r ttl auth j token sent answered now later l node ∙ a
    on_event-IsAbsent (registers clock now p) l n a =
        register-IsAbsent r ttl j clock now p l.store node n a
    on_event-IsAbsent (renews now later m) l h a =
        heartbeat-is_member r ttl now later m l.store node ∙ a
    on_event-IsAbsent (unregisters m) l tt a = unregister-IsAbsent r ttl m node l.store a
    on_event-IsAbsent (lists now) l tt a = list_online_peers-IsAbsent r ttl j now l.store node a
    on_event-IsAbsent (cleans now) l tt a = cleanup_stale-IsAbsent r ttl now l.store node a

    run-IsAbsent :
        (es : List Event) (l : Loop r ttl auth j)
        → All (IsLate r ttl auth j since node) es
        → IsAbsent r ttl l.store node
        → IsAbsent r ttl (run r ttl auth j es l).store node
    unfolding run
    run-IsAbsent [] l late a = a
    run-IsAbsent (e ∷ es) l (here, later) a =
        run-IsAbsent es (on_event r ttl auth j e l) later (on_event-IsAbsent e l here a)

    between-Keeps :
        (es : List Event)
        → All (IsLate r ttl auth j since node) es
        → Keeps r ttl since node (between es)
    unfolding between
    between-Keeps es late = record {
      gone = λ s g. (run-IsGone r ttl auth j since node es _ g late).1;
      absent = λ s a. run-IsAbsent es _ late a;
    }

    map-between-Keeps :
        (ess : List (List Event))
        → All (All (IsLate r ttl auth j since node)) ess
        → All (Keeps r ttl since node) (map between ess)
    map-between-Keeps [] tt = tt
    map-between-Keeps (es ∷ ess) (here, later) =
        (between-Keeps es here, map-between-Keeps ess later)

    -- The cleanup loop takes a node whose key has expired, at `since`, off the set of peers: the
    -- first tick from then on that Redis carries out in full does, and whatever happens before it
    -- and after it at the registry, but a registration of the node, the node stays off the set.
    pub cleanup_unlists_lapsed :
        (before after : List (List Event)) (es : List Event) (start : ℕ) (s : State)
        (nodes : List GoString) (bs : List Bool)
        → All (All (IsLate r ttl auth j since node)) before
        → All (IsLate r ttl auth j since node) es
        → All (All (IsLate r ttl auth j since node)) after
        → IsGone r ttl since s node
        → since ≤ start + length (map between before) * cleanup_interval ttl
        → Carried r ttl
            (start + length (map between before) * cleanup_interval ttl)
            nodes
            bs
            (clean_loop r ttl (map between before) start s).0
        → is_member r ttl
            (clean_loop r ttl (map between before ++ (between es ∷ map between after)) start s).0
            node
          ≡ false
    cleanup_unlists_lapsed before after es start s nodes bs b e a g h c =
        clean_loop-removes r ttl since node (map between before) (map between after) (between es)
          start s nodes bs (map-between-Keeps before b) (between-Keeps es e)
          (map-between-Keeps after a) g h c
