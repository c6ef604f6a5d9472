-- ===== src/Registry/Sweeps.antt =====
-- The cleanup loop of services/discovery/cmd/server/main.go over several ticks.
use gordion_vpn.Base.{ℕ, ◌+◌, ◌*◌, ◌≤◌, ◌≡◌, subst, Bool, List, [], ◌∷◌, ◌++◌, length, arith, All}
use gordion_vpn.Base.Bytes.{GoString}
use gordion_vpn.Redis.{Redis}
use gordion_vpn.Registry.Peers.{presence}
use gordion_vpn.Registry.Gone.{IsGone, live_later, same-IsGone, cleanup_stale-presence}
use gordion_vpn.Registry.Absent.{IsAbsent, cleanup_stale-IsAbsent}
use gordion_vpn.Registry.Cleaner.{
  clean_tick, clean_loop, cleanup_interval, Carried, cleanup_stale-removes,
}

module _ (r : Redis) (ttl : ℕ) (since : ℕ) (node : GoString) where
  open r use {State}

  -- What happens between two ticks neither brings the node's key back nor puts the node on the set.
  pub record Keeps (f : State → State) : Type 0 where
    pub gone : (s : State) → IsGone r ttl since s node → IsGone r ttl since (f s) node
    pub absent : (s : State) → IsAbsent r ttl s node → IsAbsent r ttl (f s) node

  clean_tick-IsGone :
      (now : ℕ) (s : State)
      → IsGone r ttl since s node
      → IsGone r ttl since (clean_tick r ttl now s).0 node
  unfolding clean_tick
  clean_tick-IsGone now s g =
      same-IsGone r ttl since s _ node (cleanup_stale-presence r ttl now s node) g

  clean_tick-IsAbsent :
      (now : ℕ) (s : State) → IsAbsent r ttl s node → IsAbsent r ttl (clean_tick r ttl now s).0 node
  unfolding clean_tick
  clean_tick-IsAbsent now s a = cleanup_stale-IsAbsent r ttl now s node a

  clean_tick-removes :
      (now : ℕ) (nodes : List GoString) (bs : List Bool) (s : State)
      → since ≤ now
      → IsGone r ttl since s node
      → Carried r ttl now nodes bs s
      → IsAbsent r ttl (clean_tick r ttl now s).0 node
  unfolding clean_tick
  clean_tick-removes now nodes bs s h g c =
      cleanup_stale-removes r ttl now nodes bs s node
        (live_later (presence r ttl s node) since now g h) c

  clean_loop-IsAbsent :
      (fs : List (State → State)) (now : ℕ) (s : State)
      → All Keeps fs
      → IsAbsent r ttl s node
      → IsAbsent r ttl (clean_loop r ttl fs now s).0 node
  unfolding clean_loop
  clean_loop-IsAbsent [] now s ks a = a
  clean_loop-IsAbsent (f ∷ fs) now s (k, ks) a =
      clean_loop-IsAbsent fs (now + cleanup_interval ttl) (f (clean_tick r ttl now s).0) ks
        (k.absent _ (clean_tick-IsAbsent now s a))

  -- The tick after those of `before`, if it comes when the key has expired and is carried out, takes
  -- the node off the set, and the node stays off it.
  pub clean_loop-removes :
      (before after : List (State → State)) (f : State → State) (now : ℕ) (s : State)
      (nodes : List GoString) (bs : List Bool)
      → All Keeps before
      → Keeps f
      → All Keeps after
      → IsGone r ttl since s node
      → since ≤ now + length before * cleanup_interval ttl
      → Carried r ttl
          (now + length before * cleanup_interval ttl)
          nodes
          bs
          (clean_loop r ttl before now s).0
      → IsAbsent r ttl (clean_loop r ttl (before ++ (f ∷ after)) now s).0 node
  unfolding clean_loop
  clean_loop-removes [] after f now s nodes bs tt k ks g h c =
      let e : now + 0 * cleanup_interval ttl ≡ now = omega arith in
      clean_loop-IsAbsent after (now + cleanup_interval ttl) (f (clean_tick r ttl now s).0) ks (
        k.absent _ (
          clean_tick-removes now nodes bs s (omega (arith, h)) g
            (subst (λ n. Carried r ttl n nodes bs s) e c)))
  clean_loop-removes (b ∷ before) after f now s nodes bs (kb, kbs) k ks g h c =
      let i = cleanup_interval ttl in
      let e : now + length (b ∷ before) * i ≡ (now + i) + length before * i = omega arith in
      clean_loop-removes before after f (now + i) (b (clean_tick r ttl now s).0) nodes bs kbs k ks
        (kb.gone _ (clean_tick-IsGone now s g)) (omega (arith, h, e))
        (subst
          (λ n.
            Carried r ttl n nodes bs
              (clean_loop r ttl before (now + i) (b (clean_tick r ttl now s).0)).0)
          e c)
