-- ===== src/Registry/Cleaner.antt =====
-- The loop of services/discovery/cmd/server/main.go that cleans the registry, and what a cleanup
-- does to a node whose key has expired.
use gordion_vpn.Base.{
  ℕ, ◌+◌, ◌*◌, ◌≡◌, sym, ap, ◌∙◌, subst, Bool, true, false, some, List, [], ◌∷◌, ◌⊎◌, inl, inr,
  arith, Bool-cases, if◌then◌else◌, ltb,
}
use gordion_vpn.Base.Bytes.{GoString, eq_iff}
use gordion_vpn.Grpc.{GoError, Result, ok, err}
use gordion_vpn.Redis.{Redis, found, is_live, contains}
use gordion_vpn.Registry.{
  peer_key, peers_set_key, exist_all, sweep, sweep_found, clean_members, cleanup_stale,
}
use gordion_vpn.Registry.Peers.{presence, is_member}
use gordion_vpn.Registry.Stale.{
  is_online, flags, exist_all-flags, exist_all-is_member, srem-is_member,
}
use gordion_vpn.Registry.Gone.{IsGone}

-- What one tick logs.
pub data CleanupLog : Type 0 where
  cleanup_failed : GoError → CleanupLog
  removed : ℕ → CleanupLog
  quiet : CleanupLog

logged : Result ℕ → CleanupLog
logged (err e) = cleanup_failed e
logged (ok n) = if ltb 0 n then removed n else quiet

-- In seconds.
unfoldable pub cleanup_interval : ℕ → ℕ
cleanup_interval ttl = ttl * 2

module _ (r : Redis) (ttl : ℕ) where
  open r use {State, carried, srem, smembers, exists}

  unfoldable pub clean_tick : ℕ → State → State × CleanupLog
  unfolding logged
  clean_tick now s = let p = cleanup_stale r ttl now s in (p.0, logged p.1)

  -- The ticker's ticks while the service runs, the first at `start`: the state in the end and what
  -- each tick logs. What else happens to the registry between two ticks is an argument.
  unfoldable pub clean_loop : List (State → State) → ℕ → State → State × List CleanupLog
  clean_loop [] now s = (s, [])
  clean_loop (between ∷ more) now s =
      let p = clean_tick now s in
      let rest = clean_loop more (now + cleanup_interval ttl) (between p.0) in
      (rest.0, p.1 ∷ rest.1)

  module _ (now : ℕ) where
    -- Redis carries out every removal of the loop of `CleanupStale`.
    abbrev pub AllCarried : List GoString → List Bool → State → Type 0
    AllCarried [] bs s = Unit
    AllCarried (node ∷ nodes) [] s = Unit
    AllCarried (node ∷ nodes) (true ∷ bs) s = AllCarried nodes bs s
    AllCarried (node ∷ nodes) (false ∷ bs) s =
        (carried s ≡ true) × AllCarried nodes bs (srem peers_set_key node s).0

    sweep-removes :
        (nodes : List GoString) (s s0 : State) (m : GoString)
        → is_online r ttl now s0 m ≡ false
        → AllCarried nodes (flags r ttl now s0 nodes) s
        → (contains nodes m ≡ true) ⊎ (is_member r ttl s m ≡ false)
        → is_member r ttl (sweep r ttl nodes (flags r ttl now s0 nodes) s).0 m ≡ false
    unfolding sweep flags
    sweep-removes [] s s0 m o c (inl h) = cc
    sweep-removes [] s s0 m o c (inr h) = h
    sweep-removes (node ∷ nodes) s s0 m o c h = elim (Bool-cases (is_online r ttl now s0 node)) [
      | inl e ↦
          let more : AllCarried nodes (flags r ttl now s0 nodes) s =
            subst (λ b. AllCarried (node ∷ nodes) (b ∷ flags r ttl now s0 nodes) s) e c in
          rw e (sweep-removes nodes s s0 m o more (ground (arith, h, eq_iff node m, e, o)))
      | inr e ↦
          let (sent, more) : (carried s ≡ true)
              × AllCarried nodes (flags r ttl now s0 nodes) (srem peers_set_key node s).0 =
            subst (λ b. AllCarried (node ∷ nodes) (b ∷ flags r ttl now s0 nodes) s) e c in
          rw e (
            sweep-removes nodes (srem peers_set_key node s).0 s0 m o more
              (ground (arith, h, eq_iff node m, sent, srem-is_member r ttl now node s m)))
    ]

    -- A `CleanupStale` that Redis carries out: the reads are answered, the removals done.
    pub record Carried (nodes : List GoString) (bs : List Bool) (s : State) : Type 0 where
      pub listed : (smembers peers_set_key s).1 ≡ found nodes
      pub told : (exist_all r ttl now nodes (smembers peers_set_key s).0).1 ≡ some bs
      pub done : AllCarried nodes bs (exist_all r ttl now nodes (smembers peers_set_key s).0).0

    clean_members-removes :
        (nodes : List GoString) (bs : List Bool) (s0 s : State) (m : GoString)
        → IsGone r ttl now s0 m
        → ((k : GoString) → presence r ttl s k ≡ presence r ttl s0 k)
        → (contains nodes m ≡ true) ⊎ (is_member r ttl s m ≡ false)
        → (exist_all r ttl now nodes s).1 ≡ some bs
        → AllCarried nodes bs (exist_all r ttl now nodes s).0
        → is_member r ttl (clean_members r ttl now (s, found nodes)).0 m ≡ false
    unfolding clean_members sweep_found
    clean_members-removes [] bs s0 s m g same (inl h) told c = cc
    clean_members-removes [] bs s0 s m g same (inr h) told c = h
    clean_members-removes (node ∷ nodes) bs s0 s m g same h told c =
        let all = node ∷ nodes in
        let u = exist_all r ttl now all s in
        let right : some bs ≡ some (flags r ttl now s0 all) =
          elim (exist_all-flags r ttl now all s s0 same) [ inl e ↦ cc | inr e ↦ sym told ∙ e ] in
        let w : sweep_found r ttl all u
            ≡ sweep_found r ttl all (u.0, some (flags r ttl now s0 all)) =
          ap (λ x. sweep_found r ttl all (u.0, x)) (told ∙ right) in
        let c' : AllCarried all (flags r ttl now s0 all) u.0 =
          subst (λ x. AllCarried all x u.0) (cc) c in
        ap (λ z. is_member r ttl z.0 m) w
        ∙ sweep-removes all u.0 s0 m (ap is_live g) c'
            (ground (arith, h, exist_all-is_member r ttl now all s m))

    listed_or_off :
        (nodes : List GoString) (s : State) (m : GoString)
        → (smembers peers_set_key s).1 ≡ found nodes
        → (contains nodes m ≡ true) ⊎ (is_member r ttl (smembers peers_set_key s).0 m ≡ false)
    listed_or_off nodes s m e = elim (r.smembers_reply peers_set_key s) [
      | inl f ↦ cc
      | inr (xs, f, all) ↦
          let same : contains nodes m ≡ is_member r ttl s m = ground (arith, e, f, all m) in
          elim (Bool-cases (contains nodes m)) [
            | inl y ↦ inl y
            | inr y ↦ inr (r.smembers_has peers_set_key s peers_set_key m ∙ sym same ∙ y)
          ]
    ]

    pub cleanup_stale-removes :
        (nodes : List GoString) (bs : List Bool) (s : State) (m : GoString)
        → IsGone r ttl now s m
        → Carried nodes bs s
        → is_member r ttl (cleanup_stale r ttl now s).0 m ≡ false
    unfolding cleanup_stale
    cleanup_stale-removes nodes bs s m g c =
        let t = (smembers peers_set_key s).0 in
        ap (λ x. is_member r ttl (clean_members r ttl now (t, x)).0 m) c.listed
        ∙ clean_members-removes nodes bs s t m g
            (λ k. r.smembers_entry peers_set_key s (peer_key k)) (listed_or_off nodes s m c.listed)
            c.told c.done
