-- ===== src/Registry/Stale.antt =====
-- `CleanupStale`: which members it takes off the set.
use gordion_vpn.Base.{
  ℕ, ◌+◌, ◌≡◌, refl, ap, ◌∙◌, Bool, ◌&&◌, true, false, none, some, List, [], ◌∷◌, ◌⊎◌, inl, inr,
  arith, Bool-cases, if◌then◌else◌,
}
use gordion_vpn.Base.Bytes.{GoString, str_eq, str_eq_refl, eq_iff}
use gordion_vpn.Grpc.{GoError, Result, ok, err}
use gordion_vpn.Redis.{Redis, Reply, found, missing, failed, live, is_live, expiry}
use gordion_vpn.Registry.{
  Peer, Json, IsReadable, stamped, peer_key, peers_set_key, register, flag, exist_all, sweep,
  sweep_found, clean_members, cleanup_stale,
}
use gordion_vpn.Registry.Peers.{presence, is_member, register-Published}
use gordion_vpn.Registry.Listing.{heartbeats, heartbeats-is_member}

module _ (r : Redis) (ttl : ℕ) (now : ℕ) where
  open r use {State, carried, exists, srem, smembers}

  abbrev pub is_online : State → GoString → Bool
  is_online s node = is_live (live now (presence r ttl s node))

  unfoldable pub flags : State → List GoString → List Bool
  flags s [] = []
  flags s (node ∷ nodes) = is_online s node ∷ flags s nodes

  unfoldable pub count_stale : List Bool → ℕ
  count_stale [] = 0
  count_stale (true ∷ bs) = count_stale bs
  count_stale (false ∷ bs) = count_stale bs + 1

  pub exist_all-presence :
      (nodes : List GoString) (s : State) (m : GoString)
      → presence r ttl (exist_all r ttl now nodes s).0 m ≡ presence r ttl s m
  unfolding exist_all
  exist_all-presence [] s m = refl
  exist_all-presence (node ∷ nodes) s m =
      exist_all-presence nodes _ m ∙ r.exists_entry now (peer_key node) s (peer_key m)

  pub exist_all-is_member :
      (nodes : List GoString) (s : State) (m : GoString)
      → is_member r ttl (exist_all r ttl now nodes s).0 m ≡ is_member r ttl s m
  unfolding exist_all
  exist_all-is_member [] s m = refl
  exist_all-is_member (node ∷ nodes) s m =
      exist_all-is_member nodes _ m ∙ r.exists_has now (peer_key node) s peers_set_key m

  pub exist_all-flags :
      (nodes : List GoString) (s s0 : State)
      → ((m : GoString) → presence r ttl s m ≡ presence r ttl s0 m)
      → ((exist_all r ttl now nodes s).1 ≡ none)
        ⊎ ((exist_all r ttl now nodes s).1 ≡ some (flags s0 nodes))
  unfolding exist_all flags flag
  exist_all-flags [] s s0 same = inr refl
  exist_all-flags (node ∷ nodes) s s0 same =
      let t = (exists now (peer_key node) s).0 in
      let rest =
        exist_all-flags nodes t s0
          (λ m. r.exists_entry now (peer_key node) s (peer_key m) ∙ same m) in
      ground (arith, rest, r.exists_reply now (peer_key node) s, same node)

  pub sweep-presence :
      (nodes : List GoString) (bs : List Bool) (s : State) (m : GoString)
      → presence r ttl (sweep r ttl nodes bs s).0 m ≡ presence r ttl s m
  unfolding sweep
  sweep-presence [] bs s m = refl
  sweep-presence (node ∷ nodes) [] s m = refl
  sweep-presence (node ∷ nodes) (true ∷ bs) s m = sweep-presence nodes bs s m
  sweep-presence (node ∷ nodes) (false ∷ bs) s m =
      sweep-presence nodes bs _ m ∙ r.srem_entry peers_set_key node s (peer_key m)

  sweep-count :
      (nodes : List GoString) (s s0 : State)
      → (sweep r ttl nodes (flags s0 nodes) s).1 ≡ count_stale (flags s0 nodes)
  unfolding sweep flags count_stale
  sweep-count [] s s0 = refl
  sweep-count (node ∷ nodes) s s0 = elim (Bool-cases (is_online s0 node)) [
    | inl e ↦ ground (arith, e, sweep-count nodes s s0)
    | inr e ↦ ground (arith, e, sweep-count nodes (srem peers_set_key node s).0 s0)
  ]

  pub srem-is_member :
      (node : GoString) (s : State) (m : GoString)
      → is_member r ttl (srem peers_set_key node s).0 m
        ≡ (if carried s && str_eq node m then false else is_member r ttl s m)
  srem-is_member node s m =
      ground (arith, r.srem_has peers_set_key node s peers_set_key m, str_eq_refl peers_set_key)

  sweep-stays :
      (nodes : List GoString) (s s0 : State) (m : GoString)
      → is_online s0 m ≡ true
      → is_member r ttl (sweep r ttl nodes (flags s0 nodes) s).0 m ≡ is_member r ttl s m
  unfolding sweep flags
  sweep-stays [] s s0 m o = refl
  sweep-stays (node ∷ nodes) s s0 m o = elim (Bool-cases (is_online s0 node)) [
    | inl e ↦ ground (arith, e, sweep-stays nodes s s0 m o)
    | inr e ↦ ground (
      arith,
      e,
      sweep-stays nodes (srem peers_set_key node s).0 s0 m o,
      srem-is_member node s m,
      eq_iff node m,
      o,
    )
  ]

  pub sweep-leaves :
      (nodes : List GoString) (bs : List Bool) (s : State) (m : GoString)
      → is_member r ttl s m ≡ false
      → is_member r ttl (sweep r ttl nodes bs s).0 m ≡ false
  unfolding sweep
  sweep-leaves [] bs s m e = e
  sweep-leaves (node ∷ nodes) [] s m e = e
  sweep-leaves (node ∷ nodes) (true ∷ bs) s m e = sweep-leaves nodes bs s m e
  sweep-leaves (node ∷ nodes) (false ∷ bs) s m e =
      sweep-leaves nodes bs _ m (ground (arith, srem-is_member node s m))

  -- What `CleanupStale` leaves, and returns, of the members that it has read.
  record Kept (nodes : List GoString) (s t : State) (p : State × Result ℕ) : Type 0 where
    presences : (m : GoString) → presence r ttl p.0 m ≡ presence r ttl s m
    counted : (p.1 ≡ ok (count_stale (flags s nodes))) ⊎ ((e : GoError) × (p.1 ≡ err e))
    steady : (m : GoString) → is_online s m ≡ true → is_member r ttl p.0 m ≡ is_member r ttl t m

  sweep_found-Kept :
      (nodes : List GoString) (s t : State)
      → ((m : GoString) → presence r ttl t m ≡ presence r ttl s m)
      → Kept nodes s t (sweep_found r ttl nodes (exist_all r ttl now nodes t))
  unfolding sweep_found
  sweep_found-Kept nodes s t same =
      let u = exist_all r ttl now nodes t in
      elim (exist_all-flags nodes t s same) [
        | inl e ↦
            let w = ap (λ x. sweep_found r ttl nodes (u.0, x)) e in
            record {
              presences =
                  λ k. ap (λ z. presence r ttl z.0 k) w ∙ exist_all-presence nodes t k ∙ same k;
              counted = inr (_, ap (λ z. z.1) w);
              steady = λ m o. ap (λ z. is_member r ttl z.0 m) w ∙ exist_all-is_member nodes t m;
            }
        | inr e ↦
            let w = ap (λ x. sweep_found r ttl nodes (u.0, x)) e in
            record {
              presences = λ k.
                  ap (λ z. presence r ttl z.0 k) w
                  ∙ sweep-presence nodes (flags s nodes) u.0 k
                  ∙ exist_all-presence nodes t k
                  ∙ same k;
              counted = inl (ap (λ z. z.1) w ∙ ap ok (sweep-count nodes u.0 s));
              steady = λ m o.
                  ap (λ z. is_member r ttl z.0 m) w
                  ∙ sweep-stays nodes u.0 s m o
                  ∙ exist_all-is_member nodes t m;
            }
      ]

  clean_members-Kept :
      (nodes : List GoString) (s t : State)
      → ((m : GoString) → presence r ttl t m ≡ presence r ttl s m)
      → Kept nodes s t (clean_members r ttl now (t, found nodes))
  unfolding clean_members flags count_stale
  clean_members-Kept [] s t same = record {
    presences = same;
    counted = inl refl;
    steady = λ m o. refl;
  }
  clean_members-Kept (node ∷ nodes) s t same = sweep_found-Kept (node ∷ nodes) s t same

  -- What `CleanupStale` comes to when the members are answered, or not.
  abbrev Outcome : State → State → Reply (List GoString) → State × Result ℕ → Type 0
  Outcome s t x p =
      ((m : GoString) → presence r ttl p.0 m ≡ presence r ttl s m)
      × (((nodes : List GoString) × (x ≡ found nodes) × (p.1 ≡ ok (count_stale (flags s nodes))))
          ⊎ ((e : GoError) × (p.1 ≡ err e)))
      × ((m : GoString) → (is_member r ttl p.0 m ≡ is_member r ttl t m) ⊎ (is_online s m ≡ false))

  clean_members-Outcome :
      (s t : State) (x : Reply (List GoString))
      → ((m : GoString) → presence r ttl t m ≡ presence r ttl s m)
      → Outcome s t x (clean_members r ttl now (t, x))
  unfolding clean_members
  clean_members-Outcome s t (found nodes) same =
      let kept = clean_members-Kept nodes s t same in
      (
        kept.presences,
        elim kept.counted [ inl c ↦ inl (nodes, refl, c) | inr e ↦ inr e ],
        λ m. elim (Bool-cases (is_online s m)) [ inl o ↦ inl (kept.steady m o) | inr o ↦ inr o ],
      )
  clean_members-Outcome s t missing same = (same, inr (_, refl), λ m. inl refl)
  clean_members-Outcome s t failed same = (same, inr (_, refl), λ m. inl refl)

  -- Whatever commands are lost, and whoever is stale: `CleanupStale` changes no key, and a node
  -- whose membership it changes has no live key. It returns an error, or the number of members
  -- without a live key.
  pub cleanup_stale-keeps :
      (s : State)
      → let p = cleanup_stale r ttl now s in
        ((m : GoString) → presence r ttl p.0 m ≡ presence r ttl s m)
        × (((nodes : List GoString) × ((smembers peers_set_key s).1 ≡ found nodes)
              × (p.1 ≡ ok (count_stale (flags s nodes))))
            ⊎ ((e : GoError) × (p.1 ≡ err e)))
        × ((m : GoString) → (is_member r ttl p.0 m ≡ is_member r ttl s m) ⊎ (is_online s m ≡ false))
  unfolding cleanup_stale
  cleanup_stale-keeps s =
      let (t, x) = smembers peers_set_key s in
      let (same, count, stays) =
        clean_members-Outcome s t x (λ k. r.smembers_entry peers_set_key s (peer_key k)) in
      (
        same,
        count,
        λ m. elim (stays m) [
          | inl e ↦ inl (e ∙ r.smembers_has peers_set_key s peers_set_key m)
          | inr o ↦ inr o
        ],
      )

  -- A node that registers after `CleanupStale` has found its key missing, and before it gets to the
  -- removal, is taken off the set although its key is there, and no heartbeat brings it back.
  pub register_races_cleanup :
      (j : Json) (clock : ℕ) (p : Peer) (nodes : List GoString) (bs : List Bool)
      (hs : List (ℕ × ℕ × GoString)) (s : State)
      → (q : IsReadable j (stamped clock p)) → (register r ttl j clock now p s).1 ≡ ok tt
      → carried (register r ttl j clock now p s).0 ≡ true
      → let t =
          (sweep r ttl (p.node_id ∷ nodes) (false ∷ bs) (register r ttl j clock now p s).0).0 in
        (presence r ttl t p.node_id ≡ some (record { value = q.text; expires = expiry now ttl }))
        × (is_member r ttl (heartbeats r ttl j now hs t) p.node_id ≡ false)
  unfolding sweep
  register_races_cleanup j clock p nodes bs hs s q h c =
      let t = (register r ttl j clock now p s).0 in
      let d = register-Published r ttl j clock now p s q h in
      (
        sweep-presence (p.node_id ∷ nodes) (false ∷ bs) t p.node_id ∙ d.present,
        heartbeats-is_member r ttl j now hs _ p.node_id
            ∙ sweep-leaves nodes bs (srem peers_set_key p.node_id t).0 p.node_id
                (ground (arith, srem-is_member p.node_id t p.node_id, str_eq_refl p.node_id)),
      )
