-- ===== src/Registry/Listing.antt =====
-- `ListOnlinePeers`: which members it returns, and which it takes off the set.
use gordion_vpn.Base.{
  ℕ, ◌≡◌, ◌≢◌, refl, ap, ◌∙◌, Bool, ◌&&◌, true, false, Option, none, some, List, [], ◌∷◌, arith,
  if◌then◌else◌, ◌⊎◌, inl, inr,
}
use gordion_vpn.Base.Bytes.{GoString, str_eq, str_eq_refl, eq_iff}
use gordion_vpn.Grpc.{Result, ok, err}
use gordion_vpn.Redis.{Redis, found, failed, live}
use gordion_vpn.Registry.{
  Peer, Json, peer_key, peers_set_key, heartbeat, read_peer, decoded, get_peer, after_get, keep,
  list_members, list_of, list_online_peers,
}
use gordion_vpn.Registry.Peers.{presence, is_member, live-get_peer, heartbeat-is_member}

abbrev pub peer_of : Json → Option GoString → Option Peer
peer_of j none = none
peer_of j (some v) = j.unmarshal v

abbrev pub add : Option Peer → List Peer → List Peer
add none ps = ps
add (some p) ps = p ∷ ps

none_or_some : {A : Type 0} (o : Option A) → (o ≡ none) ⊎ ((a : A) × (o ≡ some a))
none_or_some none = inl refl
none_or_some (some a) = inr (a, refl)

abbrev is_err : {A : Type 0} → Result A → Bool
is_err (ok a) = false
is_err (err e) = true

module _ (r : Redis) (ttl : ℕ) (j : Json) (now : ℕ) where
  open r use {State, carried, get, exists, expire, srem, smembers}

  -- The peers of those nodes whose key is live and can be decoded, in the nodes' order.
  unfoldable pub online : State → List GoString → List Peer
  online s [] = []
  online s (node ∷ nodes) =
      let rest = online s nodes in add (peer_of j (live now (presence r ttl s node))) rest

  -- Redis answers the reads of the loop.
  abbrev pub AllAnswered : List GoString → State → Type 0
  AllAnswered [] s = Unit
  AllAnswered (node ∷ nodes) s =
      ((get now (peer_key node) s).1 ≢ failed)
      × AllAnswered nodes (after_get r ttl node (get_peer r ttl j now node s))

  after_get-presence :
      (node : GoString) (p : State × Result Peer) (m : GoString)
      → presence r ttl (after_get r ttl node p) m ≡ presence r ttl p.0 m
  unfolding after_get
  after_get-presence node (s, ok p) m = refl
  after_get-presence node (s, err e) m = r.srem_entry peers_set_key node s (peer_key m)

  pub after_get-is_member :
      (node : GoString) (p : State × Result Peer) (m : GoString)
      → is_member r ttl (after_get r ttl node p) m
        ≡ (if is_err p.1 && carried p.0 && str_eq node m then false else is_member r ttl p.0 m)
  unfolding after_get
  after_get-is_member node (s, ok p) m = refl
  after_get-is_member node (s, err e) m =
      ground (arith, r.srem_has peers_set_key node s peers_set_key m, str_eq_refl peers_set_key)

  -- One round of the loop.
  round-presence :
      (node : GoString) (s : State) (m : GoString)
      → presence r ttl (after_get r ttl node (get_peer r ttl j now node s)) m ≡ presence r ttl s m
  unfolding get_peer
  round-presence node s m =
      after_get-presence node _ m ∙ r.get_entry now (peer_key node) s (peer_key m)

  round-stays :
      (node : GoString) (s : State) (m : GoString) (p : Peer)
      → (get now (peer_key node) s).1 ≢ failed
      → peer_of j (live now (presence r ttl s m)) ≡ some p
      → is_member r ttl (after_get r ttl node (get_peer r ttl j now node s)) m ≡ is_member r ttl s m
  unfolding get_peer read_peer decoded
  round-stays node s m p a e = ground (
    arith,
    after_get-is_member node (get_peer r ttl j now node s) m,
    r.get_has now (peer_key node) s peers_set_key m,
    live-get_peer r ttl j now node s a,
    eq_iff node m,
  )

  round-leaves :
      (node : GoString) (s : State) (m : GoString)
      → is_member r ttl s m ≡ false
      → is_member r ttl (after_get r ttl node (get_peer r ttl j now node s)) m ≡ false
  unfolding get_peer
  round-leaves node s m e = ground (
    arith,
    after_get-is_member node (get_peer r ttl j now node s) m,
    r.get_has now (peer_key node) s peers_set_key m,
  )

  pub list_members-presence :
      (nodes : List GoString) (s : State) (m : GoString)
      → presence r ttl (list_members r ttl j now nodes s).0 m ≡ presence r ttl s m
  unfolding list_members
  list_members-presence [] s m = refl
  list_members-presence (node ∷ nodes) s m =
      list_members-presence nodes _ m ∙ round-presence node s m

  answered-get_peer :
      (node : GoString) (s : State)
      → (get now (peer_key node) s).1 ≢ failed
      → (ps : List Peer)
      → keep r ttl (get_peer r ttl j now node s).1 ps
        ≡ add (peer_of j (live now (presence r ttl s node))) ps
  unfolding read_peer decoded keep
  answered-get_peer node s a ps = ground (arith, live-get_peer r ttl j now node s a)

  list_members-online :
      (nodes : List GoString) (s s0 : State)
      → ((m : GoString) → presence r ttl s m ≡ presence r ttl s0 m)
      → AllAnswered nodes s
      → (list_members r ttl j now nodes s).1 ≡ online s0 nodes
  unfolding list_members online
  list_members-online [] s s0 same a = refl
  list_members-online (node ∷ nodes) s s0 same (a, more) =
      let t = after_get r ttl node (get_peer r ttl j now node s) in
      let rest = list_members-online nodes t s0 (λ m. round-presence node s m ∙ same m) more in
      ap (keep r ttl (get_peer r ttl j now node s).1) rest
      ∙ answered-get_peer node s a (online s0 nodes)
      ∙ ap (λ e. add (peer_of j (live now e)) (online s0 nodes)) (same node)

  list_members-stays :
      (nodes : List GoString) (s : State) (m : GoString) (p : Peer)
      → AllAnswered nodes s
      → peer_of j (live now (presence r ttl s m)) ≡ some p
      → is_member r ttl (list_members r ttl j now nodes s).0 m ≡ is_member r ttl s m
  unfolding list_members
  list_members-stays [] s m p a e = refl
  list_members-stays (node ∷ nodes) s m p (a, more) e =
      list_members-stays nodes _ m p more
        (ap (λ x. peer_of j (live now x)) (round-presence node s m) ∙ e)
      ∙ round-stays node s m p a e

  pub list_members-leaves :
      (nodes : List GoString) (s : State) (m : GoString)
      → is_member r ttl s m ≡ false
      → is_member r ttl (list_members r ttl j now nodes s).0 m ≡ false
  unfolding list_members
  list_members-leaves [] s m e = e
  list_members-leaves (node ∷ nodes) s m e = list_members-leaves nodes _ m (round-leaves node s m e)

  -- When Redis answers all its reads, `ListOnlinePeers` returns exactly the members whose key is
  -- live and can be decoded, be they none, and leaves every key as it was. A node whose membership
  -- changes has no such key.
  pub list_online_peers-online :
      (nodes : List GoString) (s : State)
      → (smembers peers_set_key s).1 ≡ found nodes
      → AllAnswered nodes (smembers peers_set_key s).0
      → let p = list_online_peers r ttl j now s in
        (p.1 ≡ ok (online s nodes))
        × ((k : GoString) → presence r ttl p.0 k ≡ presence r ttl s k)
        × ((m : GoString)
            → (is_member r ttl p.0 m ≡ is_member r ttl s m)
              ⊎ (peer_of j (live now (presence r ttl s m)) ≡ none))
  unfolding list_online_peers list_of
  list_online_peers-online nodes s f a =
      let t = (smembers peers_set_key s).0 in
      let u = list_members r ttl j now nodes t in
      let same = λ (k : GoString). r.smembers_entry peers_set_key s (peer_key k) in
      let w : list_online_peers r ttl j now s ≡ (u.0, ok u.1) =
        ap (λ x. list_of r ttl j now (t, x)) f in
      (
        ap (λ z. z.1) w ∙ ap ok (list_members-online nodes t s same a),
        λ k. ap (λ z. presence r ttl z.0 k) w ∙ list_members-presence nodes t k ∙ same k,
        λ m. elim (none_or_some (peer_of j (live now (presence r ttl s m)))) [
          | inl gone ↦ inr gone
          | inr (q, e) ↦ inl (
              ap (λ z. is_member r ttl z.0 m) w
              ∙ list_members-stays nodes t m q a (ap (λ x. peer_of j (live now x)) (same m) ∙ e)
              ∙ r.smembers_has peers_set_key s peers_set_key m)
        ],
      )

  -- Any heartbeats, of any nodes at any times.
  unfoldable pub heartbeats : List (ℕ × ℕ × GoString) → State → State
  heartbeats [] s = s
  heartbeats ((before, later, node) ∷ hs) s = heartbeats hs (heartbeat r ttl before later node s).0

  pub heartbeats-is_member :
      (hs : List (ℕ × ℕ × GoString)) (s : State) (m : GoString)
      → is_member r ttl (heartbeats hs s) m ≡ is_member r ttl s m
  unfolding heartbeats
  heartbeats-is_member [] s m = refl
  heartbeats-is_member ((before, later, node) ∷ hs) s m =
      heartbeats-is_member hs _ m ∙ heartbeat-is_member r ttl before later node s m

  -- When the `Get` of a member fails in a listing and the `SRem` that follows gets through, the
  -- member is off the set although its key is as it was, and no heartbeat brings it back.
  pub transient_error_unlists :
      (node : GoString) (nodes : List GoString) (hs : List (ℕ × ℕ × GoString)) (s : State)
      → (get now (peer_key node) s).1 ≡ failed
      → carried (get now (peer_key node) s).0 ≡ true
      → let t = (list_members r ttl j now (node ∷ nodes) s).0 in
        (presence r ttl t node ≡ presence r ttl s node)
        × (is_member r ttl (heartbeats hs t) node ≡ false)
  unfolding list_members get_peer read_peer
  transient_error_unlists node nodes hs s f c =
      let p = get_peer r ttl j now node s in
      let gone : is_member r ttl (after_get r ttl node p) node ≡ false =
        ground (arith, after_get-is_member node p node, str_eq_refl node) in
      (
        list_members-presence nodes _ node ∙ round-presence node s node,
        heartbeats-is_member hs _ node ∙ list_members-leaves nodes _ node gone,
      )
