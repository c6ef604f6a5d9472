-- ===== src/Registry/Peers.antt =====
-- `Register`, `Heartbeat` and `GetPeer`: how long a peer stays online.
use gordion_vpn.Base.{
  ℕ, ◌+◌, ◌<◌, ◌≡◌, ◌≢◌, refl, sym, ap, ◌∙◌, Bool, true, false, ◌&&◌, Option, some, arith,
  if◌then◌else◌, ◌⊎◌, inl, inr, ltb,
}
use gordion_vpn.Base.Bytes.{GoString, str_eq, str_eq_refl}
use gordion_vpn.Grpc.{GoError, ok, err}
use gordion_vpn.Redis.{
  Redis, Entry, Reply, found, missing, failed, live, is_live, expiry, renew, reply_of,
}
use gordion_vpn.Registry.{
  Peer, Json, IsReadable, stamped, peer_key, peers_set_key, peer_not_found, finish, finish_set,
  register_text, register, after_exists, heartbeat, read_peer, decoded, get_peer,
}

pub peer_key-eq : (a b : GoString) → str_eq (peer_key a) (peer_key b) ≡ str_eq a b
unfolding str_eq
peer_key-eq a b = refl

module _ (r : Redis) (ttl : ℕ) where
  open r use {State, entry, has, carried, get, exists, set, expire, sadd, srem}

  -- What a node's key holds.
  abbrev pub presence : State → GoString → Option Entry
  presence s node = entry s (peer_key node)

  abbrev pub is_member : State → GoString → Bool
  is_member s node = has s peers_set_key node

  pub record Published (now : ℕ) (node text : GoString) (s t : State) : Type 0 where
    pub present : presence t node ≡ some (record { value = text; expires = expiry now ttl })
    pub member : is_member t node ≡ true
    pub others : (m : GoString) → str_eq node m ≡ false → presence t m ≡ presence s m

  pub finish-ok : (e : GoError) (p : State × Bool) → (finish r ttl e p).1 ≡ ok tt → p.1 ≡ true
  unfolding finish
  finish-ok e (s, true) h = refl
  finish-ok e (s, false) h = cc

  pub finish-state : (e : GoError) (p : State × Bool) → (finish r ttl e p).0 ≡ p.0
  unfolding finish
  finish-state e (s, true) = refl
  finish-state e (s, false) = refl

  finish_set-ok :
      (node : GoString) (p : State × Bool)
      → (finish_set r ttl node p).1 ≡ ok tt
      → (p.1 ≡ true)
        × (is_member (finish_set r ttl node p).0 node ≡ true)
        × ((m : GoString) → presence (finish_set r ttl node p).0 m ≡ presence p.0 m)
  unfolding finish_set
  finish_set-ok node (s, true) h =
      let p = sadd peers_set_key node s in
      let same = finish-state _ p in
      (
        refl,
        ground (
          arith,
          same,
          r.sadd_done peers_set_key node s (finish-ok _ p h),
          r.sadd_has peers_set_key node s peers_set_key node,
          str_eq_refl peers_set_key,
          str_eq_refl node,
        ),
        λ m. ap (λ t. presence t m) same ∙ r.sadd_entry peers_set_key node s (peer_key m),
      )
  finish_set-ok node (s, false) h = cc

  pub register-Published :
      (j : Json) (clock now : ℕ) (p : Peer) (s : State)
      → (q : IsReadable j (stamped clock p)) → (register r ttl j clock now p s).1 ≡ ok tt
      → Published now p.node_id q.text s (register r ttl j clock now p s).0
  unfolding register register_text
  register-Published j clock now p s q h =
      let w = set now (peer_key p.node_id) q.text ttl s in
      let x : register r ttl j clock now p s ≡ finish_set r ttl p.node_id w =
        ap (λ o. register_text r ttl now p.node_id o s) q.written in
      let (done, member, same) = finish_set-ok p.node_id w (sym (ap (λ z. z.1) x) ∙ h) in
      let at = λ (m : GoString). r.set_entry now (peer_key p.node_id) q.text ttl s (peer_key m) in
      let sent = r.set_done now (peer_key p.node_id) q.text ttl s done in
      record {
        present =
            ground (arith, x, same p.node_id, at p.node_id, sent, str_eq_refl (peer_key p.node_id));
        member = ground (arith, x, member);
        others = λ m n. ground (arith, x, same m, at m, sent, peer_key-eq p.node_id m);
      }

  pub live-get_peer :
      (j : Json) (now : ℕ) (node : GoString) (s : State)
      → (get now (peer_key node) s).1 ≢ failed
      → (get_peer r ttl j now node s).1
        ≡ read_peer r ttl j node (reply_of (live now (presence s node)))
  unfolding get_peer
  live-get_peer j now node s a = elim (r.get_reply now (peer_key node) s) [
    | inl f ↦ absurd (a f)
    | inr e ↦ ap (read_peer r ttl j node) e
  ]

  -- After a `Register` that succeeds, a `GetPeer` that Redis answers returns the peer, stamped with
  -- the time of the call, until its time to live has passed, and reports it missing from then on.
  pub register-get_peer :
      (j : Json) (clock now later : ℕ) (p : Peer) (s : State)
      → 0 < ttl
      → IsReadable j (stamped clock p)
      → (register r ttl j clock now p s).1 ≡ ok tt
      → (get later (peer_key p.node_id) (register r ttl j clock now p s).0).1 ≢ failed
      → let answer = (get_peer r ttl j later p.node_id (register r ttl j clock now p s).0).1 in
        answer
        ≡ (if ltb later (now + ttl) then ok (stamped clock p) else err (peer_not_found p.node_id))
  unfolding read_peer decoded
  register-get_peer j clock now later p s z q h a =
      let t = (register r ttl j clock now p s).0 in
      let d = register-Published j clock now p s q h in
      ground (arith, live-get_peer j later p.node_id t a, d.present, q.read)

  heartbeat-presence_from :
      (now later : ℕ) (node : GoString) (s : State) (m : GoString) (p : State × Reply Bool)
      → (after_exists r ttl later node p).1 ≡ ok tt
      → ((k : GoString) → presence p.0 k ≡ presence s k)
      → (p.1 ≡ failed) ⊎ (p.1 ≡ found (is_live (live now (presence s node))))
      → (is_live (live now (presence s node)) ≡ true)
        × (presence (after_exists r ttl later node p).0 m ≡ (
            if str_eq node m && is_live (live later (presence s node))
            then renew (presence s m) (some (later + ttl))
            else presence s m))
  unfolding after_exists
  heartbeat-presence_from now later node s m (t, found true) h same reply =
      let key = peer_key node in
      let sent = r.expire_done later key ttl t (finish-ok _ (expire later key ttl t) h) in
      (
        ground (arith, reply),
        ground (
          arith,
          finish-state _ (expire later key ttl t),
          r.expire_entry later key ttl t (peer_key m),
          sent,
          peer_key-eq node m,
          same m,
          same node,
        ),
      )
  heartbeat-presence_from now later node s m (t, found false) h same reply = cc
  heartbeat-presence_from now later node s m (t, missing) h same reply = cc
  heartbeat-presence_from now later node s m (t, failed) h same reply = cc

  -- A `Heartbeat` that succeeds found the key, and renews it if it is still there when the second
  -- command arrives.
  pub heartbeat-presence :
      (now later : ℕ) (node : GoString) (s : State) (m : GoString)
      → (heartbeat r ttl now later node s).1 ≡ ok tt
      → (is_live (live now (presence s node)) ≡ true)
        × (presence (heartbeat r ttl now later node s).0 m ≡ (
            if str_eq node m && is_live (live later (presence s node))
            then renew (presence s m) (some (later + ttl))
            else presence s m))
  unfolding heartbeat
  heartbeat-presence now later node s m h =
      heartbeat-presence_from now later node s m (exists now (peer_key node) s) h
        (λ t. r.exists_entry now (peer_key node) s _) (r.exists_reply now (peer_key node) s)

  after_exists-is_member :
      (later : ℕ) (node : GoString) (p : State × Reply Bool) (m : GoString)
      → is_member (after_exists r ttl later node p).0 m ≡ is_member p.0 m
  unfolding after_exists
  after_exists-is_member later node (t, found true) m =
      ap (λ u. is_member u m) (finish-state _ (expire later (peer_key node) ttl t))
      ∙ r.expire_has later (peer_key node) ttl t peers_set_key m
  after_exists-is_member later node (t, found false) m = refl
  after_exists-is_member later node (t, missing) m = refl
  after_exists-is_member later node (t, failed) m = refl

  pub heartbeat-is_member :
      (before later : ℕ) (node : GoString) (s : State) (m : GoString)
      → is_member (heartbeat r ttl before later node s).0 m ≡ is_member s m
  unfolding heartbeat
  heartbeat-is_member before later node s m =
      after_exists-is_member later node (exists before (peer_key node) s) m
      ∙ r.exists_has before (peer_key node) s peers_set_key m
