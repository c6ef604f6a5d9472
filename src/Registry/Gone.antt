-- ===== src/Registry/Gone.antt =====
-- A node whose key has expired: what the registry's methods can still do for it.
use gordion_vpn.Base.{
  ℕ, ◌≤◌, ◌≡◌, ◌≢◌, refl, ap, ◌∙◌, Bool, true, false, Option, none, some, List, [], ◌∷◌, ◌⊎◌, inl,
  inr, arith, if◌then◌else◌,
}
use gordion_vpn.Base.Bytes.{GoString, str_eq, eq_iff}
use gordion_vpn.Grpc.{GoError, err}
use gordion_vpn.Redis.{Redis, Entry, Reply, found, missing, failed, live, is_over}
use gordion_vpn.Registry.{
  Peer, Json, stamped, peer_key, peers_set_key, peer_not_found, finish_set, register_text, register,
  after_exists, heartbeat, after_del, unregister, read_peer, get_peer, list_of, list_online_peers,
  exist_all, sweep_found, clean_members, cleanup_stale,
}
use gordion_vpn.Registry.Peers.{presence, peer_key-eq, finish-state, live-get_peer}
use gordion_vpn.Registry.Listing.{list_members-presence}
use gordion_vpn.Registry.Stale.{exist_all-presence, sweep-presence}

pub live_later :
    (e : Option Entry) (now later : ℕ) → live now e ≡ none → now ≤ later → live later e ≡ none
live_later none now later h l = refl
live_later (some e) now later h l = over e.expires h
  where
    over :
        (x : Option ℕ)
        → (if is_over now x then none else some e.value) ≡ none
        → (if is_over later x then none else some e.value) ≡ none
    over none h' = cc
    over (some x) h' = ground arith

module _ (r : Redis) (ttl : ℕ) where
  open r use {State, entry, get, exists, set, del, expire, sadd, srem, smembers}

  -- At `now` and from then on, the key of `node` counts as missing.
  abbrev pub IsGone : ℕ → State → GoString → Type 0
  IsGone now s node = live now (presence r ttl s node) ≡ none

  pub same-IsGone :
      (now : ℕ) (s t : State) (node : GoString)
      → presence r ttl t node ≡ presence r ttl s node
      → IsGone now s node
      → IsGone now t node
  same-IsGone now s t node same g = ap (λ e. live now e) same ∙ g

  finish_set-presence :
      (of m : GoString) (p : State × Bool)
      → presence r ttl (finish_set r ttl of p).0 m ≡ presence r ttl p.0 m
  unfolding finish_set
  finish_set-presence of m (s, true) =
      ap (λ t. presence r ttl t m) (finish-state r ttl _ (sadd peers_set_key of s))
      ∙ r.sadd_entry peers_set_key of s (peer_key m)
  finish_set-presence of m (s, false) = refl

  register_text-presence :
      (now : ℕ) (of m : GoString) (text : Option GoString) (s : State)
      → str_eq of m ≡ false
      → presence r ttl (register_text r ttl now of text s).0 m ≡ presence r ttl s m
  unfolding register_text
  register_text-presence now of m none s n = refl
  register_text-presence now of m (some text) s n =
      finish_set-presence of m (set now (peer_key of) text ttl s)
      ∙ ground (arith, r.set_entry now (peer_key of) text ttl s (peer_key m), peer_key-eq of m)

  -- Whether it succeeds or not, `Register` leaves the keys of other nodes as they were.
  pub register-presence :
      (j : Json) (clock now : ℕ) (p : Peer) (s : State) (m : GoString)
      → str_eq p.node_id m ≡ false
      → presence r ttl (register r ttl j clock now p s).0 m ≡ presence r ttl s m
  unfolding register
  register-presence j clock now p s m n =
      register_text-presence now p.node_id m (j.marshal (stamped clock p)) s n

  after_exists-presence :
      (later : ℕ) (of m : GoString) (p : State × Reply Bool)
      → IsGone later p.0 m
      → presence r ttl (after_exists r ttl later of p).0 m ≡ presence r ttl p.0 m
  unfolding after_exists
  after_exists-presence later of m (t, found true) g =
      ap (λ u. presence r ttl u m) (finish-state r ttl _ (expire later (peer_key of) ttl t))
      ∙ ground (
        arith,
        r.expire_entry later (peer_key of) ttl t (peer_key m),
        peer_key-eq of m,
        eq_iff of m,
        g,
      )
  after_exists-presence later of m (t, found false) g = refl
  after_exists-presence later of m (t, missing) g = refl
  after_exists-presence later of m (t, failed) g = refl

  -- No heartbeat, of this node or another, brings an expired key back.
  pub heartbeat-presence_gone :
      (now later : ℕ) (of : GoString) (s : State) (m : GoString)
      → IsGone later s m
      → presence r ttl (heartbeat r ttl now later of s).0 m ≡ presence r ttl s m
  unfolding heartbeat
  heartbeat-presence_gone now later of s m g =
      let same = r.exists_entry now (peer_key of) s (peer_key m) in
      after_exists-presence later of m (exists now (peer_key of) s)
        (same-IsGone later s (exists now (peer_key of) s).0 m same g)
      ∙ same

  after_exists-err :
      (later : ℕ) (node : GoString) (p : State × Reply Bool)
      → (p.1 ≡ failed) ⊎ (p.1 ≡ found false)
      → (e : GoError) × ((after_exists r ttl later node p).1 ≡ err e)
  unfolding after_exists
  after_exists-err later node (t, found true) h = absurd (elim h [ inl e ↦ cc | inr e ↦ cc ])
  after_exists-err later node (t, found false) h = (_, refl)
  after_exists-err later node (t, missing) h = (_, refl)
  after_exists-err later node (t, failed) h = (_, refl)

  pub heartbeat-err :
      (now later : ℕ) (node : GoString) (s : State)
      → IsGone now s node
      → (e : GoError) × ((heartbeat r ttl now later node s).1 ≡ err e)
  unfolding heartbeat
  heartbeat-err now later node s g =
      after_exists-err later node (exists now (peer_key node) s)
        (ground (arith, r.exists_reply now (peer_key node) s, g))

  after_del-IsGone :
      (now : ℕ) (of m : GoString) (p : State × Bool)
      → IsGone now p.0 m
      → IsGone now (after_del r ttl of p).0 m
  unfolding after_del
  after_del-IsGone now of m (s, true) g =
      same-IsGone now s _ m
        (ap (λ t. presence r ttl t m) (finish-state r ttl _ (srem peers_set_key of s))
          ∙ r.srem_entry peers_set_key of s (peer_key m))
        g
  after_del-IsGone now of m (s, false) g = g

  pub unregister-IsGone :
      (now : ℕ) (of m : GoString) (s : State)
      → IsGone now s m
      → IsGone now (unregister r ttl of s).0 m
  unfolding unregister
  unregister-IsGone now of m s g =
      after_del-IsGone now of m (del (peer_key of) s)
        (ground (arith, r.del_entry (peer_key of) s (peer_key m), g))

  list_of-presence :
      (j : Json) (now : ℕ) (p : State × Reply (List GoString)) (m : GoString)
      → presence r ttl (list_of r ttl j now p).0 m ≡ presence r ttl p.0 m
  unfolding list_of
  list_of-presence j now (s, found nodes) m = list_members-presence r ttl j now nodes s m
  list_of-presence j now (s, missing) m = refl
  list_of-presence j now (s, failed) m = refl

  pub list_online_peers-presence :
      (j : Json) (now : ℕ) (s : State) (m : GoString)
      → presence r ttl (list_online_peers r ttl j now s).0 m ≡ presence r ttl s m
  unfolding list_online_peers
  list_online_peers-presence j now s m =
      list_of-presence j now (smembers peers_set_key s) m
      ∙ r.smembers_entry peers_set_key s (peer_key m)

  sweep_found-presence :
      (nodes : List GoString) (p : State × Option (List Bool)) (m : GoString)
      → presence r ttl (sweep_found r ttl nodes p).0 m ≡ presence r ttl p.0 m
  unfolding sweep_found
  sweep_found-presence nodes (s, some bs) m = sweep-presence r ttl 0 nodes bs s m
  sweep_found-presence nodes (s, none) m = refl

  clean_members-presence :
      (now : ℕ) (p : State × Reply (List GoString)) (m : GoString)
      → presence r ttl (clean_members r ttl now p).0 m ≡ presence r ttl p.0 m
  unfolding clean_members
  clean_members-presence now (s, found []) m = refl
  clean_members-presence now (s, found (node ∷ nodes)) m =
      sweep_found-presence (node ∷ nodes) (exist_all r ttl now (node ∷ nodes) s) m
      ∙ exist_all-presence r ttl now (node ∷ nodes) s m
  clean_members-presence now (s, missing) m = refl
  clean_members-presence now (s, failed) m = refl

  pub cleanup_stale-presence :
      (now : ℕ) (s : State) (m : GoString)
      → presence r ttl (cleanup_stale r ttl now s).0 m ≡ presence r ttl s m
  unfolding cleanup_stale
  cleanup_stale-presence now s m =
      clean_members-presence now (smembers peers_set_key s) m
      ∙ r.smembers_entry peers_set_key s (peer_key m)

  pub gone-get_peer :
      (j : Json) (now : ℕ) (node : GoString) (s : State)
      → IsGone now s node
      → (get now (peer_key node) s).1 ≢ failed
      → (get_peer r ttl j now node s).1 ≡ err (peer_not_found node)
  unfolding read_peer
  gone-get_peer j now node s g a = ground (arith, live-get_peer r ttl j now node s a, g)
