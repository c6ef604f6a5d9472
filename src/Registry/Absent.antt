-- ===== src/Registry/Absent.antt =====
-- A node that is not on the set of peers: no method but its own registration puts it there.
use gordion_vpn.Base.{ℕ, ◌≡◌, ◌∙◌, Bool, true, false, Option, none, some, List, [], ◌∷◌, arith}
use gordion_vpn.Base.Bytes.{GoString, str_eq}
use gordion_vpn.Redis.{Redis, Reply, found, missing, failed}
use gordion_vpn.Registry.{
  Peer, Json, stamped, peer_key, peers_set_key, finish_set, register_text, register, after_del,
  unregister, list_of, list_online_peers, exist_all, sweep_found, clean_members, cleanup_stale,
}
use gordion_vpn.Registry.Peers.{is_member, finish-state}
use gordion_vpn.Registry.Listing.{list_members-leaves}
use gordion_vpn.Registry.Stale.{exist_all-is_member, srem-is_member, sweep-leaves}

module _ (r : Redis) (ttl : ℕ) where
  open r use {State, has, set, del, sadd, srem, smembers}

  abbrev pub IsAbsent : State → GoString → Type 0
  IsAbsent s node = is_member r ttl s node ≡ false

  finish_set-IsAbsent :
      (of m : GoString) (p : State × Bool)
      → str_eq of m ≡ false
      → IsAbsent p.0 m
      → IsAbsent (finish_set r ttl of p).0 m
  unfolding finish_set
  finish_set-IsAbsent of m (s, true) n a = ground (
    arith,
    finish-state r ttl _ (sadd peers_set_key of s),
    r.sadd_has peers_set_key of s peers_set_key m,
    n,
    a,
  )
  finish_set-IsAbsent of m (s, false) n a = a

  register_text-IsAbsent :
      (now : ℕ) (of m : GoString) (text : Option GoString) (s : State)
      → str_eq of m ≡ false
      → IsAbsent s m
      → IsAbsent (register_text r ttl now of text s).0 m
  unfolding register_text
  register_text-IsAbsent now of m none s n a = a
  register_text-IsAbsent now of m (some text) s n a =
      finish_set-IsAbsent of m (set now (peer_key of) text ttl s) n
        (r.set_has now (peer_key of) text ttl s peers_set_key m ∙ a)

  pub register-IsAbsent :
      (j : Json) (clock now : ℕ) (p : Peer) (s : State) (m : GoString)
      → str_eq p.node_id m ≡ false
      → IsAbsent s m
      → IsAbsent (register r ttl j clock now p s).0 m
  unfolding register
  register-IsAbsent j clock now p s m n a =
      register_text-IsAbsent now p.node_id m (j.marshal (stamped clock p)) s n a

  after_del-IsAbsent :
      (of m : GoString) (p : State × Bool) → IsAbsent p.0 m → IsAbsent (after_del r ttl of p).0 m
  unfolding after_del
  after_del-IsAbsent of m (s, true) a =
      ground
        (arith, finish-state r ttl _ (srem peers_set_key of s), srem-is_member r ttl 0 of s m, a)
  after_del-IsAbsent of m (s, false) a = a

  pub unregister-IsAbsent :
      (of m : GoString) (s : State) → IsAbsent s m → IsAbsent (unregister r ttl of s).0 m
  unfolding unregister
  unregister-IsAbsent of m s a =
      after_del-IsAbsent of m (del (peer_key of) s) (r.del_has (peer_key of) s peers_set_key m ∙ a)

  list_of-IsAbsent :
      (j : Json) (now : ℕ) (p : State × Reply (List GoString)) (m : GoString)
      → IsAbsent p.0 m
      → IsAbsent (list_of r ttl j now p).0 m
  unfolding list_of
  list_of-IsAbsent j now (s, found nodes) m a = list_members-leaves r ttl j now nodes s m a
  list_of-IsAbsent j now (s, missing) m a = a
  list_of-IsAbsent j now (s, failed) m a = a

  pub list_online_peers-IsAbsent :
      (j : Json) (now : ℕ) (s : State) (m : GoString)
      → IsAbsent s m
      → IsAbsent (list_online_peers r ttl j now s).0 m
  unfolding list_online_peers
  list_online_peers-IsAbsent j now s m a =
      list_of-IsAbsent j now (smembers peers_set_key s) m
        (r.smembers_has peers_set_key s peers_set_key m ∙ a)

  sweep_found-IsAbsent :
      (nodes : List GoString) (p : State × Option (List Bool)) (m : GoString)
      → IsAbsent p.0 m
      → IsAbsent (sweep_found r ttl nodes p).0 m
  unfolding sweep_found
  sweep_found-IsAbsent nodes (s, some bs) m a = sweep-leaves r ttl 0 nodes bs s m a
  sweep_found-IsAbsent nodes (s, none) m a = a

  clean_members-IsAbsent :
      (now : ℕ) (p : State × Reply (List GoString)) (m : GoString)
      → IsAbsent p.0 m
      → IsAbsent (clean_members r ttl now p).0 m
  unfolding clean_members
  clean_members-IsAbsent now (s, found []) m a = a
  clean_members-IsAbsent now (s, found (node ∷ nodes)) m a =
      sweep_found-IsAbsent (node ∷ nodes) (exist_all r ttl now (node ∷ nodes) s) m
        (exist_all-is_member r ttl now (node ∷ nodes) s m ∙ a)
  clean_members-IsAbsent now (s, missing) m a = a
  clean_members-IsAbsent now (s, failed) m a = a

  pub cleanup_stale-IsAbsent :
      (now : ℕ) (s : State) (m : GoString) → IsAbsent s m → IsAbsent (cleanup_stale r ttl now s).0 m
  unfolding cleanup_stale
  cleanup_stale-IsAbsent now s m a =
      clean_members-IsAbsent now (smembers peers_set_key s) m
        (r.smembers_has peers_set_key s peers_set_key m ∙ a)
