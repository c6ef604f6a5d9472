-- ===== src/Agent/Crowd.antt =====
-- `syncPeers` in a network with more peers than it asks the discovery service for: 50.
mod Tests
use gordion_vpn.Base.{
  ℕ, ◌≡◌, refl, ap, subst, Bool, true, false, not, ◌&&◌, ◌||◌, Option, some, List, [], ◌∷◌, map,
  take, arith, All,
}
use gordion_vpn.Base.Bytes.{GoString, str_eq, is_empty}
use gordion_vpn.Base.Int.{pos}
use gordion_vpn.Grpc.{ok}
use gordion_vpn.Auth.{IdentityCall, resolve_node_id}
use gordion_vpn.Redis.{Redis}
use gordion_vpn.Registry.{Peer, Json, list_online_peers}
use gordion_vpn.Discovery.{ListedPeer, listed, token_from_metadata, list_peers}
use gordion_vpn.Discovery.Limit.{list_peers-take}
use gordion_vpn.Agent.{
  Keys, Config, Calls, has_key, online_keys, exit_node, add_peers, remove_peers, sync_peers,
}
use gordion_vpn.Agent.Sync.{is_listed, has_key-online_keys, has_key-remove_peers}

is_listed-false :
    (cfg : Config) (c : Calls) (ps : List Peer) (node : GoString)
    → All (λ p. str_eq p.node_id node ≡ false) ps
    → is_listed cfg c (map listed ps) node ≡ false
unfolding listed
is_listed-false cfg c [] node a = refl
is_listed-false cfg c (p ∷ ps) node (n, a) = ground (arith, n, is_listed-false cfg c ps node a)

unlisted-sync_peers :
    (cfg : Config) (c : Calls) (peers : List ListedPeer) (active : Keys) (node : GoString)
    → ((key : GoString) → c.wg_remove_peer key ≡ true)
    → is_listed cfg c peers node ≡ false
    → has_key (sync_peers cfg c (ok peers) active).0 node ≡ false
unfolding sync_peers
unlisted-sync_peers cfg c peers active node v u =
    let online = online_keys cfg c peers [] in
    let added = add_peers cfg c peers (exit_node cfg peers) online active in
    ground (
      arith,
      has_key-remove_peers c online added.0 node v,
      has_key-online_keys cfg c peers [] node,
      u,
    )

module _ (r : Redis) (ttl : ℕ) (auth : Option IdentityCall) where
  open r use {State}

  -- A sync asks for 50 peers. A node that is online, but not among the first 50 of the registry's
  -- listing, is not an active peer afterwards, whatever the other calls come to and also if it was
  -- one before, as long as WireGuard can remove it.
  pub sync_forgets_beyond_limit :
      (j : Json) (now : ℕ) (token me node : GoString) (ps : List Peer) (cfg : Config) (c : Calls)
      (active : Keys) (s : State)
      → is_empty (token_from_metadata (some (token ∷ []))) ≡ false
      → resolve_node_id auth (token_from_metadata (some (token ∷ []))) ≡ ok me
      → (list_online_peers r ttl j now s).1 ≡ ok ps
      → All (λ p. str_eq p.node_id node ≡ false) (take 50 ps)
      → ((key : GoString) → c.wg_remove_peer key ≡ true)
      → let answer = (list_peers r ttl auth j now (some (token ∷ [])) (pos 50) s).1 in
        has_key (sync_peers cfg c answer active).0 node ≡ false
  sync_forgets_beyond_limit j now token me node ps cfg c active s a b h far v =
      rw (list_peers-take r ttl auth j now (some (token ∷ [])) 49 s me ps a b h) (
        unlisted-sync_peers cfg c (map listed (take 50 ps)) active node v
          (is_listed-false cfg c (take 50 ps) node far))
