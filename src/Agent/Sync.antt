-- ===== src/Agent/Sync.antt =====
-- What a sync in which no call fails makes of the active peers.
use gordion_vpn.Base.{
  ◌≡◌, refl, sym, ap, Bool, true, false, not, ◌&&◌, ◌||◌, Option, none, some, List, [], ◌∷◌, arith,
  ◌==◌, All, Bool-cases, inl, inr,
}
use gordion_vpn.Base.Bytes.{GoString, str_eq, str_eq→eq}
use gordion_vpn.Discovery.{ListedPeer}
use gordion_vpn.Agent.{
  Keys, Config, Calls, has_key, put_found, find_listed, port_for, remove_peers, online_keys,
}
use gordion_vpn.Agent.Route.{has_key-put}

-- The bridge has a port for every peer of the list.
abbrev pub AllReached : Calls → List ListedPeer → Keys → Type 0
AllReached c peers online = All (λ q. (port_for c (find_listed q.0 peers).0 == 0) ≡ false) online

same_key :
    (active : Keys) (j node : GoString)
    → str_eq j node ≡ true
    → has_key active node ≡ has_key active j
same_key active j node s = ap (has_key active) (sym (str_eq→eq j node s))

pub has_key-remove_peers :
    (c : Calls) (online active : Keys) (node : GoString)
    → ((key : GoString) → c.wg_remove_peer key ≡ true)
    → has_key (remove_peers c online active) node ≡ (has_key online node && has_key active node)
unfolding remove_peers
has_key-remove_peers c online [] node w = ground arith
has_key-remove_peers c online ((j, key) ∷ active) node w = elim (Bool-cases (str_eq j node)) [
  | inl same ↦
      ground (
        arith,
        same,
        same_key online j node same,
        w key,
        has_key-remove_peers c online active node w,
      )
  | inr differ ↦ ground (arith, differ, w key, has_key-remove_peers c online active node w)
]

abbrev known : Option GoString → Bool
known none = false
known (some key) = true

-- The node is listed, is not the agent itself, and its key is known.
abbrev pub is_listed : Config → Calls → List ListedPeer → GoString → Bool
is_listed cfg c [] node = false
is_listed cfg c (p ∷ ps) node =
    (str_eq p.node_id node
      && not (str_eq p.node_id cfg.node_id)
      && known (c.get_peer_public_key p.node_id))
    || is_listed cfg c ps node

has_key-put_found :
    (j node : GoString) (key : Option GoString) (online : Keys)
    → has_key (put_found j key online) node ≡ ((str_eq j node && known key) || has_key online node)
unfolding put_found
has_key-put_found j node none online = ground arith
has_key-put_found j node (some key) online = ground (arith, has_key-put j key node online)

pub has_key-online_keys :
    (cfg : Config) (c : Calls) (peers : List ListedPeer) (online : Keys) (node : GoString)
    → has_key (online_keys cfg c peers online) node
      ≡ (is_listed cfg c peers node || has_key online node)
unfolding online_keys
has_key-online_keys cfg c [] online node = refl
has_key-online_keys cfg c (p ∷ ps) online node =
    let j = p.node_id in
    let key = c.get_peer_public_key j in
    let skip = has_key-online_keys cfg c ps online node in
    let on = has_key-online_keys cfg c ps (put_found j key online) node in
    ground (arith, skip, on, has_key-put_found j node key online)
