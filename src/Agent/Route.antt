-- ===== src/Agent/Route.antt =====
-- The route of the exit node: which configurations a sync gives to WireGuard.
use gordion_vpn.Base.{
  ℕ, ◌≡◌, ◌≢◌, refl, sym, ap, ◌∙◌, subst, Bool, true, false, List, [], ◌∷◌, ◌++◌, ◌||◌, arith,
  if◌then◌else◌, All, Bool-cases, inl, inr,
}
use gordion_vpn.Base.Bytes.{GoString, str, str_eq, str_eq→eq}
use gordion_vpn.Grpc.{ok}
use gordion_vpn.Discovery.{ListedPeer}
use gordion_vpn.Agent.{
  Keys, Config, PeerConfig, Calls, has_key, put, delete, find_listed, allowed_ips, add_peers,
  remove_peers, online_keys, exit_node, sync_peers,
}

abbrev pub default_route : GoString
default_route = str "0.0.0.0/0, ::/0"

abbrev last_byte : GoString → ℕ
last_byte [] = 0
last_byte (c ∷ []) = c
last_byte (c ∷ d ∷ cs) = last_byte (d ∷ cs)

last_byte-host : (ip : GoString) → last_byte (ip ++ str "/32") ≡ 50
last_byte-host [] = refl
last_byte-host (c ∷ []) = refl
last_byte-host (c ∷ d ∷ cs) = last_byte-host (d ∷ cs)

host_route : (ip : GoString) → ip ++ str "/32" ≢ default_route
host_route ip e =
    let two : 50 ≡ 48 = sym (last_byte-host ip) ∙ ap last_byte e in ground (arith, two)

-- A configuration that carries everything.
abbrev pub IsDefault : PeerConfig → Type 0
IsDefault p = p.allowed_ips ≡ default_route

allowed_ips-other :
    (cfg : Config) (exit node ip : GoString)
    → cfg.network_cidr ≢ default_route
    → str_eq node exit ≡ false
    → allowed_ips cfg exit node ip ≢ default_route
unfolding allowed_ips
allowed_ips-other cfg exit node [] n o = rw o n
allowed_ips-other cfg exit node (c ∷ cs) n o = rw o (host_route (c ∷ cs))

has_key-delete :
    (k j : GoString) (xs : Keys) → str_eq k j ≡ false → has_key (delete k xs) j ≡ has_key xs j
has_key-delete k j [] f = refl
has_key-delete k j ((i, v) ∷ xs) f = elim (Bool-cases (str_eq i k)) [
  | inl same ↦
      let other : str_eq i j ≡ false =
        subst (λ t. str_eq t j ≡ false) (sym (str_eq→eq i k same)) f in
      ground (arith, same, other, has_key-delete k j xs f)
  | inr differ ↦ ground (arith, differ, has_key-delete k j xs f)
]

pub has_key-put :
    (k v j : GoString) (xs : Keys) → has_key (put k v xs) j ≡ (str_eq k j || has_key xs j)
has_key-put k v j xs = elim (Bool-cases (str_eq k j)) [
  | inl same ↦ ground (arith, same)
  | inr differ ↦ ground (arith, differ, has_key-delete k j xs differ)
]

-- What a sync of the active peers comes to: no default route, and the exit node still active.
abbrev Kept : GoString → Keys × List PeerConfig → Type 0
Kept exit q = All (λ p. p.allowed_ips ≢ default_route) q.1 × (has_key q.0 exit ≡ true)

Kept-if :
    (exit : GoString) (b : Bool) (skip on : Keys × List PeerConfig) (p : PeerConfig)
    → Kept exit skip
    → (b ≡ false → (p.allowed_ips ≢ default_route) × Kept exit on)
    → Kept exit (if b then skip else (on.0, p ∷ on.1))
Kept-if exit true skip on p k f = k
Kept-if exit false skip on p k f = let (n, (a, h)) = f refl in ((n, a), h)

not_active :
    (active : Keys) (node exit : GoString)
    → has_key active exit ≡ true
    → has_key active node ≡ false
    → str_eq node exit ≡ false
not_active active node exit h n = elim (Bool-cases (str_eq node exit)) [
  | inl same ↦
      let there = subst (λ k. has_key active k ≡ true) (sym (str_eq→eq node exit same)) h in
      absurd (ground (arith, there, n))
  | inr differ ↦ differ
]

add_peers-route :
    (cfg : Config) (c : Calls) (peers : List ListedPeer) (exit : GoString) (online active : Keys)
    → cfg.network_cidr ≢ default_route
    → has_key active exit ≡ true
    → Kept exit (add_peers cfg c peers exit online active)
unfolding add_peers
add_peers-route cfg c peers exit [] active n h = (tt, h)
add_peers-route cfg c peers exit ((node, key) ∷ online) active n h =
    Kept-if exit _ _ (add_peers cfg c peers exit online (put node key active)) _
      (add_peers-route cfg c peers exit online active n h)
      (λ e. (
        allowed_ips-other cfg exit node (find_listed node peers).1 n
            (not_active active node exit h (ground (arith, e))),
        add_peers-route cfg c peers exit online (put node key active) n
            (ground (arith, h, has_key-put node key exit active)),
      ))

remove_peers-has_key :
    (c : Calls) (online active : Keys) (node : GoString)
    → has_key online node ≡ true
    → has_key active node ≡ true
    → has_key (remove_peers c online active) node ≡ true
unfolding remove_peers
remove_peers-has_key c online [] node o h = h
remove_peers-has_key c online ((j, key) ∷ active) node o h = elim (Bool-cases (str_eq j node)) [
  | inl same ↦
      let there = subst (λ k. has_key online k ≡ true) (sym (str_eq→eq j node same)) o in
      ground (arith, same, there)
  | inr differ ↦
      ground
        (arith, differ, remove_peers-has_key c online active node o (ground (arith, h, differ)))
]

-- Syncs one after the other: what the calls answer and what is listed, for each.
unfoldable pub sync_all : Config → List (Calls × List ListedPeer) → Keys → Keys × List PeerConfig
sync_all cfg [] active = (active, [])
sync_all cfg ((c, peers) ∷ syncs) active =
    let (active', configs) = sync_peers cfg c (ok peers) active in
    let (last, more) = sync_all cfg syncs active' in (last, configs ++ more)

-- In each sync the exit node is `exit`, and its key is known.
abbrev pub AllChoose : Config → GoString → List (Calls × List ListedPeer) → Type 0
AllChoose cfg exit [] = Unit
AllChoose cfg exit ((c, peers) ∷ syncs) =
    ((exit_node cfg peers ≡ exit) × (has_key (online_keys cfg c peers []) exit ≡ true))
    × AllChoose cfg exit syncs

sync_peers-Kept :
    (cfg : Config) (c : Calls) (peers : List ListedPeer) (active : Keys)
    → cfg.network_cidr ≢ default_route
    → has_key (online_keys cfg c peers []) (exit_node cfg peers) ≡ true
    → has_key active (exit_node cfg peers) ≡ true
    → Kept (exit_node cfg peers) (sync_peers cfg c (ok peers) active)
unfolding sync_peers
sync_peers-Kept cfg c peers active n o h =
    let exit = exit_node cfg peers in
    let online = online_keys cfg c peers [] in
    let (a, k) = add_peers-route cfg c peers exit online active n h in
    (a, remove_peers-has_key c online (add_peers cfg c peers exit online active).0 exit o k)

All-append :
    (ps qs : List PeerConfig)
    → All (λ p. p.allowed_ips ≢ default_route) ps
    → All (λ p. p.allowed_ips ≢ default_route) qs
    → All (λ p. p.allowed_ips ≢ default_route) (ps ++ qs)
All-append [] qs a b = b
All-append (p ∷ ps) qs (x, a) b = (x, All-append ps qs a b)

-- An exit node that is an active peer already, as every peer is that `Start` has configured with its
-- own address alone, never gets the default route: no sync gives WireGuard a configuration with it,
-- as long as the node stays the chosen exit node and its key is known. The network itself is not the
-- default route.
pub active_exit_never_routed :
    (cfg : Config) (syncs : List (Calls × List ListedPeer)) (exit : GoString) (active : Keys)
    → cfg.network_cidr ≢ default_route
    → has_key active exit ≡ true
    → AllChoose cfg exit syncs
    → All (λ p. p.allowed_ips ≢ default_route) (sync_all cfg syncs active).1
unfolding sync_all
active_exit_never_routed cfg [] exit active n h a = tt
active_exit_never_routed cfg ((c, peers) ∷ syncs) exit active n h ((e, o), a) =
    let o' = subst (λ x. has_key (online_keys cfg c peers []) x ≡ true) (sym e) o in
    let h' = subst (λ x. has_key active x ≡ true) (sym e) h in
    let (routes, still) = sync_peers-Kept cfg c peers active n o' h' in
    let next = (sync_peers cfg c (ok peers) active).0 in
    let still' = subst (λ x. has_key next x ≡ true) e still in
    All-append (sync_peers cfg c (ok peers) active).1 (sync_all cfg syncs next).1 routes
      (active_exit_never_routed cfg syncs exit next n still' a)
