-- ===== src/Registry/Gauges.antt =====
-- The gauges that `ListOnlinePeers` of services/discovery/internal/registry/registry.go sets.
use gordion_vpn.Base.{ℕ, ◌+◌, ◌≡◌, List, [], ◌∷◌, if◌then◌else◌, length, arith, refl}
use gordion_vpn.Registry.{Peer}

-- The peers that are no exit nodes, and those that are.
unfoldable pub active_peers : List Peer → ℕ × ℕ
active_peers [] = (0, 0)
active_peers (p ∷ ps) =
    let (normal, exits) = active_peers ps in
    if p.is_exit_node then (normal, exits + 1) else (normal + 1, exits)

pub length-active_peers : (ps : List Peer) → (active_peers ps).0 + (active_peers ps).1 ≡ length ps
unfolding active_peers
length-active_peers [] = refl
length-active_peers (p ∷ ps) = ground (arith, length-active_peers ps)
