-- ===== src/Agent/Exit.antt =====
-- Which peer becomes the exit node.
use gordion_vpn.Base.{◌≡◌, ◌≢◌, refl, true, List, [], ◌∷◌, ◌⊎◌, inl, inr, arith, Bool-cases}
use gordion_vpn.Base.Bytes.{GoString, is_empty, eq_iff}
use gordion_vpn.Discovery.{ListedPeer}
use gordion_vpn.Agent.{Config, choose_exit, exit_node}

-- Some peer of the list is an exit node of this name.
abbrev pub HasExit : GoString → List ListedPeer → Type 0
HasExit node [] = ⊥
HasExit node (p ∷ ps) = ((p.is_exit_node ≡ true) × (p.node_id ≡ node)) ⊎ HasExit node ps

-- What the loop returns: what it had, or a peer that may be the exit node.
choose_exit-HasExit :
    (wanted self : GoString) (ps : List ListedPeer) (chosen : GoString)
    → (choose_exit wanted self ps chosen ≡ chosen)
      ⊎ (HasExit (choose_exit wanted self ps chosen) ps
          × (choose_exit wanted self ps chosen ≢ self)
          × ((is_empty wanted ≡ true) ⊎ (choose_exit wanted self ps chosen ≡ wanted)))
unfolding choose_exit
choose_exit-HasExit wanted self [] chosen = inl refl
choose_exit-HasExit wanted self (p ∷ ps) chosen = ground (
  arith,
  eq_iff p.node_id self,
  eq_iff p.node_id wanted,
  choose_exit-HasExit wanted self ps chosen,
  choose_exit-HasExit wanted self ps p.node_id,
)

-- The exit node that `syncPeers` picks, if it picks one, is a peer of the listing that offers to be
-- one and not the agent itself, and it is the configured one where one is configured.
pub exit_node-HasExit :
    (cfg : Config) (ps : List ListedPeer)
    → (exit_node cfg ps ≡ [])
      ⊎ (HasExit (exit_node cfg ps) ps
          × (exit_node cfg ps ≢ cfg.node_id)
          × ((is_empty cfg.exit_node_id ≡ true) ⊎ (exit_node cfg ps ≡ cfg.exit_node_id)))
unfolding exit_node
exit_node-HasExit cfg ps = elim (Bool-cases cfg.use_exit_node) [
  | inl e ↦ ground (arith, e, choose_exit-HasExit cfg.exit_node_id cfg.node_id ps [])
  | inr e ↦ inl (ground (arith, e))
]
