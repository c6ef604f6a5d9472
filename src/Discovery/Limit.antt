-- ===== src/Discovery/Limit.antt =====
-- `ListPeers` of services/discovery/internal/grpc/handler.go with a limit: the first peers of the
-- registry's listing, in its order.
use gordion_vpn.Base.{
  ℕ, zero, suc, ◌≤◌, ◌≡◌, refl, ap, ◌∙◌, false, Option, List, [], ◌∷◌, map, length, take, inl, inr,
  arith, Bool-cases, ltb,
}
use gordion_vpn.Base.Bytes.{GoString, is_empty}
use gordion_vpn.Base.Int.{pos}
use gordion_vpn.Grpc.{Result, ok, err}
use gordion_vpn.Auth.{IdentityCall, resolve_node_id}
use gordion_vpn.Redis.{Redis}
use gordion_vpn.Registry.{Peer, Json, list_online_peers}
use gordion_vpn.Discovery.{
  ListedPeer, listed, limited, token_from_metadata, answer, list_as, list_peers,
}

take_all : {A : Type 0} (n : ℕ) (xs : List A) → length xs ≤ n → take n xs ≡ xs
take_all zero [] h = refl
take_all zero (x ∷ xs) h = absurd (omega arith)
take_all (suc n) [] h = refl
take_all (suc n) (x ∷ xs) h = ap (λ ys. x ∷ ys) (take_all n xs (omega (arith, h)))

take-map : (n : ℕ) (ps : List Peer) → take n (map listed ps) ≡ map listed (take n ps)
take-map zero ps = refl
take-map (suc n) [] = refl
take-map (suc n) (p ∷ ps) = ap (λ qs. listed p ∷ qs) (take-map n ps)

limited-take : (n : ℕ) (ps : List ListedPeer) → limited (pos (suc n)) ps ≡ take (suc n) ps
unfolding limited
limited-take n ps = elim (Bool-cases (ltb (length ps) (suc n))) [
  | inl e ↦ ground (arith, e, take_all (suc n) ps)
  | inr e ↦ ground (arith, e)
]

module _ (r : Redis) (ttl : ℕ) (auth : Option IdentityCall) where
  open r use {State}

  answer-take :
      (n : ℕ) (p : State × Result (List Peer)) (ps : List Peer)
      → p.1 ≡ ok ps
      → (answer r ttl auth (pos (suc n)) p).1 ≡ ok (map listed (take (suc n) ps))
  unfolding answer
  answer-take n (s, ok qs) ps h =
      ap ok (limited-take n (map listed qs) ∙ take-map (suc n) qs) ∙ ground (arith, h)
  answer-take n (s, err e) ps h = cc

  -- A caller whose token is accepted gets the first peers of the listing, at most as many as the
  -- limit says.
  pub list_peers-take :
      (j : Json) (now : ℕ) (md : Option (List GoString)) (n : ℕ) (s : State) (me : GoString)
      (ps : List Peer)
      → is_empty (token_from_metadata md) ≡ false
      → resolve_node_id auth (token_from_metadata md) ≡ ok me
      → (list_online_peers r ttl j now s).1 ≡ ok ps
      → (list_peers r ttl auth j now md (pos (suc n)) s).1 ≡ ok (map listed (take (suc n) ps))
  unfolding list_peers list_as
  list_peers-take j now md n s me ps a b h =
      rw (a, b) (answer-take n (list_online_peers r ttl j now s) ps h)
