-- ===== src/Discovery/Matcher.antt =====
-- services/discovery/internal/matcher/matcher.go. `rand.Intn` is a parameter: which index it picks
-- below a bound.
use gordion_vpn.Base.{
  ℕ, zero, suc, ◌<◌, ◌≡◌, ◌≢◌, refl, sym, ap, Option, none, some, List, [], ◌∷◌, ◌⊎◌, inl, inr,
  arith, length, if◌then◌else◌, Bool-cases, All, subst,
}
use gordion_vpn.Base.Bytes.{GoString, str, str_eq, eq_iff}
use gordion_vpn.Grpc.{GoError, plain, wrap, Result, ok, err}
use gordion_vpn.Redis.{Redis}
use gordion_vpn.Registry.{Peer, Json, list_online_peers}

-- The candidates: everyone but the requester.
unfoldable pub others : GoString → List Peer → List Peer
others requester [] = []
others requester (p ∷ ps) =
    let rest = others requester ps in if str_eq p.node_id requester then rest else p ∷ rest

abbrev pub get_elem? : List Peer → ℕ → Option Peer
get_elem? [] i = none
get_elem? (p ∷ ps) zero = some p
get_elem? (p ∷ ps) (suc i) = get_elem? ps i

abbrev pub no_peers : GoError
no_peers = plain (str "no available peers")

-- Outside the list the source would panic.
picked : Option Peer → Result Peer
picked none = err (plain (str "panic: index out of range"))
picked (some p) = ok p

unfoldable pub select : (ℕ → ℕ) → List Peer → Result Peer
unfolding picked
select intn [] = err no_peers
select intn (p ∷ ps) = picked (get_elem? (p ∷ ps) (intn (length (p ∷ ps))))

module _ (r : Redis) (ttl : ℕ) where
  open r use {State}

  match_in : (ℕ → ℕ) → GoString → State × Result (List Peer) → State × Result Peer
  match_in intn requester (s, ok ps) = (s, select intn (others requester ps))
  match_in intn requester (s, err e) = (s, err (wrap (str "failed to list peers") e))

  unfoldable pub find_peer : Json → ℕ → (ℕ → ℕ) → GoString → State → State × Result Peer
  unfolding match_in
  find_peer j now intn requester s = match_in intn requester (list_online_peers r ttl j now s)

abbrev pub Occurs : Peer → List Peer → Type 0
Occurs p [] = ⊥
Occurs p (q ∷ ps) = (p ≡ q) ⊎ Occurs p ps

get_elem?-Occurs :
    (ps : List Peer) (i : ℕ) → i < length ps → (p : Peer) × (get_elem? ps i ≡ some p) × Occurs p ps
get_elem?-Occurs [] i h = absurd (omega arith)
get_elem?-Occurs (p ∷ ps) zero h = (p, refl, inl refl)
get_elem?-Occurs (p ∷ ps) (suc i) h =
    let (q, e, o) = get_elem?-Occurs ps i (omega arith) in (q, e, inr o)

others-Occurs :
    (requester : GoString) (ps : List Peer) (p : Peer)
    → Occurs p (others requester ps)
    → Occurs p ps × (p.node_id ≢ requester)
unfolding others
others-Occurs requester [] p o = absurd o
others-Occurs requester (q ∷ ps) p o = elim (Bool-cases (str_eq q.node_id requester)) [
  | inl b ↦
      let (x, n) =
        others-Occurs requester ps p (
          subst (λ c. Occurs p (if c then others requester ps else q ∷ others requester ps)) b o) in
      (inr x, n)
  | inr b ↦
      elim (subst (λ c. Occurs p (if c then others requester ps else q ∷ others requester ps)) b
        o) [
          | inl e ↦ (inl e, λ f. ground (arith, eq_iff q.node_id requester, e, f, b))
          | inr o' ↦ let (x, n) = others-Occurs requester ps p o' in (inr x, n)
        ]
]

abbrev pub AllFrom : GoString → List Peer → Type 0
AllFrom requester ps = All (λ p. p.node_id ≡ requester) ps

others-nil :
    (requester : GoString) (ps : List Peer) → others requester ps ≡ [] → AllFrom requester ps
unfolding others
others-nil requester [] e = tt
others-nil requester (q ∷ ps) e = elim (Bool-cases (str_eq q.node_id requester)) [
  | inl b ↦
      (ground (arith, eq_iff q.node_id requester), others-nil requester ps (ground (arith, b)))
  | inr b ↦ ground (arith, b)
]

select-other :
    (intn : ℕ → ℕ) (requester : GoString) (ps cs : List Peer)
    → ((n : ℕ) → 0 < n → intn n < n)
    → others requester ps ≡ cs
    → ((p : Peer) × (select intn cs ≡ ok p) × Occurs p ps × (p.node_id ≢ requester))
      ⊎ ((select intn cs ≡ err no_peers) × AllFrom requester ps)
unfolding select picked
select-other intn requester ps [] law e = inr (refl, others-nil requester ps e)
select-other intn requester ps (c ∷ cs) law e =
    let (p, f, o) = get_elem?-Occurs (c ∷ cs) (intn (length (c ∷ cs))) (law _ (omega arith)) in
    let (o', n) = others-Occurs requester ps p (subst (Occurs p) (sym e) o) in
    inl (p, ap picked f, o', n)

module _ (r : Redis) (ttl : ℕ) where
  open r use {State}

  -- When the listing succeeds, `FindPeer` returns one of the listed peers, and not the requester;
  -- it fails only when every listed peer is the requester.
  pub find_peer-other :
      (j : Json) (now : ℕ) (intn : ℕ → ℕ) (requester : GoString) (s : State) (ps : List Peer)
      → ((n : ℕ) → 0 < n → intn n < n)
      → (list_online_peers r ttl j now s).1 ≡ ok ps
      → let result = (find_peer r ttl j now intn requester s).1 in
        ((p : Peer) × (result ≡ ok p) × Occurs p ps × (p.node_id ≢ requester))
        ⊎ ((result ≡ err no_peers) × AllFrom requester ps)
  unfolding find_peer match_in
  find_peer-other j now intn requester s ps law e =
      let t = (list_online_peers r ttl j now s).0 in
      let w : (find_peer r ttl j now intn requester s).1 ≡ select intn (others requester ps) =
        ap (λ x. (match_in r ttl intn requester (t, x)).1) e in
      subst
        (λ x.
          ((p : Peer) × (x ≡ ok p) × Occurs p ps × (p.node_id ≢ requester))
          ⊎ ((x ≡ err no_peers) × AllFrom requester ps))
        (sym w) (select-other intn requester ps _ law refl)
