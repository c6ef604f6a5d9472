-- ===== src/Allocator/Grants.antt =====
-- What a successful `AllocateIP` has done.
use mathlib.Core.Path.{subst}
use gordion_vpn.Base.{
  ℕ, ◌<◌, ◌≡◌, ◌≢◌, refl, sym, ap, ◌∙◌, Bool, true, false, Option, none, some, List, arith, inl,
  inr, ◌⊎◌,
}
use gordion_vpn.Base.Bytes.{GoString, str_eq, str_eq_refl}
use gordion_vpn.Grpc.{Result, ok, err}
use gordion_vpn.Redis.{Redis, Entry, Reply, found, missing, failed, live, reply_of}
use gordion_vpn.Allocator.{
  finish_sadd, finish_set, assign, allocate_after, Allocator, new, allocated_set_key, node_ip_key,
  find_available_ip, allocate_ip,
}
use gordion_vpn.Allocator.Ip.{Network, value, ip_string, net_contains, set_last}
use gordion_vpn.Allocator.Search.{IsIpv4, IsAddress, find_free-IsAddress}
use gordion_vpn.Allocator.Leases.{
  IsConsistent, lease, is_allocated, Same, get-Same, find-Same, find-unmarked, set-lease,
  scard-Same,
}

abbrev held : GoString → Option Entry
held ip = some (record { value = ip; expires = none })

reply_of-found : (o : Option GoString) (ip : GoString) → reply_of o ≡ found ip → o ≡ some ip
reply_of-found none ip e = cc
reply_of-found (some x) ip e = cc

live-held :
    (now : ℕ) (o : Option Entry) (ip : GoString)
    → live now o ≡ some ip
    → ((e : Entry) → o ≡ some e → e.expires ≡ none)
    → o ≡ held ip
live-held now none ip e h = cc
live-held now (some x) ip e h = ground (arith, h x refl)

module _ (r : Redis) where
  open r use {State, get, set, sadd, smembers, scard, carried}

  -- The node holds the address now, and the other nodes what they held.
  pub record Granted (node ip : GoString) (s t : State) : Type 0 where
    pub granted : lease r t node ≡ held ip
    pub kept : (m : GoString) → str_eq node m ≡ false → lease r t m ≡ lease r s m

  finish_set-ok :
      (node ip out : GoString) (s : State) (p : State × Bool)
      → (finish_set r ip p).1 ≡ ok out
      → (p.1 ≡ true → Granted node ip s p.0)
      → (out ≡ ip) × Granted node ip s (finish_set r ip p).0
  unfolding finish_set
  finish_set-ok node ip out s (t, true) e g =
      let g' = g refl in
      let same = scard-Same r allocated_set_key t in
      (
        cc,
        record {
          granted = same.leases node ∙ g'.granted;
          kept = λ m n. same.leases m ∙ g'.kept m n;
        },
      )
  finish_set-ok node ip out s (t, false) e g = cc

  finish_sadd-ok :
      (now : ℕ) (node ip out : GoString) (s : State) (p : State × Bool)
      → (finish_sadd r now node ip p).1 ≡ ok out
      → ((m : GoString) → lease r p.0 m ≡ lease r s m)
      → (out ≡ ip) × Granted node ip s (finish_sadd r now node ip p).0
  unfolding finish_sadd
  finish_sadd-ok now node ip out s (t, true) e same =
      finish_set-ok node ip out s (set now (node_ip_key node) ip 0 t) e λ done.
        let c = r.set_done now (node_ip_key node) ip 0 t done in
        record {
          granted = ground (arith, set-lease r now node ip t node, str_eq_refl node);
          kept = λ m n. ground (arith, set-lease r now node ip t m, same m);
        }
  finish_sadd-ok now node ip out s (t, false) e same = cc

  assign-ok :
      (now : ℕ) (node out : GoString) (s : State) (p : State × Result (List ℕ))
      → (assign r now node p).1 ≡ ok out
      → ((m : GoString) → lease r p.0 m ≡ lease r s m)
      → (addr : List ℕ) × (p.1 ≡ ok addr)
        × (out ≡ ip_string addr)
        × Granted node out s (assign r now node p).0
  unfolding assign
  assign-ok now node out s (t, ok addr) e same =
      let ip = ip_string addr in
      let p = sadd allocated_set_key ip t in
      let (o, g) =
        finish_sadd-ok now node ip out s p e
          (λ m. r.sadd_entry allocated_set_key ip t (node_ip_key m) ∙ same m) in
      (addr, refl, o, subst (λ x. Granted node x s (finish_sadd r now node ip p).0) (sym o) g)
  assign-ok now node out s (t, err e') e same = cc

  allocate_after-ok :
      (a : Allocator) (now : ℕ) (node out : GoString) (p : State × Reply GoString)
      → (allocate_after r a now node p).1 ≡ ok out
      → ((p.1 ≡ found out) × ((allocate_after r a now node p).0 ≡ p.0))
        ⊎ (allocate_after r a now node p ≡ assign r now node (find_available_ip r a p.0))
  unfolding allocate_after
  allocate_after-ok a now node out (s, found ip) e = inl (cc, refl)
  allocate_after-ok a now node out (s, missing) e = inr refl
  allocate_after-ok a now node out (s, failed) e = inr refl

  found_live :
      (now : ℕ) (node ip : GoString) (s : State)
      → (get now (node_ip_key node) s).1 ≡ found ip
      → live now (lease r s node) ≡ some ip
  found_live now node ip s hit = elim (r.get_reply now (node_ip_key node) s) [
    | inl down ↦ cc
    | inr answer ↦ reply_of-found (live now (lease r s node)) ip (sym answer ∙ hit)
  ]

  -- A free address of the network, behind the gateway, not marked before and leased to nobody, is
  -- the node's now.
  pub record IsNew (net : Network) (node ip : GoString) (s t : State) : Type 0 where
    pub addr : List ℕ
    pub text : ip ≡ ip_string addr
    pub four_bytes : IsAddress addr
    pub inside : net_contains net addr ≡ true
    pub behind : value (set_last 1 net.base) < value addr
    pub unmarked : is_allocated r s ip ≡ false
    pub unleased : (m : GoString) (e : Entry) → lease r s m ≡ some e → e.value ≢ ip
    pub granted : Granted node ip s t

  -- A consistent store has marked what it has leased.
  unmarked-unleased :
      (s : State) (ip : GoString)
      → IsConsistent r s
      → is_allocated r s ip ≡ false
      → (m : GoString) (e : Entry) → lease r s m ≡ some e
      → e.value ≢ ip
  unmarked-unleased s ip c fresh m l h same = ground (arith, c.marked m l h, same, fresh)

  assign-IsNew :
      (net : Network) (now : ℕ) (node out : GoString) (s u : State)
      → IsIpv4 net
      → IsConsistent r s
      → Same r s u
      → (assign r now node (find_available_ip r (new net) u)).1 ≡ ok out
      → IsNew net node out s (assign r now node (find_available_ip r (new net) u)).0
  unfolding new
  assign-IsNew net now node out s u v c same e =
      let q = find_available_ip r (new net) u in
      let same' = find-Same r (new net) u in
      let (addr, asked, text, granted) =
        assign-ok now node out s q e (λ m. same'.leases m ∙ same.leases m) in
      let (unmarked, (used, free_ip)) = find-unmarked r (new net) u addr asked in
      let fresh : is_allocated r s out ≡ false = sym (same.marks out) ∙ rw text unmarked in
      let (four, inside, unused, behind) = find_free-IsAddress used net addr v free_ip in
      record {
        addr = addr;
        text = text;
        four_bytes = four;
        inside = inside;
        behind = behind;
        unmarked = fresh;
        unleased = λ m l h. unmarked-unleased s out c fresh m l h;
        granted = granted;
      }

  -- When `AllocateIP` returns an address from a consistent store, either the node held it already
  -- and nothing changed, or it is a new one: inside the network, above the gateway, marked by nobody
  -- and leased to nobody before, and recorded as the node's, with the leases of all other nodes as
  -- they were.
  pub allocate_ip-grants :
      (net : Network) (now : ℕ) (node ip : GoString) (s : State)
      → IsIpv4 net
      → IsConsistent r s
      → (allocate_ip r (new net) now node s).1 ≡ ok ip
      → let t = (allocate_ip r (new net) now node s).0 in
        ((live now (lease r s node) ≡ some ip) × Same r s t) ⊎ IsNew net node ip s t
  unfolding allocate_ip
  allocate_ip-grants net now node ip s v c e =
      let p = get now (node_ip_key node) s in
      let same = get-Same r now (node_ip_key node) s in
      elim (allocate_after-ok (new net) now node ip p e) [
        | inl (hit, same_state) ↦
            inl (found_live now node ip s hit, subst (Same r s) (sym same_state) same)
        | inr later ↦ inr (rw later (assign-IsNew net now node ip s p.0 v c same (rw (← later) e)))
      ]

  held_after :
      (a : Allocator) (now : ℕ) (node ip : GoString) (s : State)
      → IsConsistent r s
      → (allocate_ip r a now node s).1 ≡ ok ip
      → lease r (allocate_ip r a now node s).0 node ≡ held ip
  unfolding allocate_ip
  held_after a now node ip s c e =
      let p = get now (node_ip_key node) s in
      let same = get-Same r now (node_ip_key node) s in
      elim (allocate_after-ok a now node ip p e) [
        | inl (hit, same_state) ↦
            rw (same_state, same.leases node)
              (live-held now (lease r s node) ip (found_live now node ip s hit) (c.lasting node))
        | inr later ↦
            let (addr, asked, text, granted) =
              assign-ok now node ip s (find_available_ip r a p.0) (rw (← later) e)
                (λ m. (find-Same r a p.0).leases m ∙ same.leases m) in
            rw later granted.granted
      ]

  held_again :
      (a : Allocator) (later : ℕ) (node ip : GoString) (t : State)
      → lease r t node ≡ held ip
      → ((get later (node_ip_key node) t).1 ≡ failed)
        ⊎ (((allocate_ip r a later node t).1 ≡ ok ip) × Same r t (allocate_ip r a later node t).0)
  unfolding allocate_ip allocate_after
  held_again a later node ip t h = elim (r.get_reply later (node_ip_key node) t) [
    | inl down ↦ inl down
    | inr answer ↦
        let hit : (get later (node_ip_key node) t).1 ≡ found ip =
          answer ∙ ap (λ o. reply_of (live later o)) h in
        inr (
          rw (hit, allocate_after),
          rw (hit, allocate_after) (get-Same r later (node_ip_key node) t),
        )
  ]

  -- A second request of the node gets the same address, at any time, and changes nothing, unless
  -- Redis fails to answer whether the node has one.
  pub allocate_ip-again :
      (a : Allocator) (now later : ℕ) (node ip : GoString) (s : State)
      → IsConsistent r s
      → (allocate_ip r a now node s).1 ≡ ok ip
      → let t = (allocate_ip r a now node s).0 in
        ((get later (node_ip_key node) t).1 ≡ failed)
        ⊎ (((allocate_ip r a later node t).1 ≡ ok ip) × Same r t (allocate_ip r a later node t).0)
  allocate_ip-again a now later node ip s c e =
      held_again a later node ip (allocate_ip r a now node s).0 (held_after a now node ip s c e)
