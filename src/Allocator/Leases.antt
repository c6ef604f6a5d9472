-- ===== src/Allocator/Leases.antt =====
-- Which node holds which address: what `AllocateIP` and `ReleaseIP` keep true of the data in Redis.
use gordion_vpn.Base.{
  ℕ, ◌≡◌, ◌≢◌, refl, sym, ◌∙◌, Bool, true, false, ◌&&◌, Option, none, some, List, arith,
  if◌then◌else◌, Bool-cases, inl, inr,
}
use gordion_vpn.Base.Bytes.{GoString, str_eq, str_eq_refl, eq_iff}
use gordion_vpn.Grpc.{Result, ok, err}
use gordion_vpn.Redis.{Redis, Entry, Reply, found, missing, failed, contains}
use gordion_vpn.Allocator.{
  from_scan, exhausted, out_of_fuel, finish_sadd, finish_set, assign, allocate_after, find_in,
  Allocator, allocated_set_key, node_ip_key, Scan, free, find_free, find_available_ip, allocate_ip,
}
use gordion_vpn.Allocator.Search.{find_free-unused}
use gordion_vpn.Allocator.Ip.{ip_string}

-- Keys of different nodes are different.
pub node_ip_key-eq : (a b : GoString) → str_eq (node_ip_key a) (node_ip_key b) ≡ str_eq a b
unfolding str_eq
node_ip_key-eq a b = refl

module _ (r : Redis) where
  open r use {State, entry, has, carried, get, set, del, sadd, srem, smembers, scard}

  -- The address that a node holds, whatever the time.
  abbrev pub lease : State → GoString → Option Entry
  lease s node = entry s (node_ip_key node)

  abbrev pub is_allocated : State → GoString → Bool
  is_allocated s ip = has s allocated_set_key ip

  -- Every address that a node holds is marked as allocated and does not expire, and no two nodes
  -- hold one address.
  pub record IsConsistent (s : State) : Type 0 where
    pub marked :
        (node : GoString) (e : Entry) → lease s node ≡ some e → is_allocated s e.value ≡ true
    pub lasting : (node : GoString) (e : Entry) → lease s node ≡ some e → e.expires ≡ none
    pub distinct :
        (a b : GoString) (e f : Entry)
        → lease s a ≡ some e
        → lease s b ≡ some f
        → e.value ≡ f.value
        → a ≡ b

  -- Two states with the same data.
  pub record Same (s t : State) : Type 0 where
    pub leases : (node : GoString) → lease t node ≡ lease s node
    pub marks : (ip : GoString) → is_allocated t ip ≡ is_allocated s ip

  pub Same-IsConsistent : {s t : State} → Same s t → IsConsistent s → IsConsistent t
  Same-IsConsistent {s} {t} same c = record {
    marked = λ node e h. same.marks e.value ∙ c.marked node e (sym (same.leases node) ∙ h);
    lasting = λ node e h. c.lasting node e (sym (same.leases node) ∙ h);
    distinct =
        λ a b e f h k. c.distinct a b e f (sym (same.leases a) ∙ h) (sym (same.leases b) ∙ k);
  }

  Same-trans : {s t u : State} → Same s t → Same t u → Same s u
  Same-trans p q = record {
    leases = λ node. q.leases node ∙ p.leases node;
    marks = λ ip. q.marks ip ∙ p.marks ip;
  }

  pub get-Same : (now : ℕ) (k : GoString) (s : State) → Same s (get now k s).0
  get-Same now k s = record {
    leases = λ node. r.get_entry now k s _;
    marks = λ ip. r.get_has now k s _ ip;
  }

  pub smembers-Same : (k : GoString) (s : State) → Same s (smembers k s).0
  smembers-Same k s = record {
    leases = λ node. r.smembers_entry k s _;
    marks = λ ip. r.smembers_has k s _ ip;
  }

  pub scard-Same : (k : GoString) (s : State) → Same s (scard k s).0
  scard-Same k s = record {
    leases = λ node. r.scard_entry k s _;
    marks = λ ip. r.scard_has k s _ ip;
  }

  -- Nobody holds the address.
  abbrev pub IsUnheld : State → GoString → Type 0
  IsUnheld s ip = (node : GoString) (e : Entry) → lease s node ≡ some e → e.value ≢ ip

  unmarked-IsUnheld :
      (s : State) (ip : GoString) → IsConsistent s → is_allocated s ip ≡ false → IsUnheld s ip
  unmarked-IsUnheld s ip c free_ip node e h v = cc (c.marked node e h)

  sadd-IsConsistent :
      (s : State) (ip : GoString) → IsConsistent s → IsConsistent (sadd allocated_set_key ip s).0
  sadd-IsConsistent s ip c =
      let same = λ (node : GoString). r.sadd_entry allocated_set_key ip s (node_ip_key node) in
      record {
        marked = λ node e h. ground (
          arith,
          r.sadd_has allocated_set_key ip s allocated_set_key e.value,
          c.marked node e (sym (same node) ∙ h),
        );
        lasting = λ node e h. c.lasting node e (sym (same node) ∙ h);
        distinct = λ a b e f h k. c.distinct a b e f (sym (same a) ∙ h) (sym (same b) ∙ k);
      }

  -- What a write of the node's key does to the leases.
  pub set-lease :
      (now : ℕ) (node ip : GoString) (s : State) (m : GoString)
      → lease (set now (node_ip_key node) ip 0 s).0 m ≡ (
          if carried s && str_eq node m
          then some (record { value = ip; expires = none })
          else lease s m)
  set-lease now node ip s m =
      rw (r.set_entry now (node_ip_key node) ip 0 s (node_ip_key m), node_ip_key-eq node m)

  set-IsConsistent :
      (now : ℕ) (node ip : GoString) (s : State)
      → IsConsistent s
      → IsUnheld s ip
      → is_allocated s ip ≡ true
      → IsConsistent (set now (node_ip_key node) ip 0 s).0
  set-IsConsistent now node ip s c unheld mark =
      let key = node_ip_key node in
      record {
        marked = λ m e h. ground (
          arith,
          set-lease now node ip s m,
          r.set_has now key ip 0 s allocated_set_key e.value,
          c.marked m e,
        );
        lasting = λ m e h. ground (arith, set-lease now node ip s m, c.lasting m e);
        distinct = λ a b e f h k v. ground (
          arith,
          set-lease now node ip s a,
          set-lease now node ip s b,
          eq_iff node a,
          eq_iff node b,
          unheld a e,
          unheld b f,
          c.distinct a b e f,
        );
      }

  finish_set-IsConsistent :
      (ip : GoString) (p : State × Bool) → IsConsistent p.0 → IsConsistent (finish_set r ip p).0
  unfolding finish_set
  finish_set-IsConsistent ip (s, true) c = Same-IsConsistent (scard-Same allocated_set_key s) c
  finish_set-IsConsistent ip (s, false) c = c

  from_scan-Same : (s t : State) (e : Scan) → Same s t → Same s (from_scan r t e).0
  unfolding from_scan
  from_scan-Same s t (free ip) same = same
  from_scan-Same s t exhausted same = same
  from_scan-Same s t out_of_fuel same = same

  from_scan-ok : (t : State) (e : Scan) (ip : List ℕ) → (from_scan r t e).1 ≡ ok ip → e ≡ free ip
  unfolding from_scan
  from_scan-ok t (free other) ip e = cc
  from_scan-ok t exhausted ip e = cc
  from_scan-ok t out_of_fuel ip e = cc

  find_in-ok :
      (a : Allocator) (p : State × Reply (List GoString)) (ip : List ℕ)
      → (find_in r a p).1 ≡ ok ip
      → (used : List GoString) × (p.1 ≡ found used) × (find_free used a.network ≡ free ip)
  unfolding find_in
  find_in-ok a (t, found used) ip e = (used, refl, from_scan-ok t (find_free used a.network) ip e)
  find_in-ok a (t, missing) ip e = cc
  find_in-ok a (t, failed) ip e = cc

  find_in-Same :
      (a : Allocator) (s : State) (p : State × Reply (List GoString))
      → Same s p.0
      → Same s (find_in r a p).0
  unfolding find_in
  find_in-Same a s (t, found members) same = from_scan-Same s t (find_free members a.network) same
  find_in-Same a s (t, missing) same = same
  find_in-Same a s (t, failed) same = same

  assign-IsConsistent :
      (now : ℕ) (node ip : GoString) (s : State)
      → IsConsistent s
      → is_allocated s ip ≡ false
      → IsConsistent (finish_sadd r now node ip (sadd allocated_set_key ip s)).0
  unfolding finish_sadd
  assign-IsConsistent now node ip s c unmarked =
      let t = (sadd allocated_set_key ip s).0 in
      let ct = sadd-IsConsistent s ip c in
      elim (Bool-cases (sadd allocated_set_key ip s).1) [
        | inr lost ↦ rw (lost, finish_sadd) ct
        | inl done ↦
            let mark : is_allocated t ip ≡ true = ground (
              arith,
              r.sadd_done allocated_set_key ip s done,
              r.sadd_has allocated_set_key ip s allocated_set_key ip,
              str_eq_refl ip,
              str_eq_refl allocated_set_key,
            ) in
            let unheld : IsUnheld t ip = λ m e h.
              unmarked-IsUnheld s ip c unmarked m e
                (sym (r.sadd_entry allocated_set_key ip s (node_ip_key m)) ∙ h) in
            rw (done, finish_sadd)
              (finish_set-IsConsistent ip (set now (node_ip_key node) ip 0 t)
                (set-IsConsistent now node ip t ct unheld mark))
      ]

  -- The search reads the allocated addresses and changes nothing; what it finds is not among them.
  pub find-Same : (a : Allocator) (s : State) → Same s (find_available_ip r a s).0
  unfolding find_available_ip
  find-Same a s =
      find_in-Same a s (smembers allocated_set_key s) (smembers-Same allocated_set_key s)

  pub find-unmarked :
      (a : Allocator) (s : State) (ip : List ℕ)
      → (find_available_ip r a s).1 ≡ ok ip
      → (is_allocated s (ip_string ip) ≡ false)
        × ((used : List GoString) × (find_free used a.network ≡ free ip))
  unfolding find_available_ip
  find-unmarked a s ip e =
      let (used, asked, free_ip) = find_in-ok a (smembers allocated_set_key s) ip e in
      elim (r.smembers_reply allocated_set_key s) [
        | inl down ↦ cc
        | inr (xs, answer, same) ↦
            let same_used : used ≡ xs = cc in
            let unused : contains xs (ip_string ip) ≡ false =
              find_free-unused xs a.network ip (rw (← same_used) free_ip) in
            (sym (same (ip_string ip)) ∙ unused, (used, free_ip))
      ]

  assign-keeps :
      (now : ℕ) (node : GoString) (q : State × Result (List ℕ))
      → IsConsistent q.0
      → ((ip : List ℕ) → q.1 ≡ ok ip → is_allocated q.0 (ip_string ip) ≡ false)
      → IsConsistent (assign r now node q).0
  unfolding assign
  assign-keeps now node (s, ok ip) c unmarked =
      assign-IsConsistent now node (ip_string ip) s c (unmarked ip refl)
  assign-keeps now node (s, err e) c unmarked = c

  find_assign-IsConsistent :
      (a : Allocator) (now : ℕ) (node : GoString) (s : State)
      → IsConsistent s
      → IsConsistent (assign r now node (find_available_ip r a s)).0
  find_assign-IsConsistent a now node s c =
      let same = find-Same a s in
      assign-keeps now node (find_available_ip r a s) (Same-IsConsistent same c)
        (λ ip e. same.marks (ip_string ip) ∙ (find-unmarked a s ip e).0)

  allocate_after-IsConsistent :
      (a : Allocator) (now : ℕ) (node : GoString) (p : State × Reply GoString)
      → IsConsistent p.0
      → IsConsistent (allocate_after r a now node p).0
  unfolding allocate_after
  allocate_after-IsConsistent a now node (s, found ip) c = c
  allocate_after-IsConsistent a now node (s, missing) c = find_assign-IsConsistent a now node s c
  allocate_after-IsConsistent a now node (s, failed) c = find_assign-IsConsistent a now node s c

  -- `AllocateIP` keeps the leases consistent, whether it succeeds or fails, and whichever of its
  -- commands to Redis are lost on the way there or back: every address that a node holds is marked
  -- as allocated, and no two nodes hold one address.
  pub allocate_ip-IsConsistent :
      (a : Allocator) (now : ℕ) (node : GoString) (s : State)
      → IsConsistent s
      → IsConsistent (allocate_ip r a now node s).0
  unfolding allocate_ip
  allocate_ip-IsConsistent a now node s c =
      allocate_after-IsConsistent a now node (get now (node_ip_key node) s)
        (Same-IsConsistent (get-Same now (node_ip_key node) s) c)
