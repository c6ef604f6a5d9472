-- ===== src/Allocator/Release.antt =====
-- What `ReleaseIP` does, and what it does not check.
use gordion_vpn.Base.{◌≡◌, ◌≢◌, refl, ◌∙◌, Bool, true, false, none, some, arith, if◌then◌else◌}
use gordion_vpn.Base.Bytes.{GoString, str_eq, str_eq_refl, eq_iff}
use gordion_vpn.Grpc.{ok}
use gordion_vpn.Redis.{Redis, Entry}
use gordion_vpn.Allocator.{finish_del, finish_srem, allocated_set_key, node_ip_key, release_ip}
use gordion_vpn.Allocator.Leases.{
  IsConsistent, lease, is_allocated, node_ip_key-eq, scard-Same, Same,
}

module _ (r : Redis) where
  open r use {State, carried, srem, del, scard}

  -- The mark of `ip` and the lease of `node` are gone, and nothing else.
  pub record Released (node ip : GoString) (s t : State) : Type 0 where
    pub leases : (m : GoString) → lease r t m ≡ (if str_eq node m then none else lease r s m)
    pub marks :
        (x : GoString) → is_allocated r t x ≡ (if str_eq ip x then false else is_allocated r s x)

  finish_del-ok :
      (node ip : GoString) (s : State) (p : State × Bool)
      → (finish_del r p).1 ≡ ok tt
      → (p.1 ≡ true → Released node ip s p.0)
      → Released node ip s (finish_del r p).0
  unfolding finish_del
  finish_del-ok node ip s (t, true) e d =
      let same = scard-Same r allocated_set_key t in
      record {
        leases = λ m. same.leases m ∙ (d refl).leases m;
        marks = λ x. same.marks x ∙ (d refl).marks x;
      }
  finish_del-ok node ip s (t, false) e d = cc

  finish_del-Same : (p : State × Bool) → Same r p.0 (finish_del r p).0
  unfolding finish_del
  finish_del-Same (t, true) = scard-Same r allocated_set_key t
  finish_del-Same (t, false) = record { leases = λ node. refl; marks = λ ip. refl }

  finish_srem-ok :
      (node ip : GoString) (s : State) (p : State × Bool)
      → ((m : GoString) → lease r p.0 m ≡ lease r s m)
      → (p.1 ≡ true
          → (x : GoString)
          → is_allocated r p.0 x ≡ (if str_eq ip x then false else is_allocated r s x))
      → (finish_srem r node p).1 ≡ ok tt
      → Released node ip s (finish_srem r node p).0
  unfolding finish_srem
  finish_srem-ok node ip s (t, true) leases marks e =
      let key = node_ip_key node in
      finish_del-ok node ip s (del key t) e λ done. record {
        leases = λ m. ground (
          arith,
          r.del_done key t done,
          r.del_entry key t (node_ip_key m),
          node_ip_key-eq node m,
          leases m,
        );
        marks = λ x. r.del_has key t allocated_set_key x ∙ marks refl x;
      }
  finish_srem-ok node ip s (t, false) leases marks e = cc

  -- What `SREM` leaves, if it is carried out.
  srem-marks :
      (ip : GoString) (s : State)
      → (srem allocated_set_key ip s).1 ≡ true
      → (x : GoString)
      → is_allocated r (srem allocated_set_key ip s).0 x
        ≡ (if str_eq ip x then false else is_allocated r s x)
  srem-marks ip s done x = ground (
    arith,
    r.srem_done allocated_set_key ip s done,
    r.srem_has allocated_set_key ip s allocated_set_key x,
    str_eq_refl allocated_set_key,
  )

  -- A call that succeeds takes away exactly the mark of the address and the lease of the node, be
  -- they of one another or not.
  pub release_ip-Released :
      (node ip : GoString) (s : State)
      → (release_ip r node ip s).1 ≡ ok tt
      → Released node ip s (release_ip r node ip s).0
  unfolding release_ip
  release_ip-Released node ip s e =
      finish_srem-ok node ip s (srem allocated_set_key ip s)
        (λ m. r.srem_entry allocated_set_key ip s (node_ip_key m)) (srem-marks ip s) e

  -- A state where a node holds an address that is not marked is not consistent.
  unmarked-not-IsConsistent :
      (node : GoString) (e : Entry) (t : State)
      → lease r t node ≡ some e
      → is_allocated r t e.value ≡ false
      → ¬ IsConsistent r t
  unmarked-not-IsConsistent node e t h m c = cc (c.marked node e h)

  -- A node that gives back the address that it holds leaves the leases consistent, and the address
  -- free.
  pub release_ip-IsConsistent :
      (node : GoString) (e : Entry) (s : State)
      → IsConsistent r s
      → lease r s node ≡ some e
      → (release_ip r node e.value s).1 ≡ ok tt
      → let t = (release_ip r node e.value s).0 in
        IsConsistent r t × (lease r t node ≡ none) × (is_allocated r t e.value ≡ false)
  release_ip-IsConsistent node e s c h done =
      let d = release_ip-Released node e.value s done in
      (
        record {
          marked = λ m f k. ground (
            arith,
            d.leases m,
            d.marks f.value,
            c.marked m f,
            c.distinct node m e f h,
            eq_iff node m,
            eq_iff e.value f.value,
          );
          lasting = λ m f k. ground (arith, d.leases m, c.lasting m f);
          distinct = λ a b f g k l v. ground (arith, d.leases a, d.leases b, c.distinct a b f g);
        },
        ground (arith, d.leases node, str_eq_refl node),
        ground (arith, d.marks e.value, str_eq_refl e.value),
      )

  -- Nothing ties the address to the node: when one node releases the address of another, the other
  -- still holds it, but it counts as free, and the leases are not consistent any more.
  pub foreign_release_breaks :
      (node victim : GoString) (e : Entry) (s : State)
      → node ≢ victim
      → lease r s victim ≡ some e
      → (release_ip r node e.value s).1 ≡ ok tt
      → let t = (release_ip r node e.value s).0 in
        (lease r t victim ≡ some e) × (is_allocated r t e.value ≡ false) × ¬ IsConsistent r t
  foreign_release_breaks node victim e s other h done =
      let t = (release_ip r node e.value s).0 in
      let d = release_ip-Released node e.value s done in
      let still : lease r t victim ≡ some e = ground (arith, d.leases victim, eq_iff node victim) in
      let unmarked : is_allocated r t e.value ≡ false =
        ground (arith, d.marks e.value, str_eq_refl e.value) in
      (still, unmarked, unmarked-not-IsConsistent victim e t still unmarked)

  -- The mark is removed before the lease: when Redis carries out the first command and not the
  -- second, the node still holds an address that counts as free.
  pub half_release_breaks :
      (node : GoString) (e : Entry) (s : State)
      → lease r s node ≡ some e
      → (srem allocated_set_key e.value s).1 ≡ true
      → carried (srem allocated_set_key e.value s).0 ≡ false
      → let t = (release_ip r node e.value s).0 in
        (lease r t node ≡ some e) × (is_allocated r t e.value ≡ false) × ¬ IsConsistent r t
  unfolding release_ip
  half_release_breaks node e s h first second =
      let t = (release_ip r node e.value s).0 in
      let u = (srem allocated_set_key e.value s).0 in
      let key = node_ip_key node in
      let held : lease r u node ≡ some e = r.srem_entry allocated_set_key e.value s key ∙ h in
      let freed : is_allocated r u e.value ≡ false =
        ground (arith, srem-marks e.value s first e.value, str_eq_refl e.value) in
      let still : lease r t node ≡ some e =
        rw (first, finish_srem)
          ((finish_del-Same (del key u)).leases node
            ∙ ground (arith, r.del_entry key u key)
            ∙ held) in
      let unmarked : is_allocated r t e.value ≡ false =
        rw (first, finish_srem)
          ((finish_del-Same (del key u)).marks e.value
            ∙ r.del_has key u allocated_set_key e.value
            ∙ freed) in
      (still, unmarked, unmarked-not-IsConsistent node e t still unmarked)
