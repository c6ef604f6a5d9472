-- ===== src/Allocator/Tests.antt =====
-- The allocator's theorems over a Redis server in memory, and runs that follow the source.
use gordion_vpn.Base.{◌≡◌, ◌≢◌, refl, false, none, some, List, [], ◌∷◌, ◌⊎◌, arith}
use gordion_vpn.Base.Bytes.{GoString, str, str_eq}
use gordion_vpn.Grpc.{ok}
use gordion_vpn.Redis.{Entry, live}
use gordion_vpn.Redis.Store.{
  mem_get, mem_smembers, mem_sadd, mem_set, mem_scard, mem_srem, mem_del, empty,
}
use gordion_vpn.Redis.Memory.{memory}
use gordion_vpn.Allocator.{
  exhausted, new, gateway, subnet_mask, free, out_of_fuel, find_free, scan, allocate_ip, release_ip,
  find_available_ip,
}
use gordion_vpn.Allocator.Ip.{
  Network, value, increment_ip, set_last, ip_string, net_contains, decimal_byte, subnet_mask_of,
}
use gordion_vpn.Allocator.Search.{IsIpv4, Ends, find_free-Ends}
use gordion_vpn.Allocator.Long.{find_free-outside}
use gordion_vpn.Allocator.Leases.{IsConsistent, lease, is_allocated, Same, allocate_ip-IsConsistent}
use gordion_vpn.Allocator.Grants.{IsNew, allocate_ip-grants}
use gordion_vpn.Allocator.Release.{release_ip-IsConsistent, foreign_release_breaks}

-- 10.8.0.0/16, the default of configs/config.dev.yaml, and a network of four addresses.
abbrev wide : Network
wide = record { base = 10 ∷ 8 ∷ 0 ∷ 0 ∷ []; prefix_len = 16 }

abbrev tiny : Network
tiny = record { base = 10 ∷ 8 ∷ 0 ∷ 0 ∷ []; prefix_len = 30 }

wide-IsIpv4 : IsIpv4 wide
wide-IsIpv4 = omega arith

wide_texts : (gateway (new wide) ≡ str "10.8.0.1") × (subnet_mask (new wide) ≡ str "255.255.0.0")
unfolding gateway subnet_mask new ip_string set_last subnet_mask_of decimal_byte
wide_texts = (refl, refl)

increment_carries : increment_ip (10 ∷ 8 ∷ 0 ∷ 255 ∷ []) ≡ 10 ∷ 8 ∷ 1 ∷ 0 ∷ []
unfolding increment_ip
increment_carries = refl

abbrev used_one : List GoString
used_one = str "10.8.0.2" ∷ []

find_next : find_free used_one tiny ≡ free (10 ∷ 8 ∷ 0 ∷ 3 ∷ [])
unfolding find_free scan set_last increment_ip net_contains value ip_string decimal_byte str_eq
find_next = refl

find_free-Ends_example :
    Ends used_one tiny (set_last 2 tiny.base) (find_free used_one tiny)
    × (find_free used_one tiny ≢ out_of_fuel)
find_free-Ends_example = find_free-Ends used_one tiny (omega arith)

empty-IsConsistent : IsConsistent memory (empty [])
empty-IsConsistent = record {
  marked = λ node e h. cc;
  lasting = λ node e h. cc;
  distinct = λ a b e f h. cc;
}

abbrev alice : GoString
alice = str "alice"

abbrev bob : GoString
bob = str "bob"

abbrev after_alice : memory.State
after_alice = (allocate_ip memory (new wide) 5 alice (empty [])).0

allocate_ip-IsConsistent_example : IsConsistent memory after_alice
allocate_ip-IsConsistent_example =
    allocate_ip-IsConsistent memory (new wide) 5 alice (empty []) empty-IsConsistent

alice_granted : (allocate_ip memory (new wide) 5 alice (empty [])).1 ≡ ok (str "10.8.0.2")
unfolding allocate_ip mem_get mem_smembers mem_sadd mem_set mem_scard new find_available_ip
    find_free scan set_last increment_ip net_contains value ip_string decimal_byte str_eq
alice_granted = refl

find_free-outside_example :
    find_free [] (record { base = 10 ∷ 8 ∷ 0 ∷ 128 ∷ []; prefix_len = 25 }) ≡ exhausted
unfolding value
find_free-outside_example =
    find_free-outside [] (record { base = 10 ∷ 8 ∷ 0 ∷ 128 ∷ []; prefix_len = 25 }) (omega arith)
      (omega arith) (omega arith) (omega arith)

-- The grant, as `allocate_ip-grants` states it for the first address.
allocate_ip-grants_example :
    ((live 5 (lease memory (empty []) alice) ≡ some (str "10.8.0.2"))
      × Same memory (empty []) after_alice)
    ⊎ IsNew memory wide alice (str "10.8.0.2") (empty []) after_alice
allocate_ip-grants_example =
    allocate_ip-grants memory wide 5 alice (str "10.8.0.2") (empty []) wide-IsIpv4
      empty-IsConsistent alice_granted

abbrev alice_entry : Entry
alice_entry = record { value = str "10.8.0.2"; expires = none }

alice_holds : lease memory after_alice alice ≡ some alice_entry
unfolding allocate_ip mem_get mem_smembers mem_sadd mem_set mem_scard new find_available_ip
    find_free scan set_last increment_ip net_contains value ip_string decimal_byte str_eq
alice_holds = refl

abbrev released_by : GoString → memory.State
released_by node = (release_ip memory node alice_entry.value after_alice).0

release_done : (node : GoString) → (release_ip memory node alice_entry.value after_alice).1 ≡ ok tt
unfolding release_ip mem_srem mem_del mem_scard allocate_ip mem_get mem_smembers mem_sadd mem_set
    new find_available_ip find_free scan set_last increment_ip net_contains value ip_string
    decimal_byte str_eq
release_done node = refl

release_ip-IsConsistent_example :
    IsConsistent memory (released_by alice)
    × (lease memory (released_by alice) alice ≡ none)
    × (is_allocated memory (released_by alice) alice_entry.value ≡ false)
release_ip-IsConsistent_example =
    release_ip-IsConsistent memory alice alice_entry after_alice allocate_ip-IsConsistent_example
      alice_holds (release_done alice)

foreign_release_breaks_example :
    (lease memory (released_by bob) alice ≡ some alice_entry)
    × (is_allocated memory (released_by bob) alice_entry.value ≡ false)
    × ¬ IsConsistent memory (released_by bob)
foreign_release_breaks_example =
    foreign_release_breaks memory bob alice alice_entry after_alice (λ e. cc) alice_holds
      (release_done bob)

-- Bob, who asks next, gets the address that Alice still holds.
same_address : (allocate_ip memory (new wide) 7 bob (released_by bob)).1 ≡ ok alice_entry.value
unfolding release_ip mem_srem mem_del mem_scard allocate_ip mem_get mem_smembers mem_sadd mem_set
    new find_available_ip find_free scan set_last increment_ip net_contains value ip_string
    decimal_byte str_eq
same_address = refl
