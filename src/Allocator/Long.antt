-- ===== src/Allocator/Long.antt =====
-- Networks that `findAvailableIP` finds full from the start: it sets the last byte of the network's
-- address to 2, whatever bits of that byte belong to the prefix.
use gordion_vpn.Base.{
  ℕ, zero, suc, ◌+◌, ◌-◌, ◌*◌, ◌/◌, ◌%◌, ◌^◌, ◌≤◌, ◌<◌, ◌≡◌, ◌≢◌, List, [], ◌∷◌, arith, length, All,
}
use gordion_vpn.Base.Bytes.{GoString}
use gordion_vpn.Allocator.{exhausted, scan, find_free}
use gordion_vpn.Allocator.Ip.{Network, value, set_last, net_contains, block_size, IsByte}
use gordion_vpn.Allocator.Search.{IsIpv4}

value-set_two :
    (bs : List ℕ) → length bs ≡ 4 → All IsByte bs → value (set_last 2 bs) ≡ value bs / 256 * 256 + 2
unfolding value set_last
value-set_two (a ∷ b ∷ c ∷ d ∷ []) n (ha, (hb, (hc, (hd, u)))) = omega arith
value-set_two [] n h = absurd (omega (arith, n))
value-set_two (a ∷ []) n h = absurd (omega (arith, n))
value-set_two (a ∷ b ∷ []) n h = absurd (omega (arith, n))
value-set_two (a ∷ b ∷ c ∷ []) n h = absurd (omega (arith, n))
value-set_two (a ∷ b ∷ c ∷ d ∷ e ∷ bs) n h = absurd (omega (arith, n))

-- Blocks of 4 to 128 addresses whose first is not the first of its last byte.
other_block :
    (k v : ℕ) → k < 6 → 2 ^ (2 + k) ≤ v % 256 → (v / 256 * 256 + 2) / 2 ^ (2 + k) ≢ v / 2 ^ (2 + k)
other_block zero v k h = λ e. omega arith
other_block (suc zero) v k h = λ e. omega arith
other_block (suc (suc zero)) v k h = λ e. omega arith
other_block (suc (suc (suc zero))) v k h = λ e. omega arith
other_block (suc (suc (suc (suc zero)))) v k h = λ e. omega arith
other_block (suc (suc (suc (suc (suc zero))))) v k h = λ e. omega arith
other_block (suc (suc (suc (suc (suc (suc n)))))) v k h = absurd (omega arith)

-- In a network with a prefix of 25 to 30 bits that does not start at the first address of its last
-- byte, such as 10.8.0.128/25, the search finds no free address, whatever is in use, even nothing.
pub find_free-outside :
    (used : List GoString) (net : Network)
    → IsIpv4 net
    → 24 < net.prefix_len
    → net.prefix_len < 31
    → block_size net ≤ value net.base % 256
    → find_free used net ≡ exhausted
unfolding find_free scan net_contains
find_free-outside used net v long short off =
    let k = 30 - net.prefix_len in
    let bits : 32 - net.prefix_len ≡ 2 + k = omega arith in
    let off' : 2 ^ (2 + k) ≤ value net.base % 256 = rw (← bits) off in
    let outside = other_block k (value net.base) (omega arith) off' in
    let start = value-set_two net.base v.four v.bytes in ground (arith, bits, outside, start)
