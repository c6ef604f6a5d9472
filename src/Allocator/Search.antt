-- ===== src/Allocator/Search.antt =====
-- The search for a free address: `findAvailableIP`.
use gordion_vpn.Base.{
  ℕ, zero, suc, ◌+◌, ◌-◌, ◌*◌, ◌/◌, ◌%◌, ◌^◌, ◌≤◌, ◌<◌, ◌≡◌, ◌≢◌, refl, sym, ap, ◌∙◌, true, false,
  List, arith, length, All, Bool-cases, inl, inr,
}
use mathlib.Core.Path.{subst}
use native.Mathlib.Decide.{dec_lt}
use native.Mathlib.Nat.{mod-eq_of_lt, mod_self, mod-lt, div-add-mod, pow-le-pow_right, one-le-pow}
use gordion_vpn.Base.Bytes.{GoString}
use gordion_vpn.Redis.{contains}
use gordion_vpn.Allocator.{Scan, free, exhausted, out_of_fuel, scan, find_free}
use gordion_vpn.Allocator.Ip.{
  Network, value, ip_string, increment_ip, set_last, net_contains, block_size, IsByte,
  increment_ip-bytes, length-increment_ip, value-increment_ip, value-lt, length-set_last,
  set_last-bytes, value-set_last,
}

-- The address `k` steps on.
pub advance : ℕ → List ℕ → List ℕ
advance zero ip = ip
advance (suc k) ip = advance k (increment_ip ip)

-- The steps before the `k`-th are in the network and in use.
abbrev pub AllTaken : List GoString → Network → List ℕ → ℕ → Type 0
AllTaken used net ip k =
    (j : ℕ)
    → j < k
    → (net_contains net (advance j ip) ≡ true) × (contains used (ip_string (advance j ip)) ≡ true)

AllTaken-suc :
    (used : List GoString) (net : Network) (ip : List ℕ) (k : ℕ)
    → net_contains net ip ≡ true
    → contains used (ip_string ip) ≡ true
    → AllTaken used net (increment_ip ip) k
    → AllTaken used net ip (suc k)
unfolding advance
AllTaken-suc used net ip k inside taken more zero h = (inside, taken)
AllTaken-suc used net ip k inside taken more (suc j) h = more j (omega arith)

-- How a search can end: at the first address in the network that is not in use, or past the end.
abbrev pub Ends : List GoString → Network → List ℕ → Scan → Type 0
Ends used net ip (free found) =
    (k : ℕ) × (found ≡ advance k ip)
    × (net_contains net found ≡ true)
    × (contains used (ip_string found) ≡ false)
    × AllTaken used net ip k
Ends used net ip exhausted =
    (k : ℕ) × (net_contains net (advance k ip) ≡ false) × AllTaken used net ip k
Ends used net ip out_of_fuel = Unit {0}

Ends-suc :
    (used : List GoString) (net : Network) (ip : List ℕ) (r : Scan)
    → net_contains net ip ≡ true
    → contains used (ip_string ip) ≡ true
    → Ends used net (increment_ip ip) r
    → Ends used net ip r
unfolding advance
Ends-suc used net ip (free found) inside taken (k, e, i, u, t) =
    (suc k, e, i, u, AllTaken-suc used net ip k inside taken t)
Ends-suc used net ip exhausted inside taken (k, o, t) =
    (suc k, o, AllTaken-suc used net ip k inside taken t)
Ends-suc used net ip out_of_fuel inside taken e = tt

pub scan-Ends :
    (fuel : ℕ) (used : List GoString) (net : Network) (ip : List ℕ)
    → Ends used net ip (scan fuel used net ip)
unfolding scan advance
scan-Ends zero used net ip = tt
scan-Ends (suc fuel) used net ip = elim (Bool-cases (net_contains net ip)) [
  | inr outside ↦ rw outside (0, outside, λ j h. absurd (omega arith))
  | inl inside ↦ elim (Bool-cases (contains used (ip_string ip))) [
    | inr unused ↦ rw (inside, unused) (0, refl, inside, unused, λ j h. absurd (omega arith))
    | inl taken ↦
        rw (inside, taken)
          (Ends-suc used net ip (scan fuel used net (increment_ip ip)) inside taken
            (scan-Ends fuel used net (increment_ip ip)))
  ]
]

-- What the search returns is not in use.
pub find_free-unused :
    (used : List GoString) (net : Network) (found : List ℕ)
    → find_free used net ≡ free found
    → contains used (ip_string found) ≡ false
unfolding find_free
find_free-unused used net found e =
    let start = set_last 2 net.base in
    let ends : Ends used net start (free found) =
      subst (Ends used net start) e (scan-Ends (block_size net + 1) used net start) in
    ends.3

-- A block of `h` numbers is left by its last one, also where the numbers wrap at `m`.
next_in_block :
    (h m v : ℕ)
    → 0 < h
    → 2 * h ≤ m
    → v < m
    → (v + 1) % m / h ≡ v / h
    → ((v + 1) % m ≡ v + 1) × ((v + 1) % h ≡ v % h + 1)
next_in_block h m v pos two below same = elim (dec_lt (v + 1) m) [
  | yes inside ↦
      let plus_one : (v + 1) % m ≡ v + 1 = mod-eq_of_lt inside in
      let same' : (v + 1) / h ≡ v / h = rw (← plus_one) same in
      (plus_one, omega (arith, div-add-mod v h, div-add-mod (v + 1) h, ap (λ (t : ℕ). h * t) same'))
  | no wraps ↦
      let last : v + 1 ≡ m = omega arith in
      let zero_next : (v + 1) % m ≡ 0 = rw last (mod_self m) in
      let same' : 0 / h ≡ v / h = rw zero_next at same in
      absurd
        (omega (arith, div-add-mod v h, div-add-mod 0 h, ap (λ (t : ℕ). h * t) same', mod-lt v pos))
]

-- A network that `net.ParseCIDR` returns for an IPv4 CIDR other than `/0`.
pub record IsIpv4 (net : Network) : Type 0 where
  pub four : length net.base ≡ 4
  pub bytes : All IsByte net.base
  pub prefix_pos : 0 < net.prefix_len
  pub prefix_le : net.prefix_len ≤ 32

-- An address of the right length.
pub record IsAddress (ip : List ℕ) : Type 0 where
  pub four : length ip ≡ 4
  pub bytes : All IsByte ip

block_bounds : (net : Network) → IsIpv4 net → (0 < block_size net) × (2 * block_size net ≤ 2 ^ 32)
block_bounds net v =
    let half : block_size net ≤ 2 ^ 31 =
      pow-le-pow_right (omega arith) {i = 32 - net.prefix_len} {j = 31} (omega arith) in
    (one-le-pow (32 - net.prefix_len) 2 (omega arith), omega arith)

pub increment_ip-IsAddress : (ip : List ℕ) → IsAddress ip → IsAddress (increment_ip ip)
increment_ip-IsAddress ip a = record {
  four = length-increment_ip ip ∙ a.four;
  bytes = increment_ip-bytes ip a.bytes;
}

-- Inside the network a step adds one, and uses up one place of the block.
step_inside :
    (net : Network) (ip : List ℕ)
    → IsIpv4 net
    → IsAddress ip
    → net_contains net ip ≡ true
    → net_contains net (increment_ip ip) ≡ true
    → (value (increment_ip ip) ≡ value ip + 1)
      × (value (increment_ip ip) % block_size net ≡ value ip % block_size net + 1)
unfolding net_contains
step_inside net ip v a here there =
    let (pos, two) = block_bounds net v in
    let bytes : 256 ^ length ip ≡ 2 ^ 32 = rw (a.four) in
    let next : value (increment_ip ip) ≡ (value ip + 1) % 2 ^ 32 =
      rw (← bytes) (value-increment_ip ip a.bytes) in
    let below : value ip < 2 ^ 32 = rw (← bytes) (value-lt ip a.bytes) in
    let same : (value ip + 1) % 2 ^ 32 / block_size net ≡ value ip / block_size net =
      ground (arith, next) in
    let (plus_one, place) = next_in_block (block_size net) (2 ^ 32) (value ip) pos two below same in
    (next ∙ plus_one, rw (next ∙ plus_one) place)

place-lt : (net : Network) (ip : List ℕ) → IsIpv4 net → value ip % block_size net < block_size net
place-lt net ip v = mod-lt (value ip) (block_bounds net v).0

scan_outside :
    (fuel : ℕ) (used : List GoString) (net : Network) (ip : List ℕ)
    → 0 < fuel
    → net_contains net ip ≡ false
    → scan fuel used net ip ≢ out_of_fuel
unfolding scan
scan_outside zero used net ip pos outside = absurd (omega arith)
scan_outside (suc fuel) used net ip pos outside = λ e. ground arith

-- With a round for each place left in the block, and one to see the end, the search ends.
scan_total :
    (fuel : ℕ) (used : List GoString) (net : Network) (ip : List ℕ)
    → IsIpv4 net
    → IsAddress ip
    → block_size net < fuel + value ip % block_size net
    → scan fuel used net ip ≢ out_of_fuel
unfolding scan
scan_total zero used net ip v a enough e = absurd (omega (arith, place-lt net ip v))
scan_total (suc fuel) used net ip v a enough e = elim (Bool-cases (net_contains net ip)) [
  | inr outside ↦ ground arith
  | inl inside ↦ elim (Bool-cases (net_contains net (increment_ip ip))) [
    | inr leaves ↦ ground (
      arith,
      scan_outside fuel used net (increment_ip ip) (omega (arith, place-lt net ip v)) leaves,
    )
    | inl stays ↦
        let more : block_size net < fuel + value (increment_ip ip) % block_size net =
          omega (arith, (step_inside net ip v a inside stays).1) in
        ground
          (arith, scan_total fuel used net (increment_ip ip) v (increment_ip-IsAddress ip a) more)
  ]
]

-- Between two addresses of one search lie the numbers between them.
value-advance :
    (k : ℕ) (net : Network) (ip : List ℕ)
    → IsIpv4 net
    → IsAddress ip
    → ((j : ℕ) → j ≤ k → net_contains net (advance j ip) ≡ true)
    → IsAddress (advance k ip) × (value (advance k ip) ≡ value ip + k)
unfolding advance
value-advance zero net ip v a inside = (a, omega arith)
value-advance (suc k) net ip v a inside =
    let (a', e) =
      value-advance k net (increment_ip ip) v (increment_ip-IsAddress ip a)
        (λ j h. inside (suc j) (omega arith)) in
    (
      a',
      omega
          (arith, e, (step_inside net ip v a (inside 0 (omega arith)) (inside 1 (omega arith))).0),
    )

set_last-IsAddress :
    (n : ℕ) (net : Network) → IsIpv4 net → IsByte n → IsAddress (set_last n net.base)
set_last-IsAddress n net v b = record {
  four = length-set_last n net.base ∙ v.four;
  bytes = set_last-bytes n net.base b v.bytes;
}

-- The search for a free address always ends: the fuel is enough for every network but `/0`. It tries
-- the addresses in order from the network's own with its last byte set to 2, and ends at the first
-- that lies in the network and is not in use, when all before it are in use, or, with no address, at
-- the first that lies outside the network, when all before it are in use. With a prefix longer than
-- 24 the very first can lie outside.
pub find_free-Ends :
    (used : List GoString) (net : Network)
    → IsIpv4 net
    → Ends used net (set_last 2 net.base) (find_free used net) × (find_free used net ≢ out_of_fuel)
unfolding find_free
find_free-Ends used net v = (
  scan-Ends (block_size net + 1) used net (set_last 2 net.base),
  scan_total (block_size net + 1) used net (set_last 2 net.base) v
      (set_last-IsAddress 2 net v (omega arith)) (omega arith),
)

inside_upto :
    (used : List GoString) (net : Network) (ip found : List ℕ) (k : ℕ)
    → found ≡ advance k ip
    → net_contains net found ≡ true
    → AllTaken used net ip k
    → (j : ℕ) → j ≤ k
    → net_contains net (advance j ip) ≡ true
inside_upto used net ip found k e inside taken j h = elim (dec_lt j k) [
  | yes before ↦ (taken j before).0
  | no last ↦ let here : j ≡ k = omega arith in rw here (rw (← e) inside)
]

-- A free address lies in the network and behind the gateway, so it never is the gateway.
pub find_free-IsAddress :
    (used : List GoString) (net : Network) (found : List ℕ)
    → IsIpv4 net
    → find_free used net ≡ free found
    → IsAddress found
      × (net_contains net found ≡ true)
      × (contains used (ip_string found) ≡ false)
      × (value (set_last 1 net.base) < value found)
find_free-IsAddress used net found v e =
    let ends : Ends used net (set_last 2 net.base) (free found) =
      subst (Ends used net (set_last 2 net.base)) e (find_free-Ends used net v).0 in
    let (k, at_k, inside, unused, taken) = ends in
    let (a, place) =
      value-advance k net (set_last 2 net.base) v (set_last-IsAddress 2 net v (omega arith))
        (inside_upto used net (set_last 2 net.base) found k at_k inside taken) in
    (
      subst IsAddress (sym at_k) a,
      inside,
      unused,
      rw at_k (omega (arith, place, value-set_last 1 2 net.base (omega (arith, v.four)))),
    )
