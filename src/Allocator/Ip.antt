-- ===== src/Allocator/Ip.antt =====
-- IPv4 addresses as four bytes: `net.IP`, `net.IPNet` and `incrementIP`.
use gordion_vpn.Base.{
  ℕ, suc, ◌+◌, ◌-◌, ◌*◌, ◌/◌, ◌%◌, ◌^◌, ◌<◌, ◌≡◌, refl, sym, ap, ◌∙◌, Bool, true, false, List, [],
  ◌∷◌, ◌++◌, arith, length, All, ltb, ◌==◌, if◌then◌else◌, Bool-cases, inl, inr, ==_iff,
}
use Prim.Native.Nat.{min}
use native.Mathlib.Nat.{pow-suc, mod-eq_of_lt, mod_self}
use gordion_vpn.Base.Bytes.{GoString}

-- The number that the bytes stand for, first byte first.
unfoldable pub value : List ℕ → ℕ
value [] = 0
value (b ∷ bs) = b * 256 ^ length bs + value bs

-- `ip[i]++` from the last byte to the first, as long as the byte comes out 0; the Boolean says
-- whether the loop goes on to the byte before.
unfoldable pub bump : List ℕ → List ℕ × Bool
bump [] = ([], true)
bump (b ∷ bs) =
    let (bs', goes_on) = bump bs in
    let b' = (b + 1) % 256 in if goes_on then (b' ∷ bs', b' == 0) else (b ∷ bs', false)

unfoldable pub increment_ip : List ℕ → List ℕ
unfolding bump
increment_ip ip = (bump ip).0

-- `ip[len(ip)-1] = v`.
unfoldable pub set_last : ℕ → List ℕ → List ℕ
set_last v [] = []
set_last v (b ∷ []) = v ∷ []
set_last v (b ∷ c ∷ bs) = b ∷ set_last v (c ∷ bs)

-- A byte in decimal.
unfoldable pub decimal_byte : ℕ → GoString
decimal_byte n =
    if ltb n 10
    then (48 + n) ∷ []
    else if ltb n 100
    then (48 + n / 10) ∷ (48 + n % 10) ∷ []
    else (48 + n / 100) ∷ (48 + n / 10 % 10) ∷ (48 + n % 10) ∷ []

-- `net.IP.String` of an IPv4 address.
unfoldable pub ip_string : List ℕ → GoString
ip_string [] = []
ip_string (b ∷ []) = decimal_byte b
ip_string (b ∷ c ∷ bs) = decimal_byte b ++ b'.' ∷ ip_string (c ∷ bs)

pub record Network : Type 0 where
  pub base : List ℕ
  pub prefix_len : ℕ

abbrev pub block_size : Network → ℕ
block_size net = 2 ^ (32 - net.prefix_len)

-- `net.IPNet.Contains`: the leading bits are those of the base.
unfoldable pub net_contains : Network → List ℕ → Bool
net_contains net ip = value ip / block_size net == value net.base / block_size net

-- A byte of `net.CIDRMask`, with `k` of the prefix's bits left.
abbrev mask_byte : ℕ → ℕ
mask_byte k = 256 - 2 ^ (8 - min 8 k)

unfoldable pub mask : Network → List ℕ
mask net =
    let p = net.prefix_len in
    mask_byte p ∷ mask_byte (p - 8) ∷ mask_byte (p - 16) ∷ mask_byte (p - 24) ∷ []

-- `fmt.Sprintf("%d.%d.%d.%d", mask[0], mask[1], mask[2], mask[3])`.
unfoldable pub subnet_mask_of : Network → GoString
unfolding mask
subnet_mask_of net = ip_string (mask net)

abbrev pub IsByte : ℕ → Type 0
IsByte b = b < 256

pub value-lt : (bs : List ℕ) → All IsByte bs → value bs < 256 ^ length bs
unfolding value
value-lt [] a = omega arith
value-lt (b ∷ bs) a = rw (pow-suc 256 (length bs)) (grind (arith, value-lt bs a.1))

bump_bytes : (bs : List ℕ) → All IsByte bs → All IsByte (bump bs).0
unfolding bump
bump_bytes [] a = tt
bump_bytes (b ∷ bs) a = ground (arith, bump_bytes bs a.1)

pub increment_ip-bytes : (ip : List ℕ) → All IsByte ip → All IsByte (increment_ip ip)
unfolding increment_ip
increment_ip-bytes ip a = bump_bytes ip a

bump-length : (bs : List ℕ) → length (bump bs).0 ≡ length bs
unfolding bump
bump-length [] = refl
bump-length (b ∷ bs) = ground (arith, bump-length bs)

pub length-increment_ip : (ip : List ℕ) → length (increment_ip ip) ≡ length ip
unfolding increment_ip
length-increment_ip ip = bump-length ip

pub length-set_last : (n : ℕ) (bs : List ℕ) → length (set_last n bs) ≡ length bs
unfolding set_last
length-set_last n [] = refl
length-set_last n (b ∷ []) = refl
length-set_last n (b ∷ c ∷ bs) = ap suc (length-set_last n (c ∷ bs))

pub set_last-bytes : (n : ℕ) (bs : List ℕ) → IsByte n → All IsByte bs → All IsByte (set_last n bs)
unfolding set_last
set_last-bytes n [] h a = tt
set_last-bytes n (b ∷ []) h a = (h, tt)
set_last-bytes n (b ∷ c ∷ bs) h a = (a.0, set_last-bytes n (c ∷ bs) h a.1)

pub value-set_last :
    (m n : ℕ) (bs : List ℕ) → 0 < length bs → value (set_last m bs) + n ≡ value (set_last n bs) + m
unfolding set_last value
value-set_last m n [] h = absurd (omega arith)
value-set_last m n (b ∷ []) h = omega arith
value-set_last m n (b ∷ c ∷ bs) h =
    rw (length-set_last m (c ∷ bs), length-set_last n (c ∷ bs))
      (omega (arith, value-set_last m n (c ∷ bs) (omega arith)))

abbrev carry : Bool → ℕ
carry true = 1
carry false = 0

carry_byte :
    (b p v w : ℕ)
    → IsByte b
    → w + p ≡ v + 1
    → (b + 1) % 256 * p + w + carry ((b + 1) % 256 == 0) * (p * 256) ≡ b * p + v + 1
carry_byte b p v w h e = elim (Bool-cases (b == 255)) [
  | inl last ↦ let last' : b ≡ 255 = ground arith in rw last' (omega arith)
  | inr below ↦
      let b' : (b + 1) % 256 ≡ b + 1 = ground arith in rw b' (ground (arith, (==_iff (b + 1) 0).0))
]

-- The bytes and what goes on make up the number plus one.
bump-value :
    (bs : List ℕ)
    → All IsByte bs
    → value (bump bs).0 + carry (bump bs).1 * 256 ^ length bs ≡ value bs + 1
unfolding bump value
bump-value [] a = refl
bump-value (b ∷ bs) a = elim (Bool-cases (bump bs).1) [
  | inl on ↦
      rw (on, pow-suc 256 (length bs), bump-length bs)
        (carry_byte b (256 ^ length bs) (value bs) (value (bump bs).0) a.0
          (ground (arith, bump-value bs a.1)))
  | inr off ↦ rw (off, bump-length bs) (ground (arith, bump-value bs a.1))
]

wraps : (v w p : ℕ) → v < p → w + p ≡ v + 1 → w ≡ (v + 1) % p
wraps v w p h e = let last : v + 1 ≡ p = omega arith in rw (last, mod_self p) (omega arith)

-- `incrementIP` adds one to the address, read as a number, and goes back to 0 after the last one.
pub value-increment_ip :
    (ip : List ℕ) → All IsByte ip → value (increment_ip ip) ≡ (value ip + 1) % 256 ^ length ip
unfolding increment_ip
value-increment_ip ip a = elim (Bool-cases (bump ip).1) [
  | inl on ↦
      wraps (value ip) (value (bump ip).0) (256 ^ length ip) (value-lt ip a)
        (ground (arith, bump-value ip a))
  | inr off ↦
      let plus_one : value (bump ip).0 ≡ value ip + 1 = ground (arith, bump-value ip a) in
      let below : value (bump ip).0 < 256 ^ length ip =
        rw (← bump-length ip) (value-lt (bump ip).0 (bump_bytes ip a)) in
      plus_one ∙ sym (mod-eq_of_lt (omega (arith, plus_one, below)))
]

-- `String` tells addresses apart: the digits of a byte end where the dot begins.
decimal_byte-injective :
    (a b : ℕ) (x y : GoString)
    → IsByte a
    → IsByte b
    → decimal_byte a ++ b'.' ∷ x ≡ decimal_byte b ++ b'.' ∷ y
    → (a ≡ b) × (x ≡ y)
unfolding decimal_byte
decimal_byte-injective a b x y ha hb e = ground arith

decimal_byte-injective_last :
    (a b : ℕ) → IsByte a → IsByte b → decimal_byte a ≡ decimal_byte b → a ≡ b
unfolding decimal_byte
decimal_byte-injective_last a b ha hb e = ground arith

pub ip_string-injective :
    (a b : List ℕ)
    → All IsByte a
    → All IsByte b
    → length a ≡ length b
    → ip_string a ≡ ip_string b
    → a ≡ b
unfolding ip_string
ip_string-injective [] [] ha hb n e = refl
ip_string-injective [] (y ∷ b) ha hb n e = absurd (omega arith)
ip_string-injective (x ∷ a) [] ha hb n e = absurd (omega arith)
ip_string-injective (x ∷ []) (y ∷ []) ha hb n e =
    ap (λ (t : ℕ). t ∷ []) (decimal_byte-injective_last x y ha.0 hb.0 e)
ip_string-injective (x ∷ []) (y ∷ z ∷ b) ha hb n e = absurd (omega arith)
ip_string-injective (x ∷ w ∷ a) (y ∷ []) ha hb n e = absurd (omega arith)
ip_string-injective (x ∷ w ∷ a) (y ∷ z ∷ b) ha hb n e =
    let (heads, tails) =
      decimal_byte-injective x y (ip_string (w ∷ a)) (ip_string (z ∷ b)) ha.0 hb.0 e in
    cc (heads, ip_string-injective (w ∷ a) (z ∷ b) ha.1 hb.1 (omega arith) tails)
