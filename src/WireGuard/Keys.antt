-- ===== src/WireGuard/Keys.antt =====
-- services/agent/internal/wireguard/keygen.go: the clamping of a private key. A key is its bytes.
-- The random bytes, the multiplication on the curve and base64 are parameters.
use gordion_vpn.Base.{ℕ, ◌+◌, ◌*◌, ◌/◌, ◌%◌, ◌^◌, ◌≤◌, ◌<◌, ◌≡◌, List, [], ◌∷◌, arith, length, All}
use gordion_vpn.Base.Bytes.{GoString, str}
use gordion_vpn.Grpc.{wrap, Result, ok, err}

pub record KeyPair : Type 0 where
  pub private_key : GoString
  pub public_key : GoString

-- `b &= 248`, and `b &= 127` followed by `b |= 64`.
abbrev pub clear_low : ℕ → ℕ
clear_low b = b / 8 * 8

abbrev pub set_high : ℕ → ℕ
set_high b = b % 128 % 64 + 64

abbrev pub clamp_last : List ℕ → List ℕ
clamp_last [] = []
clamp_last (b ∷ []) = set_high b ∷ []
clamp_last (b ∷ c ∷ cs) = b ∷ clamp_last (c ∷ cs)

unfoldable pub clamp : List ℕ → List ℕ
clamp [] = []
clamp (b ∷ bs) = clear_low b ∷ clamp_last bs

abbrev pub made : (List ℕ → List ℕ) → (List ℕ → GoString) → List ℕ → KeyPair
made base_mult encode key = record { private_key = encode key; public_key = encode (base_mult key) }

unfoldable pub generate_key_pair :
    (List ℕ → List ℕ) → (List ℕ → GoString) → Result (List ℕ) → Result KeyPair
generate_key_pair base_mult encode (err e) = err (wrap (str "failed to generate private key") e)
generate_key_pair base_mult encode (ok random) = ok (made base_mult encode (clamp random))

-- The number that the bytes of a key stand for, the lowest byte first.
unfoldable pub scalar : List ℕ → ℕ
scalar [] = 0
scalar (b ∷ bs) = b + 256 * scalar bs

abbrev pub IsByte : ℕ → Type 0
IsByte b = b < 256

scalar-clamp_last :
    (b : ℕ) (bs : List ℕ)
    → All IsByte (b ∷ bs)
    → (64 * 256 ^ length bs ≤ scalar (clamp_last (b ∷ bs)))
      × (scalar (clamp_last (b ∷ bs)) < 128 * 256 ^ length bs)
unfolding scalar
scalar-clamp_last b [] (lt, more) = ground arith
scalar-clamp_last b (c ∷ cs) (lt, more) = ground (arith, scalar-clamp_last c cs more)

-- Of 32 random bytes, the private key is a scalar as X25519 wants it: at least 2^254, below 2^255,
-- and a multiple of 8.
pub scalar-clamp :
    (b : ℕ) (bs : List ℕ)
    → All IsByte (b ∷ bs)
    → length bs ≡ 31
    → (2 ^ 254 ≤ scalar (clamp (b ∷ bs)))
      × (scalar (clamp (b ∷ bs)) < 2 ^ 255)
      × (scalar (clamp (b ∷ bs)) % 8 ≡ 0)
unfolding scalar clamp
scalar-clamp b [] (lt, more) n = ground (arith, n)
scalar-clamp b (c ∷ cs) (lt, more) n = ground (arith, n, scalar-clamp_last c cs more)
