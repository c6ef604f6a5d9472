-- ===== src/Base/Decimal.antt =====
-- Numbers in decimal: the library functions `fmt.Sprint` and `strconv.Atoi`, by their documentation.
use gordion_vpn.Base.{
  ℕ, zero, suc, ◌+◌, ◌-◌, ◌*◌, ◌/◌, ◌%◌, ◌^◌, ◌≤◌, ◌<◌, ◌≡◌, refl, sym, ap, ◌∙◌, ◌&&◌, Option, none,
  some, [], ◌∷◌, ◌++◌, arith, if◌then◌else◌, ltb, leb, ltb→lt, ◌==◌, All, Bool-cases, inl, inr,
  subst,
}
use native.Mathlib.Nat.{pow-suc}
use gordion_vpn.Base.Bytes.{GoString}
use gordion_vpn.Base.Int.{ℤ, pos, negsuc}

-- The decimal digits of a number, on fuel: one round for each digit.
unfoldable pub digits : ℕ → ℕ → GoString
digits zero n = []
digits (suc fuel) n =
    let more = digits fuel (n / 10) in
    if ltb n 10 then (48 + n) ∷ [] else more ++ ((48 + n % 10) ∷ [])

-- `fmt.Sprint` of an `int32`, which has at most ten digits.
unfoldable pub sprint : ℤ → GoString
sprint (pos n) = digits 10 n
sprint (negsuc n) = 45 ∷ digits 10 (n + 1)

unfoldable pub read_digits : ℕ → GoString → Option ℕ
read_digits acc [] = some acc
read_digits acc (c ∷ cs) =
    let rest = read_digits (acc * 10 + (c - 48)) cs in if leb 48 c && leb c 57 then rest else none

positive : Option ℕ → Option ℤ
positive none = none
positive (some n) = if ltb n (2 ^ 63) then some (pos n) else none

negative : Option ℕ → Option ℤ
negative none = none
negative (some zero) = some (pos 0)
negative (some (suc n)) = if ltb n (2 ^ 63) then some (negsuc n) else none

number : GoString → Option ℕ
unfolding read_digits
number [] = none
number (c ∷ cs) = read_digits 0 (c ∷ cs)

-- `strconv.Atoi`.
unfoldable pub atoi : GoString → Option ℤ
unfolding positive negative number
atoi [] = none
atoi (c ∷ cs) =
    if c == 45
    then negative (number cs)
    else if c == 43
    then positive (number cs)
    else positive (number (c ∷ cs))

abbrev pub IsDigits : GoString → Type 0
IsDigits s = All (λ c. 48 ≤ c × c ≤ 57) s

snoc-IsDigits : (s : GoString) (c : ℕ) → IsDigits s → 48 ≤ c → c ≤ 57 → IsDigits (s ++ (c ∷ []))
snoc-IsDigits [] c d l u = ((l, u), tt)
snoc-IsDigits (x ∷ s) c (y, d) l u = (y, snoc-IsDigits s c d l u)

pub digits-IsDigits : (fuel n : ℕ) → IsDigits (digits fuel n)
unfolding digits
digits-IsDigits zero n = tt
digits-IsDigits (suc fuel) n = elim (Bool-cases (ltb n 10)) [
  | inl e ↦
      subst
        (λ b. IsDigits (if b then (48 + n) ∷ [] else digits fuel (n / 10) ++ ((48 + n % 10) ∷ [])))
        (sym e) ((omega arith, omega (arith, ltb→lt n 10 e)), tt)
  | inr e ↦
      subst
        (λ b. IsDigits (if b then (48 + n) ∷ [] else digits fuel (n / 10) ++ ((48 + n % 10) ∷ [])))
        (sym e)
        (snoc-IsDigits (digits fuel (n / 10)) (48 + n % 10) (digits-IsDigits fuel (n / 10))
          (omega arith) (omega arith))
]

read_digits-append :
    (acc c : ℕ) (s : GoString)
    → IsDigits s
    → 48 ≤ c
    → c ≤ 57
    → (m : ℕ) → read_digits acc s ≡ some m
    → read_digits acc (s ++ (c ∷ [])) ≡ some (m * 10 + (c - 48))
unfolding read_digits
read_digits-append acc c [] d l u m e = ground arith
read_digits-append acc c (x ∷ s) (y, d) l u m e =
    ground (arith, read_digits-append (acc * 10 + (x - 48)) c s d l u m)

read_digits-digits : (fuel n : ℕ) → n < 10 ^ fuel → read_digits 0 (digits fuel n) ≡ some n
unfolding read_digits digits
read_digits-digits zero n h = ground arith
read_digits-digits (suc fuel) n h = elim (Bool-cases (ltb n 10)) [
  | inl e ↦ ground arith
  | inr e ↦
      let h' : n / 10 < 10 ^ fuel = omega (arith, pow-suc 10 fuel) in
      let w : read_digits 0 (digits fuel (n / 10) ++ ((48 + n % 10) ∷ []))
          ≡ some (n / 10 * 10 + (48 + n % 10 - 48)) =
        read_digits-append 0 (48 + n % 10) (digits fuel (n / 10)) (digits-IsDigits fuel (n / 10))
          (omega arith) (omega arith) (n / 10) (read_digits-digits fuel (n / 10) h') in
      ground (arith, e, w)
]

snoc_cons : (s : GoString) (c : ℕ) → (x : ℕ) × (t : GoString) × (s ++ (c ∷ []) ≡ x ∷ t)
snoc_cons [] c = (c, [], refl)
snoc_cons (x ∷ s) c = (x, s ++ (c ∷ []), refl)

digits_cons : (n : ℕ) → (x : ℕ) × (t : GoString) × (digits 10 n ≡ x ∷ t)
unfolding digits
digits_cons n = elim (Bool-cases (ltb n 10)) [
  | inl e ↦ (48 + n, [], ground arith)
  | inr e ↦
      let (x, t, w) = snoc_cons (digits 9 (n / 10)) (48 + n % 10) in (x, t, ground (arith, e, w))
]

atoi_cons :
    (c : ℕ) (s : GoString) (n : ℕ)
    → IsDigits (c ∷ s)
    → read_digits 0 (c ∷ s) ≡ some n
    → n < 2 ^ 63
    → atoi (c ∷ s) ≡ some (pos n)
unfolding atoi number positive
atoi_cons c s n ((l, u), d) e h = ground arith

pub atoi-digits : (n : ℕ) → n < 10 ^ 10 → atoi (digits 10 n) ≡ some (pos n)
atoi-digits n h =
    let (c, s, e) = digits_cons n in
    ap atoi e
    ∙ atoi_cons c s n (subst IsDigits e (digits-IsDigits 10 n))
        (sym (ap (read_digits 0) e) ∙ read_digits-digits 10 n h) (omega arith)
