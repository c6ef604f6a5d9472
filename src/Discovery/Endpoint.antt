-- ===== src/Discovery/Endpoint.antt =====
-- How the discovery handler puts an address and a port into one string, and takes them apart.
use mathlib.Core.List.{append_assoc, append-nil}
use gordion_vpn.Base.{
  ℕ, ◌^◌, ◌<◌, ◌≡◌, ◌≢◌, refl, sym, ap, ◌∙◌, Option, none, some, List, [], ◌∷◌, ◌++◌, arith,
  if◌then◌else◌, ◌==◌, All, Bool-cases, inl, inr,
}
use gordion_vpn.Base.Bytes.{GoString, str}
use gordion_vpn.Base.Decimal.{digits, sprint, atoi, IsDigits, digits-IsDigits, atoi-digits}
use gordion_vpn.Base.Int.{ℤ, pos, int32, int32-pos}

unfoldable pub endpoint : GoString → ℤ → GoString
unfolding sprint
endpoint ip port = ip ++ str ":" ++ sprint port

-- `strings.Split(s, ":")`, with the part that is being read.
unfoldable pub split_colon : GoString → GoString → List GoString
split_colon part [] = part ∷ []
split_colon part (c ∷ cs) =
    let here = split_colon [] cs in
    let on = split_colon (part ++ (c ∷ [])) cs in if c == 58 then part ∷ here else on

port_of : Option ℤ → ℤ
port_of none = pos 0
port_of (some z) = int32 z

unfoldable pub from_parts : List GoString → GoString × ℤ
unfolding port_of
from_parts [] = ([], pos 0)
from_parts (ip ∷ []) = ([], pos 0)
from_parts (ip ∷ port ∷ []) = (ip, port_of (atoi port))
from_parts (ip ∷ port ∷ more ∷ rest) = ([], pos 0)

unfoldable pub parse_endpoint : GoString → GoString × ℤ
unfolding from_parts
parse_endpoint s = from_parts (split_colon [] s)

-- No colon.
abbrev pub IsPlain : GoString → Type 0
IsPlain s = All (λ c. c ≢ 58) s

split_colon-IsPlain : (part s : GoString) → IsPlain s → split_colon part s ≡ (part ++ s) ∷ []
unfolding split_colon
split_colon-IsPlain part [] p = ap (λ x. x ∷ []) (sym (append-nil part))
split_colon-IsPlain part (c ∷ cs) (n, p) =
    let e = split_colon-IsPlain (part ++ (c ∷ [])) cs p in
    ground (arith, e, n, append_assoc part (c ∷ []) cs)

split_colon-append :
    (part ip rest : GoString)
    → IsPlain ip
    → split_colon part (ip ++ (58 ∷ rest)) ≡ (part ++ ip) ∷ split_colon [] rest
unfolding split_colon
split_colon-append part [] rest p = ap (λ x. x ∷ split_colon [] rest) (sym (append-nil part))
split_colon-append part (c ∷ ip) rest (n, p) =
    let e = split_colon-append (part ++ (c ∷ [])) ip rest p in
    ground (arith, e, n, append_assoc part (c ∷ []) ip)

IsDigits-IsPlain : (s : GoString) → IsDigits s → IsPlain s
IsDigits-IsPlain [] d = tt
IsDigits-IsPlain (c ∷ s) ((l, u), d) = ((λ e. omega arith), IsDigits-IsPlain s d)

-- An address without a colon and a port that is not negative come back from the string they are
-- kept in.
pub parse_endpoint-endpoint :
    (ip : GoString) (port : ℕ)
    → IsPlain ip
    → port < 2 ^ 31
    → parse_endpoint (endpoint ip (pos port)) ≡ (ip, pos port)
unfolding parse_endpoint endpoint sprint from_parts port_of
parse_endpoint-endpoint ip port p h =
    let d = digits 10 port in
    ap (λ s. from_parts (split_colon [] s)) (append_assoc ip (58 ∷ []) d)
    ∙ ap from_parts (split_colon-append [] ip d p)
    ∙ ap (λ ps. from_parts (ip ∷ ps))
        (split_colon-IsPlain [] d (IsDigits-IsPlain d (digits-IsDigits 10 port)))
    ∙ ap (λ z. (ip, port_of z)) (atoi-digits port (omega arith))
    ∙ ap (λ z. (ip, z)) (int32-pos port h)

split_colon_one :
    (part s : GoString) → (x : GoString) × (zs : List GoString) × (split_colon part s ≡ x ∷ zs)
unfolding split_colon
split_colon_one part [] = (part, [], refl)
split_colon_one part (c ∷ cs) = elim (Bool-cases (c == 58)) [
  | inl e ↦ (part, split_colon [] cs, ground (arith, e))
  | inr e ↦ let (x, zs, w) = split_colon_one (part ++ (c ∷ [])) cs in (x, zs, ground (arith, e, w))
]

split_colon_two :
    (part s rest : GoString)
    → (x : GoString) × (y : GoString) × (zs : List GoString) × (split_colon part (s ++ (58 ∷ rest))
        ≡ x ∷ y ∷ zs)
unfolding split_colon
split_colon_two part [] rest =
    let (y, zs, w) = split_colon_one [] rest in (part, y, zs, ap (λ ps. part ∷ ps) w)
split_colon_two part (c ∷ cs) rest = elim (Bool-cases (c == 58)) [
  | inl e ↦
      let (y, zs, w) = split_colon_one [] (cs ++ (58 ∷ rest)) in (part, y, zs, ground (arith, e, w))
  | inr e ↦
      let (x, y, zs, w) = split_colon_two (part ++ (c ∷ [])) cs rest in
      (x, y, zs, ground (arith, e, w))
]

-- From an endpoint whose address has a colon, as every IPv6 address has, neither the address nor
-- the port is read back.
pub parse_endpoint-colon :
    (before after : GoString) (port : ℕ)
    → IsPlain before
    → parse_endpoint (endpoint (before ++ (58 ∷ after)) (pos port)) ≡ ([], pos 0)
unfolding parse_endpoint endpoint sprint from_parts
parse_endpoint-colon before after port p =
    let d = digits 10 port in
    let (x, y, zs, e) = split_colon_two [] after d in
    ap (λ s. from_parts (split_colon [] s))
      (append_assoc (before ++ (58 ∷ after)) (58 ∷ []) d
        ∙ append_assoc before (58 ∷ after) (58 ∷ d))
    ∙ ap from_parts (split_colon-append [] before (after ++ (58 ∷ d)) p)
    ∙ ap (λ ps. from_parts (before ∷ ps)) e
