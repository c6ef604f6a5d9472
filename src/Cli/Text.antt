-- ===== src/Cli/Text.antt =====
-- What the command line prints of lines and lists: cli/cmd/logs.go, peers.go and exitnode.go.
use gordion_vpn.Base.{
  ℕ, zero, suc, ◌+◌, ◌-◌, ◌≤◌, ◌<◌, ◌≡◌, refl, sym, ap, subst, ◌∙◌, ◌↔◌, ◌⊎◌, inl, inr, Bool, true,
  false, ◌&&◌, Option, none, some, List, [], ◌∷◌, ◌++◌, arith, if◌then◌else◌, leb, ltb, Bool-cases,
  length, take, drop, length-append, length-drop, take-append, drop-append, take_append_drop, map,
}
use gordion_vpn.Base.Bytes.{GoString, str, str_eq, is_empty, str_eq_refl, str_eq→eq}
use gordion_vpn.Base.Int.{ℤ, pos, negsuc}
use gordion_vpn.Discovery.{ListedPeer}
use gordion_vpn.Cli.{State}

-- The inner loop of `containsAny` from place `i` on, for `n` places.
unfoldable pub occurs_at : GoString → GoString → ℕ → ℕ → Bool
occurs_at s k zero i = false
occurs_at s k (suc n) i =
    let rest = occurs_at s k n (i + 1) in
    if str_eq (take (length k) (drop i s)) k then true else rest

unfoldable pub contains_any : GoString → List GoString → Bool
contains_any s [] = false
contains_any s (k ∷ ks) =
    let rest = contains_any s ks in
    if leb (length k) (length s) && occurs_at s k (length s - length k + 1) 0 then true else rest

-- The colour of a line.
pub data Level : Type 0 where
  error_ warn info debug other : Level

unfoldable pub level_of : GoString → Level
level_of line =
    if contains_any line (str "ERROR" ∷ str "error" ∷ str "ERR" ∷ [])
    then error_
    else if contains_any line (str "WARN" ∷ str "warn" ∷ str "WRN" ∷ [])
    then warn
    else if contains_any line (str "INFO" ∷ str "info" ∷ str "INF" ∷ [])
    then info
    else if contains_any line (str "DEBUG" ∷ str "debug" ∷ str "DBG" ∷ [])
    then debug
    else other

unfoldable pub format_log_line : GoString → Level × GoString
format_log_line line = (level_of line, str "  " ++ line)

pub data Printed : Type 0 where
  empty_log : Printed
  printed : List (Level × GoString) → Printed
  panics : Printed  -- a slice out of range

-- The slice from `start` on.
abbrev from_start : ℕ → List GoString → Printed
from_start start lines =
    if leb start (length lines) then printed (map format_log_line (drop start lines)) else panics

-- `len(lines) - n`, and 0 when that is negative.
abbrev start_of : ℕ → ℤ → ℕ
start_of len (pos n) = len - n
start_of len (negsuc n) = len + (n + 1)

unfoldable pub print_last : ℤ → List GoString → Printed
print_last n [] = empty_log
print_last n (l ∷ ls) = from_start (start_of (length (l ∷ ls)) n) (l ∷ ls)

-- The three bytes of the ellipsis.
abbrev pub ellipsis : GoString
ellipsis = 226 ∷ 128 ∷ 166 ∷ []

-- `n` is a width of a column, never 0.
unfoldable pub truncate : GoString → ℕ → GoString
truncate s n = if leb (length s) n then s else take (n - 1) s ++ ellipsis

-- The exit nodes of `exit-node list`, and which of them it marks as active.
unfoldable pub exit_nodes : List ListedPeer → List ListedPeer
exit_nodes [] = []
exit_nodes (p ∷ ps) = let rest = exit_nodes ps in if p.is_exit_node then p ∷ rest else rest

unfoldable pub is_active : Option State → GoString → Bool
is_active none id = false
is_active (some s) id =
    s.use_exit_node && (if is_empty s.exit_node_id then true else str_eq s.exit_node_id id)

-- The last `n` lines: the log is what comes before and they; fewer only if the log is shorter.
pub print_last-suffix :
    (n : ℕ) (l : GoString) (ls : List GoString)
    → (before : List GoString) × (shown : List GoString) × (print_last (pos n) (l ∷ ls)
        ≡ printed (map format_log_line shown))
      × (before ++ shown ≡ l ∷ ls)
      × (length shown ≡ (if leb n (length (l ∷ ls)) then n else length (l ∷ ls)))
unfolding print_last
print_last-suffix n l ls =
    let all = l ∷ ls in
    let start = length all - n in
    (
      take start all,
      drop start all,
      ground arith,
      take_append_drop start all,
      ground (arith, length-drop start all),
    )

-- A negative number of lines is a slice out of range.
pub print_last-negative :
    (n : ℕ) (l : GoString) (ls : List GoString) → print_last (negsuc n) (l ∷ ls) ≡ panics
unfolding print_last
print_last-negative n l ls = ground arith

-- `k` stands somewhere in `s`.
abbrev pub Infix : GoString → GoString → Type 0
Infix k s = (before : GoString) × (after : GoString) × (s ≡ before ++ (k ++ after))

occurs_at-Infix : (s k : GoString) (n i : ℕ) → occurs_at s k n i ≡ true → Infix k s
unfolding occurs_at
occurs_at-Infix s k zero i e = absurd (ground (arith, e))
occurs_at-Infix s k (suc n) i e = elim (Bool-cases (str_eq (take (length k) (drop i s)) k)) [
  | inl here ↦
      let there = str_eq→eq (take (length k) (drop i s)) k here in
      let rest = drop (length k) (drop i s) in
      let split = sym (take_append_drop (length k) (drop i s)) ∙ ap (λ ys. ys ++ rest) there in
      (take i s, rest, sym (take_append_drop i s) ∙ ap (λ ys. take i s ++ ys) split)
  | inr further ↦ occurs_at-Infix s k n (i + 1) (ground (arith, e, further))
]

str_eq-here :
    (before k after : GoString)
    → str_eq (take (length k) (drop (length before) (before ++ (k ++ after)))) k ≡ true
str_eq-here before k after =
    rw (drop-append before (k ++ after), take-append k after, str_eq_refl k)

Infix-occurs_at :
    (before k after : GoString) (n i : ℕ)
    → i ≤ length before
    → length before < i + n
    → occurs_at (before ++ (k ++ after)) k n i ≡ true
unfolding occurs_at
Infix-occurs_at before k after zero i a b = absurd (omega (arith, a, b))
Infix-occurs_at before k after (suc n) i a b = elim (Bool-cases (ltb i (length before))) [
  | inl less ↦
      let later =
        Infix-occurs_at before k after n (i + 1) (ground (arith, less)) (omega (arith, b)) in
      ground (arith, later)
  | inr last ↦
      let here : i ≡ length before = ground (arith, last, a) in
      rw (here, str_eq-here before k after)
]

occurs-Infix :
    (s k : GoString)
    → ((leb (length k) (length s) && occurs_at s k (length s - length k + 1) 0) ≡ true) ↔ Infix k s
occurs-Infix s k = (
  λ e. occurs_at-Infix s k (length s - length k + 1) 0 (ground (arith, e)),
  λ (before, after, e).
      let n = length s - length k + 1 in
      let size : length s ≡ length before + (length k + length after) =
        ap length e ∙ omega (arith, length-append before (k ++ after), length-append k after) in
      let found = Infix-occurs_at before k after n 0 (omega arith) (omega (arith, size)) in
      ground (arith, size, subst (λ t. occurs_at t k n 0 ≡ true) (sym e) found),
)

any_step :
    {P Q : Type 0} (b r : Bool)
    → ((b ≡ true) ↔ P)
    → ((r ≡ true) ↔ Q)
    → ((if b then true else r) ≡ true) ↔ (P ⊎ Q)
any_step true r p q = (λ e. inl (p.0 refl), λ x. refl)
any_step false r p q =
    (λ e. inr (q.0 e), λ x. elim x [ inl a ↦ absurd (ground (arith, p.1 a)) | inr c ↦ q.1 c ])

-- Some keyword of the list stands in `s`.
abbrev pub AnyInfix : List GoString → GoString → Type 0
AnyInfix [] s = ⊥
AnyInfix (k ∷ ks) s = Infix k s ⊎ AnyInfix ks s

-- `containsAny` finds a keyword exactly when one of them stands somewhere in the text.
pub contains_any-AnyInfix :
    (s : GoString) (ks : List GoString) → (contains_any s ks ≡ true) ↔ AnyInfix ks s
unfolding contains_any
contains_any-AnyInfix s [] = (λ e. ground (arith, e), λ e. absurd e)
contains_any-AnyInfix s (k ∷ ks) =
    any_step _ (contains_any s ks) (occurs-Infix s k) (contains_any-AnyInfix s ks)
