-- ===== src/Redis/Store.antt =====
-- The commands of a Redis server in memory, over a connection that loses the commands it is told to
-- lose.
use gordion_vpn.Base.{
  ℕ, ◌+◌, Bool, true, false, Option, none, some, List, [], ◌∷◌, if◌then◌else◌, length,
}
use gordion_vpn.Base.Bytes.{GoString, str_eq}
use gordion_vpn.Redis.{
  Entry, live, expiry, contains, Reply, found, failed, reply_of, is_live, renew,
}

-- What happens to a command: it is carried out and answered, carried out with its answer lost, or
-- lost on the way. `fates` tells it of the commands to come; the rest are answered.
pub data Fate : Type 0 where
  answered unanswered lost : Fate

pub record Store : Type 0 where
  pub strings : GoString → Option Entry
  pub sets : GoString → List GoString
  pub fates : List Fate

abbrev pub fate : List Fate → Fate
fate [] = answered
fate (f ∷ fs) = f

abbrev rest : List Fate → List Fate
rest [] = []
rest (f ∷ fs) = fs

abbrev reaches : Fate → Bool
reaches lost = false
reaches _ = true

abbrev pub answers : Fate → Bool
answers answered = true
answers _ = false

abbrev pub next : Store → Store
next s = record s { fates = rest s.fates }

abbrev pub reached : Store → Bool
reached s = reaches (fate s.fates)

abbrev read : {A : Type 0} → Store → Reply A → Store × Reply A
read s r = (next s, if answers (fate s.fates) then r else failed)

abbrev pub write : Store → Store → Store × Bool
write s t = (if reached s then next t else next s, answers (fate s.fates))

abbrev pub remove : GoString → List GoString → List GoString
remove x [] = []
remove x (y ∷ ys) = let r = remove x ys in if str_eq x y then r else y ∷ r

abbrev at {ℓ} : {A : Type ℓ} → GoString → A → (GoString → A) → GoString → A
at k v f j = if str_eq k j then v else f j

abbrev extend : ℕ → GoString → ℕ → Store → Option Entry
extend now k ttl s =
    if is_live (live now (s.strings k)) then renew (s.strings k) (some (now + ttl)) else s.strings k

unfoldable pub mem_get : ℕ → GoString → Store → Store × Reply GoString
mem_get now k s = read s (reply_of (live now (s.strings k)))

unfoldable pub mem_exists : ℕ → GoString → Store → Store × Reply Bool
mem_exists now k s = read s (found (is_live (live now (s.strings k))))

unfoldable pub mem_smembers : GoString → Store → Store × Reply (List GoString)
mem_smembers k s = read s (found (s.sets k))

unfoldable pub mem_scard : GoString → Store → Store × Reply ℕ
mem_scard k s = read s (found (length (s.sets k)))

unfoldable pub mem_set : ℕ → GoString → GoString → ℕ → Store → Store × Bool
mem_set now k v ttl s =
    write s (record s {
      strings = at k (some (record { value = v; expires = expiry now ttl })) s.strings;
    })

unfoldable pub mem_del : GoString → Store → Store × Bool
mem_del k s = write s (record s { strings = at k none s.strings })

unfoldable pub mem_expire : ℕ → GoString → ℕ → Store → Store × Bool
mem_expire now k ttl s = write s (record s { strings = at k (extend now k ttl s) s.strings })

unfoldable pub mem_sadd : GoString → GoString → Store → Store × Bool
mem_sadd k x s =
    write s
      (record s { sets = at k (if contains (s.sets k) x then s.sets k else x ∷ s.sets k) s.sets })

unfoldable pub mem_srem : GoString → GoString → Store → Store × Bool
mem_srem k x s = write s (record s { sets = at k (remove x (s.sets k)) s.sets })

unfoldable pub mem_has : Store → GoString → GoString → Bool
mem_has s k x = contains (s.sets k) x

-- A server that holds nothing, on a connection that meets the fates in turn.
abbrev pub empty : List Fate → Store
empty fates = record { strings = λ k. none; sets = λ k. []; fates = fates }
