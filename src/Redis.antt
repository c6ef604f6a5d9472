-- ===== src/Redis.antt =====
-- The Redis server that the config and discovery services keep their data in: third-party code, so
-- a parameter of the model. Its laws are the documented behaviour of the commands used, over an
-- unreliable connection: a command whose call returns an error may or may not have been carried
-- out, and a call that returns no error was.
pub mod Store
pub mod Memory
use gordion_vpn.Base.{
  ℕ, ◌+◌, ◌≡◌, ◌⊎◌, Bool, true, false, ◌&&◌, ◌||◌, Option, none, some, List, [], ◌∷◌, leb,
  if◌then◌else◌, ◌==◌,
}
use gordion_vpn.Base.Bytes.{GoString, str_eq}

-- A string key's value, and when it expires.
pub record Entry : Type 0 where
  pub value : GoString
  pub expires : Option ℕ

abbrev pub is_over : ℕ → Option ℕ → Bool
is_over now none = false
is_over now (some t) = leb t now

abbrev pub live : ℕ → Option Entry → Option GoString
live now none = none
live now (some e) = if is_over now e.expires then none else some e.value

abbrev pub is_live : Option GoString → Bool
is_live none = false
is_live (some v) = true

-- A time to live of 0 means that the key does not expire.
abbrev pub expiry : ℕ → ℕ → Option ℕ
expiry now ttl = if ttl == 0 then none else some (now + ttl)

abbrev pub contains : List GoString → GoString → Bool
contains [] x = false
contains (y ∷ ys) x = str_eq y x || contains ys x

-- What a read returns; `missing` is redis.Nil.
pub data Reply (A : Type 0) : Type 0 where
  found : A → Reply A
  missing : Reply A
  failed : Reply A

abbrev pub reply_of : {A : Type 0} → Option A → Reply A
reply_of none = missing
reply_of (some a) = found a

abbrev pub renew : Option Entry → Option ℕ → Option Entry
renew none t = none
renew (some e) t = some (record e { expires = t })

-- Each command takes the server's clock where expiry matters. A write returns whether its call
-- returned no error; `carried s` says whether the server carries out the command sent in `s`.
pub record Redis : Type 1 where
  pub State : Type 0
  pub entry : State → GoString → Option Entry
  pub has : State → GoString → GoString → Bool
  pub carried : State → Bool
  pub get : ℕ → GoString → State → State × Reply GoString
  pub exists : ℕ → GoString → State → State × Reply Bool
  pub set : ℕ → GoString → GoString → ℕ → State → State × Bool
  pub del : GoString → State → State × Bool
  pub expire : ℕ → GoString → ℕ → State → State × Bool
  pub sadd : GoString → GoString → State → State × Bool
  pub srem : GoString → GoString → State → State × Bool
  pub smembers : GoString → State → State × Reply (List GoString)
  pub scard : GoString → State → State × Reply ℕ
  -- Reads change nothing, and return what is there if they return.
  pub get_entry :
      (now : ℕ) (k : GoString) (s : State) (j : GoString) → entry (get now k s).0 j ≡ entry s j
  pub get_has :
      (now : ℕ) (k : GoString) (s : State) (j x : GoString) → has (get now k s).0 j x ≡ has s j x
  pub get_reply :
      (now : ℕ) (k : GoString) (s : State)
      → ((get now k s).1 ≡ failed) ⊎ ((get now k s).1 ≡ reply_of (live now (entry s k)))
  pub exists_entry :
      (now : ℕ) (k : GoString) (s : State) (j : GoString) → entry (exists now k s).0 j ≡ entry s j
  pub exists_has :
      (now : ℕ) (k : GoString) (s : State) (j x : GoString) → has (exists now k s).0 j x ≡ has s j x
  pub exists_reply :
      (now : ℕ) (k : GoString) (s : State)
      → ((exists now k s).1 ≡ failed)
        ⊎ ((exists now k s).1 ≡ found (is_live (live now (entry s k))))
  pub smembers_entry :
      (k : GoString) (s : State) (j : GoString) → entry (smembers k s).0 j ≡ entry s j
  pub smembers_has :
      (k : GoString) (s : State) (j x : GoString) → has (smembers k s).0 j x ≡ has s j x
  pub smembers_reply :
      (k : GoString) (s : State)
      → ((smembers k s).1 ≡ failed)
        ⊎ ((xs : List GoString) × ((smembers k s).1 ≡ found xs)
            × ((x : GoString) → contains xs x ≡ has s k x))
  pub scard_entry : (k : GoString) (s : State) (j : GoString) → entry (scard k s).0 j ≡ entry s j
  pub scard_has : (k : GoString) (s : State) (j x : GoString) → has (scard k s).0 j x ≡ has s j x
  -- Writes.
  pub set_done :
      (now : ℕ) (k v : GoString) (ttl : ℕ) (s : State)
      → (set now k v ttl s).1 ≡ true
      → carried s ≡ true
  pub set_entry :
      (now : ℕ) (k v : GoString) (ttl : ℕ) (s : State) (j : GoString)
      → entry (set now k v ttl s).0 j ≡ (
          if carried s && str_eq k j
          then some (record { value = v; expires = expiry now ttl })
          else entry s j)
  pub set_has :
      (now : ℕ) (k v : GoString) (ttl : ℕ) (s : State) (j x : GoString)
      → has (set now k v ttl s).0 j x ≡ has s j x
  pub del_done : (k : GoString) (s : State) → (del k s).1 ≡ true → carried s ≡ true
  pub del_entry :
      (k : GoString) (s : State) (j : GoString)
      → entry (del k s).0 j ≡ (if carried s && str_eq k j then none else entry s j)
  pub del_has : (k : GoString) (s : State) (j x : GoString) → has (del k s).0 j x ≡ has s j x
  pub expire_done :
      (now : ℕ) (k : GoString) (ttl : ℕ) (s : State)
      → (expire now k ttl s).1 ≡ true
      → carried s ≡ true
  pub expire_entry :
      (now : ℕ) (k : GoString) (ttl : ℕ) (s : State) (j : GoString)
      → entry (expire now k ttl s).0 j ≡ (
          if carried s && str_eq k j && is_live (live now (entry s k))
          then renew (entry s j) (some (now + ttl))
          else entry s j)
  pub expire_has :
      (now : ℕ) (k : GoString) (ttl : ℕ) (s : State) (j x : GoString)
      → has (expire now k ttl s).0 j x ≡ has s j x
  pub sadd_done : (k x : GoString) (s : State) → (sadd k x s).1 ≡ true → carried s ≡ true
  pub sadd_entry : (k x : GoString) (s : State) (j : GoString) → entry (sadd k x s).0 j ≡ entry s j
  pub sadd_has :
      (k x : GoString) (s : State) (j y : GoString)
      → has (sadd k x s).0 j y ≡ (if carried s && str_eq k j && str_eq x y then true else has s j y)
  pub srem_done : (k x : GoString) (s : State) → (srem k x s).1 ≡ true → carried s ≡ true
  pub srem_entry : (k x : GoString) (s : State) (j : GoString) → entry (srem k x s).0 j ≡ entry s j
  pub srem_has :
      (k x : GoString) (s : State) (j y : GoString)
      → has (srem k x s).0 j y
        ≡ (if carried s && str_eq k j && str_eq x y then false else has s j y)
