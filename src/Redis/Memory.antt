-- ===== src/Redis/Memory.antt =====
-- The server of `Store` keeps the laws of `Redis`, so they can hold; the tests run on it.
use gordion_vpn.Base.{
  ℕ, ◌+◌, ◌≡◌, refl, ◌⊎◌, inl, inr, true, false, ◌&&◌, none, some, List, [], ◌∷◌, Bool-cases,
  if◌then◌else◌, arith,
}
use gordion_vpn.Base.Bytes.{GoString, str_eq, eq_iff}
use gordion_vpn.Redis.{live, expiry, contains, found, failed, reply_of, is_live, renew, Redis}
use gordion_vpn.Redis.Store.{
  Store, fate, answers, reached, write, remove, mem_get, mem_exists, mem_smembers, mem_scard,
  mem_set, mem_del, mem_expire, mem_sadd, mem_srem, mem_has,
}

contains-remove :
    (x : GoString) (ys : List GoString) (y : GoString)
    → contains (remove x ys) y ≡ (if str_eq x y then false else contains ys y)
contains-remove x [] y = ground arith
contains-remove x (z ∷ ys) y =
    ground (arith, eq_iff x z, eq_iff x y, eq_iff z y, contains-remove x ys y)

pub get_reply :
    (now : ℕ) (k : GoString) (s : Store)
    → ((mem_get now k s).1 ≡ failed) ⊎ ((mem_get now k s).1 ≡ reply_of (live now (s.strings k)))
unfolding mem_get
get_reply now k s = ground arith

pub exists_reply :
    (now : ℕ) (k : GoString) (s : Store)
    → ((mem_exists now k s).1 ≡ failed)
      ⊎ ((mem_exists now k s).1 ≡ found (is_live (live now (s.strings k))))
unfolding mem_exists
exists_reply now k s = ground arith

pub smembers_reply :
    (k : GoString) (s : Store)
    → ((mem_smembers k s).1 ≡ failed)
      ⊎ ((xs : List GoString) × ((mem_smembers k s).1 ≡ found xs)
          × ((x : GoString) → contains xs x ≡ mem_has s k x))
unfolding mem_smembers mem_has
smembers_reply k s = elim (Bool-cases (answers (fate s.fates))) [
  | inl e ↦ inr (s.sets k, rw e, λ x. refl)
  | inr e ↦ inl (rw e)
]

pub write_done : (s t : Store) → (write s t).1 ≡ true → reached s ≡ true
write_done s t h = ground arith

pub set_entry :
    (now : ℕ) (k v : GoString) (ttl : ℕ) (s : Store) (j : GoString)
    → (mem_set now k v ttl s).0.strings j ≡ (
        if reached s && str_eq k j
        then some (record { value = v; expires = expiry now ttl })
        else s.strings j)
unfolding mem_set
set_entry now k v ttl s j = ground arith

pub del_entry :
    (k : GoString) (s : Store) (j : GoString)
    → (mem_del k s).0.strings j ≡ (if reached s && str_eq k j then none else s.strings j)
unfolding mem_del
del_entry k s j = ground arith

pub expire_entry :
    (now : ℕ) (k : GoString) (ttl : ℕ) (s : Store) (j : GoString)
    → (mem_expire now k ttl s).0.strings j ≡ (
        if reached s && str_eq k j && is_live (live now (s.strings k))
        then renew (s.strings j) (some (now + ttl))
        else s.strings j)
unfolding mem_expire
expire_entry now k ttl s j = ground (arith, eq_iff k j)

pub sadd_has :
    (k x : GoString) (s : Store) (j y : GoString)
    → mem_has (mem_sadd k x s).0 j y
      ≡ (if reached s && str_eq k j && str_eq x y then true else mem_has s j y)
unfolding mem_sadd mem_has
sadd_has k x s j y = ground (arith, eq_iff k j, eq_iff x y)

pub srem_has :
    (k x : GoString) (s : Store) (j y : GoString)
    → mem_has (mem_srem k x s).0 j y
      ≡ (if reached s && str_eq k j && str_eq x y then false else mem_has s j y)
unfolding mem_srem mem_has
srem_has k x s j y = ground (arith, eq_iff k j, eq_iff x y, contains-remove x (s.sets k) y)

pub set_has :
    (now : ℕ) (k v : GoString) (ttl : ℕ) (s : Store) (j x : GoString)
    → mem_has (mem_set now k v ttl s).0 j x ≡ mem_has s j x
unfolding mem_set mem_has
set_has now k v ttl s j x = ground arith

pub del_has :
    (k : GoString) (s : Store) (j x : GoString) → mem_has (mem_del k s).0 j x ≡ mem_has s j x
unfolding mem_del mem_has
del_has k s j x = ground arith

pub expire_has :
    (now : ℕ) (k : GoString) (ttl : ℕ) (s : Store) (j x : GoString)
    → mem_has (mem_expire now k ttl s).0 j x ≡ mem_has s j x
unfolding mem_expire mem_has
expire_has now k ttl s j x = ground arith

pub sadd_entry :
    (k x : GoString) (s : Store) (j : GoString) → (mem_sadd k x s).0.strings j ≡ s.strings j
unfolding mem_sadd
sadd_entry k x s j = ground arith

pub srem_entry :
    (k x : GoString) (s : Store) (j : GoString) → (mem_srem k x s).0.strings j ≡ s.strings j
unfolding mem_srem
srem_entry k x s j = ground arith

pub get_entry :
    (now : ℕ) (k : GoString) (s : Store) (j : GoString)
    → (mem_get now k s).0.strings j ≡ s.strings j
unfolding mem_get
get_entry now k s j = refl

pub get_has :
    (now : ℕ) (k : GoString) (s : Store) (j x : GoString)
    → mem_has (mem_get now k s).0 j x ≡ mem_has s j x
unfolding mem_get mem_has
get_has now k s j x = refl

pub exists_entry :
    (now : ℕ) (k : GoString) (s : Store) (j : GoString)
    → (mem_exists now k s).0.strings j ≡ s.strings j
unfolding mem_exists
exists_entry now k s j = refl

pub exists_has :
    (now : ℕ) (k : GoString) (s : Store) (j x : GoString)
    → mem_has (mem_exists now k s).0 j x ≡ mem_has s j x
unfolding mem_exists mem_has
exists_has now k s j x = refl

pub smembers_entry :
    (k : GoString) (s : Store) (j : GoString) → (mem_smembers k s).0.strings j ≡ s.strings j
unfolding mem_smembers
smembers_entry k s j = refl

pub smembers_has :
    (k : GoString) (s : Store) (j x : GoString) → mem_has (mem_smembers k s).0 j x ≡ mem_has s j x
unfolding mem_smembers mem_has
smembers_has k s j x = refl

pub scard_entry :
    (k : GoString) (s : Store) (j : GoString) → (mem_scard k s).0.strings j ≡ s.strings j
unfolding mem_scard
scard_entry k s j = refl

pub scard_has :
    (k : GoString) (s : Store) (j x : GoString) → mem_has (mem_scard k s).0 j x ≡ mem_has s j x
unfolding mem_scard mem_has
scard_has k s j x = refl

pub set_done :
    (now : ℕ) (k v : GoString) (ttl : ℕ) (s : Store)
    → (mem_set now k v ttl s).1 ≡ true
    → reached s ≡ true
unfolding mem_set
set_done now k v ttl s h = write_done s s h

pub del_done : (k : GoString) (s : Store) → (mem_del k s).1 ≡ true → reached s ≡ true
unfolding mem_del
del_done k s h = write_done s s h

pub expire_done :
    (now : ℕ) (k : GoString) (ttl : ℕ) (s : Store)
    → (mem_expire now k ttl s).1 ≡ true
    → reached s ≡ true
unfolding mem_expire
expire_done now k ttl s h = write_done s s h

pub sadd_done : (k x : GoString) (s : Store) → (mem_sadd k x s).1 ≡ true → reached s ≡ true
unfolding mem_sadd
sadd_done k x s h = write_done s s h

pub srem_done : (k x : GoString) (s : Store) → (mem_srem k x s).1 ≡ true → reached s ≡ true
unfolding mem_srem
srem_done k x s h = write_done s s h

abbrev pub memory : Redis
memory = record {
  State = Store;
  entry = λ s. s.strings;
  has = mem_has;
  carried = reached;
  get = mem_get;
  exists = mem_exists;
  set = mem_set;
  del = mem_del;
  expire = mem_expire;
  sadd = mem_sadd;
  srem = mem_srem;
  smembers = mem_smembers;
  scard = mem_scard;
  get_entry = get_entry;
  get_has = get_has;
  get_reply = get_reply;
  exists_entry = exists_entry;
  exists_has = exists_has;
  exists_reply = exists_reply;
  smembers_entry = smembers_entry;
  smembers_has = smembers_has;
  smembers_reply = smembers_reply;
  scard_entry = scard_entry;
  scard_has = scard_has;
  set_done = set_done;
  set_entry = set_entry;
  set_has = set_has;
  del_done = del_done;
  del_entry = del_entry;
  del_has = del_has;
  expire_done = expire_done;
  expire_entry = expire_entry;
  expire_has = expire_has;
  sadd_done = sadd_done;
  sadd_entry = sadd_entry;
  sadd_has = sadd_has;
  srem_done = srem_done;
  srem_entry = srem_entry;
  srem_has = srem_has;
}
