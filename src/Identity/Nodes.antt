-- ===== src/Identity/Nodes.antt =====
-- Nodes: `CreateNode` makes a node for a new public key, and updates the one that has the key.
use gordion_vpn.Base.{◌≡◌, refl, ◌∙◌, Bool, true, false, Option, none, some, List, [], ◌∷◌, arith}
use gordion_vpn.Base.Bytes.{GoString, str_eq_refl}
use gordion_vpn.Grpc.{ok}
use gordion_vpn.Identity.{Node, Storage, find_key, updated, update_key, upsert, create_node}

find_key-update_key :
    (key version peer : GoString) (ns : List Node) (n : Node)
    → find_key key ns ≡ some n
    → find_key key (update_key key version peer ns) ≡ some (updated version peer n)
unfolding find_key update_key
find_key-update_key key version peer [] n e = cc
find_key-update_key key version peer (m ∷ ns) n e =
    ground (arith, find_key-update_key key version peer ns n)

new_first :
    (fresh key version peer : GoString) (db : Storage)
    → let p = upsert fresh key version peer none db in find_key key p.0.nodes ≡ some p.1
unfolding upsert find_key
new_first fresh key version peer db = ground (arith, str_eq_refl key)

upsert-find_key :
    (fresh key version peer : GoString) (o : Option Node) (db : Storage)
    → find_key key db.nodes ≡ o
    → let p = upsert fresh key version peer o db in find_key key p.0.nodes ≡ some p.1
unfolding upsert
upsert-find_key fresh key version peer (some n) db e =
    find_key-update_key key version peer db.nodes n e
upsert-find_key fresh key version peer none db e = new_first fresh key version peer db

-- The row that a `CreateNode` returns is the one that its public key then has.
pub create_node-find_key :
    (up : Bool) (fresh key version peer : GoString) (db : Storage) (n : Node)
    → (create_node up fresh key version peer db).1 ≡ ok n
    → find_key key (create_node up fresh key version peer db).0.nodes ≡ some n
unfolding create_node
create_node-find_key false fresh key version peer db n e = cc
create_node-find_key true fresh key version peer db n e =
    upsert-find_key fresh key version peer _ db refl ∙ ground arith

-- `CreateNode` for a key that has a row returns a row with the same id and key, or fails.
pub create_node-id :
    (up : Bool) (fresh key version peer : GoString) (db : Storage) (n m : Node)
    → find_key key db.nodes ≡ some n
    → (create_node up fresh key version peer db).1 ≡ ok m
    → m.id ≡ n.id
unfolding create_node upsert
create_node-id up fresh key version peer db n m f e = ground arith
