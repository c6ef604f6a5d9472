-- ===== src/Bridge/Table.antt =====
-- The table of relays and the sockets: what one part of a call leaves of them.
use gordion_vpn.Base.{
  ℕ, ◌<◌, ◌≡◌, refl, sym, ◌∙◌, Bool, true, false, Option, none, some, List, [], ◌∷◌, inl, inr,
  arith, if◌then◌else◌, ◌==◌, Bool-cases,
}
use gordion_vpn.Base.Bytes.{GoString, str_eq, str_eq_refl, eq_iff}
use gordion_vpn.Grpc.{Result, ok, err}
use gordion_vpn.Bridge.{
  Relay, Bridge, lookup, delete, put, new_bridge, allocate, adopt, allocate_relay, finish_incoming,
  wait_for, finish_add, open_stream, remove_found,
}

pub lookup-delete :
    (k : GoString) (xs : List (GoString × Relay)) (j : GoString)
    → lookup (delete k xs) j ≡ (if str_eq k j then none else lookup xs j)
lookup-delete k [] j = ground arith
lookup-delete k ((i, v) ∷ xs) j =
    ground (arith, eq_iff k j, eq_iff i k, eq_iff i j, lookup-delete k xs j)

pub lookup-put :
    (k : GoString) (v : Relay) (xs : List (GoString × Relay)) (j : GoString)
    → lookup (put k v xs) j ≡ (if str_eq k j then some v else lookup xs j)
lookup-put k v xs j = ground (arith, lookup-delete k xs j)

-- Every relay has a port and a socket of its own, below the next port, and the bridge holds no
-- other socket.
pub record IsValid (b : Bridge) : Type 0 where
  pub below : (p : GoString) (r : Relay) → lookup b.peers p ≡ some r → r.proxy_port < b.next_port
  pub opened :
      (p : GoString) (r : Relay) → lookup b.peers p ≡ some r → b.is_open r.proxy_port ≡ true
  pub distinct :
      (p q : GoString) (r t : Relay)
      → lookup b.peers p ≡ some r
      → lookup b.peers q ≡ some t
      → r.proxy_port ≡ t.proxy_port
      → p ≡ q
  pub owned :
      (n : ℕ)
      → b.is_open n ≡ true
      → (p : GoString) × (r : Relay) × (lookup b.peers p ≡ some r) × (r.proxy_port ≡ n)

pub new_bridge-IsValid : (base : ℕ) → IsValid (new_bridge base)
unfolding new_bridge
new_bridge-IsValid base = record {
  below = λ p r e. cc;
  opened = λ p r e. cc;
  distinct = λ p q r t e f g. cc;
  owned = λ n e. cc;
}

allocate-IsValid :
    (bound : Bool) (peer : GoString) (stream : Option ℕ) (b : Bridge)
    → IsValid b
    → lookup b.peers peer ≡ none
    → IsValid (allocate bound peer stream b).0
unfolding allocate
allocate-IsValid true peer stream b v e =
    let new : Relay = record { proxy_port = b.next_port; stream = stream } in
    let at = λ (j : GoString). lookup-put peer new b.peers j in
    record {
      below = λ p r f. ground (arith, at p, v.below p r);
      opened = λ p r f. ground (arith, at p, v.opened p r, v.below p r);
      distinct = λ p q r t f g n. ground (
        arith,
        at p,
        at q,
        v.below p r,
        v.below q t,
        eq_iff peer p,
        eq_iff peer q,
        v.distinct p q r t,
      );
      owned = λ n o. elim (Bool-cases (b.next_port == n)) [
        | inl x ↦ (peer, new, at peer ∙ ground (arith, str_eq_refl peer), ground arith)
        | inr x ↦
            let (p, r, f, g) = v.owned n (ground arith) in
            (p, r, ground (arith, at p, eq_iff peer p), g)
      ];
    }
allocate-IsValid false peer stream b v e = record {
  below = λ p r f. ground (arith, v.below p r);
  opened = v.opened;
  distinct = v.distinct;
  owned = v.owned;
}

-- A relay replaced by one on the same port.
port_kept :
    (peer : GoString) (new old : Relay) (xs : List (GoString × Relay)) (p : GoString) (r : Relay)
    → lookup xs peer ≡ some old
    → new.proxy_port ≡ old.proxy_port
    → lookup (put peer new xs) p ≡ some r
    → (t : Relay) × (lookup xs p ≡ some t) × (r.proxy_port ≡ t.proxy_port)
port_kept peer new old xs p r e n f = elim (Bool-cases (str_eq peer p)) [
  | inl x ↦ (old, ground (arith, eq_iff peer p), ground (arith, lookup-put peer new xs p))
  | inr x ↦ (r, ground (arith, lookup-put peer new xs p), refl)
]

pub adopt-IsValid :
    (relay : Option Relay) (bound : Bool) (peer : GoString) (stream : ℕ) (b : Bridge)
    → IsValid b
    → lookup b.peers peer ≡ relay
    → IsValid (adopt relay bound peer stream b).0
unfolding adopt
adopt-IsValid (some relay) bound peer stream b v e =
    let new = record relay { stream = some stream } in
    let at = λ (j : GoString). lookup-put peer new b.peers j in
    let old = λ (p : GoString) (r : Relay) (f : lookup (put peer new b.peers) p ≡ some r).
      port_kept peer new relay b.peers p r e refl f in
    record {
      below = λ p r f. let (t, g, n) = old p r f in ground (arith, v.below p t g);
      opened = λ p r f. let (t, g, n) = old p r f in ground (arith, v.opened p t g);
      distinct = λ p q r t f g n.
          let (r', f', m) = old p r f in
          let (t', g', k) = old q t g in v.distinct p q r' t' f' g' (sym m ∙ n ∙ k);
      owned = λ n o.
          let (p, r, f, g) = v.owned n o in
          elim (Bool-cases (str_eq peer p)) [
            | inl x ↦ (p, new, at p ∙ ground arith, ground (arith, eq_iff peer p))
            | inr x ↦ (p, r, at p ∙ ground arith, g)
          ];
    }
adopt-IsValid none bound peer stream b v e = allocate-IsValid bound peer (some stream) b v e

pub remove_found-IsValid :
    (relay : Option Relay) (peer : GoString) (b : Bridge)
    → IsValid b
    → lookup b.peers peer ≡ relay
    → IsValid (remove_found relay peer b)
unfolding remove_found
remove_found-IsValid none peer b v e = v
remove_found-IsValid (some relay) peer b v e =
    let at = λ (j : GoString). lookup-delete peer b.peers j in
    record {
      below = λ p r f. ground (arith, at p, v.below p r);
      opened =
          λ p r f. ground (arith, at p, v.opened p r, v.distinct peer p relay r, eq_iff peer p);
      distinct = λ p q r t f g n. ground (arith, at p, at q, v.distinct p q r t);
      owned = λ n o.
          let (p, r, f, g) = v.owned n (ground arith) in
          (p, r, ground (arith, at p, eq_iff peer p), g);
    }

pub finish_incoming-IsValid :
    (stream : ℕ) (p : Bridge × Result ℕ) → IsValid p.0 → IsValid (finish_incoming stream p)
unfolding finish_incoming
finish_incoming-IsValid stream (b, ok port) v = v
finish_incoming-IsValid stream (b, err e) v = record {
  below = v.below;
  opened = v.opened;
  distinct = v.distinct;
  owned = v.owned;
}

finish_add-IsValid :
    (stream : ℕ) (p : Bridge × Result ℕ) → IsValid p.0 → IsValid (finish_add stream p).0
unfolding finish_add
finish_add-IsValid stream (b, ok port) v = v
finish_add-IsValid stream (b, err e) v = record {
  below = v.below;
  opened = v.opened;
  distinct = v.distinct;
  owned = v.owned;
}

pub open_stream-IsValid :
    (bound : Bool) (peer : GoString) (opened : Option ℕ) (b : Bridge)
    → IsValid b
    → IsValid (open_stream bound peer opened b).0
unfolding open_stream allocate_relay
open_stream-IsValid bound peer none b v = v
open_stream-IsValid bound peer (some stream) b v =
    finish_add-IsValid stream _ (adopt-IsValid (lookup b.peers peer) bound peer stream b v refl)

pub wait_for-IsValid :
    (relay : Option Relay) (bound : Bool) (peer : GoString) (b : Bridge)
    → IsValid b
    → lookup b.peers peer ≡ relay
    → IsValid (wait_for relay bound peer b).0
unfolding wait_for
wait_for-IsValid (some relay) bound peer b v e = v
wait_for-IsValid none bound peer b v e = allocate-IsValid bound peer none b v e
