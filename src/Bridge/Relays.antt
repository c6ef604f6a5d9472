-- ===== src/Bridge/Relays.antt =====
-- The table of relays: which ports and sockets it holds, after any calls one after the other.
use gordion_vpn.Base.{
  ℕ, ◌≡◌, ◌≢◌, refl, Bool, true, false, Option, some, List, [], ◌∷◌, inl, inr, arith, Bool-cases,
}
use gordion_vpn.Base.Bytes.{GoString}
use gordion_vpn.Bridge.{
  Relay, Bridge, lookup, new_bridge, allocate_relay, handle_incoming, add_peer, is_less,
  remove_peer, close_relays, close,
}
use gordion_vpn.Bridge.Table.{
  IsValid, new_bridge-IsValid, adopt-IsValid, remove_found-IsValid, finish_incoming-IsValid,
  open_stream-IsValid, wait_for-IsValid,
}

-- After `Close` no socket of the closed relays is open.
close_relays-is_open :
    (xs : List (GoString × Relay)) (b : Bridge) (n : ℕ)
    → (close_relays xs b).is_open n ≡ true
    → (b.is_open n ≡ true) × ((p : GoString) (r : Relay) → lookup xs p ≡ some r → r.proxy_port ≢ n)
unfolding close_relays
close_relays-is_open [] b n o = (o, λ p r e. cc)
close_relays-is_open ((q, t) ∷ xs) b n o =
    let (o', rest) = close_relays-is_open xs _ n o in
    (ground arith, λ p r e. ground (arith, rest p r))

close_relays-peers :
    (xs : List (GoString × Relay)) (b : Bridge) → (close_relays xs b).peers ≡ b.peers
unfolding close_relays
close_relays-peers [] b = refl
close_relays-peers ((q, t) ∷ xs) b = close_relays-peers xs _

-- `Close` leaves no relay and no socket.
pub close-is_open :
    (b : Bridge) → IsValid b → ((close b).peers ≡ []) × ((n : ℕ) → (close b).is_open n ≡ false)
unfolding close
close-is_open b v = (
  close_relays-peers b.peers _,
  λ n. elim (Bool-cases ((close b).is_open n)) [
    | inl o ↦
        let (o', rest) = close_relays-is_open b.peers (record b { peers = [] }) n o in
        let (p, r, f, g) = v.owned n o' in absurd (rest p r f g)
    | inr c ↦ c
  ],
)

close-IsValid : (b : Bridge) → IsValid b → IsValid (close b)
close-IsValid b v =
    let (none_left, shut) = close-is_open b v in
    record {
      below = λ p r e. ground (arith, none_left);
      opened = λ p r e. ground (arith, none_left);
      distinct = λ p q r t e f g. ground (arith, none_left);
      owned = λ n o. ground (arith, shut n);
    }

-- The calls of the bridge, with what libp2p and the system answer.
pub data Op : Type 0 where
  incoming : Bool → GoString → ℕ → Op
  add : Bool → Option ℕ → GoString → Op
  remove : GoString → Op
  shut_down : Op

unfoldable pub apply : GoString → Op → Bridge → Bridge
apply self (incoming bound peer stream) b = handle_incoming bound peer stream b
apply self (add bound opened peer) b = (add_peer self bound opened peer b).0
apply self (remove peer) b = remove_peer peer b
apply self shut_down b = close b

unfoldable pub run : GoString → List Op → Bridge → Bridge
run self [] b = b
run self (op ∷ ops) b = run self ops (apply self op b)

add_peer-IsValid :
    (first : Bool) (self : GoString) (bound : Bool) (opened : Option ℕ) (peer : GoString)
    (b : Bridge)
    → IsValid b
    → is_less self peer ≡ first
    → IsValid (add_peer self bound opened peer b).0
unfolding add_peer
add_peer-IsValid true self bound opened peer b v e =
    rw (add_peer, e) (wait_for-IsValid (lookup b.peers peer) bound peer b v refl)
add_peer-IsValid false self bound opened peer b v e =
    rw (add_peer, e) (open_stream-IsValid bound peer opened b v)

apply-IsValid : (self : GoString) (op : Op) (b : Bridge) → IsValid b → IsValid (apply self op b)
unfolding apply handle_incoming add_peer allocate_relay remove_peer
apply-IsValid self (incoming bound peer stream) b v =
    finish_incoming-IsValid stream _
      (adopt-IsValid (lookup b.peers peer) bound peer stream b v refl)
apply-IsValid self (add bound opened peer) b v =
    add_peer-IsValid (is_less self peer) self bound opened peer b v refl
apply-IsValid self (remove peer) b v = remove_found-IsValid (lookup b.peers peer) peer b v refl
apply-IsValid self shut_down b v = close-IsValid b v

run-IsValid : (self : GoString) (ops : List Op) (b : Bridge) → IsValid b → IsValid (run self ops b)
unfolding run
run-IsValid self [] b v = v
run-IsValid self (op ∷ ops) b v = run-IsValid self ops (apply self op b) (apply-IsValid self op b v)

-- After any sequence of calls on a new bridge, whatever streams and ports fail, the relays have
-- different ports below the next one, and the sockets that the bridge holds are exactly those of
-- its relays.
pub run-new_bridge-IsValid :
    (self : GoString) (base : ℕ) (ops : List Op) → IsValid (run self ops (new_bridge base))
run-new_bridge-IsValid self base ops =
    run-IsValid self ops (new_bridge base) (new_bridge-IsValid base)
