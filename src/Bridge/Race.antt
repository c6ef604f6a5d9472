-- ===== src/Bridge/Race.antt =====
-- `AddPeer` looks for a relay and makes one under two separate holds of the mutex; a stream that
-- comes in between makes one too.
use gordion_vpn.Base.{ℕ, ◌+◌, ◌≡◌, ◌≢◌, sym, ap, ◌∙◌, subst, true, none, some, arith}
use gordion_vpn.Base.Bytes.{GoString, str_eq_refl}
use gordion_vpn.Bridge.{
  Relay, Bridge, lookup, put, allocate, adopt, allocate_relay, allocate_relay_no_stream,
  finish_incoming, handle_incoming,
}
use gordion_vpn.Bridge.Table.{IsValid, lookup-put}

-- The socket of port `n` is open and no relay's.
pub record IsOrphan (n : ℕ) (b : Bridge) : Type 0 where
  pub left_open : b.is_open n ≡ true
  pub ownerless : (p : GoString) (r : Relay) → lookup b.peers p ≡ some r → r.proxy_port ≢ n

IsOrphan-invalid : (n : ℕ) (b : Bridge) → IsOrphan n b → ¬ IsValid b
IsOrphan-invalid n b o v = let (p, r, f, g) = v.owned n o.left_open in o.ownerless p r f g

abbrev twice : GoString → ℕ → Bridge → Bridge
twice peer stream b = (allocate_relay_no_stream true peer (allocate true peer (some stream) b).0).0

twice-IsOrphan :
    (peer : GoString) (stream : ℕ) (b : Bridge)
    → IsValid b
    → (lookup (twice peer stream b).peers peer
        ≡ some (record { proxy_port = b.next_port + 1; stream = none }))
      × IsOrphan b.next_port (twice peer stream b)
unfolding allocate
twice-IsOrphan peer stream b v =
    let first : Relay = record { proxy_port = b.next_port; stream = some stream } in
    let second : Relay = record { proxy_port = b.next_port + 1; stream = none } in
    let at = λ (p : GoString). lookup-put peer second (put peer first b.peers) p in
    (
      at peer ∙ ground (arith, str_eq_refl peer),
      record {
        left_open = ground arith;
        ownerless = λ p r e g. ground (arith, at p, lookup-put peer first b.peers p, v.below p r);
      },
    )

-- `AddPeer` finds no relay for a peer and releases the mutex, the peer's stream comes in, and
-- `AddPeer` goes on: the peer ends up with a relay that has no stream, and the bridge holds a
-- socket that belongs to no relay.
pub incoming_between_orphans :
    (peer : GoString) (stream : ℕ) (b : Bridge)
    → IsValid b
    → lookup b.peers peer ≡ none
    → let c = (allocate_relay_no_stream true peer (handle_incoming true peer stream b)).0 in
      (lookup c.peers peer ≡ some (record { proxy_port = b.next_port + 1; stream = none }))
      × IsOrphan b.next_port c
      × ¬ IsValid c
unfolding handle_incoming allocate_relay finish_incoming adopt allocate
incoming_between_orphans peer stream b v e =
    let w : twice peer stream b
        ≡ (allocate_relay_no_stream true peer (handle_incoming true peer stream b)).0 =
      ap
        (λ o.
          (allocate_relay_no_stream true peer
            (finish_incoming stream (adopt o true peer stream b))).0)
        (sym e) in
    let (here, orphan) = twice-IsOrphan peer stream b v in
    subst
      (λ c.
        (lookup c.peers peer ≡ some (record { proxy_port = b.next_port + 1; stream = none }))
        × IsOrphan b.next_port c
        × ¬ IsValid c)
      w (here, orphan, IsOrphan-invalid b.next_port _ orphan)
