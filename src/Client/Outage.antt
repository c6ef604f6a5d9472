-- ===== src/Client/Outage.antt =====
-- What the breaker of the identity service does to nodes that look up keys which are not there:
-- `syncPeers` asks for the key of every peer that is listed, through the breaker of `Register`.
use gordion_vpn.Base.{◌+◌, ◌-◌, ◌*◌, ◌<◌, ◌≡◌, false, Option, List, [], ◌∷◌, arith, length}
use gordion_vpn.Base.Bytes.{GoString, str}
use gordion_vpn.Grpc.{Code, GoError, wrap, Result, err}
use gordion_vpn.Breaker.{
  closed, open_, second, is_ignored, execute, allow, settle, record_failure, new,
}
use gordion_vpn.Identity.{Request, Registration}
use gordion_vpn.Client.{Client, new_client, get_peer_public_key, register}
use gordion_vpn.Client.Through.{Timing, through, breaker_is_open}

module _ (from_error : GoError → Option Code) {S : Type 0}
    (key : GoString → S → S × Result GoString) where
  -- The keys of several nodes, one after the other.
  unfoldable pub ask_all : List (Timing × GoString) → Client → S → Client × S
  ask_all [] c s = (c, s)
  ask_all ((t, node) ∷ ts) c s =
      let (c', r) = get_peer_public_key from_error t key node c s in ask_all ts c' r.0

  module _ (e : GoError) (missing : (node : GoString) (s : S) → key node s ≡ (s, err e))
      (counted : is_ignored (from_error e) ≡ false) where
    ask_closed :
        (t : Timing) (node : GoString) (c : Client) (s : S)
        → c.cb_identity.state ≡ closed
        → c.cb_identity.failures + 1 < c.cb_identity.cfg.max_failures
        → let q = get_peer_public_key from_error t key node c s in
          (q.0.cb_identity.state ≡ closed)
          × (q.0.cb_identity.failures ≡ c.cb_identity.failures + 1)
          × (q.0.cb_identity.cfg ≡ c.cb_identity.cfg)
          × (q.1.0 ≡ s)
    unfolding get_peer_public_key through execute allow settle record_failure
    ask_closed t node c s z f = ground (arith, missing node s)

    ask_last :
        (t : Timing) (node : GoString) (c : Client) (s : S)
        → c.cb_identity.state ≡ closed
        → c.cb_identity.failures + 1 ≡ c.cb_identity.cfg.max_failures
        → let q = get_peer_public_key from_error t key node c s in
          (q.0.cb_identity.state ≡ open_)
          × (q.0.cb_identity.last_failure ≡ t.finish_at)
          × (q.0.cb_identity.cfg ≡ c.cb_identity.cfg)
          × (q.1.0 ≡ s)
    unfolding get_peer_public_key through execute allow settle record_failure
    ask_last t node c s z f = ground (arith, missing node s)

    ask_some :
        (ts : List (Timing × GoString)) (c : Client) (s : S)
        → c.cb_identity.state ≡ closed
        → c.cb_identity.failures + length ts < c.cb_identity.cfg.max_failures
        → let (c', s') = ask_all ts c s in
          (c'.cb_identity.state ≡ closed)
          × (c'.cb_identity.failures ≡ c.cb_identity.failures + length ts)
          × (c'.cb_identity.cfg ≡ c.cb_identity.cfg)
          × (s' ≡ s)
    unfolding ask_all
    ask_some [] c s z f = ground arith
    ask_some ((t, node) ∷ ts) c s z f =
        let q = get_peer_public_key from_error t key node c s in
        ground (arith, ask_closed t node c s z, ask_some ts q.0 q.1.0)

    register_open :
        (remote : Request → S → S × Result Registration) (pub_key peer_id secret : GoString)
        (t : Timing) (c : Client) (s : S)
        → c.cb_identity.state ≡ open_
        → t.start - c.cb_identity.last_failure < c.cb_identity.cfg.open_timeout
        → (register from_error t remote pub_key peer_id secret c s).1
          ≡ (s, err (wrap (str "register failed") breaker_is_open))
    unfolding register through execute allow
    register_open remote pub_key peer_id secret t c s o early = ground arith

    -- On a new client, five lookups of keys that the service answers with an error that counts (as
    -- NotFound does) open the breaker that `Register` shares: a registration that starts within 30 s
    -- of the last answer is refused and never reaches the service.
    pub missing_keys_block_register :
        (remote : Request → S → S × Result Registration) (pub_key peer_id secret : GoString)
        (ts : List (Timing × GoString)) (last : Timing) (node : GoString) (t : Timing) (s : S)
        → length ts ≡ 4
        → t.start - last.finish_at < 30 * second
        → let (c, s') = ask_all ts new_client s in
          let (c', r) = get_peer_public_key from_error last key node c s' in
          (register from_error t remote pub_key peer_id secret c' r.0).1
          ≡ (s, err (wrap (str "register failed") breaker_is_open))
    unfolding new_client new
    missing_keys_block_register remote pub_key peer_id secret ts last node t s four early =
        let p = ask_all ts new_client s in
        let q = get_peer_public_key from_error last key node p.0 p.1 in
        ground (
          arith,
          ask_some ts new_client s,
          ask_last last node p.0 p.1,
          register_open remote pub_key peer_id secret t q.0 q.1.0,
        )
