-- ===== src/Client/Tests.antt =====
-- Runs of the client's calls.
use gordion_vpn.Base.{ℕ, ◌+◌, ◌*◌, ◌≡◌, refl, arith, Option, none, some, List, [], ◌∷◌}
use gordion_vpn.Base.Bytes.{GoString, str}
use gordion_vpn.Grpc.{
  Code, GoError, plain, wrap, status, statusf, foreign, not_found, canceled, Result, ok, err,
}
use gordion_vpn.Breaker.{second, closed}
use gordion_vpn.Identity.{Request, Registration}
use gordion_vpn.Client.{new_client, register, get_peer_public_key}
use gordion_vpn.Client.Through.{
  Timing, through_all, direct_all, breaker_is_open, through_all-direct_all,
}
use gordion_vpn.Client.Outage.{ask_all, missing_keys_block_register}

abbrev code_of : GoError → Option Code
code_of (status c _) = some c
code_of (statusf c _ _) = some c
code_of (wrap _ e) = code_of e
code_of (plain _) = none
code_of (foreign _) = none

abbrev at : ℕ → Timing
at n = record { start = n * second; finish_at = n * second + 5 }

-- A service that counts the calls that reach it, and gives one up.
abbrev counting : ℕ → ℕ × Result ℕ
counting n = (n + 1, ok n)

abbrev given_up : ℕ → ℕ × Result ℕ
given_up n = (n + 1, err (status canceled (str "context canceled")))

abbrev calls : List (Timing × (ℕ → ℕ × Result ℕ))
calls = (at 1, counting) ∷ (at 2, given_up) ∷ (at 3, counting) ∷ []

through_all-direct_all_example :
    let (cb, end) = through_all code_of calls (new_client.cb_identity) 7 in
    (end ≡ direct_all calls 7) × (cb.state ≡ closed)
unfolding new_client gordion_vpn.Breaker.is_ignored gordion_vpn.Breaker.new
through_all-direct_all_example =
    through_all-direct_all code_of calls (new_client.cb_identity) 7 refl (tt, (refl, (tt, tt)))

abbrev no_key : GoString → ℕ → ℕ × Result GoString
no_key node s = (s, err (status not_found (str "node not found")))

abbrev node_a : GoString
node_a = str "node-a"

abbrev accepts : Request → ℕ → ℕ × Result Registration
accepts _ s = (s + 1, err (plain (str "unused")))

abbrev four_nodes : List (Timing × GoString)
four_nodes = (at 1, node_a) ∷ (at 2, node_a) ∷ (at 3, node_a) ∷ (at 4, node_a) ∷ []

missing_keys_block_register_example :
    let (c, s) = ask_all code_of no_key four_nodes new_client 0 in
    let (c', r) = get_peer_public_key code_of (at 5) no_key node_a c s in
    (register code_of (at 20) accepts (str "key") (str "peer") (str "secret") c' r.0).1
    ≡ (0, err (wrap (str "register failed") breaker_is_open))
unfolding gordion_vpn.Breaker.is_ignored
missing_keys_block_register_example =
    missing_keys_block_register code_of no_key (status not_found (str "node not found"))
      (λ node s. refl) refl accepts (str "key") (str "peer") (str "secret") four_nodes (at 5) node_a
      (at 20) 0 refl (omega arith)
