-- ===== src/Gateway/Restore.antt =====
-- What `Enable` and `Disable` leave of the rules and of forwarding on Linux.
use gordion_vpn.Base.{◌≡◌, Bool, true, false, ◌&&◌, List, [], ◌∷◌, ◌++◌, arith, if◌then◌else◌}
use gordion_vpn.Base.Bytes.{GoString, str, is_empty, str_eq_refl}
use gordion_vpn.Grpc.{Result, ok, err}
use gordion_vpn.Gateway.{Manager}
use gordion_vpn.Gateway.Linux.{
  Rule, masquerade, accept_in, accept_related, same_rule, Kernel, Works, default_outbound_iface,
  command_failed, enabled_on, enable_forwarding, remove_first, disable_forwarding, enable_linux,
  disable_linux,
}

abbrev pub has_rule : Rule → List Rule → Bool
has_rule r [] = false
has_rule r (x ∷ xs) = let rest = has_rule r xs in if same_rule x r then true else rest

same_rule_refl : (r : Rule) → same_rule r r ≡ true
same_rule_refl (masquerade a) = str_eq_refl a
same_rule_refl (accept_in a) = str_eq_refl a
same_rule_refl (accept_related a) = str_eq_refl a

remove_first-last :
    (r : Rule) (xs : List Rule) → has_rule r xs ≡ false → remove_first r (xs ++ (r ∷ [])) ≡ xs
remove_first-last r [] h = ground (arith, same_rule_refl r)
remove_first-last r (x ∷ xs) h = ground (arith, h, remove_first-last r xs)

remove_first-but_last :
    (r s : Rule) (xs : List Rule)
    → has_rule r xs ≡ false
    → remove_first r ((xs ++ (r ∷ [])) ++ (s ∷ [])) ≡ xs ++ (s ∷ [])
remove_first-but_last r s [] h = ground (arith, same_rule_refl r)
remove_first-but_last r s (x ∷ xs) h = ground (arith, h, remove_first-but_last r s xs)

abbrev ruled : Manager → GoString → Kernel → Kernel
ruled m iface k = record {
  ip_forward = true;
  postrouting = k.postrouting ++ (masquerade iface ∷ []);
  forward = (k.forward ++ (accept_in m.iface ∷ [])) ++ (accept_related m.iface ∷ []);
}

enabled_all :
    (w : Works) (m : Manager) (k : Kernel) (iface : GoString)
    → (w.sysctl && w.nat && w.forward_in && w.forward_out) ≡ true
    → enabled_on w m k iface ≡ (ruled m iface k, ok (record m { out_iface = iface }))
enabled_all w m k iface works = ground (arith, works)

enable_linux-ruled :
    (route : Result (List GoString)) (w : Works) (m : Manager) (k : Kernel) (iface : GoString)
    → m.enabled ≡ false
    → default_outbound_iface route ≡ ok iface
    → (w.sysctl && w.nat && w.forward_in && w.forward_out) ≡ true
    → enable_linux route w m k
      ≡ ((record m { out_iface = iface; enabled = true }, ruled m iface k), ok tt)
unfolding enable_linux enable_forwarding
enable_linux-ruled route w m k iface off dev works = rw (dev, enabled_all w m k iface works, off)

disable_linux-ruled :
    (route : Result (List GoString)) (m : Manager) (k : Kernel) (iface : GoString)
    → is_empty iface ≡ false
    → has_rule (masquerade iface) k.postrouting ≡ false
    → has_rule (accept_in m.iface) k.forward ≡ false
    → has_rule (accept_related m.iface) k.forward ≡ false
    → (disable_linux route (record m { out_iface = iface; enabled = true }) (ruled m iface k)).1
      ≡ record { ip_forward = false; postrouting = k.postrouting; forward = k.forward }
unfolding disable_linux disable_forwarding
disable_linux-ruled route m k iface named nat rin rout = rw (
  named,
  remove_first-last (masquerade iface) k.postrouting nat,
  remove_first-but_last (accept_in m.iface) (accept_related m.iface) k.forward rin,
  remove_first-last (accept_related m.iface) k.forward rout,
)

-- When all commands succeed and none of the gateway's rules is there before, `Disable` after
-- `Enable` leaves the chains as they were, in their order, but forwarding is off whatever it was.
pub disable-enable :
    (route route' : Result (List GoString)) (w : Works) (m : Manager) (k : Kernel)
    (iface : GoString)
    → m.enabled ≡ false
    → default_outbound_iface route ≡ ok iface
    → is_empty iface ≡ false
    → (w.sysctl && w.nat && w.forward_in && w.forward_out) ≡ true
    → has_rule (masquerade iface) k.postrouting ≡ false
    → has_rule (accept_in m.iface) k.forward ≡ false
    → has_rule (accept_related m.iface) k.forward ≡ false
    → let (m', k') = (enable_linux route w m k).0 in
      (disable_linux route' m' k').1
      ≡ record { ip_forward = false; postrouting = k.postrouting; forward = k.forward }
disable-enable route route' w m k iface off dev named works nat rin rout =
    rw (enable_linux-ruled route w m k iface off dev works)
      (disable_linux-ruled route' m k iface named nat rin rout)

enabled_half :
    (w : Works) (m : Manager) (k : Kernel) (iface : GoString)
    → (w.sysctl && w.nat) ≡ true
    → w.forward_in ≡ false
    → enabled_on w m k iface ≡ (
      record k { ip_forward = true; postrouting = k.postrouting ++ (masquerade iface ∷ []) },
      err (command_failed (str "iptables")),
    )
enabled_half w m k iface works refused = ground (arith, works, refused)

-- An `Enable` whose third rule is refused reports an error and leaves the first two commands done;
-- the `Disable` that follows does nothing.
pub half_enabled_stays :
    (route route' : Result (List GoString)) (w : Works) (m : Manager) (k : Kernel)
    (iface : GoString)
    → m.enabled ≡ false
    → default_outbound_iface route ≡ ok iface
    → (w.sysctl && w.nat) ≡ true
    → w.forward_in ≡ false
    → let (m', k') = (enable_linux route w m k).0 in
      (disable_linux route' m' k').1 ≡ record {
        ip_forward = true;
        postrouting = k.postrouting ++ (masquerade iface ∷ []);
        forward = k.forward;
      }
unfolding enable_linux disable_linux enable_forwarding
half_enabled_stays route route' w m k iface off dev works refused =
    rw (dev, enabled_half w m k iface works refused, off)
