-- ===== src/Limiter/Cleanup.antt =====
-- The cleanup goroutine of the limiter only saves memory.
use gordion_vpn.Base.{ℕ, ◌≤◌, ◌<◌, ◌≡◌, refl, ◌⊎◌, inl, Option, none, some, List, [], ◌∷◌, arith}
use gordion_vpn.Base.Bytes.{GoString, str_eq_refl, eq_iff}
use gordion_vpn.Limiter.{Window, Limiter, allow, cleanup}
use gordion_vpn.Limiter.Bounds.{Event, request, cleans, time_of, step, admits, admitted}

-- The instants of the events do not go back.
abbrev pub Ordered : ℕ → List Event → Type 0
Ordered now [] = Unit {0}
Ordered now (e ∷ es) = (now ≤ time_of e) × Ordered (time_of e) es

pub drop_cleans : List Event → List Event
drop_cleans [] = []
drop_cleans (request ip now ∷ es) = request ip now ∷ drop_cleans es
drop_cleans (cleans now ∷ es) = drop_cleans es

abbrev IsExpired : ℕ → Option Window → Type 0
IsExpired now none = ⊥
IsExpired now (some w) = w.reset_at < now

-- The same window, or none on the left where the one on the right is over by `now`.
abbrev Agree : ℕ → Option Window → Option Window → Type 0
Agree now w v = (w ≡ v) ⊎ ((w ≡ none) × IsExpired now v)

record Twins (i : GoString) (now : ℕ) (l m : Limiter) : Type 0 where
  same_max : l.max_reqs ≡ m.max_reqs
  same_interval : l.interval ≡ m.interval
  agree : Agree now (l.clients i) (m.clients i)

request-Twins :
    (i ip : GoString) (now t : ℕ) (l m : Limiter)
    → now ≤ t
    → Twins i now l m
    → (admits i (request ip t) l ≡ admits i (request ip t) m)
      × Twins i t (step (request ip t) l) (step (request ip t) m)
unfolding step allow admits
request-Twins i ip now t l m h w = ground (arith, eq_iff ip i, str_eq_refl i)

cleans-Twins :
    (i : GoString) (now t : ℕ) (l m : Limiter)
    → now ≤ t
    → Twins i now l m
    → Twins i t (step (cleans t) l) m
unfolding step cleanup
cleans-Twins i now t l m h w = ground arith

Twins-admitted :
    (i : GoString) (now : ℕ) (es : List Event) (l m : Limiter)
    → Ordered now es
    → Twins i now l m
    → admitted i es l ≡ admitted i (drop_cleans es) m
unfolding admitted drop_cleans admits
Twins-admitted i now [] l m o w = refl
Twins-admitted i now (request ip t ∷ es) l m o w =
    let (same, w') = request-Twins i ip now t l m o.0 w in
    omega
      (arith, same, Twins-admitted i t es (step (request ip t) l) (step (request ip t) m) o.1 w')
Twins-admitted i now (cleans t ∷ es) l m o w =
    omega (arith, Twins-admitted i t es (step (cleans t) l) m o.1 (cleans-Twins i now t l m o.0 w))

-- With a clock that does not go back, every client gets exactly as many calls through as it would
-- if the cleanup never ran.
pub cleanup_transparent :
    (i : GoString) (now : ℕ) (es : List Event) (l : Limiter)
    → Ordered now es
    → admitted i es l ≡ admitted i (drop_cleans es) l
cleanup_transparent i now es l o =
    Twins-admitted i now es l l o
      (record { same_max = refl; same_interval = refl; agree = inl refl })
