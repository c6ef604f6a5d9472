-- ===== src/Limiter/Bounds.antt =====
-- How many calls of one client `Allow` lets through.
use gordion_vpn.Base.{
  ℕ, zero, suc, ◌+◌, ◌-◌, ◌*◌, ◌≤◌, ◌<◌, ◌≡◌, refl, Bool, true, false, ◌&&◌, Option, none, some,
  List, [], ◌∷◌, arith, All, replicate, ◌++◌, inl, inr, ◌⊎◌,
}
use gordion_vpn.Base.Bytes.{GoString, str_eq, str_eq_refl, eq_iff}
use gordion_vpn.Limiter.{Window, Limiter, allow, cleanup}

-- What happens to a limiter: a call, or a tick of the cleanup goroutine.
pub data Event : Type 0 where
  request : GoString → ℕ → Event
  cleans : ℕ → Event

abbrev pub time_of : Event → ℕ
time_of (request ip now) = now
time_of (cleans now) = now

unfoldable pub step : Event → Limiter → Limiter
step (request ip now) l = (allow ip now l).0
step (cleans now) l = cleanup now l

abbrev one_if : Bool → ℕ
one_if true = 1
one_if false = 0

-- How many calls of the client `i` an event lets through, and a list of events.
unfoldable pub admits : GoString → Event → Limiter → ℕ
admits i (request ip now) l = one_if (str_eq ip i && (allow ip now l).1)
admits i (cleans now) l = 0

unfoldable pub admitted : GoString → List Event → Limiter → ℕ
admitted i [] l = 0
admitted i (e ∷ es) l = admits i e l + admitted i es (step e l)

step-limits :
    (e : Event) (l : Limiter)
    → ((step e l).max_reqs ≡ l.max_reqs) × ((step e l).interval ≡ l.interval)
unfolding step allow cleanup
step-limits (request ip now) l = ground arith
step-limits (cleans now) l = ground arith

-- The calls that a window still has.
unfoldable pub left : ℕ → Option Window → ℕ
left max none = 0
left max (some w) = max - w.count

-- Is there a window that lasts past `until`?
abbrev pub Lasts : ℕ → Option Window → Type 0
Lasts until none = ⊥
Lasts until (some w) = until ≤ w.reset_at

Lasts-at : {t u : ℕ} (w : Option Window) → t ≡ u → Lasts u w → Lasts t w
Lasts-at none e h = h
Lasts-at (some w) e h = omega arith

-- In a window that lasts, each call let through uses up one of those left.
step-Lasts :
    (i : GoString) (until : ℕ) (e : Event) (l : Limiter)
    → time_of e ≤ until
    → Lasts until (l.clients i)
    → Lasts until ((step e l).clients i)
      × (admits i e l + left l.max_reqs ((step e l).clients i) ≤ left l.max_reqs (l.clients i))
unfolding step allow cleanup left admits
step-Lasts i until (request ip now) l t w = ground (arith, eq_iff ip i, str_eq_refl i)
step-Lasts i until (cleans now) l t w = ground arith

window_bound :
    (i : GoString) (until : ℕ) (es : List Event) (l : Limiter)
    → All (λ e. time_of e ≤ until) es
    → Lasts until (l.clients i)
    → admitted i es l ≤ left l.max_reqs (l.clients i)
unfolding admitted
window_bound i until [] l t w = omega arith
window_bound i until (e ∷ es) l t w =
    let (w', b) = step-Lasts i until e l t.0 w in
    ground (arith, step-limits e l, window_bound i until es (step e l) t.1 w')

abbrev pub IsWithin : ℕ → ℕ → Event → Type 0
IsWithin from until e = (from ≤ time_of e) × (time_of e ≤ until)

All-until :
    (from until : ℕ) (es : List Event)
    → All (IsWithin from until) es
    → All (λ e. time_of e ≤ until) es
All-until from until [] t = tt
All-until from until (e ∷ es) t = (t.0.1, All-until from until es t.1)

-- An event opens a window that outlasts the span, or uses up one of the calls left.
step-opens :
    (i : GoString) (from : ℕ) (e : Event) (l : Limiter)
    → 0 < l.max_reqs
    → from ≤ time_of e
    → (Lasts (from + l.interval) ((step e l).clients i)
        × (admits i e l + left l.max_reqs ((step e l).clients i) ≤ l.max_reqs))
      ⊎ (admits i e l + left l.max_reqs ((step e l).clients i) ≤ left l.max_reqs (l.clients i))
unfolding step allow cleanup left admits
step-opens i from (request ip now) l m t = ground (arith, eq_iff ip i, str_eq_refl i)
step-opens i from (cleans now) l m t = ground arith

span_left :
    (i : GoString) (from until : ℕ) (es : List Event) (l : Limiter)
    → 0 < l.max_reqs
    → until ≡ from + l.interval
    → All (IsWithin from until) es
    → admitted i es l ≤ left l.max_reqs (l.clients i) + l.max_reqs
unfolding admitted
span_left i from until [] l m u t = omega arith
span_left i from until (e ∷ es) l m u t = elim (step-opens i from e l m t.0.0) [
  | inl (w, b) ↦ ground (
    arith,
    step-limits e l,
    window_bound i until es (step e l) (All-until from until es t.1)
        (Lasts-at ((step e l).clients i) u w),
  )
  | inr b ↦ ground (
    arith,
    step-limits e l,
    span_left i from until es (step e l) (ground (arith, step-limits e l))
        (ground (arith, step-limits e l)) t.1,
  )
]

left-le : (max : ℕ) (w : Option Window) → left max w ≤ max
unfolding left
left-le max none = omega arith
left-le max (some w) = omega arith

-- Over any span of one interval, whatever the other clients do and whenever the cleanup runs, a
-- client gets at most twice `maxReqs` calls through, if `maxReqs` is not 0.
pub span_bound :
    (i : GoString) (from : ℕ) (es : List Event) (l : Limiter)
    → 0 < l.max_reqs
    → All (IsWithin from (from + l.interval)) es
    → admitted i es l ≤ 2 * l.max_reqs
span_bound i from es l m t =
    omega
      (arith, span_left i from (from + l.interval) es l m refl t, left-le l.max_reqs (l.clients i))

run : List Event → Limiter → Limiter
run [] l = l
run (e ∷ es) l = run es (step e l)

admitted-append :
    (i : GoString) (es fs : List Event) (l : Limiter)
    → admitted i (es ++ fs) l ≡ admitted i es l + admitted i fs (run es l)
unfolding admitted run
admitted-append i [] fs l = omega arith
admitted-append i (e ∷ es) fs l = omega (arith, admitted-append i es fs (step e l))

abbrev window : ℕ → ℕ → Option Window
window count reset_at = some (record { count = count; reset_at = reset_at })

request_in_window :
    (i : GoString) (now c r : ℕ) (l : Limiter)
    → l.clients i ≡ window c r
    → now ≤ r
    → c < l.max_reqs
    → let l' = step (request i now) l in
      (admits i (request i now) l ≡ 1)
      × (l'.clients i ≡ window (c + 1) r)
      × (l'.max_reqs ≡ l.max_reqs)
      × (l'.interval ≡ l.interval)
unfolding step allow admits
request_in_window i now c r l w t m = ground (arith, str_eq_refl i)

-- While a window lasts, calls get through up to `maxReqs`.
requests_in_window :
    (i : GoString) (k now c r : ℕ) (l : Limiter)
    → l.clients i ≡ window c r
    → now ≤ r
    → c + k ≤ l.max_reqs
    → let es = replicate k (request i now) in
      (admitted i es l ≡ k)
      × ((run es l).clients i ≡ window (c + k) r)
      × ((run es l).max_reqs ≡ l.max_reqs)
      × ((run es l).interval ≡ l.interval)
unfolding admitted run
requests_in_window i zero now c r l w t m = ground arith
requests_in_window i (suc k) now c r l w t m =
    let l' = step (request i now) l in
    ground (arith, request_in_window i now c r l w t, requests_in_window i k now (c + 1) r l')

request_after_window :
    (i : GoString) (now c r : ℕ) (l : Limiter)
    → l.clients i ≡ window c r
    → r < now
    → let l' = step (request i now) l in
      (admits i (request i now) l ≡ 1)
      × (l'.clients i ≡ window 1 (now + l.interval))
      × (l'.max_reqs ≡ l.max_reqs)
      × (l'.interval ≡ l.interval)
unfolding step allow admits
request_after_window i now c r l w t = ground (arith, str_eq_refl i)

-- A client whose window has had `c` calls gets all the others through at its last instant, and
-- `maxReqs` more an instant later: together `2 * maxReqs - c` within one nanosecond.
pub edge_burst :
    (i : GoString) (c k rest r : ℕ) (l : Limiter)
    → l.clients i ≡ window c r
    → c + k ≡ l.max_reqs
    → suc rest ≡ l.max_reqs
    → admitted i (replicate k (request i r) ++ replicate (suc rest) (request i (r + 1))) l + c
      ≡ 2 * l.max_reqs
unfolding admitted run
edge_burst i c k rest r l w m n =
    let a = run (replicate k (request i r)) l in
    let b = step (request i (r + 1)) a in
    rw (admitted-append i (replicate k (request i r)) (replicate (suc rest) (request i (r + 1))) l)
      (ground (
        arith,
        requests_in_window i k r c r l w,
        request_after_window i (r + 1) (c + k) r a,
        requests_in_window i rest (r + 1) 1 (r + 1 + l.interval) b,
      ))
