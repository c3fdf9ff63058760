-- ===== src/Inactivity/Idle.antt =====
-- When src/runtime/inactivity.ts asks for the shutdown.
use autogent.Prelude.{
  true≢false, ℕ, ◌-◌, ◌*◌, ◌≤◌, ◌<◌, ◌≡◌, Bool, true, false, ◌||◌, Option, none, some, List, [],
  ◌∷◌, length, ltb, leb, eqb, eqb_iff, if◌then◌else◌, if_cases, arith,
}
use autogent.Prelude.Int.{pos_part}
use autogent.Inactivity.{
  InactivityMonitor, create, reschedule, arm, note_activity, stop, expire, check, fire, fire_at,
  Event, armed, active, time_passed, stopping, step, run,
}

abbrev HasTimer : Option ℕ → Type 0
HasTimer none = ⊥
HasTimer (some due) = Unit

pub record IsWatching (m : InactivityMonitor) : Type 0 where
  pub once : length m.expiries ≤ (if m.expired then 1 else 0)
  pub pending : m.stopped ≡ false → m.expired ≡ false → 0 < m.limit_ms → HasTimer m.timer

eqb_zero : (n : ℕ) → eqb n 0 ≡ true → n ≡ 0
eqb_zero n z = ground (arith, eqb_iff n 0, z)

no_limit : (n : ℕ) → eqb n 0 ≡ true → 0 < n → ⊥
no_limit n z c = absurd (omega (arith, eqb_zero n z, c))

reschedule-IsWatching :
    (now : ℕ) (m : InactivityMonitor)
    → length m.expiries ≤ (if m.expired then 1 else 0)
    → IsWatching (reschedule now m)
unfolding reschedule
reschedule-IsWatching now m o =
    if_cases IsWatching (eqb m.limit_ms 0)
      (λ z. record { once = o; pending = λ a b c. absurd (no_limit m.limit_ms z c) })
      (λ _. record { once = o; pending = λ a b c. tt })

-- A monitor that is stopped, expired or without a limit needs no timer.
at_rest :
    (m : InactivityMonitor)
    → (m.stopped || m.expired || eqb m.limit_ms 0) ≡ true
    → m.stopped ≡ false
    → m.expired ≡ false
    → 0 < m.limit_ms
    → ⊥
at_rest m r a b c = no_limit m.limit_ms (ground (arith, r, a, b)) c

expire-IsWatching :
    (now : ℕ) (m : InactivityMonitor)
    → length m.expiries ≤ (if m.expired then 1 else 0)
    → (m.stopped || m.expired || eqb m.limit_ms 0) ≡ false
    → IsWatching (expire now m)
unfolding expire
expire-IsWatching now m o live = record {
  once = ground (arith, o, live);
  pending = λ a b c. absurd (true≢false b);
}

check-IsWatching :
    (now : ℕ) (busy : Bool) (m : InactivityMonitor)
    → length m.expiries ≤ (if m.expired then 1 else 0)
    → IsWatching (check now busy m)
unfolding check
check-IsWatching now busy m o =
    if_cases IsWatching (m.stopped || m.expired || eqb m.limit_ms 0)
      (λ rest. record { once = o; pending = λ a b c. absurd (at_rest m rest a b c) })
      (λ live.
        if_cases IsWatching busy
          (λ _. reschedule-IsWatching now (record m { last_activity = now }) o)
          (λ _.
            if_cases IsWatching (ltb (now - m.last_activity) m.limit_ms)
              (λ _. reschedule-IsWatching now m o) (λ _. expire-IsWatching now m o live)))

fire_at-IsWatching :
    (timer : Option ℕ) (now : ℕ) (busy : Bool) (m : InactivityMonitor)
    → IsWatching m
    → IsWatching (fire_at timer now busy m)
unfolding fire_at
fire_at-IsWatching none now busy m w = w
fire_at-IsWatching (some due) now busy m w =
    if_cases IsWatching (leb due now)
      (λ _. check-IsWatching now busy (record m { timer = none }) w.once) (λ _. w)

step-IsWatching : (e : Event) (m : InactivityMonitor) → IsWatching m → IsWatching (step e m)
unfolding step arm note_activity stop fire
step-IsWatching (armed now sec) m w =
    if_cases IsWatching (m.stopped || m.expired) (λ _. w)
      (λ _.
        reschedule-IsWatching now (record m { limit_ms = pos_part sec * 1000; last_activity = now })
          w.once)
step-IsWatching (active now) m w = record { once = w.once; pending = w.pending }
step-IsWatching (time_passed now busy) m w = fire_at-IsWatching m.timer now busy m w
step-IsWatching stopping m w = record { once = w.once; pending = λ a b c. absurd (true≢false a) }

run_from-IsWatching :
    (es : List Event) (m : InactivityMonitor) → IsWatching m → IsWatching (run es m)
unfolding run
run_from-IsWatching [] m w = w
run_from-IsWatching (e ∷ es) m w = run_from-IsWatching es (step e m) (step-IsWatching e m w)

-- Whatever is armed, noted and stopped, and whenever the timer fires: the shutdown is asked for once at
-- most, and while the monitor has a limit and is neither stopped nor expired, a check is pending, so
-- that the limit is not forgotten.
pub run-IsWatching : (es : List Event) → IsWatching (run es create)
unfolding create
run-IsWatching es =
    run_from-IsWatching es create
      (record { once = omega arith; pending = λ a b c. absurd (omega (arith, c)) })
