-- ===== src/Inactivity/Expiry.antt =====
-- When src/runtime/inactivity.ts asks for the shutdown.
use autogent.Prelude.{
  false≢true, ℕ, ◌+◌, ◌-◌, ◌*◌, ◌≤◌, ◌<◌, ◌≡◌, refl, sym, ◌∙◌, Bool, true, false, ◌||◌, Option,
  none, some, List, [], ◌∷◌, ◌++◌, ltb, leb, eqb, eqb_iff, if_cases, arith, All,
}
use mathlib.Core.Path.{subst}
use autogent.Prelude.Int.{pos_part}
use autogent.Inactivity.{
  InactivityMonitor, create, reschedule, arm, note_activity, stop, expire, check, fire, fire_at,
  Event, armed, active, time_passed, stopping, step, run,
}

-- What is activity at a time, to a monitor: a dispatched event or a settled turn, a new limit while the
-- monitor runs, and a check that finds a turn in flight.
abbrev pub IsActivity : ℕ → InactivityMonitor → Event → Type 0
IsActivity t m (armed now sec) = (now ≡ t) × (m.stopped ≡ false) × (m.expired ≡ false)
IsActivity t m (active now) = now ≡ t
IsActivity t m (time_passed now busy) =
    (now ≡ t)
    × (busy ≡ true)
    × (m.stopped ≡ false)
    × (m.expired ≡ false)
    × (0 < m.limit_ms)
    × ((due : ℕ) × (m.timer ≡ some due) × (due ≤ now))
IsActivity t m stopping = ⊥

-- The clock did not go back behind a time.
abbrev pub IsNotBefore : ℕ → Event → Type 0
IsNotBefore t (armed now sec) = t ≤ now
IsNotBefore t (active now) = t ≤ now
IsNotBefore t (time_passed now busy) = t ≤ now
IsNotBefore t stopping = Unit

abbrev Noted : ℕ → InactivityMonitor → Type 0
Noted t m = t ≤ m.last_activity

reschedule-Noted : (t now : ℕ) (m : InactivityMonitor) → Noted t m → Noted t (reschedule now m)
unfolding reschedule
reschedule-Noted t now m h = if_cases (Noted t) (eqb m.limit_ms 0) (λ _. h) (λ _. h)

reschedule-expired : (now : ℕ) (m : InactivityMonitor) → (reschedule now m).expired ≡ m.expired
unfolding reschedule
reschedule-expired now m =
    if_cases (λ (k : InactivityMonitor). k.expired ≡ m.expired) (eqb m.limit_ms 0) (λ _. refl)
      (λ _. refl)

check-Noted :
    (t now : ℕ) (busy : Bool) (m : InactivityMonitor)
    → t ≤ now
    → Noted t m
    → Noted t (check now busy m)
unfolding check expire
check-Noted t now busy m later h =
    if_cases (Noted t) (m.stopped || m.expired || eqb m.limit_ms 0) (λ _. h)
      (λ _.
        if_cases (Noted t) busy
          (λ _. reschedule-Noted t now (record m { last_activity = now }) later)
          (λ _.
            if_cases (Noted t) (ltb (now - m.last_activity) m.limit_ms)
              (λ _. reschedule-Noted t now m h) (λ _. h)))

fire_at-Noted :
    (t : ℕ) (timer : Option ℕ) (now : ℕ) (busy : Bool) (m : InactivityMonitor)
    → t ≤ now
    → Noted t m
    → Noted t (fire_at timer now busy m)
unfolding fire_at
fire_at-Noted t none now busy m later h = h
fire_at-Noted t (some due) now busy m later h =
    if_cases (Noted t) (leb due now)
      (λ _. check-Noted t now busy (record m { timer = none }) later h) (λ _. h)

step-Noted :
    (t : ℕ) (e : Event) (m : InactivityMonitor) → IsNotBefore t e → Noted t m → Noted t (step e m)
unfolding step arm note_activity stop fire
step-Noted t (armed now sec) m later h =
    if_cases (Noted t) (m.stopped || m.expired) (λ _. h)
      (λ _.
        reschedule-Noted t now (record m { limit_ms = pos_part sec * 1000; last_activity = now })
          later)
step-Noted t (active now) m later h = later
step-Noted t (time_passed now busy) m later h = fire_at-Noted t m.timer now busy m later h
step-Noted t stopping m later h = h

run-Noted :
    (t : ℕ) (es : List Event) (m : InactivityMonitor)
    → All (IsNotBefore t) es
    → Noted t m
    → Noted t (run es m)
unfolding run
run-Noted t [] m l h = h
run-Noted t (e ∷ es) m (l, ls) h = run-Noted t es (step e m) ls (step-Noted t e m l h)

-- Activity is noted.
activity-Noted : (t : ℕ) (e : Event) (m : InactivityMonitor) → IsActivity t m e → Noted t (step e m)
unfolding step arm note_activity fire fire_at check
activity-Noted t (armed now sec) m (same, live, going) =
    if_cases (Noted t) (m.stopped || m.expired) (λ b. absurd (ground (arith, b, live, going)))
      (λ _.
        reschedule-Noted t now (record m { limit_ms = pos_part sec * 1000; last_activity = now })
          (omega (arith, same)))
activity-Noted t (active now) m same = omega (arith, same)
activity-Noted t (time_passed now busy) m (same, taken, live, going, limited, (due, timer, late)) =
    subst (λ o. Noted t (fire_at o now busy m)) (sym timer)
      (if_cases (Noted t) (leb due now)
        (λ _.
          if_cases (Noted t) (m.stopped || m.expired || eqb m.limit_ms 0)
            (λ b. absurd (ground (arith, b, live, going, eqb_iff m.limit_ms 0, limited)))
            (λ _.
              if_cases (Noted t) busy
                (λ _.
                  reschedule-Noted t now (record m { timer = none; last_activity = now })
                    (omega (arith, same)))
                (λ f. absurd (false≢true (sym f ∙ taken)))))
        (λ b. absurd (ground (arith, b, late))))
activity-Noted t stopping m h = absurd h

run-append : (xs ys : List Event) (m : InactivityMonitor) → run (xs ++ ys) m ≡ run ys (run xs m)
unfolding run
run-append [] ys m = refl
run-append (x ∷ xs) ys m = run-append xs ys (step x m)

-- What a monitor had to expire.
abbrev WasIdle : ℕ → Bool → InactivityMonitor → Type 0
WasIdle now busy m = (busy ≡ false) × (0 < m.limit_ms) × (m.last_activity + m.limit_ms ≤ now)

check-WasIdle :
    (now : ℕ) (busy : Bool) (m : InactivityMonitor)
    → m.expired ≡ false
    → (check now busy m).expired ≡ true
    → WasIdle now busy m
unfolding check
check-WasIdle now busy m going =
    let E : InactivityMonitor → Type 0 = λ k. k.expired ≡ true → WasIdle now busy m in
    if_cases E (m.stopped || m.expired || eqb m.limit_ms 0)
      (λ _ h. absurd (false≢true (sym going ∙ h)))
      (λ live.
        if_cases E busy
          (λ _ h. absurd (
            false≢true
              (sym going ∙ (sym (reschedule-expired now (record m { last_activity = now })) ∙ h))))
          (λ free.
            if_cases E (ltb (now - m.last_activity) m.limit_ms)
              (λ _ h. absurd (false≢true (sym going ∙ (sym (reschedule-expired now m) ∙ h))))
              (λ long _. (
                free,
                ground (arith, eqb_iff m.limit_ms 0, live),
                ground (arith, long, eqb_iff m.limit_ms 0, live),
              ))))

fire_at-WasIdle :
    (timer : Option ℕ) (now : ℕ) (busy : Bool) (m : InactivityMonitor)
    → m.expired ≡ false
    → (fire_at timer now busy m).expired ≡ true
    → WasIdle now busy m
unfolding fire_at
fire_at-WasIdle none now busy m going h = absurd (false≢true (sym going ∙ h))
fire_at-WasIdle (some due) now busy m going h =
    if_cases (λ (k : InactivityMonitor). k.expired ≡ true → WasIdle now busy m) (leb due now)
      (λ _ k. check-WasIdle now busy (record m { timer = none }) going k)
      (λ _ k. absurd (false≢true (sym going ∙ k))) h

-- Where the monitor expires at `now`, no turn is in flight, and for every activity before it at a time
-- `t`, after which the clock did not go back behind `t`: the limit, which is not 0, has passed since.
-- Activity is a dispatched event or a settled turn, a limit that is set while the monitor runs, and a
-- check that found a turn in flight.
pub expires_idle :
    (before : List Event) (e : Event) (after : List Event) (t now : ℕ) (busy : Bool)
    → IsActivity t (run before create) e
    → All (IsNotBefore t) after
    → (run (before ++ e ∷ after) create).expired ≡ false
    → (step (time_passed now busy) (run (before ++ e ∷ after) create)).expired ≡ true
    → (busy ≡ false)
      × (0 < (run (before ++ e ∷ after) create).limit_ms)
      × (t + (run (before ++ e ∷ after) create).limit_ms ≤ now)
unfolding step fire run
expires_idle before e after t now busy a later going gone =
    let m = run (before ++ e ∷ after) create in
    let (free, limited, long) = fire_at-WasIdle m.timer now busy m going gone in
    let noted : Noted t m = subst (Noted t) (sym (run-append before (e ∷ after) create)) (
      run-Noted t after (step e (run before create)) later
        (activity-Noted t e (run before create) a)) in
    (free, limited, omega (arith, long, noted))
