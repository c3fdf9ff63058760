-- ===== src/Inactivity.antt =====
-- src/runtime/inactivity.ts: the exit after inactivity. Times are in milliseconds, and the clock's reading is
-- an argument, as is whether a turn is in flight.
pub mod Idle
pub mod Expiry
use autogent.Prelude.{
  ℕ, ◌+◌, ◌-◌, ◌*◌, Bool, true, false, ◌||◌, Option, none, some, List, [], ◌∷◌, ltb, leb, eqb,
  if◌then◌else◌,
}
use autogent.Prelude.Int.{ℤ, pos_part}

-- `timer` is when the pending timer fires. `expiries` are the times of the calls of `onExpire`, the newest
-- first: they stand for the application, not for a field.
pub record InactivityMonitor : Type 0 where
  pub limit_ms : ℕ
  pub last_activity : ℕ
  pub timer : Option ℕ
  pub expired : Bool
  pub stopped : Bool
  pub expiries : List ℕ

unfoldable pub create : InactivityMonitor
create = record {
  limit_ms = 0;
  last_activity = 0;
  timer = none;
  expired = false;
  stopped = false;
  expiries = [];
}

-- `Math.max(last + limit - now, 0)` from now on.
unfoldable pub reschedule : ℕ → InactivityMonitor → InactivityMonitor
reschedule now m =
    if eqb m.limit_ms 0
    then record m { timer = none }
    else record m { timer = some (now + (m.last_activity + m.limit_ms - now)) }

unfoldable pub arm : ℕ → ℤ → InactivityMonitor → InactivityMonitor
unfolding reschedule
arm now inactivity_sec m =
    if m.stopped || m.expired
    then m
    else reschedule now
        (record m { limit_ms = pos_part inactivity_sec * 1000; last_activity = now })

unfoldable pub note_activity : ℕ → InactivityMonitor → InactivityMonitor
note_activity now m = record m { last_activity = now }

unfoldable pub stop : InactivityMonitor → InactivityMonitor
stop m = record m { stopped = true; timer = none }

unfoldable pub expire : ℕ → InactivityMonitor → InactivityMonitor
expire now m = record m { expired = true; expiries = now ∷ m.expiries }

unfoldable pub check : ℕ → Bool → InactivityMonitor → InactivityMonitor
unfolding reschedule expire
check now busy m =
    if m.stopped || m.expired || eqb m.limit_ms 0
    then m
    else if busy
    then reschedule now (record m { last_activity = now })
    else if ltb (now - m.last_activity) m.limit_ms
    then reschedule now m
    else expire now m

-- What a timer that is due at a time does later.
unfoldable pub fire_at : Option ℕ → ℕ → Bool → InactivityMonitor → InactivityMonitor
unfolding check
fire_at none now busy m = m
fire_at (some due) now busy m =
    if leb due now then check now busy (record m { timer = none }) else m

unfoldable pub fire : ℕ → Bool → InactivityMonitor → InactivityMonitor
unfolding fire_at
fire now busy m = fire_at m.timer now busy m

pub data Event : Type 0 where
  armed : ℕ → ℤ → Event
  active : ℕ → Event
  time_passed : ℕ → Bool → Event
  stopping : Event

unfoldable pub step : Event → InactivityMonitor → InactivityMonitor
step (armed now sec) m = arm now sec m
step (active now) m = note_activity now m
step (time_passed now busy) m = fire now busy m
step stopping m = stop m

unfoldable pub run : List Event → InactivityMonitor → InactivityMonitor
run [] m = m
run (e ∷ es) m = run es (step e m)
