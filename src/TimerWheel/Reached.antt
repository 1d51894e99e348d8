-- ===== src/TimerWheel/Reached.antt =====
-- `schedule` on the wheels that calls lead to.
use godby.Prelude.{ℕ, ◌+◌, ◌<◌, ◌≡◌, some}
use godby.TimerWheel.{tick, Wheel, start, cancel}
use godby.TimerWheel.Run.{Ran, schedule, schedule_in_range, advance}
use godby.TimerWheel.Okay.{Okay}
use godby.TimerWheel.Formed.{Formed}

module _ {S : Type 0} (execute : ℕ → Wheel → S → Wheel × S) where
  -- The ticks of all calls of `advance` together do not pass 2 ^ 64.
  pub data Reach : Wheel → Type 0 where
    begin : (start_tick : ℕ) → Reach (start start_tick)
    schedules : {w w' : Wheel} (e delta : ℕ) → Reach w → schedule e delta w ≡ some w' → Reach w'
    schedules_in_range :
        {w w' : Wheel} (e from to : ℕ)
        → Reach w
        → schedule_in_range e from to w ≡ some w'
        → Reach w'
    cancels : {w : Wheel} (e : ℕ) → Reach w → Reach (cancel e w)
    advances :
        {w : Wheel} (fuel delta : ℕ) (s : S) (max_execute : ℕ) (r : Ran S)
        → Reach w
        → w.now 0 + w.pending + delta < tick
        → advance execute fuel delta w s max_execute ≡ some r
        → Reach r.wheel
