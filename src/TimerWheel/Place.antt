-- ===== src/TimerWheel/Place.antt =====
-- Where `schedule` puts an event: the slot that its tick has at the level that the loop finds.
use godby.Prelude.{
  ℕ, ◌+◌, ◌%◌, ◌<◌, ◌≡◌, ◌≢◌, refl, ◌∙◌, ap, subst, bit_and, Option, none, some, List, arith,
  if◌then◌else◌,
}
use godby.Prelude.Bits.{bit_and-mask}
use godby.TimerWheel.{
  tick, add_tick, num_slots, slot_mask, level_num, slot_of, Wheel, same_slot, relink,
}
use godby.TimerWheel.Links.{Lists}
use godby.TimerWheel.Move.{taken, put, relink-Lists}
use godby.TimerWheel.Run.{find_level, file_event, set_scheduled_at, schedule}
use godby.TimerWheel.Level.{unit, Tells, Found, find_level-Found, unit-zero, unit_le}

-- Moving an event writes its slot, and no tick of an event or of the wheel.
module _ (e : ℕ) (new : Option ℕ) (w : Wheel) where
  relink-scheduled_at : (x : ℕ) → ((relink e new w).event x).scheduled_at ≡ (w.event x).scheduled_at
  unfolding relink
  relink-scheduled_at x = ground arith

  relink-slot : ((relink e new w).event e).slot ≡ new
  unfolding relink
  relink-slot = ground arith

  pub relink-now : (relink e new w).now ≡ w.now
  unfolding relink
  relink-now = ground arith

  pub relink-pending : (relink e new w).pending ≡ w.pending
  unfolding relink
  relink-pending = ground arith

-- The lists after an event has been filed under a slot.
abbrev pub filed : (ℕ → List ℕ) → ℕ → Option ℕ → Option ℕ → ℕ → List ℕ
filed L e new old = if same_slot new old then L else put (taken L e old) e new

unfoldable pub set_at : ℕ → ℕ → Wheel → Wheel
set_at e at w = set_scheduled_at e at w

set_at-slot : (e at : ℕ) (w : Wheel) → ((set_at e at w).event e).slot ≡ (w.event e).slot
unfolding set_at
set_at-slot e at w = ground arith

pub set_at-Lists :
    {w : Wheel} {L : ℕ → List ℕ} (e at : ℕ) → Lists none w L → Lists none (set_at e at w) L
unfolding set_at
set_at-Lists e at v = record {
  head = v.head;
  slot = λ x s h. ground (arith, v.slot x s refl);
  next = λ x s m. ground (arith, v.next x s m);
  prev = λ x s m. ground (arith, v.prev x s m);
  unique = v.unique;
  away = λ x s h. cc;
}

-- An event filed at the tick `at`, as seen at the tick `t`: at a level of the wheel at which its tick
-- lies 1 to 255 units ahead, in the slot that its tick has there.
pub record Placed (e t at : ℕ) (w : Wheel) (L : ℕ → List ℕ) (w' : Wheel) : Type 0 where
  pub level : ℕ
  pub low : level < level_num
  pub ahead : unit t level < unit at level
  pub near : unit at level < unit t level + num_slots
  pub slot : (w'.event e).slot ≡ some (slot_of level (unit at level % num_slots))
  pub at_tick : (w'.event e).scheduled_at ≡ at
  pub others : (x : ℕ) → x ≢ e → (w'.event x).scheduled_at ≡ (w.event x).scheduled_at
  pub lists :
      Lists none w' (filed L e (some (slot_of level (unit at level % num_slots))) (w.event e).slot)
  pub same_now : w'.now ≡ w.now
  pub same_pending : w'.pending ≡ w.pending

target_of : {t at : ℕ} {r : Option (ℕ × ℕ)} → Found t at r → ℕ
target_of {at} f = slot_of f.level (unit at f.level % num_slots)

-- What `schedule` does once the loop has found a level.
schedule_at :
    (e delta t : ℕ) (w : Wheel)
    → Tells w.now t
    → t + delta < tick
    → (f : Found t (t + delta) (find_level level_num w.now 0 delta))
    → schedule e delta w ≡ some (relink e (some (target_of f)) (set_at e (t + delta) w))
unfolding set_at target_of schedule file_event
schedule_at e delta t w tells fits f =
    ap (λ r. file_event e r (set_scheduled_at e (add_tick (w.now 0) delta) w)) f.result
    ∙ (ap (λ i. some (relink e (some (slot_of f.level i)) (set_at e (add_tick (w.now 0) delta) w)))
          same_index
        ∙ ap (λ a. some (relink e (some (target_of f)) (set_at e a w))) same_tick)
  where
    same_tick : add_tick (w.now 0) delta ≡ t + delta
    same_tick = omega (arith, tells 0 (omega arith), unit-zero t)

    same_index :
        bit_and (add_tick (w.now f.level) f.distance) slot_mask
        ≡ unit (t + delta) f.level % num_slots
    same_index = omega (
      arith,
      bit_and-mask 8 (add_tick (w.now f.level) f.distance),
      tells f.level f.low,
      f.exact,
      unit_le (t + delta) f.level,
    )

Found-Placed :
    (e t at : ℕ) (w : Wheel) (L : ℕ → List ℕ)
    → Lists none w L
    → {r : Option (ℕ × ℕ)} (f : Found t at r)
    → Placed e t at w L (relink e (some (target_of f)) (set_at e at w))
unfolding set_at target_of
Found-Placed e t at w L v f = record {
  level = f.level;
  low = f.low;
  ahead = omega (arith, f.exact, f.some_way);
  near = omega (arith, f.exact, f.near);
  slot = relink-slot e (some (target_of f)) (set_at e at w);
  at_tick = relink-scheduled_at e (some (target_of f)) (set_at e at w) e ∙ ground arith;
  others = λ x ne. relink-scheduled_at e (some (target_of f)) (set_at e at w) x ∙ ground arith;
  lists =
      subst
        (λ o.
          Lists none (relink e (some (target_of f)) (set_at e at w))
            (filed L e (some (target_of f)) o))
        (set_at-slot e at w) (relink-Lists (set_at-Lists e at v) e (some (target_of f)));
  same_now = relink-now e (some (target_of f)) (set_at e at w);
  same_pending = relink-pending e (some (target_of f)) (set_at e at w);
}

-- Where the lists are well formed and the counters of all levels tell the time `t`, `schedule`,
-- for an event that is not due past the end of the 64-bit ticks, never reads outside the wheel: it
-- sets the event's tick and files the event at the front of the slot of a level at which that tick
-- lies 1 to 255 units ahead, where the index of the slot is the tick in those units.
pub schedule_lem :
    (e delta t : ℕ) (w : Wheel) (L : ℕ → List ℕ)
    → Lists none w L
    → Tells w.now t
    → 0 < delta
    → t + delta < tick
    → (w' : Wheel) × (schedule e delta w ≡ some w') × Placed e t (t + delta) w L w'
unfolding unit
schedule_lem e delta t w L v tells pos fits = (
  relink e (some (target_of found)) (set_at e (t + delta) w),
  schedule_at e delta t w tells fits found,
  Found-Placed e t (t + delta) w L v found,
)
  where
    found : Found t (t + delta) (find_level level_num w.now 0 delta)
    found =
        find_level-Found w.now t (t + delta) tells 8 0 delta (omega arith) (omega arith) pos
          (omega arith) (omega arith)
