-- ===== src/TimerWheel/Wakeup.antt =====
-- `ticks_to_wakeup` of the timer wheel.
use godby.Prelude.{
  ℕ, zero, suc, ◌+◌, ◌*◌, ◌/◌, ◌^◌, bit_and, ◌&&◌, ◌||◌, Bool, true, false, Option, none, some, ltb,
  ◌==◌, if◌then◌else◌,
}
use godby.TimerWheel.{
  add_tick, sub_tick, bit_width, level_num, max_level, num_slots, slot_mask, slot_of, Wheel,
}

-- `std::min`
abbrev pub least : ℕ → ℕ → ℕ
least a b = if ltb b a then b else a

-- `event->scheduled_at() - now`
abbrev pub ticks_until : Wheel → ℕ → ℕ
ticks_until w e = sub_tick (w.event e).scheduled_at (w.now 0)

-- How a part of the search ends: with the least number of ticks so far, or with a result that is returned.
-- `too_long` says that a list had more events than the fuel.
pub data Search : Type 0 where
  too_long : Search
  goes_on : ℕ → Search
  returns : ℕ → Search

abbrev pub and_then : Search → (ℕ → Search) → Search
and_then too_long k = too_long
and_then (goes_on min_tick) k = k min_tick
and_then (returns r) k = returns r

-- The loop over the events of a slot from `o` on, for a list of `n` events at most.
unfoldable pub min_events : ℕ → Wheel → Option ℕ → ℕ → Search
min_events zero w none min_tick = goes_on min_tick
min_events zero w (some e) min_tick = too_long
min_events (suc n) w none min_tick = goes_on min_tick
min_events (suc n) w (some e) min_tick =
    min_events n w (w.event e).next (least min_tick (ticks_until w e))

abbrev pub no_events : Option ℕ → Bool
no_events none = true
no_events (some e) = false

-- The first part of a turn: where the level wraps around, it looks at the next slot of the level above.
unfoldable pub look_up : ℕ → Wheel → ℕ → ℕ → ℕ → Search
look_up n w level index min_tick =
    let up = bit_and (add_tick (w.now (level + 1)) 1) slot_mask in
    if (index == 0)
      && (ltb level max_level && (ltb 0 level || no_events (w.head (slot_of level index))))
    then min_events n w (w.head (slot_of (level + 1) up)) min_tick
    else goes_on min_tick

-- The second part, over the events of the slot from `o` on: the result is returned where there are any.
unfoldable pub look_at : ℕ → Wheel → ℕ → Option ℕ → ℕ → Search
look_at n w level none min_tick = goes_on min_tick
look_at n w level (some e) min_tick =
    if level == 0
    then returns (least min_tick (ticks_until w e))
    else and_then (min_events n w (some e) min_tick) returns

-- The loop over the slots of a level, from turn `i` on.
unfoldable pub search_level : ℕ → ℕ → Wheel → ℕ → ℕ → ℕ → Search
search_level zero n w level i min_tick = goes_on min_tick
search_level (suc turns) n w level i min_tick =
    let index = bit_and (add_tick (add_tick (w.now level) 1) i) slot_mask in
    and_then (look_up n w level index min_tick) (λ m.
      and_then (look_at n w level (w.head (slot_of level index)) m)
        (search_level turns n w level (i + 1)))

-- The end of the function, where `above` is the result of the level above.
abbrev pub end_of_level : ℕ → ℕ → Option ℕ → Search → Option ℕ
end_of_level level max above too_long = none
end_of_level level max above (returns r) = some r
end_of_level level max above (goes_on min_tick) =
    if ltb level max_level && ltb 0 (max / 2 ^ (bit_width * level + 1)) then above else some max

-- `ticks_to_wakeup(max, level)`, where `levels` are left.
unfoldable pub wakeup_from : ℕ → ℕ → Wheel → ℕ → ℕ → Option ℕ
wakeup_from zero n w max level = none
wakeup_from (suc levels) n w max level =
    let above = wakeup_from levels n w max (level + 1) in
    if w.pending == 0
    then end_of_level level max above (search_level num_slots n w level 0 max)
    else some 0

unfoldable pub ticks_to_wakeup : ℕ → Wheel → ℕ → Option ℕ
ticks_to_wakeup n w max = wakeup_from level_num n w max 0
