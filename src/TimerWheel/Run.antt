-- ===== src/TimerWheel/Run.antt =====
-- The methods of `TimerWheelTpl` that place events and that run them.
use godby.Prelude.{
  ℕ, zero, suc, ◌+◌, ◌-◌, ◌*◌, ◌/◌, ◌%◌, ◌^◌, bit_and, Bool, true, false, ◌&&◌, not, Option, none,
  some, ltb, leb, ◌==◌, if◌then◌else◌, update,
}
use godby.TimerWheel.{
  tick, add_tick, sub_tick, bit_width, level_num, max_level, num_slots, slot_mask, slot_of, Wheel,
  set_event, is_scheduled, relink, pop_event,
}

-- The loop of `schedule`, by the levels that are left: at level `level_num` the code would read past
-- the end of `M_now`, which `none` stands for.
unfoldable pub find_level : ℕ → (ℕ → ℕ) → ℕ → ℕ → Option (ℕ × ℕ)
find_level zero now level delta = none
find_level (suc n) now level delta =
    if leb num_slots delta
    then find_level n now (level + 1)
        (add_tick delta (bit_and (now level) slot_mask) / 2 ^ bit_width)
    else some (level, delta)

-- What `schedule` does with the level and the distance that the loop has found.
unfoldable pub file_event : ℕ → Option (ℕ × ℕ) → Wheel → Option Wheel
file_event e none w = none
file_event e (some (level, delta)) w =
    let index = bit_and (add_tick (w.now level) delta) slot_mask in
    some (relink e (some (slot_of level index)) w)

abbrev pub set_scheduled_at : ℕ → ℕ → Wheel → Wheel
set_scheduled_at e at w = set_event w e (record (w.event e) { scheduled_at = at })

unfoldable pub schedule : ℕ → ℕ → Wheel → Option Wheel
schedule e delta w =
    let w' = set_scheduled_at e (add_tick (w.now 0) delta) w in
    file_event e (find_level level_num w'.now 0 delta) w'

-- The loop of `schedule_in_range`: eight shifts make the mask 0, which ends it.
unfoldable pub common_mask : ℕ → ℕ → ℕ → ℕ → ℕ
common_mask zero start end mask = mask
common_mask (suc n) start end mask =
    if bit_and start mask == bit_and end mask
    then mask
    else common_mask n start end (mask * 2 ^ bit_width % tick)

-- The delay that `schedule_in_range` chooses.
unfoldable pub range_delta : ℕ → ℕ → ℕ
range_delta start end = bit_and end (common_mask 10 start end (tick - 1) / 2 ^ bit_width)

unfoldable pub schedule_in_range : ℕ → ℕ → ℕ → Wheel → Option Wheel
schedule_in_range e start end w =
    let current = sub_tick (w.event e).scheduled_at (w.now 0) in
    if is_scheduled w e && leb start current && leb current end
    then some w
    else schedule e (range_delta start end) w

-- What `advance` and `process_current_slot` return, with the wheel, what the events have done to the
-- rest of the program, and the executions that are left. `none` is a fault: a read out of range, or a
-- slot that the fuel did not empty.
pub record Ran (S : Type 0) : Type 0 where
  pub finished : Bool
  pub wheel : Wheel
  pub world : S
  pub left : ℕ

-- An event's `execute` may do anything to the wheel and to the rest of the program.
module _ {S : Type 0} (execute : ℕ → Wheel → S → Wheel × S) where
  -- `event->execute(); if (!--max_events) { return false; }`: what goes on is `k`.
  unfoldable pub fire : ℕ → Wheel → S → ℕ → (Wheel → S → ℕ → Option (Ran S)) → Option (Ran S)
  fire e w s left k =
      let (w', s') = execute e w s in
      let left' = sub_tick left 1 in
      if left' == 0
      then some (record { finished = false; wheel = w'; world = s'; left = left' })
      else k w' s' left'

  -- The loop of `process_current_slot` over the events of the slot.
  unfoldable pub drain : ℕ → ℕ → ℕ → Wheel → S → ℕ → Option (Ran S)
  drain zero level slot w s left = none
  drain (suc n) level slot w s left = elim (w.head slot) [
    | none ↦ some (record { finished = true; wheel = w; world = s; left = left })
    | some e ↦
        let w' = pop_event slot e w in
        let at = (w'.event e).scheduled_at in
        if ltb 0 level && not (leb at (w'.now 0))
        then elim (schedule e (sub_tick at (w'.now 0)) w') [
          | none ↦ none
          | some w'' ↦ drain n level slot w'' s left
        ]
        else fire e w' s left (λ w'' s' left'. drain n level slot w'' s' left')
  ]

  -- `advance` of the level above, which takes no part in the count of executions.
  abbrev Above : Type 0
  Above = ℕ → Wheel → S → ℕ → Option (Ran S)

  unfoldable pub process_current_slot : ℕ → Option Above → ℕ → ℕ → Wheel → S → ℕ → Option (Ran S)
  process_current_slot fuel above level now w s left =
      let index = bit_and now slot_mask in
      let rest = λ (v : Wheel) (t : S). drain fuel level (slot_of level index) v t left in
      if index == 0
      then elim above [
        | none ↦ rest w s
        | some advance_above ↦ elim (advance_above 1 w s left) [
          | none ↦ none
          | some r ↦ if r.finished then rest r.wheel r.world else some (record r { left = left })
        ]
      ]
      else rest w s

  -- `while (delta--)` of `advance`.
  unfoldable pub advance_loop : ℕ → Option Above → ℕ → ℕ → Wheel → S → ℕ → Option (Ran S)
  advance_loop fuel above level zero w s left =
      some (record { finished = true; wheel = w; world = s; left = left })
  advance_loop fuel above level (suc delta) w s left =
      let now = add_tick (w.now level) 1 in
      let w' = record w { now = update w.now level now } in
      elim (process_current_slot fuel above level now w' s left) [
        | none ↦ none
        | some r ↦
            let more = advance_loop fuel above level delta r.wheel r.world r.left in
            if r.finished
            then more
            else some (record r { wheel = record (r.wheel) { pending = add_tick delta 1 } })
      ]

  -- `advance` at a level, given that of the level above if there is one.
  unfoldable pub advance_with : ℕ → Option Above → ℕ → ℕ → Wheel → S → ℕ → Option (Ran S)
  advance_with fuel above level delta w s left =
      if w.pending == 0
      then advance_loop fuel above level delta w s left
      else (let w' = if level == 0 then record w { pending = add_tick w.pending delta } else w in
          elim (process_current_slot fuel above level (w'.now level) w' s left) [
            | none ↦ none
            | some r ↦
                if r.finished && (level == 0)
                then (let v = r.wheel in
                    advance_loop fuel above level (sub_tick v.pending 1) (record v { pending = 0 })
                      r.world r.left)
                else some r
          ])

  -- `advance` with `n` levels above it.
  unfoldable pub advance_at : ℕ → ℕ → ℕ → Wheel → S → ℕ → Option (Ran S)
  advance_at fuel zero = advance_with fuel none max_level
  advance_at fuel (suc n) = advance_with fuel (some (advance_at fuel n)) (max_level - suc n)

  unfoldable pub advance : ℕ → ℕ → Wheel → S → ℕ → Option (Ran S)
  advance fuel = advance_at fuel max_level
