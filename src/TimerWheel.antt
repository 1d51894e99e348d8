-- ===== src/TimerWheel.antt =====
-- godby/include/godby/TimerWheel.h: a hierarchical timer wheel over 64-bit ticks, and the events on
-- the doubly linked lists of its slots.
pub mod Links
pub mod Move
pub mod Run
pub mod Level
pub mod Place
pub mod Range
pub mod Wakeup
pub mod Minimum
pub mod Search
pub mod Turns
pub mod Nearest
pub mod Okay
pub mod Quiet
pub mod Carry
pub mod Time
pub mod Formed
pub mod Reached
mod Tests
use godby.Prelude.{
  ℕ, zero, suc, ◌+◌, ◌-◌, ◌*◌, ◌/◌, ◌%◌, ◌^◌, bit_and, Bool, true, false, ◌&&◌, ◌||◌, Option, none,
  some, ltb, leb, ◌==◌, if◌then◌else◌, update,
}

abbrev pub tick : ℕ
tick = 2 ^ 64

abbrev pub add_tick : ℕ → ℕ → ℕ
add_tick a b = (a + b) % tick

abbrev pub sub_tick : ℕ → ℕ → ℕ
sub_tick a b = (a + tick - b) % tick

-- BIT_WIDTH, LEVEL_NUM, MAX_LEVEL, NUM_SLOTS and SLOT_MASK, at `uint64_t`.
abbrev pub bit_width : ℕ
bit_width = 8

abbrev pub level_num : ℕ
level_num = 8

abbrev pub max_level : ℕ
max_level = 7

abbrev pub num_slots : ℕ
num_slots = 256

abbrev pub slot_mask : ℕ
slot_mask = 255

-- `TimerEventTpl`: events and slots are named by numbers, `none` is the null pointer.
pub record Event : Type 0 where
  pub scheduled_at : ℕ
  pub slot : Option ℕ
  pub next : Option ℕ
  pub prev : Option ℕ

-- The address of `M_slots[level][i]`.
abbrev pub slot_of : ℕ → ℕ → ℕ
slot_of level i = level * num_slots + i

-- `TimerWheelTpl`, with the memory of all events; `head` is `M_events` of a slot.
pub record Wheel : Type 0 where
  pub pending : ℕ
  pub now : ℕ → ℕ
  pub head : ℕ → Option ℕ
  pub event : ℕ → Event

-- The constructor; the events have their initial values.
unfoldable pub start : ℕ → Wheel
start start_tick = record {
  pending = 0;
  now = λ i. start_tick / 2 ^ (bit_width * i);
  head = λ s. none;
  event = λ e. record { scheduled_at = 0; slot = none; next = none; prev = none };
}

abbrev pub set_head : Wheel → ℕ → Option ℕ → Wheel
set_head w s h = record w { head = update w.head s h }

abbrev pub set_event : Wheel → ℕ → Event → Wheel
set_event w e v = record w { event = update w.event e v }

-- `p->M_prev = v` and `p->M_next = v`, where `p` may be null and is tested first.
abbrev pub set_prev? : Wheel → Option ℕ → Option ℕ → Wheel
set_prev? w none v = w
set_prev? w (some e) v = set_event w e (record (w.event e) { prev = v })

abbrev pub set_next : Wheel → ℕ → Option ℕ → Wheel
set_next w e v = set_event w e (record (w.event e) { next = v })

unfoldable pub is_scheduled : Wheel → ℕ → Bool
is_scheduled w e = elim (w.event e).slot [ none ↦ false | some s ↦ true ]

abbrev pub same_slot : Option ℕ → Option ℕ → Bool
same_slot none none = true
same_slot (some a) (some b) = a == b
same_slot _ _ = false

-- The first block of `relink`: the event leaves the list of the slot `s`.
unfoldable pub unlink : ℕ → ℕ → Wheel → Wheel
unlink e s w =
    let prev = (w.event e).prev in
    let next = (w.event e).next in
    let w' = set_prev? w next prev in
    elim prev [ some p ↦ set_next w' p next | none ↦ set_head w' s next ]

-- The second block: it goes to the front of the list of the new slot.
unfoldable pub link : ℕ → Option ℕ → Wheel → Wheel
link e none w = set_next w e none
link e (some s) w =
    let old = w.head s in
    let w' = set_prev? (set_next w e old) old (some e) in set_head w' s (some e)

abbrev pub unlink? : ℕ → Option ℕ → Wheel → Wheel
unlink? e none w = w
unlink? e (some s) w = unlink e s w

unfoldable pub relink : ℕ → Option ℕ → Wheel → Wheel
unfolding unlink link
relink e new w =
    if same_slot new (w.event e).slot
    then w
    else (let w' = link e new (unlink? e (w.event e).slot w) in
        set_event w' e (record (w'.event e) { prev = none; slot = new }))

-- `cancel`, which the destructor calls too.
unfoldable pub cancel : ℕ → Wheel → Wheel
unfolding is_scheduled relink
cancel e w = if is_scheduled w e then relink e none w else w

-- `TimerSlotTpl::pop`, on a slot whose first event is `e`.
unfoldable pub pop_event : ℕ → ℕ → Wheel → Wheel
pop_event s e w =
    let w' = set_head w s (w.event e).next in
    let w'' = set_prev? w' (w'.head s) none in
    set_event w'' e (record (w''.event e) { next = none; slot = none })
