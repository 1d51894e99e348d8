-- ===== src/TimerWheel/Tests.antt =====
-- Runs of the wheel, and its theorems at concrete inputs.
use godby.Prelude.{
  length, true, Option, if◌then◌else◌, ◌==◌, ◌%◌, ◌⊎◌, ℕ, suc, ◌+◌, ◌*◌, ◌/◌, ◌^◌, ◌≤◌, ◌<◌, ◌≡◌,
  refl, none, some, List, [], ◌∷◌, arith,
}
use godby.TimerWheel.{slot_of, Wheel, start, unlink, link, relink, pop_event}
use godby.TimerWheel.Links.{Lists}
use godby.TimerWheel.Move.{put, start-Lists, relink-Lists}
use godby.TimerWheel.Run.{
  Ran, find_level, file_event, schedule, common_mask, range_delta, fire, drain,
  process_current_slot, advance_loop, advance_with, advance_at, advance,
}
use godby.TimerWheel.Level.{Tells, start-Tells}
use godby.TimerWheel.Formed.{Formed}
use godby.TimerWheel.Wakeup.{
  ticks_until, min_events, look_up, look_at, search_level, wakeup_from, ticks_to_wakeup,
}
use godby.TimerWheel.Nearest.{wakeup_lem}
use godby.Prelude.Chain.{mem}
use godby.TimerWheel.Range.{byte, range_delta_lem}

-- A wheel at tick 250 with the events 3 and 4 in the slot 5.
abbrev two : Wheel
two = relink 4 (some 5) (relink 3 (some 5) (start 250))

abbrev two_lists : ℕ → List ℕ
two_lists = put (put (λ s. []) 3 (some 5)) 4 (some 5)

two-Lists : Lists none two two_lists
unfolding relink start link unlink
two-Lists = relink-Lists (relink-Lists (start-Lists 250) 3 (some 5)) 4 (some 5)

abbrev log : ℕ → Wheel → List ℕ → Wheel × List ℕ
log e w s = (w, e ∷ s)

-- Three events, at 255, 256 and 257; the second and the third come down a level first.
ran : List ℕ
ran = elim (schedule 3 5 (start 250)) [
  | none ↦ []
  | some w ↦ elim (schedule 4 6 w) [
    | none ↦ []
    | some v ↦ elim (advance log 9 8 v [] 100) [ none ↦ [] | some r ↦ r.world ]
  ]
]

ran_eq : ran ≡ 4 ∷ 3 ∷ []
unfolding ran schedule find_level file_event relink start link unlink advance advance_at
    advance_with advance_loop process_current_slot drain fire pop_event
ran_eq = refl

-- The events 3 and 4 at 255 and 256, filed at tick 250: ten ticks, of which the second event ends the run at the sixth.
abbrev filed : Wheel
filed = elim (schedule 3 5 (start 250)) [
  | none ↦ start 250
  | some w ↦ elim (schedule 4 6 w) [ none ↦ w | some v ↦ v ]
]

filed-Tells : Tells filed.now 250
unfolding schedule find_level file_event relink start link unlink
filed-Tells = start-Tells 250

abbrev stopped_early : Ran (List ℕ)
stopped_early = elim (advance log 9 10 filed [] 2) [
  | none ↦ record { finished = true; wheel = filed; world = []; left = 0 }
  | some r ↦ r
]

range_delta_lem_example :
    (k : ℕ) × (range_delta 1000 1500 ≡ 1500 / byte k * byte k)
    × (1000 < range_delta 1000 1500)
    × (range_delta 1000 1500 ≤ 1500)
    × (1000 / byte (suc k) ≡ 1500 / byte (suc k))
range_delta_lem_example = range_delta_lem 1000 1500 (omega arith) (omega arith) (omega arith)

-- Past 2 ^ 56 the shift of the mask to the right loses the highest byte of the range.
range_delta-past : range_delta (2 ^ 56) (2 ^ 56 + 1) ≡ 1
unfolding range_delta common_mask
range_delta-past = refl

-- At tick 250: the event 3, due at 260, has yet to come down from level 1, and 4 is due at 270.
abbrev bare : Wheel
bare = record (start 250) {
  event = λ e. record {
    scheduled_at = if e == 3 then 260 else 270;
    slot = none;
    next = none;
    prev = none;
  };
}

bare-Lists : Lists none bare (λ s. [])
unfolding start
bare-Lists = record {
  head = λ s. refl;
  slot = λ e s h. refl;
  next = λ e s h. cc;
  prev = λ e s h. cc;
  unique = λ s. tt;
  away = λ e s h. cc;
}

abbrev wrapping : Wheel
wrapping = relink 4 (some 14) (relink 3 (some 257) bare)

abbrev wrapping_lists : ℕ → List ℕ
wrapping_lists = put (put (λ s. []) 3 (some 257)) 4 (some 14)

wrapping-Lists : Lists none wrapping wrapping_lists
unfolding relink start link unlink
wrapping-Lists = relink-Lists (relink-Lists bare-Lists 3 (some 257)) 4 (some 14)

wrapping_short : (s : ℕ) → length (wrapping_lists s) ≤ 2
wrapping_short s = ground arith

wrapping_eq : ticks_to_wakeup 2 wrapping 1000 ≡ some 10
unfolding relink start link unlink ticks_to_wakeup wakeup_from search_level look_up look_at
    min_events
wrapping_eq = refl

wrapping_bare : (j : ℕ) → j < 19 → wrapping_lists (slot_of 0 ((251 + j) % 256)) ≡ []
wrapping_bare j h = ground arith

wakeup_lem_example :
    (r : ℕ) × (ticks_to_wakeup 2 wrapping 1000 ≡ some r)
    × (r ≤ 1000)
    × (r ≤ ticks_until wrapping 4)
    × ((u x : ℕ)
        → u < 19
        → (wrapping.now 0 + 1 + u) % 256 ≡ 0
        → mem x (wrapping_lists (slot_of 1 ((wrapping.now 1 + 1) % 256))) ≡ true
        → r ≤ ticks_until wrapping x)
    × ((r ≡ 1000)
        ⊎ ((x : ℕ) × (s : ℕ) × (mem x (wrapping_lists s) ≡ true) × (r ≡ ticks_until wrapping x)))
unfolding relink start link unlink
wakeup_lem_example =
    wakeup_lem wrapping-Lists 2 1000 wrapping_short refl 19 4 (omega arith) wrapping_bare refl

-- An event that is due at tick 65556 is filed at tick 0; at tick 65526 a second one is filed for 40 ticks
-- later, and the wakeup is taken to be 40 ticks away, though the first event is due in 30.
late : Option ℕ
late = elim (schedule 3 65556 (start 0)) [
  | none ↦ none
  | some w ↦ elim (schedule 4 40 (record w { now = (start 65526).now })) [
    | none ↦ none
    | some v ↦ ticks_to_wakeup 2 v 1000000
  ]
]

late_eq : late ≡ some 40
unfolding late schedule find_level file_event relink start link unlink ticks_to_wakeup wakeup_from
    search_level look_up look_at min_events
late_eq = refl
