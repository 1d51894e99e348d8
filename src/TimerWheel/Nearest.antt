-- ===== src/TimerWheel/Nearest.antt =====
-- How long `ticks_to_wakeup` waits at most, where an event is on the lowest level.
use godby.Prelude.{
  ℕ, ◌+◌, ◌%◌, ◌≤◌, ◌<◌, ◌≡◌, ◌⊎◌, refl, sym, ◌∙◌, ap, subst, true, Option, none, some, List, [],
  ==_iff, if◌then◌else◌, arith, length,
}
use godby.Prelude.Bits.{bit_and-mask}
use godby.Prelude.Chain.{mem, first}
use godby.TimerWheel.{add_tick, num_slots, slot_of, Wheel}
use godby.TimerWheel.Links.{Lists}
use godby.TimerWheel.Wakeup.{
  ticks_until, Search, too_long, goes_on, returns, search_level, end_of_level, wakeup_from,
  ticks_to_wakeup,
}
use godby.TimerWheel.Minimum.{Walk, first-Walk, Sound, Good}
use godby.TimerWheel.Search.{search-Good, max-Sound}
use godby.TimerWheel.Turns.{
  Below, Ends, turn_slot, turn_head, next_above, search-Ends, search-above,
}

-- A search that is sound and ends has a result.
settled :
    (w : Wheel) (L : ℕ → List ℕ) (max x : ℕ) (t : Search)
    → Good w L max t
    → Ends x t
    → (r : ℕ) × (t ≡ returns r) × Sound w L max r × (r ≤ x)
unfolding Good
settled w L max x too_long good ends = absurd good
settled w L max x (goes_on m) good ends = absurd ends
settled w L max x (returns r) good ends = (r, refl, good, ends)

-- Where the lists of the wheel are well formed and none is longer than the fuel, no call of advance is pending, and an event
-- is on the lowest level, the first at `d` slots after the next one: ticks_to_wakeup returns a number that is at most the
-- limit and at most the ticks until the first event of that slot; where the level wraps around on the way, it is also at
-- most the ticks until each event of the slot of level 1 that is next to come down; and it is the limit, or the ticks
-- until an event that is on a list of the wheel.
pub wakeup_lem :
    {w : Wheel} {L : ℕ → List ℕ}
    → Lists none w L
    → (n max : ℕ) → ((s : ℕ) → length (L s) ≤ n)
    → w.pending ≡ 0
    → (d e : ℕ) → d < num_slots
    → ((j : ℕ) → j < d → L (slot_of 0 ((w.now 0 + 1 + j) % num_slots)) ≡ [])
    → first (L (slot_of 0 ((w.now 0 + 1 + d) % num_slots))) ≡ some e
    → (r : ℕ) × (ticks_to_wakeup n w max ≡ some r)
      × (r ≤ max)
      × (r ≤ ticks_until w e)
      × ((u x : ℕ)
          → u < d
          → (w.now 0 + 1 + u) % num_slots ≡ 0
          → mem x (L (slot_of 1 ((w.now 1 + 1) % num_slots))) ≡ true
          → r ≤ ticks_until w x)
      × ((r ≡ max) ⊎ ((x : ℕ) × (s : ℕ) × (mem x (L s) ≡ true) × (r ≡ ticks_until w x)))
unfolding Sound ticks_to_wakeup wakeup_from
wakeup_lem {w} {L} lists n max short idle d e near bare at =
    let (r, is, sound, early) =
      settled w L max (ticks_until w e) found
        (search-Good w L max n lists short num_slots 0 0 max (max-Sound w L max n lists short))
        (search-Ends w num_slots n 0 d max e near none_before (head_at d ∙ at)) in
    (
      r,
      subst (λ b. (if b then ended else some 0) ≡ some r) (sym ((==_iff w.pending 0).1 idle))
          (ap (end_of_level 0 max above) is),
      sound.0,
      early,
      λ u x h wraps m. subst (Below (ticks_until w x)) is (
          search-above w num_slots n 0 u max x (L (next_above w)) (omega arith)
            (λ j k. none_before j (omega arith)) (turn_at u ∙ wraps) walk
            (subst (λ s. mem x (L s) ≡ true) (sym up) m)),
      sound.1,
    )
  where
    found : Search
    found = search_level num_slots n w 0 0 max

    above : Option ℕ
    above = wakeup_from 7 n w max 1

    ended : Option ℕ
    ended = end_of_level 0 max above found

    turn_at : (j : ℕ) → turn_slot w (0 + j) ≡ (w.now 0 + 1 + j) % num_slots
    turn_at j = omega (arith, bit_and-mask 8 (add_tick (add_tick (w.now 0) 1) (0 + j)))

    head_at : (j : ℕ) → turn_head w (0 + j) ≡ first (L (slot_of 0 ((w.now 0 + 1 + j) % num_slots)))
    head_at j = ap (λ i. w.head (slot_of 0 i)) (turn_at j) ∙ lists.head _

    none_before : (j : ℕ) → j < d → turn_head w (0 + j) ≡ none
    none_before j h = head_at j ∙ ap first (bare j h)

    up : next_above w ≡ slot_of 1 ((w.now 1 + 1) % num_slots)
    up = ap (slot_of 1) (omega (arith, bit_and-mask 8 (add_tick (w.now 1) 1)))

    walk : Walk w (w.head (next_above w)) (L (next_above w))
    walk =
        subst (λ o. Walk w o (L (next_above w))) (sym (lists.head (next_above w)))
          (first-Walk w (L (next_above w)) (lists.unique (next_above w))
            (λ x h. lists.next x (next_above w) h))
