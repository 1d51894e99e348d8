-- ===== src/TimerWheel/Search.antt =====
-- What `ticks_to_wakeup` returns.
use godby.Prelude.{
  ℕ, zero, suc, ◌+◌, ◌*◌, ◌/◌, ◌^◌, ◌≤◌, ◌<◌, ◌≡◌, ◌≢◌, ◌⊎◌, inl, inr, refl, sym, ◌∙◌, subst,
  bit_and, ◌&&◌, ◌||◌, Bool, true, Option, none, some, List, ltb, ◌==◌, ==_iff, if◌then◌else◌,
  arith, length, Bool-cases, ltb→lt, and_both,
}
use godby.Prelude.Chain.{mem, first-mem}
use godby.TimerWheel.{
  add_tick, bit_width, level_num, max_level, num_slots, slot_mask, slot_of, Wheel,
}
use godby.TimerWheel.Links.{Lists}
use godby.TimerWheel.Wakeup.{
  ticks_until, Search, too_long, goes_on, returns, min_events, no_events, look_up, look_at,
  search_level, end_of_level, wakeup_from, ticks_to_wakeup,
}
use godby.TimerWheel.Minimum.{Sound, Good, and_then-Good, least-Sound, slot-Good}

module _ (w : Wheel) (L : ℕ → List ℕ) (max : ℕ) where
  module _ (n : ℕ) (lists : Lists none w L) (short : (s : ℕ) → length (L s) ≤ n) where
    look_up-Good : (level index m : ℕ) → Sound w L max m → Good w L max (look_up n w level index m)
    unfolding look_up Good
    look_up-Good level index m g = elim (Bool-cases wraps) [
      | inl yes_up ↦
          subst
            (λ b.
              Good w L max
                (if b then min_events n w (w.head (slot_of (level + 1) up)) m else goes_on m))
            (sym yes_up) (slot-Good w L max n lists short (slot_of (level + 1) up) m g)
      | inr no_up ↦
          subst
            (λ b.
              Good w L max
                (if b then min_events n w (w.head (slot_of (level + 1) up)) m else goes_on m))
            (sym no_up) g
    ]
      where
        up : ℕ
        up = bit_and (add_tick (w.now (level + 1)) 1) slot_mask

        wraps : Bool
        wraps =
            (index == 0)
            && (ltb level max_level && (ltb 0 level || no_events (w.head (slot_of level index))))

    look_at-Good :
        (level s m : ℕ) (o : Option ℕ)
        → w.head s ≡ o
        → Sound w L max m
        → Good w L max (look_at n w level o m)
    unfolding look_at Good
    look_at-Good level s m none at g = g
    look_at-Good level s m (some e) at g = elim (Bool-cases (level == 0)) [
      | inl bottom ↦
          rw bottom (least-Sound w L max m e s (first-mem e (L s) (sym (lists.head s) ∙ at)) g)
      | inr higher ↦ rw higher (
          and_then-Good w L max (min_events n w (some e) m) returns
            (subst (λ o. Good w L max (min_events n w o m)) at
              (slot-Good w L max n lists short s m g))
            (λ r h. h))
    ]

    pub search-Good :
        (turns level i m : ℕ) → Sound w L max m → Good w L max (search_level turns n w level i m)
    unfolding search_level Good
    search-Good zero level i m g = g
    search-Good (suc turns) level i m g =
        and_then-Good w L max (look_up n w level index m) _ (look_up-Good level index m g) (λ m' g'.
          and_then-Good w L max (look_at n w level (w.head (slot_of level index)) m') _
            (look_at-Good level (slot_of level index) m' _ refl g')
            (λ r h. search-Good turns level (i + 1) r h))
      where
        index : ℕ
        index = bit_and (add_tick (add_tick (w.now level) 1) i) slot_mask

    -- What the call comes to.
    abbrev Answer : Option ℕ → Type 0
    Answer o =
        (r : ℕ) × (o ≡ some r) × (((w.pending ≢ 0) × (r ≡ 0)) ⊎ ((w.pending ≡ 0) × Sound w L max r))

    pub max-Sound : Sound w L max max
    unfolding Sound
    max-Sound = (omega arith, inl refl)

    end-Answer :
        (level : ℕ) (above : Option ℕ) (t : Search)
        → w.pending ≡ 0
        → (level < max_level → Answer above)
        → Good w L max t
        → Answer (end_of_level level max above t)
    unfolding Good
    end-Answer level above too_long idle up g = absurd g
    end-Answer level above (returns r) idle up g = (r, refl, inr (idle, g))
    end-Answer level above (goes_on m) idle up g = elim (Bool-cases higher) [
      | inl yes_up ↦
          subst (λ b. Answer (if b then above else some max)) (sym yes_up)
            (up (ltb→lt level max_level (and_both _ _ yes_up).0))
      | inr no_up ↦
          subst (λ b. Answer (if b then above else some max)) (sym no_up)
            (max, refl, inr (idle, max-Sound))
    ]
      where
        higher : Bool
        higher = ltb level max_level && ltb 0 (max / 2 ^ (bit_width * level + 1))

    level-Answer :
        (levels level : ℕ)
        → (level < max_level → Answer (wakeup_from levels n w max (level + 1)))
        → Answer (wakeup_from (suc levels) n w max level)
    unfolding wakeup_from
    level-Answer levels level above = elim (Bool-cases (w.pending == 0)) [
      | inr busy ↦
          subst (λ b. Answer (if b then ended else some 0)) (sym busy)
            (0, refl, inl (λ z. ground (arith, (==_iff w.pending 0).1 z), refl))
      | inl idle ↦
          subst (λ b. Answer (if b then ended else some 0)) (sym idle)
            (end-Answer level (wakeup_from levels n w max (level + 1)) _
              ((==_iff w.pending 0).0 idle) above (search-Good num_slots level 0 max max-Sound))
    ]
      where
        ended : Option ℕ
        ended =
            end_of_level level max (wakeup_from levels n w max (level + 1))
              (search_level num_slots n w level 0 max)

    -- The levels that are left are enough.
    wakeup_from-Answer :
        (levels level : ℕ)
        → level + suc levels ≡ level_num
        → Answer (wakeup_from (suc levels) n w max level)
    wakeup_from-Answer zero level e = level-Answer zero level (λ lt. absurd (omega (arith, e, lt)))
    wakeup_from-Answer (suc levels) level e =
        level-Answer (suc levels) level
          (λ lt. wakeup_from-Answer levels (level + 1) (omega (arith, e)))

-- Where the lists of the wheel are well formed and none is longer than the fuel, ticks_to_wakeup returns: 0 if
-- a call of advance is pending, and else at most the limit, and either the limit or the number of ticks
-- until an event that is on a list of the wheel.
pub ticks_to_wakeup_lem :
    {w : Wheel} {L : ℕ → List ℕ}
    → Lists none w L
    → (n max : ℕ) → ((s : ℕ) → length (L s) ≤ n)
    → (r : ℕ) × (ticks_to_wakeup n w max ≡ some r)
      × (((w.pending ≢ 0) × (r ≡ 0))
          ⊎ ((w.pending ≡ 0)
              × ((r ≤ max)
                  × ((r ≡ max)
                      ⊎ ((e : ℕ) × (s : ℕ) × (mem e (L s) ≡ true) × (r ≡ ticks_until w e))))))
unfolding Sound ticks_to_wakeup
ticks_to_wakeup_lem {w} {L} lists n max short = wakeup_from-Answer w L max n lists short 7 0 refl
