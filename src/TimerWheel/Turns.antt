-- ===== src/TimerWheel/Turns.antt =====
-- The turns of the search of `ticks_to_wakeup` on the lowest level.
use godby.Prelude.{
  ℕ, zero, suc, ◌+◌, ◌≤◌, ◌<◌, ◌≡◌, inl, inr, refl, sym, ◌∙◌, ap, subst, bit_and, ◌&&◌, ◌||◌, Bool,
  true, false, Option, none, some, List, [], ◌∷◌, ltb, ◌==◌, ==_iff, if◌then◌else◌, arith,
  Bool-cases,
}
use godby.Prelude.Chain.{mem}
use godby.TimerWheel.{add_tick, max_level, slot_mask, slot_of, Wheel}
use godby.TimerWheel.Wakeup.{
  least, ticks_until, Search, too_long, goes_on, returns, and_then, min_events, no_events, look_up,
  look_at, search_level,
}
use godby.TimerWheel.Minimum.{Walk}

-- A result, or the least number so far, is at most `x`.
abbrev pub Below : ℕ → Search → Type 0
Below x too_long = Unit
Below x (goes_on m) = m ≤ x
Below x (returns r) = r ≤ x

-- The search goes on.
abbrev Passes : Search → Type 0
Passes too_long = Unit
Passes (goes_on m) = Unit
Passes (returns r) = ⊥

-- It has ended with at most `x`.
abbrev pub Ends : ℕ → Search → Type 0
Ends x too_long = Unit
Ends x (goes_on m) = ⊥
Ends x (returns r) = r ≤ x

and_then-Below :
    (x : ℕ) (t : Search) (k : ℕ → Search)
    → Below x t
    → ((m : ℕ) → m ≤ x → Below x (k m))
    → Below x (and_then t k)
and_then-Below x too_long k b h = tt
and_then-Below x (goes_on m) k b h = h m b
and_then-Below x (returns r) k b h = b

and_then-Passes :
    (P : Search → Type 0) (t : Search) (k : ℕ → Search)
    → P too_long
    → Passes t
    → ((m : ℕ) → P (k m))
    → P (and_then t k)
and_then-Passes P too_long k b p h = b
and_then-Passes P (goes_on m) k b p h = h m
and_then-Passes P (returns r) k b p h = absurd p

module _ (w : Wheel) where
  min_events-Below : (x n : ℕ) (o : Option ℕ) (m : ℕ) → m ≤ x → Below x (min_events n w o m)
  unfolding min_events
  min_events-Below x zero none m h = h
  min_events-Below x zero (some e) m h = tt
  min_events-Below x (suc n) none m h = h
  min_events-Below x (suc n) (some e) m h =
      min_events-Below x n (w.event e).next (least m (ticks_until w e)) (ground arith)

  min_events-Passes : (n : ℕ) (o : Option ℕ) (m : ℕ) → Passes (min_events n w o m)
  unfolding min_events
  min_events-Passes zero none m = tt
  min_events-Passes zero (some e) m = tt
  min_events-Passes (suc n) none m = tt
  min_events-Passes (suc n) (some e) m =
      min_events-Passes n (w.event e).next (least m (ticks_until w e))

  -- No event of the list is due earlier.
  each_Below :
      (n : ℕ) (o : Option ℕ) (l : List ℕ) (m e : ℕ)
      → Walk w o l
      → mem e l ≡ true
      → Below (ticks_until w e) (min_events n w o m)
  unfolding min_events
  each_Below n o [] m e walk at = absurd cc
  each_Below zero none (a ∷ l) m e walk at = absurd cc
  each_Below zero (some b) (a ∷ l) m e walk at = tt
  each_Below (suc n) none (a ∷ l) m e walk at = absurd cc
  each_Below (suc n) (some b) (a ∷ l) m e walk at = elim (Bool-cases (a == e)) [
    | inl here ↦ min_events-Below (ticks_until w e) n (w.event b).next (least m (ticks_until w b)) (
        subst (λ c. least m (ticks_until w b) ≤ ticks_until w c)
          (of_some walk.0 ∙ (==_iff a e).0 here) (ground arith))
    | inr away ↦
        each_Below n (w.event b).next l (least m (ticks_until w b)) e
          (subst (λ x. Walk w (w.event x).next l) (sym (of_some walk.0)) walk.1) (ground arith)
  ]
    where
      of_some : some b ≡ some a → b ≡ a
      of_some x = cc

  look_up-Below : (x n level index m : ℕ) → m ≤ x → Below x (look_up n w level index m)
  unfolding look_up
  look_up-Below x n level index m h = chosen (
      (index == 0)
      && (ltb level max_level && (ltb 0 level || no_events (w.head (slot_of level index)))))
    where
      up : Option ℕ
      up = w.head (slot_of (level + 1) (bit_and (add_tick (w.now (level + 1)) 1) slot_mask))

      chosen : (b : Bool) → Below x (if b then min_events n w up m else goes_on m)
      chosen true = min_events-Below x n up m h
      chosen false = h

  look_up-Passes : (n level index m : ℕ) → Passes (look_up n w level index m)
  unfolding look_up
  look_up-Passes n level index m = chosen (
      (index == 0)
      && (ltb level max_level && (ltb 0 level || no_events (w.head (slot_of level index)))))
    where
      up : Option ℕ
      up = w.head (slot_of (level + 1) (bit_and (add_tick (w.now (level + 1)) 1) slot_mask))

      chosen : (b : Bool) → Passes (if b then min_events n w up m else goes_on m)
      chosen true = min_events-Passes n up m
      chosen false = tt

  look_at-Below : (x n : ℕ) (o : Option ℕ) (m : ℕ) → m ≤ x → Below x (look_at n w 0 o m)
  unfolding look_at
  look_at-Below x n none m h = h
  look_at-Below x n (some e) m h = ground arith

  -- The slot that the turn `i` looks at.
  abbrev pub turn_slot : ℕ → ℕ
  turn_slot i = bit_and (add_tick (add_tick (w.now 0) 1) i) slot_mask

  abbrev pub turn_head : ℕ → Option ℕ
  turn_head i = w.head (slot_of 0 (turn_slot i))

  search-Below : (x turns n i m : ℕ) → m ≤ x → Below x (search_level turns n w 0 i m)
  unfolding search_level
  search-Below x zero n i m h = h
  search-Below x (suc turns) n i m h =
      and_then-Below x (look_up n w 0 (turn_slot i) m) _ (look_up-Below x n 0 (turn_slot i) m h)
        (λ m' h'.
          and_then-Below x (look_at n w 0 (turn_head i) m') _
            (look_at-Below x n (turn_head i) m' h') (λ r h″. search-Below x turns n (i + 1) r h″))

  -- A turn that finds no event goes on.
  empty_turn :
      (P : Search → Type 0) (turns n i m : ℕ)
      → P too_long
      → turn_head i ≡ none
      → ((m' : ℕ) → P (search_level turns n w 0 (i + 1) m'))
      → P (search_level (suc turns) n w 0 i m)
  unfolding search_level look_at
  empty_turn P turns n i m long bare rest =
      and_then-Passes P (look_up n w 0 (turn_slot i) m) _ long (look_up-Passes n 0 (turn_slot i) m)
        (λ m'.
          subst (λ o. P (and_then (look_at n w 0 o m') (search_level turns n w 0 (i + 1))))
            (sym bare) (rest m'))

  -- The turns up to the first slot with an event end the search with at most its first event.
  pub search-Ends :
      (turns n i d m e : ℕ)
      → d < turns
      → ((j : ℕ) → j < d → turn_head (i + j) ≡ none)
      → turn_head (i + d) ≡ some e
      → Ends (ticks_until w e) (search_level turns n w 0 i m)
  unfolding search_level look_at
  search-Ends zero n i d m e low before at = absurd (omega arith)
  search-Ends (suc turns) n i zero m e low before at =
      and_then-Passes (Ends (ticks_until w e)) (look_up n w 0 (turn_slot i) m) _ tt
        (look_up-Passes n 0 (turn_slot i) m)
        (λ m'.
          subst
            (λ o.
              Ends (ticks_until w e)
                (and_then (look_at n w 0 o m') (search_level turns n w 0 (i + 1))))
            (sym (ap turn_head {x = i} (omega arith) ∙ at)) (ground arith))
  search-Ends (suc turns) n i (suc d) m e low before at =
      empty_turn (Ends (ticks_until w e)) turns n i m tt
        (ap turn_head {x = i} (omega arith) ∙ before 0 (omega arith))
        (λ m'.
          search-Ends turns n (i + 1) d m' e (omega arith)
            (λ j h. ap turn_head (omega arith) ∙ before (suc j) (omega arith))
            (ap turn_head (omega arith) ∙ at))

  -- The slot of level 1 that comes down where level 0 wraps around.
  abbrev pub next_above : ℕ
  next_above = slot_of 1 (bit_and (add_tick (w.now 1) 1) slot_mask)

  -- A turn that wraps around before there is an event looks at all the events that come down.
  pub search-above :
      (turns n i u m e : ℕ) (l : List ℕ)
      → u < turns
      → ((j : ℕ) → j < u + 1 → turn_head (i + j) ≡ none)
      → turn_slot (i + u) ≡ 0
      → Walk w (w.head next_above) l
      → mem e l ≡ true
      → Below (ticks_until w e) (search_level turns n w 0 i m)
  unfolding search_level look_up
  search-above zero n i u m e l low bare wraps walk at = absurd (omega arith)
  search-above (suc turns) n i zero m e l low bare wraps walk at =
      and_then-Below (ticks_until w e) (look_up n w 0 (turn_slot i) m) _
        (subst
          (λ b.
            Below (ticks_until w e) (if b then min_events n w (w.head next_above) m else goes_on m))
          (sym both) (each_Below n (w.head next_above) l m e walk at))
        (λ m' h'.
          and_then-Below (ticks_until w e) (look_at n w 0 (turn_head i) m') _
            (look_at-Below (ticks_until w e) n (turn_head i) m' h')
            (λ r h″. search-Below (ticks_until w e) turns n (i + 1) r h″))
    where
      index : turn_slot i ≡ 0
      index = ap turn_slot {x = i} (omega arith) ∙ wraps

      none_here : turn_head i ≡ none
      none_here = ap turn_head {x = i} (omega arith) ∙ bare 0 (omega arith)

      both : ((turn_slot i == 0) && no_events (turn_head i)) ≡ true
      both = rw (index, none_here) refl
  search-above (suc turns) n i (suc u) m e l low bare wraps walk at =
      empty_turn (Below (ticks_until w e)) turns n i m tt
        (ap turn_head {x = i} (omega arith) ∙ bare 0 (omega arith))
        (λ m'.
          search-above turns n (i + 1) u m' e l (omega arith)
            (λ j h. ap turn_head (omega arith) ∙ bare (suc j) (omega arith))
            (ap turn_slot (omega arith) ∙ wraps) walk at)
