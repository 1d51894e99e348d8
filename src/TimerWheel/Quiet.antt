-- ===== src/TimerWheel/Quiet.antt =====
-- What the slots that `advance` runs do to the counters and the pending ticks of a wheel.
use godby.Prelude.{
  ℕ, zero, suc, ◌-◌, ◌<◌, ◌≡◌, ◌≢◌, refl, ◌∙◌, subst, bit_and, ◌&&◌, false, Option, none, some,
  ◌==◌, ==_iff, arith, not, leb, ltb,
}
use godby.TimerWheel.{add_tick, sub_tick, max_level, slot_mask, Wheel, pop_event}
use godby.TimerWheel.Run.{
  file_event, schedule, find_level, set_scheduled_at, Ran, fire, drain, process_current_slot,
  advance_with, advance_at,
}
use godby.TimerWheel.Okay.{Okay, none-Okay, some-Okay, elim-Okay, bind-Okay, if-Okay}
use godby.TimerWheel.Place.{relink-now, relink-pending}

-- The counters and the pending ticks stay.
pub record Same (w v : Wheel) : Type 0 where
  pub now : v.now ≡ w.now
  pub pending : v.pending ≡ w.pending

pub Same-refl : (w : Wheel) → Same w w
Same-refl w = record { now = refl; pending = refl }

Same-trans : (u v w : Wheel) → Same u v → Same v w → Same u w
Same-trans u v w h h' = record { now = h'.now ∙ h.now; pending = h'.pending ∙ h.pending }

pub schedule-Same : (e delta : ℕ) (w : Wheel) → Okay (Same w) (schedule e delta w)
unfolding schedule file_event
schedule-Same e delta w =
    filed (find_level 8 w.now 0 delta) (set_scheduled_at e (add_tick (w.now 0) delta) w)
      (record { now = refl; pending = refl })
  where
    filed : (o : Option (ℕ × ℕ)) (v : Wheel) → Same w v → Okay (Same w) (file_event e o v)
    filed none v same = none-Okay (Same w)
    filed (some (level, delta)) v same =
        some-Okay (Same w) _ record {
          now = relink-now e _ v ∙ same.now;
          pending = relink-pending e _ v ∙ same.pending;
        }

pop_event-Same : (s e : ℕ) (w : Wheel) → Same w (pop_event s e w)
unfolding pop_event
pop_event-Same s e w = record { now = ground arith; pending = ground arith }

module _ {S : Type 0} (execute : ℕ → Wheel → S → Wheel × S)
    (quiet : (e : ℕ) (w : Wheel) (s : S) → Same w (execute e w s).0) where
  pub drain-Same :
      (n level slot : ℕ) (u w : Wheel) (s : S) (left : ℕ)
      → Same u w
      → Okay (λ r. Same u r.wheel) (drain execute n level slot w s left)
  unfolding drain fire
  drain-Same zero level slot u w s left same = none-Okay (λ r. Same u r.wheel)
  drain-Same (suc n) level slot u w s left same =
      elim-Okay (λ r. Same u r.wheel) (w.head slot) _ _
        (λ _. some-Okay (λ r. Same u r.wheel) _ same)
        (λ e is.
          let w' = pop_event slot e w in
          let same' = Same-trans u w w' same (pop_event-Same slot e w) in
          let at = (w'.event e).scheduled_at in
          if-Okay (λ r. Same u r.wheel) (ltb 0 level && not (leb at (w'.now 0))) _ _
            (λ later.
              bind-Okay (Same w') (λ r. Same u r.wheel) (schedule e (sub_tick at (w'.now 0)) w') _
                (schedule-Same e (sub_tick at (w'.now 0)) w')
                (λ v h. drain-Same n level slot u v s left (Same-trans u w' v same' h)))
            (λ due.
              let same″ = Same-trans u w' (execute e w' s).0 same' (quiet e w' s) in
              if-Okay (λ r. Same u r.wheel) (sub_tick left 1 == 0) _ _
                (λ out. some-Okay (λ r. Same u r.wheel) _ same″)
                (λ on.
                  drain-Same n level slot u (execute e w' s).0 (execute e w' s).1 (sub_tick left 1)
                    same″)))

  -- A call of the level above.
  abbrev pub Rise : Type 0
  Rise = ℕ → Wheel → S → ℕ → Option (Ran S)

  abbrev pub Resumes : Rise → Type 0
  Resumes a =
      (w : Wheel) (s : S) (left : ℕ) → w.pending ≢ 0 → Okay (λ r. Same w r.wheel) (a 1 w s left)

  pub process-Same :
      (fuel : ℕ) (above : Option Rise) (level now : ℕ) (w : Wheel) (s : S) (left : ℕ)
      → w.pending ≢ 0
      → ((a : Rise) → above ≡ some a → Resumes a)
      → Okay (λ r. Same w r.wheel) (process_current_slot execute fuel above level now w s left)
  unfolding process_current_slot
  process-Same fuel above level now w s left busy resumes =
      if-Okay (λ r. Same w r.wheel) (bit_and now slot_mask == 0) _ _
        (λ wraps.
          elim-Okay (λ r. Same w r.wheel) above _ _
            (λ _. drain-Same fuel level _ w w s left (Same-refl w))
            (λ a is.
              bind-Okay (λ r. Same w r.wheel) (λ r. Same w r.wheel) (a 1 w s left) _
                (resumes a is w s left busy)
                (λ r h.
                  if-Okay (λ r. Same w r.wheel) r.finished _ _
                    (λ done. drain-Same fuel level _ w r.wheel r.world left h)
                    (λ stopped. some-Okay (λ r. Same w r.wheel) _ h))))
        (λ stays. drain-Same fuel level _ w w s left (Same-refl w))

  -- With a call pending, a level above the lowest only runs its slot again.
  with-Same :
      (fuel : ℕ) (above : Option Rise) (level : ℕ)
      → level ≢ 0
      → ((a : Rise) → above ≡ some a → Resumes a)
      → Resumes (advance_with execute fuel above level)
  unfolding advance_with
  with-Same fuel above level high resumes w s left busy =
      if-Okay (λ r. Same w r.wheel) (w.pending == 0) _ _
        (λ idle. absurd (busy ((==_iff w.pending 0).0 idle)))
        (λ _. rw apart (
          bind-Okay (λ r. Same w r.wheel) (λ r. Same w r.wheel)
            (process_current_slot execute fuel above level (w.now level) w s left) _
            (process-Same fuel above level (w.now level) w s left busy resumes)
            (λ r h.
              if-Okay (λ r. Same w r.wheel) (r.finished && (level == 0)) _ _
                (λ both. absurd (ground (arith, apart)))
                (λ _. some-Okay (λ r. Same w r.wheel) _ h))))
    where
      apart : (level == 0) ≡ false
      apart = ground (arith, high)

  pub advance_at-Resumes : (fuel n : ℕ) → n < max_level → Resumes (advance_at execute fuel n)
  unfolding advance_at
  advance_at-Resumes fuel zero low =
      with-Same fuel none max_level (omega arith) (λ a (h : none ≡ some a). absurd cc)
  advance_at-Resumes fuel (suc n) low =
      with-Same fuel (some (advance_at execute fuel n)) (max_level - suc n) (omega arith)
        (λ a h. subst Resumes (of_some a h) (advance_at-Resumes fuel n (omega arith)))
    where
      of_some :
          (a : Rise) → some (advance_at execute fuel n) ≡ some a → advance_at execute fuel n ≡ a
      of_some a h = cc
