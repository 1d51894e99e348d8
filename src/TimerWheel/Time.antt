-- ===== src/TimerWheel/Time.antt =====
-- The time that a wheel's counters tell, over the calls of `advance`.
use godby.Prelude.{
  ℕ, zero, suc, ◌+◌, ◌-◌, ◌<◌, ◌≡◌, ◌≢◌, refl, sym, ◌∙◌, ap, subst, ◌&&◌, true, false, none, some,
  ◌==◌, ==_iff, arith, update,
}
use godby.TimerWheel.{tick, add_tick, sub_tick, Wheel}
use godby.TimerWheel.Run.{
  Ran, process_current_slot, advance_loop, advance_with, advance_at, advance,
}
use godby.TimerWheel.Okay.{Okay, some-Okay, bind-Okay, if-Okay}
use godby.TimerWheel.Level.{Tells, unit-zero}
-- The counters and the pending ticks stay.
use godby.TimerWheel.Quiet.{Same, process-Same, Rise, Resumes, advance_at-Resumes}
use godby.TimerWheel.Carry.{Carried, Carries, process-Carried, advance_at-Carries}

module _ {S : Type 0} (execute : ℕ → Wheel → S → Wheel × S)
    (quiet : (e : ℕ) (w : Wheel) (s : S) → Same w (execute e w s).0) where
  -- The counters tell one time, which with the ticks that are left to run comes to `total`.
  record Told (total : ℕ) (r : Ran S) : Type 0 where
    pub time : ℕ
    pub tells : Tells r.wheel.now time
    pub due : time + (r.wheel.pending - 1) ≡ total
    pub done : r.finished ≡ true → r.wheel.pending ≡ 0
    pub stopped : r.finished ≡ false → r.wheel.pending ≢ 0

  loop-Told :
      (fuel delta t : ℕ) (w : Wheel) (s : S) (left : ℕ)
      → Tells w.now t
      → w.pending ≡ 0
      → t + delta < tick
      → Okay
          (Told (t + delta))
          (advance_loop execute fuel (some (advance_at execute fuel 6)) 0 delta w s left)
  unfolding advance_loop
  loop-Told fuel zero t w s left tells idle small = some-Okay (Told (t + 0)) _ (record {
    time = t;
    tells = tells;
    due = omega (arith, idle);
    done = λ _. idle;
    stopped = λ (h : true ≡ false). absurd cc;
  })
  loop-Told fuel (suc delta) t w s left tells idle small =
      bind-Okay (Carried execute quiet 0 t w) (Told (t + suc delta))
        (process_current_slot execute fuel (some (advance_at execute fuel 6)) 0 next
          (record w { now = update w.now 0 next }) s left)
        _
        (process-Carried execute quiet fuel (some (advance_at execute fuel 6)) 0 t next w
          (record w { now = update w.now 0 next }) s left
          (record {
            tells = λ k _ h. tells k h;
            idle = idle;
            up = omega (arith, unit-zero (t + 1), unit-zero t);
            low = omega arith;
          })
          (λ a h. (
            omega arith,
            subst (Carries execute quiet 1 t) (of_some a h)
                (advance_at-Carries execute quiet fuel t 6 1 (omega arith) (omega arith)),
          ))
          (λ (h : some (advance_at execute fuel 6) ≡ none). absurd cc)
          (omega (arith, tells 0 (omega arith), unit-zero t, unit-zero (t + 1))) refl idle)
        (λ r c.
          if-Okay (Told (t + suc delta)) r.finished _ _
            (λ done.
              subst
                (λ x. Okay (Told x) (
                  advance_loop execute fuel (some (advance_at execute fuel 6)) 0 delta r.wheel
                    r.world r.left))
                {x = t + 1 + delta} (omega arith)
                (loop-Told fuel delta (t + 1) r.wheel r.world r.left
                  (λ k h. c.tells k (omega arith) h) (c.idle done) (omega arith)))
            (λ stopped. some-Okay (Told (t + suc delta)) _ (record {
              time = t + 1;
              tells = λ k h. c.tells k (omega arith) h;
              due = omega arith;
              done = λ done. absurd (clash (sym stopped ∙ done));
              stopped = λ _ z. omega (arith, z);
            })))
    where
      next : ℕ
      next = add_tick (w.now 0) 1

      clash : false ≡ true → ⊥
      clash e = cc

      of_some :
          (a : Rise execute quiet)
          → some (advance_at execute fuel 6) ≡ some a
          → advance_at execute fuel 6 ≡ a
      of_some a h = cc

  advance-Told :
      (fuel delta t : ℕ) (w : Wheel) (s : S) (left : ℕ)
      → Tells w.now t
      → t + w.pending + delta < tick
      → Okay (Told (t + (w.pending - 1) + delta)) (advance execute fuel delta w s left)
  unfolding advance advance_at advance_with
  advance-Told fuel delta t w s left tells small =
      if-Okay (Told total) (w.pending == 0) _ _
        (λ h.
          let idle = (==_iff w.pending 0).0 h in
          subst
            (λ x.
              Okay (Told x)
                (advance_loop execute fuel (some (advance_at execute fuel 6)) 0 delta w s left))
            {x = t + delta} (omega (arith, idle))
            (loop-Told fuel delta t w s left tells idle (omega arith)))
        (λ h.
          bind-Okay (λ r. Same waiting r.wheel) (Told total)
            (process_current_slot execute fuel (some (advance_at execute fuel 6)) 0 (w.now 0)
              waiting s left)
            _
            (process-Same execute quiet fuel (some (advance_at execute fuel 6)) 0 (w.now 0) waiting
              s left (λ z. some_left h (omega (arith, z)))
              (λ a e.
                subst (Resumes execute quiet) (of_some a e)
                  (advance_at-Resumes execute quiet fuel 6 (omega arith))))
            (λ r same.
              if-Okay (Told total) (r.finished && true) _ _
                (λ done.
                  subst
                    (λ x. Okay (Told x) (
                      advance_loop execute fuel (some (advance_at execute fuel 6)) 0
                        (sub_tick r.wheel.pending 1) (record (r.wheel) { pending = 0 }) r.world
                        r.left))
                    {x = t + sub_tick r.wheel.pending 1}
                    (omega (arith, same.pending, some_pending h))
                    (loop-Told fuel (sub_tick r.wheel.pending 1) t
                      (record (r.wheel) { pending = 0 }) r.world r.left
                      (λ k low. ap (λ f. f k) same.now ∙ tells k low) refl
                      (omega (arith, same.pending, some_pending h))))
                (λ stopped. some-Okay (Told total) r (record {
                  time = t;
                  tells = λ k low. ap (λ f. f k) same.now ∙ tells k low;
                  due = omega (arith, same.pending, some_pending h);
                  done = λ done. ground (arith, stopped, done);
                  stopped = λ _ z. omega (arith, z, same.pending, some_pending h);
                }))))
    where
      total : ℕ
      total = t + (w.pending - 1) + delta

      waiting : Wheel
      waiting = record w { pending = add_tick w.pending delta }

      some_left : (w.pending == 0) ≡ false → w.pending ≡ 0 → ⊥
      some_left h z = ground (arith, (==_iff w.pending 0).1 z)

      some_pending : (w.pending == 0) ≡ false → 0 < w.pending
      some_pending h = ground (arith, some_left h)

      of_some :
          (a : Rise execute quiet)
          → some (advance_at execute fuel 6) ≡ some a
          → advance_at execute fuel 6 ≡ a
      of_some a h = cc

  -- Where no event's `execute` changes the counters or the ticks that are pending, and the counters of all levels tell one
  -- time, from which the ticks that are left to run do not pass 2 ^ 64: after a call of advance that returns, whether all its
  -- ticks have been run or the number of executions has run out, the counters of all levels tell one time again, and
  -- that time and the ticks that are left add up to what they were and the ticks of the call; none is left exactly if
  -- the call returned true.
  pub advance_lem :
      (fuel delta t : ℕ) (w : Wheel) (s : S) (left : ℕ)
      → Tells w.now t
      → t + w.pending + delta < tick
      → (r : Ran S) → advance execute fuel delta w s left ≡ some r
      → (t' : ℕ) × Tells r.wheel.now t'
        × (t' + (r.wheel.pending - 1) ≡ t + (w.pending - 1) + delta)
        × ((r.finished ≡ true → r.wheel.pending ≡ 0) × (r.finished ≡ false → r.wheel.pending ≢ 0))
  advance_lem fuel delta t w s left tells small r e =
      let told = (advance-Told fuel delta t w s left tells small).at r e in
      (told.time, told.tells, told.due, (told.done, told.stopped))
