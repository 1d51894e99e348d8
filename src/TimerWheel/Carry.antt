-- ===== src/TimerWheel/Carry.antt =====
-- The carries of `advance` from one level of a wheel to the next.
use godby.Prelude.{
  ℕ, zero, suc, ◌+◌, ◌-◌, ◌/◌, ◌%◌, ◌≤◌, ◌<◌, ◌≡◌, refl, sym, ◌∙◌, ap, subst, bit_and, true, false,
  Option, none, some, ◌==◌, ==_iff, arith, dec_lt, update, update-same, update_other,
}
use godby.Prelude.Bits.{bit_and-mask}
use godby.TimerWheel.{tick, add_tick, level_num, max_level, slot_mask, slot_of, Wheel}
use godby.TimerWheel.Run.{Ran, drain, process_current_slot, advance_loop, advance_with, advance_at}
use godby.TimerWheel.Okay.{Okay, some-Okay, elim-Okay, bind-Okay, map-Okay, if-Okay}
use godby.TimerWheel.Level.{unit, unit-suc, unit_le}
-- The counters and the pending ticks stay.
use godby.TimerWheel.Quiet.{Same, Same-refl, drain-Same, Rise}

-- Times that agree in one unit agree in the coarser ones.
equal_above : (a b l : ℕ) → unit b l ≡ unit a l → (j : ℕ) → unit b (j + l) ≡ unit a (j + l)
equal_above a b l e zero = ap (unit b) {y = l} (omega arith) ∙ (e ∙ ap (unit a) (omega arith))
equal_above a b l e (suc j) =
    ap (unit b) {y = suc (j + l)} (omega arith)
    ∙ (unit-suc b (j + l)
        ∙ (ap (λ x. x / 256) (equal_above a b l e j)
            ∙ (sym (unit-suc a (j + l)) ∙ ap (unit a) (omega arith))))

module _ {S : Type 0} (execute : ℕ → Wheel → S → Wheel × S)
    (quiet : (e : ℕ) (w : Wheel) (s : S) → Same w (execute e w s).0) where
  -- The counters from `level` on have been moved on, those below have not.
  pub record Carried (level t : ℕ) (w : Wheel) (r : Ran S) : Type 0 where
    pub tells : (k : ℕ) → level ≤ k → k < level_num → r.wheel.now k ≡ unit (t + 1) k
    pub lower : (k : ℕ) → k < level → r.wheel.now k ≡ w.now k
    pub idle : r.finished ≡ true → r.wheel.pending ≡ 0

  -- The counters from `level` on tell the time, and the next tick is one for the level.
  pub record Ready (level t : ℕ) (w : Wheel) : Type 0 where
    pub tells : (k : ℕ) → level ≤ k → k < level_num → w.now k ≡ unit t k
    pub idle : w.pending ≡ 0
    pub up : unit (t + 1) level ≡ unit t level + 1
    pub low : level < level_num

  abbrev pub Carries : ℕ → ℕ → Rise execute quiet → Type 0
  Carries level t a =
      (w : Wheel) (s : S) (left : ℕ) → Ready level t w → Okay (Carried level t w) (a 1 w s left)

  kept_Carried :
      (level t : ℕ) (w v : Wheel) (r : Ran S)
      → ((k : ℕ) → level ≤ k → k < level_num → v.now k ≡ unit (t + 1) k)
      → ((k : ℕ) → k < level → v.now k ≡ w.now k)
      → v.pending ≡ 0
      → Same v r.wheel
      → Carried level t w r
  kept_Carried level t w v r tells lower idle same = record {
    tells = λ k h h'. ap (λ f. f k) same.now ∙ tells k h h';
    lower = λ k h. ap (λ f. f k) same.now ∙ lower k h;
    idle = λ _. same.pending ∙ idle;
  }

  -- The slots of `level` and above, once the counter of `level` has been moved on in `v`.
  pub process-Carried :
      (fuel : ℕ) (above : Option (Rise execute quiet)) (level t now : ℕ) (w v : Wheel) (s : S)
      (left : ℕ)
      → Ready level t w
      → ((a : Rise execute quiet)
          → above ≡ some a
          → (level + 1 < level_num) × Carries (level + 1) t a)
      → (above ≡ none → level + 1 ≡ level_num)
      → now ≡ unit (t + 1) level
      → v.now ≡ update w.now level now
      → v.pending ≡ 0
      → Okay (Carried level t w) (process_current_slot execute fuel above level now v s left)
  unfolding process_current_slot
  process-Carried fuel above level t now w v s left ready carries top is moved idle =
      if-Okay (Carried level t w) (bit_and now slot_mask == 0) _ _
        (λ wraps.
          elim-Okay (Carried level t w) above _ _
            (λ e.
              drained v s left
                (λ k. at_level v.now k here (λ j h h'. absurd (omega (arith, top e)))) lower idle)
            (λ a e.
              bind-Okay (Carried (level + 1) t v) (Carried level t w) (a 1 v s left) _
                ((carries a e).1 v s left (risen wraps (carries a e).0))
                (λ r c.
                  if-Okay (Carried level t w) r.finished _ _
                    (λ done.
                      drained r.wheel r.world left (carried r c)
                        (λ k h. c.lower k (omega arith) ∙ lower k h) (c.idle done))
                    (λ stopped. some-Okay (Carried level t w) _ (record {
                      tells = carried r c;
                      lower = λ k h. c.lower k (omega arith) ∙ lower k h;
                      idle = λ done. absurd (clash (sym stopped ∙ done));
                    })))))
        (λ stays. drained v s left (stayed stays) lower idle)
    where
      lower : (k : ℕ) → k < level → v.now k ≡ w.now k
      lower k h = ap (λ f. f k) moved ∙ update_other w.now level now k (λ e. omega (arith, e))

      here : v.now level ≡ unit (t + 1) level
      here = ap (λ f. f level) moved ∙ (update-same w.now level now ∙ is)

      higher : (k : ℕ) → level < k → v.now k ≡ w.now k
      higher k h = ap (λ f. f k) moved ∙ update_other w.now level now k (λ e. omega (arith, e))

      drained :
          (u : Wheel) (z : S) (left : ℕ)
          → ((k : ℕ) → level ≤ k → k < level_num → u.now k ≡ unit (t + 1) k)
          → ((k : ℕ) → k < level → u.now k ≡ w.now k)
          → u.pending ≡ 0
          → Okay
              (Carried level t w)
              (drain execute fuel level (slot_of level (bit_and now slot_mask)) u z left)
      drained u z left tells lower' idle' =
          map-Okay (λ r. Same u r.wheel) (Carried level t w) _
            (λ r same. kept_Carried level t w u r tells lower' idle' same)
            (drain-Same execute quiet fuel level (slot_of level (bit_and now slot_mask)) u u z left
              (Same-refl u))

      clash : false ≡ true → ⊥
      clash e = cc

      at_level :
          (f : ℕ → ℕ) (k : ℕ)
          → f level ≡ unit (t + 1) level
          → ((j : ℕ) → level < j → j < level_num → f j ≡ unit (t + 1) j)
          → level ≤ k
          → k < level_num
          → f k ≡ unit (t + 1) k
      at_level f k e g h h' = elim (dec_lt level k) [
        | yes more ↦ g k more h'
        | no less ↦ let same : level ≡ k = omega arith in subst (λ j. f j ≡ unit (t + 1) j) same e
      ]

      carried :
          (r : Ran S)
          → Carried (level + 1) t v r
          → (k : ℕ) → level ≤ k
          → k < level_num
          → r.wheel.now k ≡ unit (t + 1) k
      carried r c k =
          at_level r.wheel.now k (c.lower level (omega arith) ∙ here)
            (λ j h h'. c.tells j (omega arith) h')

      index : bit_and now slot_mask ≡ unit (t + 1) level % 256
      index = bit_and-mask 8 now ∙ ap (λ x. x % 256) is

      next_unit : (x : ℕ) → unit x (level + 1) ≡ unit x level / 256
      next_unit x = ap (unit x) {y = suc level} (omega arith) ∙ unit-suc x level

      risen : (bit_and now slot_mask == 0) ≡ true → level + 1 < level_num → Ready (level + 1) t v
      risen wraps small = record {
        tells = λ k h h'. higher k (omega arith) ∙ ready.tells k (omega arith) h';
        idle = idle;
        up = omega (
          arith,
          next_unit (t + 1),
          next_unit t,
          ready.up,
          index,
          (==_iff (bit_and now slot_mask) 0).0 wraps,
        );
        low = small;
      }

      stayed :
          (bit_and now slot_mask == 0) ≡ false
          → (k : ℕ) → level ≤ k
          → k < level_num
          → v.now k ≡ unit (t + 1) k
      stayed stays k = at_level v.now k here (λ j h h'.
          higher j h
          ∙ (ready.tells j (omega arith) h'
              ∙ ap (λ i. unit t i) {y = j - suc level + (level + 1)} (omega arith)
              ∙ (sym (equal_above t (t + 1) (level + 1) equal (j - suc level))
                  ∙ ap (unit (t + 1)) (omega arith))))
        where
          equal : unit (t + 1) (level + 1) ≡ unit t (level + 1)
          equal = omega (
            arith,
            next_unit (t + 1),
            next_unit t,
            ready.up,
            index,
            λ (z : bit_and now slot_mask ≡ 0).
                clash (sym stays ∙ (==_iff (bit_and now slot_mask) 0).1 z),
          )

  -- One tick at a level that has carried from the one below.
  with-Carries :
      (fuel : ℕ) (above : Option (Rise execute quiet)) (level t : ℕ)
      → t + 1 < tick
      → ((a : Rise execute quiet)
          → above ≡ some a
          → (level + 1 < level_num) × Carries (level + 1) t a)
      → (above ≡ none → level + 1 ≡ level_num)
      → Carries level t (advance_with execute fuel above level)
  unfolding advance_with advance_loop
  with-Carries fuel above level t small carries top w s left ready =
      if-Okay (Carried level t w) (w.pending == 0) _ _
        (λ _.
          bind-Okay (Carried level t w) (Carried level t w)
            (process_current_slot execute fuel above level (add_tick (w.now level) 1)
              (record w { now = update w.now level (add_tick (w.now level) 1) }) s left)
            _
            (process-Carried fuel above level t (add_tick (w.now level) 1) w
              (record w { now = update w.now level (add_tick (w.now level) 1) }) s left ready
              carries top
              (omega
                (arith, ready.tells level (omega arith) ready.low, ready.up, unit_le (t + 1) level))
              refl ready.idle)
            (λ r c.
              if-Okay (Carried level t w) r.finished _ _
                (λ done.
                  some-Okay (Carried level t w) _
                    (record { tells = c.tells; lower = c.lower; idle = λ _. c.idle done }))
                (λ stopped. some-Okay (Carried level t w) _ (record {
                  tells = c.tells;
                  lower = c.lower;
                  idle = λ done. absurd (clash (sym stopped ∙ done));
                }))))
        (λ busy. absurd (clash (sym busy ∙ (==_iff w.pending 0).1 ready.idle)))
    where
      clash : false ≡ true → ⊥
      clash e = cc

  pub advance_at-Carries :
      (fuel t n level : ℕ)
      → t + 1 < tick
      → n + level ≡ max_level
      → Carries level t (advance_at execute fuel n)
  unfolding advance_at
  advance_at-Carries fuel t zero level small e =
      subst (λ l. Carries l t (advance_with execute fuel none max_level)) {x = max_level}
        (omega (arith, e))
        (with-Carries fuel none max_level t small (λ a (h : none ≡ some a). absurd cc) (λ _. refl))
  advance_at-Carries fuel t (suc n) level small e =
      subst
        (λ l.
          Carries l t
            (advance_with execute fuel (some (advance_at execute fuel n)) (max_level - suc n)))
        {x = max_level - suc n} (omega (arith, e))
        (with-Carries fuel (some (advance_at execute fuel n)) (max_level - suc n) t small
          (λ a h. (
            omega (arith, e),
            subst (Carries (max_level - suc n + 1) t) (of_some a h)
                (advance_at-Carries fuel t n (max_level - suc n + 1) small (omega (arith, e))),
          ))
          (λ (h : some (advance_at execute fuel n) ≡ none). absurd cc))
    where
      of_some :
          (a : Rise execute quiet)
          → some (advance_at execute fuel n) ≡ some a
          → advance_at execute fuel n ≡ a
      of_some a h = cc
