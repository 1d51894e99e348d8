-- ===== src/TimerWheel/Formed.antt =====
-- The lists of a wheel over the calls of `advance`.
use godby.Prelude.{
  ℕ, zero, suc, ◌-◌, ◌≡◌, refl, sym, ◌∙◌, ap, subst, Bool, true, false, bit_and, ◌&&◌, not, ltb,
  leb, Option, none, some, List, [], ◌∷◌, ◌==◌, if◌then◌else◌, update,
}
use godby.Prelude.Chain.{first}
use godby.TimerWheel.{
  add_tick, sub_tick, max_level, slot_mask, Wheel, start, is_scheduled, cancel, pop_event,
}
use godby.TimerWheel.Links.{Lists, Lists-ext}
use godby.TimerWheel.Move.{start-Lists, relink-Lists, cancel-Lists, pop-Lists}
use godby.TimerWheel.Run.{
  file_event, schedule, find_level, range_delta, schedule_in_range, set_scheduled_at, Ran, fire,
  drain, process_current_slot, advance_loop, advance_with, advance_at, advance,
}
use godby.TimerWheel.Place.{set_at, set_at-Lists}
use godby.TimerWheel.Okay.{Okay, none-Okay, some-Okay, elim-Okay, bind-Okay, if-Okay}

-- The pointers of the wheel are those of some lists.
pub record Formed (w : Wheel) : Type 0 where
  pub lists : ℕ → List ℕ
  pub at : Lists none w lists

pub start-Formed : (t : ℕ) → Formed (start t)
start-Formed t = record { lists = λ s. []; at = start-Lists t }

-- The counters and the pending ticks are not part of the lists.
pub moved-Formed : (w v : Wheel) → v.head ≡ w.head → v.event ≡ w.event → Formed w → Formed v
moved-Formed w v h k f = record {
  lists = f.lists;
  at = Lists-ext (λ s. ap (λ g. g s) h) (λ e. ap (λ g. g e) k) f.at;
}

pub cancel-Formed : (e : ℕ) (w : Wheel) → Formed w → Formed (cancel e w)
cancel-Formed e w f = record { lists = _; at = (cancel-Lists f.at e).0 }

pub schedule-Formed : (e delta : ℕ) (w : Wheel) → Formed w → Okay Formed (schedule e delta w)
unfolding schedule file_event set_at
schedule-Formed e delta w f =
    placed (find_level 8 w.now 0 delta) (set_scheduled_at e (add_tick (w.now 0) delta) w)
      (record { lists = f.lists; at = set_at-Lists e (add_tick (w.now 0) delta) f.at })
  where
    placed : (o : Option (ℕ × ℕ)) (v : Wheel) → Formed v → Okay Formed (file_event e o v)
    placed none v g = none-Okay Formed
    placed (some (level, delta)) v g =
        some-Okay Formed _ (record { lists = _; at = relink-Lists g.at e _ })

pub range-Formed :
    (e from to : ℕ) (w : Wheel) → Formed w → Okay Formed (schedule_in_range e from to w)
unfolding schedule_in_range
range-Formed e from to w f =
    let current = sub_tick (w.event e).scheduled_at (w.now 0) in
    if-Okay Formed (is_scheduled w e && leb from current && leb current to) _ _
      (λ _. some-Okay Formed w f) (λ _. schedule-Formed e (range_delta from to) w f)

front : (l : List ℕ) (e : ℕ) → first l ≡ some e → (l' : List ℕ) × (l ≡ e ∷ l')
front [] e h = absurd cc
front (a ∷ l) e h = (l, cc)

pop-Formed : (s e : ℕ) (w : Wheel) → w.head s ≡ some e → Formed w → Formed (pop_event s e w)
pop-Formed s e w h f =
    let (l, is) = front (f.lists s) e (sym (f.at.head s) ∙ h) in
    record { lists = _; at = (pop-Lists f.at e s l is).0 }

module _ {S : Type 0} (execute : ℕ → Wheel → S → Wheel × S)
    (forms : (e : ℕ) (w : Wheel) (s : S) → Formed w → Formed (execute e w s).0) where
  Forms : Ran S → Type 0
  Forms r = Formed r.wheel

  drain-Formed :
      (n level slot : ℕ) (w : Wheel) (s : S) (left : ℕ)
      → Formed w
      → Okay Forms (drain execute n level slot w s left)
  unfolding drain fire Forms
  drain-Formed zero level slot w s left f = none-Okay Forms
  drain-Formed (suc n) level slot w s left f =
      elim-Okay Forms (w.head slot) _ _ (λ _. some-Okay Forms _ f)
        (λ e is.
          let w' = pop_event slot e w in
          let f' : Formed w' = pop-Formed slot e w is f in
          let at = (w'.event e).scheduled_at in
          if-Okay Forms (ltb 0 level && not (leb at (w'.now 0))) _ _
            (λ later.
              bind-Okay Formed Forms (schedule e (sub_tick at (w'.now 0)) w') _
                (schedule-Formed e (sub_tick at (w'.now 0)) w' f')
                (λ v g. drain-Formed n level slot v s left g))
            (λ due.
              if-Okay Forms (sub_tick left 1 == 0) _ _ (λ out. some-Okay Forms _ (forms e w' s f'))
                (λ on.
                  drain-Formed n level slot (execute e w' s).0 (execute e w' s).1 (sub_tick left 1)
                    (forms e w' s f'))))

  abbrev Rise : Type 0
  Rise = ℕ → Wheel → S → ℕ → Option (Ran S)

  abbrev Keeps : Rise → Type 0
  Keeps a = (delta : ℕ) (w : Wheel) (s : S) (left : ℕ) → Formed w → Okay Forms (a delta w s left)

  module _ (fuel : ℕ) (above : Option Rise) (keeps : (a : Rise) → above ≡ some a → Keeps a)
      (level : ℕ) where
    process-Formed :
        (now : ℕ) (w : Wheel) (s : S) (left : ℕ)
        → Formed w
        → Okay Forms (process_current_slot execute fuel above level now w s left)
    unfolding process_current_slot Forms
    process-Formed now w s left f =
        if-Okay Forms (bit_and now slot_mask == 0) _ _
          (λ wraps.
            elim-Okay Forms above _ _ (λ _. drain-Formed fuel level _ w s left f)
              (λ a is. bind-Okay Forms Forms (a 1 w s left) _ (keeps a is 1 w s left f) (λ r g.
                if-Okay Forms r.finished _ _
                  (λ done. drain-Formed fuel level _ r.wheel r.world left g)
                  (λ stopped. some-Okay Forms _ g))))
          (λ stays. drain-Formed fuel level _ w s left f)

    loop-Formed : Keeps (advance_loop execute fuel above level)
    unfolding advance_loop Forms
    loop-Formed zero w s left f = some-Okay Forms _ f
    loop-Formed (suc delta) w s left f =
        let now = add_tick (w.now level) 1 in
        let w' = record w { now = update w.now level now } in
        bind-Okay Forms Forms (process_current_slot execute fuel above level now w' s left) _
          (process-Formed now w' s left (moved-Formed w w' refl refl f))
          (λ r g.
            if-Okay Forms r.finished _ _ (λ done. loop-Formed delta r.wheel r.world r.left g)
              (λ stopped. some-Okay Forms _ (moved-Formed r.wheel _ refl refl g)))

    with-Formed : Keeps (advance_with execute fuel above level)
    unfolding advance_with Forms
    with-Formed delta w s left f =
        if-Okay Forms (w.pending == 0) _ _ (λ idle. loop-Formed delta w s left f)
          (λ busy.
            let w' = if level == 0 then record w { pending = add_tick w.pending delta } else w in
            bind-Okay Forms Forms
              (process_current_slot execute fuel above level (w'.now level) w' s left) _
              (process-Formed (w'.now level) w' s left (waiting (level == 0)))
              (λ r g.
                if-Okay Forms (r.finished && (level == 0)) _ _
                  (λ both.
                    loop-Formed (sub_tick r.wheel.pending 1) (record (r.wheel) { pending = 0 })
                      r.world r.left
                      (moved-Formed r.wheel (record (r.wheel) { pending = 0 }) refl refl g))
                  (λ _. some-Okay Forms r g)))
      where
        waiting :
            (b : Bool) → Formed (if b then record w { pending = add_tick w.pending delta } else w)
        waiting true = moved-Formed w _ refl refl f
        waiting false = f

  advance_at-Formed : (fuel n : ℕ) → Keeps (advance_at execute fuel n)
  unfolding advance_at
  advance_at-Formed fuel zero = with-Formed fuel none (λ a (h : none ≡ some a). absurd cc) max_level
  advance_at-Formed fuel (suc n) =
      with-Formed fuel (some (advance_at execute fuel n))
        (λ a h. subst Keeps (of_some a h) (advance_at-Formed fuel n)) (max_level - suc n)
    where
      of_some :
          (a : Rise) → some (advance_at execute fuel n) ≡ some a → advance_at execute fuel n ≡ a
      of_some a h = cc

  pub advance-Formed :
      (fuel delta : ℕ) (w : Wheel) (s : S) (left : ℕ)
      → Formed w
      → (r : Ran S) → advance execute fuel delta w s left ≡ some r
      → Formed r.wheel
  unfolding advance Forms
  advance-Formed fuel delta w s left f r e =
      (advance_at-Formed fuel max_level delta w s left f).at r e
