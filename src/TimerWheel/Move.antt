-- ===== src/TimerWheel/Move.antt =====
-- `relink`, `cancel` and `pop` of TimerWheel.h on the lists of the slots.
use godby.Prelude.{
  ℕ, ◌≡◌, refl, false, Option, none, some, List, [], ◌∷◌, arith, if◌then◌else◌, Bool-cases,
  Option-cases, inl, inr,
}
use godby.TimerWheel.{
  Wheel, start, same_slot, unlink, link, relink, cancel, pop_event, is_scheduled, unlink?,
}
use godby.TimerWheel.Links.{
  Lists, without, with_front, unlink-Lists, link-Lists, settle-Lists, settle, Lists-ext,
}

-- The lists after the event `e` has gone from one slot, or none, to the front of another, or to none.
abbrev pub taken : (ℕ → List ℕ) → ℕ → Option ℕ → ℕ → List ℕ
taken L e none = L
taken L e (some s) = without L e s

abbrev pub put : (ℕ → List ℕ) → ℕ → Option ℕ → ℕ → List ℕ
put L e none = L
put L e (some s) = with_front L e s

-- A new wheel has empty lists.
pub start-Lists : (t : ℕ) → Lists none (start t) (λ s. [])
unfolding start
start-Lists t = record {
  head = λ s. refl;
  slot = λ e s h. refl;
  next = λ e s h. cc;
  prev = λ e s h. cc;
  unique = λ s. tt;
  away = λ e s h. cc;
}

module _ {w : Wheel} {L : ℕ → List ℕ} (v : Lists none w L) (e : ℕ) where
  loose-Lists : (o : Option ℕ) → (w.event e).slot ≡ o → Lists (some e) (unlink? e o w) (taken L e o)
  loose-Lists none h = record {
    head = v.head;
    slot = λ x u ne. v.slot x u refl;
    next = v.next;
    prev = v.prev;
    unique = v.unique;
    away = λ x u same. ground (arith, v.slot e u refl);
  }
  loose-Lists (some s) h = unlink-Lists v e s h

  moved-Lists :
      (o new : Option ℕ)
      → (w.event e).slot ≡ o
      → Lists none (settle e new (link e new (unlink? e o w))) (put (taken L e o) e new)
  moved-Lists o none h = settle-Lists e (loose-Lists o h)
  moved-Lists o (some s) h = link-Lists e (loose-Lists o h) s

  -- `relink` takes the event out of its list, wherever it stands there, and puts it at the front of
  -- the new one; every other list keeps its events in order.
  pub relink-Lists :
      (new : Option ℕ)
      → Lists none
          (relink e new w)
          (if same_slot new (w.event e).slot then L else put (taken L e (w.event e).slot) e new)
  unfolding relink
  relink-Lists new = elim (Bool-cases (same_slot new (w.event e).slot)) [
    | inl same ↦ rw same v
    | inr other ↦ rw other (moved-Lists (w.event e).slot new refl)
  ]

  cancel-none : (w.event e).slot ≡ none → cancel e w ≡ w
  unfolding cancel
  cancel-none h = ground arith

  cancel-some :
      (s : ℕ) → (w.event e).slot ≡ some s → cancel e w ≡ settle e none (link e none (unlink e s w))
  unfolding cancel
  cancel-some s h = ground arith

  -- `cancel` takes the event off the wheel, wherever it is scheduled, and leaves an event that is not
  -- scheduled alone.
  pub cancel-Lists :
      Lists none (cancel e w) (taken L e (w.event e).slot) × (is_scheduled (cancel e w) e ≡ false)
  unfolding is_scheduled link
  cancel-Lists = elim (Option-cases (w.event e).slot) [
    | inl h ↦ rw (cancel-none h, h) (v, off h)
    | inr (s, h) ↦ rw (cancel-some s h, h) (moved-Lists (some s) none h, done s)
  ]
    where
      off : (w.event e).slot ≡ none → is_scheduled w e ≡ false
      off h = ground arith

      done : (s : ℕ) → is_scheduled (settle e none (link e none (unlink e s w))) e ≡ false
      done s = ground arith

  pop_event-event :
      (s x : ℕ)
      → (w.event e).prev ≡ none
      → (pop_event s e w).event x ≡ (settle e none (link e none (unlink e s w))).event x
  unfolding pop_event unlink link
  pop_event-event s x h = ground arith

  pop_event-head :
      (s u : ℕ)
      → (w.event e).prev ≡ none
      → (pop_event s e w).head u ≡ (settle e none (link e none (unlink e s w))).head u
  unfolding pop_event unlink link
  pop_event-head s u h = ground arith

  -- `pop` takes the first event off the list of its slot, and leaves it unscheduled.
  pub pop-Lists :
      (s : ℕ) (l : List ℕ)
      → L s ≡ e ∷ l
      → Lists none (pop_event s e w) (without L e s)
        × (without L e s s ≡ l)
        × (is_scheduled (pop_event s e w) e ≡ false)
  unfolding is_scheduled
  pop-Lists s l front = (
    Lists-ext (λ u. pop_event-head s u alone) (λ x. pop_event-event s x alone)
        (moved-Lists (some s) none here),
    ground arith,
    off,
  )
    where
      here : (w.event e).slot ≡ some s
      here = ground (arith, v.slot e s refl)

      alone : (w.event e).prev ≡ none
      alone = ground (arith, v.prev e s)

      off : is_scheduled (pop_event s e w) e ≡ false
      off = ground (arith, pop_event-event s e alone)
