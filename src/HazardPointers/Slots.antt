-- ===== src/HazardPointers/Slots.antt =====
-- The slots that threads take and give back, and what the client does to its atomics, keep the invariant.
use native.Mathlib.Nat.{le_refl}
use godby.Prelude.{
  ℕ, ◌+◌, ◌<◌, ◌≡◌, ◌≢◌, refl, sym, subst, Bool, true, false, Option, none, arith, inl, inr, update,
  update_other, update_cases, update-same, ◌==◌, ==_iff, Bool-cases,
}
use godby.Prelude.Chain.{opt_is}
use godby.HazardPointers.Slot.{new_slot}
use godby.HazardPointers.{
  ready, Thread, outside, seeking, exchanging, following, linking, crashed, owning, Hazards,
}
use godby.HazardPointers.Held.{SlotGuard, kept-Held}
use godby.HazardPointers.Guards.{listed}
use godby.HazardPointers.Valid.{Place, owns, Valid, Leaves, left-Place, places_after, alone_after}
use godby.HazardPointers.Moves.{same_slots, other_slots, owner_apart}

pub owned :
    (s : Hazards) (x : Thread) (k : ℕ)
    → Place s x
    → owns x k ≡ true
    → (k < s.size) × (s.in_use k ≡ true)
owned s outside k p h = absurd (cc)
owned s (seeking j) k p h = absurd (cc)
owned s (exchanging j) k p h = absurd (cc)
owned s (following j) k p h = absurd (cc)
owned s (linking j) k p h = absurd (cc)
owned s crashed k p h = absurd (cc)
owned s (owning j task) k p h =
    subst (λ k. (k < s.size) × (s.in_use k ≡ true)) ((==_iff j k).0 h) (p.0, p.1)

-- A thread takes slot `k`, which nobody has.
pub take-Valid :
    (s : Hazards) (t k : ℕ)
    → k < s.size
    → s.in_use k ≡ false
    → Valid s
    → Valid (record s {
      in_use = update s.in_use k true;
      thread = update s.thread t (owning k (ready none));
    })
take-Valid s t k low free v = record {
  place =
      places_after s s' t (owning k (ready none)) refl (le_refl s.size) (λ u j ne h. leaves j)
        (low, update-same s.in_use k true, tt) v;
  alone = alone_after s s' t (owning k (ready none)) refl apart v;
  some_slot = v.some_slot;
  linked = v.linked;
  lists = v.lists;
  dead = v.dead;
}
  where
    s' : Hazards
    s' = record s {
      in_use = update s.in_use k true;
      thread = update s.thread t (owning k (ready none));
    }

    leaves : (j : ℕ) → Leaves s s' j
    leaves j = record {
      in_use = λ h. ground arith;
      ptr = refl;
      held = λ p h.
          kept-Held j p t (owning k (ready none)) s s' refl (le_refl s.size) refl h.alive h.slots
            (λ u ne. same_slots s s' (s.thread u) refl) tt h;
    }

    apart : (u j : ℕ) → t ≢ u → owns (s.thread u) j ≡ true → (k == j) ≡ false
    apart u j ne h = elim (Bool-cases (k == j)) [
      | inl e ↦ absurd (
          contrary (
            subst (λ j. s.in_use j ≡ true) (sym ((==_iff k j).0 e))
              (owned s (s.thread u) j (v.place u) h).1))
      | inr n ↦ n
    ]
      where
        contrary : s.in_use k ≡ true → ⊥
        contrary h = cc

pub new_slot-SlotGuard : (hardware k p : ℕ) → SlotGuard k p (new_slot hardware)
new_slot-SlotGuard hardware k p = record { now = λ m. absurd (cc); later = λ m past. absurd (cc) }

abbrev linked : ℕ → ℕ → Hazards → Hazards
linked hardware t s = record s {
  size = s.size + 1;
  in_use = update s.in_use s.size true;
  protected_ptr = update s.protected_ptr s.size none;
  slot = update s.slot s.size (new_slot hardware);
  thread = update s.thread t (owning s.size (ready none));
}

-- A thread makes a slot of its own.
pub linked-Valid : (hardware : ℕ) (s : Hazards) (t : ℕ) → Valid s → Valid (linked hardware t s)
linked-Valid hardware s t v = record {
  place =
      places_after s s' t x refl (omega arith)
        (λ u j ne h. leaves j (owned s (s.thread u) j (v.place u) h).0)
        (omega arith, update-same s.in_use s.size true, tt) v;
  alone =
      alone_after s s' t x refl (λ u j ne h. not_new j (owned s (s.thread u) j (v.place u) h).0) v;
  some_slot = omega arith;
  linked = v.linked;
  lists = λ j p. elim (update_cases s.slot s.size (new_slot hardware) j) [
    | inl (e, e') ↦ subst (λ l. listed p l ≡ true → s.retired p ≡ true) (sym e') (λ h. absurd (cc))
    | inr e ↦ subst (λ l. listed p l ≡ true → s.retired p ≡ true) (sym e) (v.lists j p)
  ];
  dead = v.dead;
}
  where
    s' : Hazards
    s' = linked hardware t s

    x : Thread
    x = owning s.size (ready none)

    not_new : (j : ℕ) → j < s.size → (s.size == j) ≡ false
    not_new j low = ground arith

    new_of : (y : Thread) → Place s y → owns y s.size ≡ false
    new_of y p = elim (Bool-cases (owns y s.size)) [
      | inl h ↦ absurd (omega (arith, (owned s y s.size p h).0))
      | inr n ↦ n
    ]

    leaves : (j : ℕ) → j < s.size → Leaves s s' j
    leaves j low = record {
      in_use = λ h. ground arith;
      ptr = update_other s.protected_ptr s.size none j (λ e. omega arith);
      held = λ p h.
          kept-Held j p t x s s' refl (omega arith)
            (update_other s.protected_ptr s.size none j (λ e. omega arith)) h.alive
            (λ i. elim (update_cases s.slot s.size (new_slot hardware) i) [
              | inl (e, e') ↦ subst (SlotGuard j p) (sym e') (new_slot-SlotGuard hardware j p)
              | inr e ↦ subst (SlotGuard j p) (sym e) (h.slots i)
            ])
            (λ u ne.
              other_slots s s' s.size (new_slot hardware) (s.thread u) refl
                (new_of (s.thread u) (v.place u)))
            tt h;
    }

-- A thread gives its slot back.
pub give_back-Valid :
    (s : Hazards) (t k : ℕ)
    → owns (s.thread t) k ≡ true
    → Valid s
    → Valid (record s { in_use = update s.in_use k false; thread = update s.thread t outside })
give_back-Valid s t k mine v = record {
  place = places_after s s' t outside refl (le_refl s.size) leaves tt v;
  alone = alone_after s s' t outside refl (λ u j ne h. refl) v;
  some_slot = v.some_slot;
  linked = v.linked;
  lists = v.lists;
  dead = v.dead;
}
  where
    s' : Hazards
    s' = record s { in_use = update s.in_use k false; thread = update s.thread t outside }

    leaves : (u j : ℕ) → t ≢ u → owns (s.thread u) j ≡ true → Leaves s s' j
    leaves u j ne h = record {
      in_use = λ h'. ground (arith, owner_apart s t u k j v mine ne h);
      ptr = refl;
      held = λ p h.
          kept-Held j p t outside s s' refl (le_refl s.size) refl h.alive h.slots
            (λ u ne. same_slots s s' (s.thread u) refl) tt h;
    }

-- The client stores to its atomics, or an object counts as retired.
pub client-Valid :
    (s : Hazards) (src : ℕ → Option ℕ) (retired : ℕ → Bool)
    → ((i p : ℕ) → opt_is (src i) p ≡ true → retired p ≡ false)
    → ((p : ℕ) → s.retired p ≡ true → retired p ≡ true)
    → Valid s
    → Valid (record s { src = src; retired = retired })
client-Valid s src retired apart more v = record {
  place = λ t. left-Place s s' (s.thread t) (le_refl s.size) (λ k h. leaves k) (v.place t);
  alone = v.alone;
  some_slot = v.some_slot;
  linked = apart;
  lists = λ j p h. more p (v.lists j p h);
  dead = λ p h. more p (v.dead p h);
}
  where
    s' : Hazards
    s' = record s { src = src; retired = retired }

    leaves : (k : ℕ) → Leaves s s' k
    leaves k = record {
      in_use = λ h. h;
      ptr = refl;
      held = λ p h. record {
        inside = h.inside;
        ptr = h.ptr;
        alive = h.alive;
        slots = h.slots;
        threads = h.threads;
      };
    }
