-- ===== src/HazardPointers/Moves.antt =====
-- The kinds of steps, by what they change, keep the invariant.
use native.Mathlib.Nat.{le_refl}
use godby.Prelude.{
  ℕ, ◌<◌, ◌≡◌, ◌≢◌, refl, sym, ◌∙◌, ap, subst, true, false, Option, List, arith, inl, inr, update,
  update_other, update_cases, update-same, ◌==◌, ==_iff, Bool-cases,
}
use godby.Prelude.Chain.{mem}
use godby.HazardPointers.Slot.{HazardSlot}
use godby.HazardPointers.{
  Task, Thread, outside, seeking, exchanging, following, linking, crashed, owning, Hazards,
  set_thread, act,
}
use godby.HazardPointers.Held.{SlotGuard, TaskGuard, ThreadGuard, Held, SlotKept, kept-Held}
use godby.HazardPointers.Guards.{listed}
use godby.HazardPointers.Valid.{
  Claims, Place, owns, Valid, Leaves, left-Place, left-Claims, places_after, alone_after,
}

pub same_slots : (s s' : Hazards) (x : Thread) → s'.slot ≡ s.slot → SlotKept s s' x
same_slots s s' outside e = tt
same_slots s s' (seeking k) e = tt
same_slots s s' (exchanging k) e = tt
same_slots s s' (following k) e = tt
same_slots s s' (linking k) e = tt
same_slots s s' crashed e = tt
same_slots s s' (owning k task) e = ap (λ f. f k) e

pub other_slots :
    (s s' : Hazards) (k : ℕ) (l : HazardSlot) (x : Thread)
    → s'.slot ≡ update s.slot k l
    → owns x k ≡ false
    → SlotKept s s' x
other_slots s s' k l outside e n = tt
other_slots s s' k l (seeking j) e n = tt
other_slots s s' k l (exchanging j) e n = tt
other_slots s s' k l (following j) e n = tt
other_slots s s' k l (linking j) e n = tt
other_slots s s' k l crashed e n = tt
other_slots s s' k l (owning j task) e n =
    ap (λ f. f j) e ∙ update_other s.slot k l j (λ e'. ground (arith, (==_iff j k).1 e'))

-- Another thread does not own the slot of thread t.
pub not_owned :
    (s : Hazards) (t u k : ℕ)
    → Valid s
    → owns (s.thread t) k ≡ true
    → t ≢ u
    → owns (s.thread u) k ≡ false
not_owned s t u k v h ne = elim (Bool-cases (owns (s.thread u) k)) [
  | inl h' ↦ absurd (ne (v.alone k t u h h'))
  | inr n ↦ n
]

pub owner_apart :
    (s : Hazards) (t u k j : ℕ)
    → Valid s
    → owns (s.thread t) k ≡ true
    → t ≢ u
    → owns (s.thread u) j ≡ true
    → (k == j) ≡ false
owner_apart s t u k j v mine ne h = elim (Bool-cases (k == j)) [
  | inl e ↦
      absurd
        (ne (v.alone j t u (subst (λ j. owns (s.thread t) j ≡ true) ((==_iff k j).0 e) mine) h))
  | inr n ↦ n
]

-- A thread goes on, and owns a slot only if it did.
pub set_thread-Valid :
    (s : Hazards) (t : ℕ) (x : Thread)
    → ((k p : ℕ) → Held s k p → ThreadGuard k p s.slot x)
    → ((k : ℕ) → owns x k ≡ true → owns (s.thread t) k ≡ true)
    → Place s x
    → Valid s
    → Valid (set_thread t x s)
set_thread-Valid s t x guard mine own v = record {
  place =
      places_after s s' t x refl (le_refl s.size) (λ u k ne h. leaves k)
        (left-Place s s' x (le_refl s.size) (λ k h. leaves k) own) v;
  alone = alone_after s s' t x refl apart v;
  some_slot = v.some_slot;
  linked = v.linked;
  lists = v.lists;
  dead = v.dead;
}
  where
    s' : Hazards
    s' = set_thread t x s

    leaves : (k : ℕ) → Leaves s s' k
    leaves k = record {
      in_use = λ h. h;
      ptr = refl;
      held = λ p h.
          kept-Held k p t x s s' refl (le_refl s.size) refl h.alive h.slots
            (λ u ne. same_slots s s' (s.thread u) refl) (guard k p h) h;
    }

    apart : (u k : ℕ) → t ≢ u → owns (s.thread u) k ≡ true → owns x k ≡ false
    apart u k ne h = elim (Bool-cases (owns x k)) [
      | inl h' ↦ absurd (ne (v.alone k t u (mine k h') h))
      | inr n ↦ n
    ]

-- What the owner of slot `k` does to it guards the objects that are protected.
pub act-Valid :
    (s : Hazards) (t k : ℕ) (task : Task) (l : HazardSlot) (ds : List ℕ)
    → owns (s.thread t) k ≡ true
    → ((j p : ℕ) → Held s j p → SlotGuard j p l × TaskGuard j p l task × (mem p ds ≡ false))
    → ((p : ℕ) → listed p l ≡ true → s.retired p ≡ true)
    → ((p : ℕ) → mem p ds ≡ true → s.retired p ≡ true)
    → (k < s.size) × (s.in_use k ≡ true) × Claims s k task
    → Valid s
    → Valid (act t k task l ds s)
act-Valid s t k task l ds mine guard listed_retired dead_retired own v = record {
  place =
      places_after s s' t (owning k task) refl (le_refl s.size) (λ u j ne h. leaves j)
        (own.0, own.1, left-Claims s s' k task (leaves k) own.2) v;
  alone = alone_after s s' t (owning k task) refl (λ u j ne h. owner_apart s t u k j v mine ne h) v;
  some_slot = v.some_slot;
  linked = v.linked;
  lists = λ j p. elim (update_cases s.slot k l j) [
    | inl (e, e') ↦ subst (λ l. listed p l ≡ true → s.retired p ≡ true) (sym e') (listed_retired p)
    | inr e ↦ subst (λ l. listed p l ≡ true → s.retired p ≡ true) (sym e) (v.lists j p)
  ];
  dead = λ p h. ground (arith, v.dead p, dead_retired p);
}
  where
    s' : Hazards
    s' = act t k task l ds s

    leaves : (j : ℕ) → Leaves s s' j
    leaves j = record {
      in_use = λ h. h;
      ptr = refl;
      held = λ p h.
          let (slot_guard, task_guard, alive) = guard j p h in
          kept-Held j p t (owning k task) s s' refl (le_refl s.size) refl (ground (arith, h.alive))
            (λ i. elim (update_cases s.slot k l i) [
              | inl (e, e') ↦ subst (SlotGuard j p) (sym e') slot_guard
              | inr e ↦ subst (SlotGuard j p) (sym e) (h.slots i)
            ])
            (λ u ne. other_slots s s' k l (s.thread u) refl (not_owned s t u k v mine ne))
            (subst (λ l. TaskGuard j p l task) (sym (update-same s.slot k l)) task_guard) h;
    }

-- The owner of slot `k` writes its pointer.
pub write-Valid :
    (s : Hazards) (t k : ℕ) (o : Option ℕ) (task : Task)
    → owns (s.thread t) k ≡ true
    → ((j p : ℕ) → TaskGuard j p (s.slot k) task)
    → (let s' = record s {
      thread = update s.thread t (owning k task);
      protected_ptr = update s.protected_ptr k o;
    } in
        Place s' (owning k task))
    → Valid s
    → Valid (record s {
      thread = update s.thread t (owning k task);
      protected_ptr = update s.protected_ptr k o;
    })
write-Valid s t k o task mine guard own v = record {
  place = places_after s s' t (owning k task) refl (le_refl s.size) leaves own v;
  alone = alone_after s s' t (owning k task) refl (λ u j ne h. owner_apart s t u k j v mine ne h) v;
  some_slot = v.some_slot;
  linked = v.linked;
  lists = v.lists;
  dead = v.dead;
}
  where
    s' : Hazards
    s' = record s {
      thread = update s.thread t (owning k task);
      protected_ptr = update s.protected_ptr k o;
    }

    leaves : (u j : ℕ) → t ≢ u → owns (s.thread u) j ≡ true → Leaves s s' j
    leaves u j ne h = record {
      in_use = λ h. h;
      ptr = other;
      held = λ p h.
          kept-Held j p t (owning k task) s s' refl (le_refl s.size) other h.alive h.slots
            (λ u ne. same_slots s s' (s.thread u) refl) (guard j p) h;
    }
      where
        other : update s.protected_ptr k o j ≡ s.protected_ptr j
        other =
            update_other s.protected_ptr k o j
              (λ e. ne (v.alone j t u (subst (λ j. owns (s.thread t) j ≡ true) (sym e) mine) h))
