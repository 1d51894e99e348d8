-- ===== src/HazardPointers/Guards.antt =====
-- What the owner of a slot does to it leaves the objects that other slots protect.
use godby.Prelude.{
  ℕ, ◌≡◌, refl, sym, subst, Bool, true, false, ◌||◌, Option, none, some, List, [], arith, inl, inr,
  ltb→lt, Bool-cases, if◌then◌else◌,
}
use godby.Prelude.Chain.{mem}
use godby.HazardPointers.Lists.{
  kept, dropped, take, mem-append, mem_of_kept, mem_of_dropped, mem_of_take, mem_of_drop,
  mem-push_all,
}
use godby.HazardPointers.Slot.{
  HazardSlot, Reclaimer, in_set, restart, eject_two, count_retire, waits, begin_scan, continue_scan,
  begin_work, note, finish_cleanup, add_protected,
}
use godby.HazardPointers.Held.{SlotGuard, passed, waiting}

-- Whether an object is on a list of the slot.
abbrev pub listed : ℕ → HazardSlot → Bool
listed p l = mem p l.retired || waiting p l

-- The slot `l` has become `l'`, and `ds` have been destroyed.
pub record Spares (k p : ℕ) (l l' : HazardSlot) (ds : List ℕ) : Type 0 where
  pub guard : SlotGuard k p l → SlotGuard k p l'
  pub alive : SlotGuard k p l → mem p ds ≡ false
  pub list : listed p l' ≡ true → listed p l ≡ true
  pub dead : mem p ds ≡ true → listed p l ≡ true

not_dropped :
    (f : ℕ → Bool) (p : ℕ) (xs : List ℕ)
    → (mem p xs ≡ true → f p ≡ true)
    → mem p (dropped f xs) ≡ false
not_dropped f p xs h = elim (Bool-cases (mem p (dropped f xs))) [
  | inl m ↦ absurd (contrary (mem_of_dropped f p xs m))
  | inr m ↦ m
]
  where
    contrary : (mem p xs ≡ true) × (f p ≡ false) → ⊥
    contrary (m, n) = cc (h m)

eject_two-Spares : (k p : ℕ) (l : HazardSlot) → Spares k p l (eject_two l).0 (eject_two l).1
eject_two-Spares k p l = record {
  guard = λ g. record {
    now = λ m. g.now (mem_of_drop p 2 r.eligible m);
    later = λ m past. g.later (ground (arith, mem_of_drop p 2 r.eligible)) past;
  };
  alive = λ g.
      not_dropped (in_set r.protected_set) p (take r.eligible 2)
        (λ m. g.now (mem_of_take p 2 r.eligible m));
  list = λ m. ground (
    arith,
    mem-push_all p (kept (in_set r.protected_set) (take r.eligible 2)) l.retired,
    mem_of_kept (in_set r.protected_set) p (take r.eligible 2),
    mem_of_take p 2 r.eligible,
    mem_of_drop p 2 r.eligible,
  );
  dead = λ m. ground (
    arith,
    mem_of_take p 2 r.eligible (mem_of_dropped (in_set r.protected_set) p (take r.eligible 2) m).0,
  );
}
  where
    r : Reclaimer
    r = l.reclaimer

-- A slot whose scan is over.
restart-guard :
    (k p : ℕ) (l : HazardSlot)
    → l.reclaimer.current_slot ≡ none
    → SlotGuard k p l
    → SlotGuard k p (restart l)
restart-guard k p l over g = record {
  now = λ m.
      g.later (ground (arith, mem-append p l.reclaimer.eligible l.reclaimer.next_eligible))
        (subst (λ o. passed k o ≡ true) (sym over) refl);
  later = λ m past. absurd (omega (arith, ltb→lt k 0 past));
}

restart-listed : (p : ℕ) (l : HazardSlot) → listed p (restart l) ≡ true → listed p l ≡ true
restart-listed p l m = ground (arith, mem-append p l.reclaimer.eligible l.reclaimer.next_eligible)

begin_scan-Spares :
    (k p : ℕ) (l : HazardSlot)
    → l.reclaimer.current_slot ≡ none
    → Spares k p l (begin_scan l).0 (begin_scan l).1
begin_scan-Spares k p l over = elim (Bool-cases (waits l)) [
  | inl w ↦
      subst result (sym w)
        (record { guard = λ g. g; alive = λ g. refl; list = λ m. m; dead = λ m. absurd (cc) })
  | inr g ↦ subst result (sym g) (record {
    guard = λ g. e.guard (restart-guard k p l over g);
    alive = λ g. e.alive (restart-guard k p l over g);
    list = λ m. restart-listed p l (e.list m);
    dead = λ m. restart-listed p l (e.dead m);
  })
]
  where
    holds : HazardSlot × List ℕ × Bool → Type 0
    holds r = Spares k p l r.0 r.1

    result : Bool → Type 0
    result b =
        holds (
          if b
          then (l, [], false)
          else ((eject_two (restart l)).0, (eject_two (restart l)).1, true))

    e : Spares k p (restart l) (eject_two (restart l)).0 (eject_two (restart l)).1
    e = eject_two-Spares k p (restart l)

continue_scan-Spares :
    (k p : ℕ) (o : Option ℕ) (l : HazardSlot)
    → l.reclaimer.current_slot ≡ o
    → Spares k p l (continue_scan o l).0 (continue_scan o l).1
continue_scan-Spares k p none l e = begin_scan-Spares k p l e
continue_scan-Spares k p (some i) l e = eject_two-Spares k p l

pub begin_work-Spares : (k p : ℕ) (l : HazardSlot) → Spares k p l (begin_work l).0 (begin_work l).1
unfolding begin_work
begin_work-Spares k p l = record {
  guard = λ g. e.guard (record { now = g.now; later = g.later });
  alive = λ g. e.alive (record { now = g.now; later = g.later });
  list = λ m. e.list m;
  dead = λ m. e.dead m;
}
  where
    e :
        Spares k p
          (count_retire l)
          (continue_scan l.reclaimer.current_slot (count_retire l)).0
          (continue_scan l.reclaimer.current_slot (count_retire l)).1
    e = continue_scan-Spares k p l.reclaimer.current_slot (count_retire l) refl

-- Steps that leave the lists of the slot.
pub same-Spares :
    (k p : ℕ) (l l' : HazardSlot)
    → l'.retired ≡ l.retired
    → l'.reclaimer ≡ l.reclaimer
    → Spares k p l l' []
same-Spares k p l l' e e' = record {
  guard = λ g. record {
    now =
        subst (λ (r : Reclaimer). mem p r.eligible ≡ true → mem p r.protected_set ≡ true) (sym e')
          g.now;
    later =
        subst
          (λ (r : Reclaimer).
            (mem p r.eligible || mem p r.next_eligible) ≡ true
            → passed k r.current_slot ≡ true
            → mem p r.next_protected_set ≡ true)
          (sym e') g.later;
  };
  alive = λ g. refl;
  list =
      subst
        (λ (r : Reclaimer).
          (mem p l'.retired || (mem p r.eligible || mem p r.next_eligible)) ≡ true
          → listed p l ≡ true)
        (sym e')
        (subst (λ xs. (mem p xs || waiting p l) ≡ true → listed p l ≡ true) (sym e) (λ m. m));
  dead = λ m. absurd (cc);
}

mem-add_protected :
    (p : ℕ) (o : Option ℕ) (set : List ℕ) → mem p set ≡ true → mem p (add_protected o set) ≡ true
mem-add_protected p none set m = m
mem-add_protected p (some q) set m = ground arith

pub note-Spares : (k p : ℕ) (o : Option ℕ) (l : HazardSlot) → Spares k p l (note o l) []
note-Spares k p o l = record {
  guard = λ g. record {
    now = g.now;
    later = λ m past. mem-add_protected p o l.reclaimer.next_protected_set (g.later m past);
  };
  alive = λ g. refl;
  list = λ m. m;
  dead = λ m. absurd (cc);
}

-- The retired objects that are not in the set are destroyed.
pub finish_cleanup-list :
    (p : ℕ) (l : HazardSlot) → listed p (finish_cleanup l).0 ≡ true → listed p l ≡ true
finish_cleanup-list p l m = ground (arith, mem_of_kept (in_set l.protected_set) p l.retired)

pub finish_cleanup-dead :
    (p : ℕ) (l : HazardSlot) → mem p (finish_cleanup l).1 ≡ true → listed p l ≡ true
finish_cleanup-dead p l m =
    ground (arith, (mem_of_dropped (in_set l.protected_set) p l.retired m).0)

pub finish_cleanup-alive :
    (p : ℕ) (l : HazardSlot)
    → (mem p l.retired ≡ true → mem p l.protected_set ≡ true)
    → mem p (finish_cleanup l).1 ≡ false
finish_cleanup-alive p l h = not_dropped (in_set l.protected_set) p l.retired h
