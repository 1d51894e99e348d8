-- ===== src/HazardPointers/Tasks.antt =====
-- The accesses of the deamortized scan, and all those of an owner, keep the invariant.
use godby.Prelude.{
  ℕ, ◌+◌, ◌≤◌, ◌<◌, ◌≡◌, refl, sym, subst, true, Option, none, some, [], arith, inl, inr,
  update-same, ltb→lt, ltb_false→le, ◌==◌, ==_iff, Bool-cases, if◌then◌else◌,
}
use godby.Prelude.Chain.{mem}
use godby.HazardPointers.Slot.{HazardSlot, note, advance}
use godby.HazardPointers.{
  Task, ready, loading, announcing, checking, scanning, stepping, noting, passing, owning, Hazards,
  act, found, has_next, current, task_step,
}
use godby.HazardPointers.Held.{ThreadGuard, Held, passed, waiting}
use godby.HazardPointers.Guards.{note-Spares}
use godby.HazardPointers.Valid.{Claims, Place, owns, Valid}
use godby.HazardPointers.Moves.{act-Valid, write-Valid}
use godby.HazardPointers.Steps.{
  go_on-Valid, check-Valid, spare-Valid, relied_on, scan-Valid, scan_on-Valid, found-TaskGuard,
  found-Claims, found_it,
}

passed_of : (o : Option ℕ) (j : ℕ) → j < elim o [ none ↦ 0 | some i ↦ i ] → passed j o ≡ true
passed_of none j h = absurd (omega arith)
passed_of (some i) j h = ground arith

module _ (s : Hazards) (t k : ℕ) (v : Valid s) where
  note-Valid :
      (held : Option ℕ)
      → s.thread t ≡ owning k (noting held)
      → Valid
          (act t k (passing held) (note (s.protected_ptr (current (s.slot k) 0)) (s.slot k)) [] s)
  note-Valid held e =
      spare-Valid s t k v (noting held) (passing held) (note o l) e (λ j p. note-Spares j p o l)
        (λ j p h g m at.
          found_it p o l.reclaimer.next_protected_set
            (subst (λ i. s.protected_ptr i ≡ some p) (sym at) h.ptr))
        (relied_on s t k v (noting held) e)
    where
      l : HazardSlot
      l = s.slot k

      o : Option ℕ
      o = s.protected_ptr (current l 0)

  -- A slot that the scan has passed after the step is the current one, or it has been passed before.
  passed_before :
      (i j : ℕ) → j < s.size → passed j (if has_next s i then some (i + 1) else none) ≡ true → j ≤ i
  passed_before i j low past = elim (Bool-cases (has_next s i)) [
    | inl e ↦ omega (
      arith,
      ltb→lt j (i + 1) (subst (λ b. passed j (if b then some (i + 1) else none) ≡ true) e past),
    )
    | inr e ↦ omega (arith, ltb_false→le (i + 1) s.size e)
  ]

  advance-Valid :
      (held : Option ℕ)
      → s.thread t ≡ owning k (passing held)
      → (let i = current (s.slot k) 0 in
          Valid (
            act t k
              (ready held)
              (advance (if has_next s i then some (i + 1) else none) (s.slot k))
              []
              s))
  advance-Valid held e =
      act-Valid s t k (ready held) (advance (if has_next s i then some (i + 1) else none) l) []
        (subst (λ x. owns x k ≡ true) (sym e) ((==_iff k k).1 refl))
        (λ j p h. (
          record {
            now = (h.slots k).now;
            later = λ m past.
                later j p h (subst (ThreadGuard j p s.slot) e (h.threads t)) m
                  (passed_before i j h.inside past);
          },
          tt,
          refl,
        ))
        (λ p h. v.lists k p h) (λ p h. absurd (cc)) (place.0, place.1, place.2) v
    where
      l : HazardSlot
      l = s.slot k

      i : ℕ
      i = current l 0

      place : (k < s.size) × (s.in_use k ≡ true) × Claims s k (passing held)
      place = subst (Place s) e (v.place t)

      later :
          (j p : ℕ)
          → Held s j p
          → (waiting p l ≡ true → i ≡ j → mem p l.reclaimer.next_protected_set ≡ true)
          → waiting p l ≡ true
          → j ≤ i
          → mem p l.reclaimer.next_protected_set ≡ true
      later j p h g m low = elim (Bool-cases (i == j)) [
        | inl same ↦ g m ((==_iff i j).0 same)
        | inr other ↦
            (h.slots k).later m (passed_of l.reclaimer.current_slot j (ground (arith, low)))
      ]

  pub task_step-Valid : (task : Task) → s.thread t ≡ owning k task → Valid (task_step t k task s)
  unfolding task_step
  task_step-Valid (ready held) e = v
  task_step-Valid (loading src) e =
      go_on-Valid s t k v (loading src) (found src (s.src src)) e
        (λ j p. found-TaskGuard j p (s.slot k) src (s.src src)) (found-Claims s k src (s.src src))
  task_step-Valid (announcing src p) e =
      write-Valid s t k (some p) (checking src p)
        (subst (λ x. owns x k ≡ true) (sym e) ((==_iff k k).1 refl)) (λ j p. tt)
        (place.0, place.1, update-same s.protected_ptr k (some p)) v
    where
      place : (k < s.size) × (s.in_use k ≡ true) × Unit {0}
      place = subst (Place s) e (v.place t)
  task_step-Valid (checking src p) e = check-Valid s t k v src p e
  task_step-Valid (scanning held i) e = scan-Valid s t k v held i e
  task_step-Valid (stepping held i) e = scan_on-Valid s t k v held i (has_next s i) refl e
  task_step-Valid (noting held) e = note-Valid held e
  task_step-Valid (passing held) e = advance-Valid held e
