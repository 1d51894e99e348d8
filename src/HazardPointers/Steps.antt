-- ===== src/HazardPointers/Steps.antt =====
-- Each access of a thread keeps the invariant.
use godby.Prelude.{
  ℕ, ◌+◌, ◌≤◌, ◌<◌, ◌≡◌, refl, sym, subst, Bool, true, false, Option, none, some, List, [], arith,
  inl, inr, ltb_false→le, ◌==◌, ==_iff, Bool-cases, if◌then◌else◌,
}
use godby.Prelude.Chain.{mem, opt_is}
use godby.HazardPointers.Slot.{HazardSlot, protect_object, finish_cleanup, add_protected}
use godby.HazardPointers.{
  Task, ready, loading, announcing, checking, scanning, stepping, noting, passing, Thread, outside,
  seeking, exchanging, following, linking, crashed, owning, Hazards, set_thread, act, found,
  has_next, scan_on,
}
use godby.HazardPointers.Held.{TaskGuard, ThreadGuard, Held}
use godby.HazardPointers.Guards.{
  Spares, same-Spares, finish_cleanup-list, finish_cleanup-dead, finish_cleanup-alive,
}
use godby.HazardPointers.Valid.{Claims, Place, owns, Valid}
use godby.HazardPointers.Moves.{set_thread-Valid, act-Valid}

-- An object that an atomic points to is on no list, and is alive.
pub linked-Held :
    (s : Hazards) (i k p : ℕ)
    → opt_is (s.src i) p ≡ true
    → k < s.size
    → s.protected_ptr k ≡ some p
    → Valid s
    → Held s k p
linked-Held s i k p points low ptr v = record {
  inside = low;
  ptr = ptr;
  alive = elim (Bool-cases (s.destroyed p)) [ inl d ↦ absurd (contrary (v.dead p d)) | inr n ↦ n ];
  slots = λ j. record {
    now = λ m. absurd (contrary (v.lists j p (ground arith)));
    later = λ m past. absurd (contrary (v.lists j p (ground arith)));
  };
  threads = λ u. guard (s.thread u);
}
  where
    contrary : s.retired p ≡ true → ⊥
    contrary h = cc (v.linked i p points)

    guard : (x : Thread) → ThreadGuard k p s.slot x
    guard outside = tt
    guard (seeking j) = tt
    guard (exchanging j) = tt
    guard (following j) = tt
    guard (linking j) = tt
    guard crashed = tt
    guard (owning j (ready held)) = tt
    guard (owning j (loading src)) = tt
    guard (owning j (announcing src q)) = tt
    guard (owning j (checking src q)) = tt
    guard (owning j (scanning held i)) = λ m past. absurd (contrary (v.lists j p (ground arith)))
    guard (owning j (stepping held i)) = λ m past. absurd (contrary (v.lists j p (ground arith)))
    guard (owning j (noting held)) = tt
    guard (owning j (passing held)) = λ m past. absurd (contrary (v.lists j p (ground arith)))

pub found-TaskGuard :
    (k p : ℕ) (l : HazardSlot) (src : ℕ) (o : Option ℕ) → TaskGuard k p l (found src o)
found-TaskGuard k p l src none = tt
found-TaskGuard k p l src (some q) = tt

pub found-Claims : (s : Hazards) (k src : ℕ) (o : Option ℕ) → Claims s k (found src o)
found-Claims s k src none = tt
found-Claims s k src (some q) = tt

pub found_it :
    (p : ℕ) (o : Option ℕ) (set : List ℕ) → o ≡ some p → mem p (add_protected o set) ≡ true
found_it p o set e =
    subst (λ o. mem p (add_protected o set) ≡ true) (sym e) (ground (arith, ==_iff p p))

module _ (s : Hazards) (t k : ℕ) (v : Valid s) where
  -- A task that only the owner's position tells from the last one.
  pub go_on-Valid :
      (task task' : Task)
      → s.thread t ≡ owning k task
      → ((j p : ℕ) → TaskGuard j p (s.slot k) task')
      → Claims s k task'
      → Valid (set_thread t (owning k task') s)
  go_on-Valid task task' e guard claims =
      set_thread-Valid s t (owning k task') (λ j p h. guard j p)
        (λ j h. subst (λ x. owns x j ≡ true) (sym e) h) (place.0, place.1, claims) v
    where
      place : (k < s.size) × (s.in_use k ≡ true) × Claims s k task
      place = subst (Place s) e (v.place t)

  pub check-Valid :
      (src p : ℕ)
      → s.thread t ≡ owning k (checking src p)
      → Valid (
          set_thread t
            (owning k (if opt_is (s.src src) p then ready (some p) else found src (s.src src)))
            s)
  check-Valid src p e = elim (Bool-cases (opt_is (s.src src) p)) [
    | inl same ↦
        subst
          (λ b.
            Valid (set_thread t (owning k (if b then ready (some p) else found src (s.src src))) s))
          (sym same)
          (go_on-Valid (checking src p) (ready (some p)) e (λ j p. tt)
            (linked-Held s src k p same place.0 place.2 v))
    | inr other ↦
        subst
          (λ b.
            Valid (set_thread t (owning k (if b then ready (some p) else found src (s.src src))) s))
          (sym other)
          (go_on-Valid (checking src p) (found src (s.src src)) e
            (λ j p. found-TaskGuard j p (s.slot k) src (s.src src))
            (found-Claims s k src (s.src src)))
  ]
    where
      place : (k < s.size) × (s.in_use k ≡ true) × (s.protected_ptr k ≡ some p)
      place = subst (Place s) e (v.place t)

  -- The owner changes its slot, and destroys nothing.
  pub spare-Valid :
      (task task' : Task) (l : HazardSlot)
      → s.thread t ≡ owning k task
      → ((j p : ℕ) → Spares j p (s.slot k) l [])
      → ((j p : ℕ) → Held s j p → TaskGuard j p (s.slot k) task → TaskGuard j p l task')
      → Claims s k task'
      → Valid (act t k task' l [] s)
  spare-Valid task task' l e spares guard claims =
      act-Valid s t k task' l [] (subst (λ x. owns x k ≡ true) (sym e) ((==_iff k k).1 refl))
        (λ j p h. (
          (spares j p).guard (h.slots k),
          guard j p h (subst (ThreadGuard j p s.slot) e (h.threads t)),
          refl,
        ))
        (λ p h. v.lists k p ((spares k p).list h)) (λ p h. absurd (cc)) (place.0, place.1, claims) v
    where
      place : (k < s.size) × (s.in_use k ≡ true) × Claims s k task
      place = subst (Place s) e (v.place t)

  pub relied_on : (task : Task) → s.thread t ≡ owning k task → Claims s k task
  relied_on task e = (subst (Place s) e (v.place t)).2

  pub scan-Valid :
      (held : Option ℕ) (i : ℕ)
      → s.thread t ≡ owning k (scanning held i)
      → Valid (act t k (stepping held i) (protect_object (s.protected_ptr i) (s.slot k)) [] s)
  scan-Valid held i e =
      spare-Valid (scanning held i) (stepping held i) l e
        (λ j p. same-Spares j p (s.slot k) l refl refl) guard (relied_on (scanning held i) e)
    where
      l : HazardSlot
      l = protect_object (s.protected_ptr i) (s.slot k)

      more :
          (p : ℕ) (o : Option ℕ) (set : List ℕ)
          → mem p set ≡ true
          → mem p (add_protected o set) ≡ true
      more p none set m = m
      more p (some q) set m = ground arith

      guard :
          (j p : ℕ)
          → Held s j p
          → (mem p (s.slot k).retired ≡ true → j < i → mem p (s.slot k).protected_set ≡ true)
          → mem p (s.slot k).retired ≡ true
          → j ≤ i
          → mem p (add_protected (s.protected_ptr i) (s.slot k).protected_set) ≡ true
      guard j p h g m low = elim (Bool-cases (j == i)) [
        | inl same ↦
            found_it p (s.protected_ptr i) (s.slot k).protected_set
              (subst (λ i. s.protected_ptr i ≡ some p) ((==_iff j i).0 same) h.ptr)
        | inr other ↦ more p (s.protected_ptr i) (s.slot k).protected_set (g m (ground arith))
      ]

  pub scan_on-Valid :
      (held : Option ℕ) (i : ℕ) (b : Bool)
      → has_next s i ≡ b
      → s.thread t ≡ owning k (stepping held i)
      → Valid (scan_on t k held i b s)
  scan_on-Valid held i true more e =
      spare-Valid (stepping held i) (scanning held (i + 1)) (s.slot k) e
        (λ j p. same-Spares j p (s.slot k) (s.slot k) refl refl)
        (λ j p h g m low. g m (omega arith)) (relied_on (stepping held i) e)
  scan_on-Valid held i false over e =
      act-Valid s t k (ready held) (finish_cleanup (s.slot k)).0 (finish_cleanup (s.slot k)).1
        (subst (λ x. owns x k ≡ true) (sym e) ((==_iff k k).1 refl))
        (λ j p h. (
          record { now = (h.slots k).now; later = (h.slots k).later },
          tt,
          finish_cleanup-alive p (s.slot k) (λ m.
              (subst (ThreadGuard j p s.slot) e (h.threads t)) m
                (omega (arith, h.inside, ltb_false→le (i + 1) s.size over))),
        ))
        (λ p h. v.lists k p (finish_cleanup-list p (s.slot k) h))
        (λ p h. v.lists k p (finish_cleanup-dead p (s.slot k) h)) (place.0, place.1, place.2) v
    where
      place : (k < s.size) × (s.in_use k ≡ true) × Claims s k (stepping held i)
      place = subst (Place s) e (v.place t)
