-- ===== src/HazardPointers/Retire.antt =====
-- A call of `retire` keeps the invariant.
use godby.Prelude.{
  ℕ, ◌+◌, ◌<◌, ◌≡◌, refl, sym, subst, Bool, true, false, Option, [], ◌∷◌, ◌%◌, arith, inl, inr, leb,
  ◌==◌, ==_iff, Bool-cases, if◌then◌else◌,
}
use godby.HazardPointers.Slot.{
  HazardSlot, begin_work, count_since_cleanup, cleanup_threshold, unsigned,
}
use godby.HazardPointers.{Task, ready, scanning, noting, owning, Hazards, after_push}
use godby.HazardPointers.Held.{SlotGuard, TaskGuard, Held}
use godby.HazardPointers.Guards.{listed, Spares, same-Spares, begin_work-Spares}
use godby.HazardPointers.Valid.{May, Claims, Place, owns, Valid}
use godby.HazardPointers.Moves.{act-Valid}

count-Spares : (k p : ℕ) (l : HazardSlot) → Spares k p l (count_since_cleanup l).0 []
unfolding count_since_cleanup
count-Spares k p l = elim (Bool-cases (leb cleanup_threshold n)) [
  | inl e ↦ subst result (sym e) (same-Spares k p l _ refl refl)
  | inr e ↦ subst result (sym e) (same-Spares k p l _ refl refl)
]
  where
    n : ℕ
    n = (l.num_retires_since_cleanup + 1) % unsigned

    holds : HazardSlot × Bool → Type 0
    holds r = Spares k p l r.0 []

    result : Bool → Type 0
    result b = holds (
        if b
        then (record l { num_retires_since_cleanup = 0 }, true)
        else (record l { num_retires_since_cleanup = n }, false))

-- A task with the object that is held, or the one that it held before.
or_ready-TaskGuard :
    (j p : ℕ) (l : HazardSlot) (held : Option ℕ) (task : Task) (b : Bool)
    → TaskGuard j p l task
    → TaskGuard j p l (if b then task else ready held)
or_ready-TaskGuard j p l held task true g = g
or_ready-TaskGuard j p l held task false g = tt

or_ready-Claims :
    (s : Hazards) (k : ℕ) (held : Option ℕ) (task : Task) (b : Bool)
    → Claims s k task
    → May s k held
    → Claims s k (if b then task else ready held)
or_ready-Claims s k held task true c m = c
or_ready-Claims s k held task false c m = m

-- The owner of slot `k` has pushed the object `p`, which counts as retired.
pub pushed-Valid :
    (deamortized : Bool) (s : Hazards) (t k p : ℕ) (held : Option ℕ)
    → s.thread t ≡ owning k (ready held)
    → s.retired p ≡ true
    → Valid s
    → Valid
        (after_push deamortized t k held (record (s.slot k) { retired = p ∷ (s.slot k).retired }) s)
pushed-Valid deamortized s t k p held e r v = from deamortized
  where
    l : HazardSlot
    l = record (s.slot k) { retired = p ∷ (s.slot k).retired }

    place : (k < s.size) × (s.in_use k ≡ true) × May s k held
    place = subst (Place s) e (v.place t)

    mine : owns (s.thread t) k ≡ true
    mine = subst (λ x. owns x k ≡ true) (sym e) ((==_iff k k).1 refl)

    guard : (j q : ℕ) → Held s j q → SlotGuard j q l
    guard j q h = record { now = (h.slots k).now; later = (h.slots k).later }

    known : (q : ℕ) → listed q l ≡ true → s.retired q ≡ true
    known q m = elim (Bool-cases (p == q)) [
      | inl same ↦ subst (λ q. s.retired q ≡ true) ((==_iff p q).0 same) r
      | inr other ↦ v.lists k q (ground arith)
    ]

    from : (b : Bool) → Valid (after_push b t k held l s)
    from true =
        act-Valid s t k (if (begin_work l).2 then noting held else ready held) (begin_work l).0
          (begin_work l).1 mine
          (λ j q h. (
            (begin_work-Spares j q l).guard (guard j q h),
            or_ready-TaskGuard j q (begin_work l).0 held (noting held) (begin_work l).2 tt,
            (begin_work-Spares j q l).alive (guard j q h),
          ))
          (λ q m. known q ((begin_work-Spares k q l).list m))
          (λ q m. known q ((begin_work-Spares k q l).dead m))
          (
            place.0,
            place.1,
            or_ready-Claims s k held (noting held) (begin_work l).2 place.2 place.2,
          )
          v
    from false =
        act-Valid s t k (if (count_since_cleanup l).1 then scanning held 0 else ready held)
          (count_since_cleanup l).0 [] mine
          (λ j q h. (
            (count-Spares j q l).guard (guard j q h),
            or_ready-TaskGuard j q (count_since_cleanup l).0 held (scanning held 0)
                (count_since_cleanup l).1 (λ m low. absurd (omega arith)),
            refl,
          ))
          (λ q m. known q ((count-Spares k q l).list m)) (λ q m. absurd (cc))
          (
            place.0,
            place.1,
            or_ready-Claims s k held (scanning held 0) (count_since_cleanup l).1 place.2 place.2,
          )
          v
