-- ===== src/HazardPointers/Tests.antt =====
-- Two threads in the deamortized way, on a machine with one thread; and lists of three objects.
use godby.Prelude.{
  ℕ, ◌≡◌, refl, Bool, true, false, Option, none, some, List, [], ◌∷◌, arith, ◌==◌, if◌then◌else◌,
}
use godby.Prelude.Chain.{opt_is, mem}
use godby.HazardPointers.Slot.{begin_work}
use godby.HazardPointers.{
  Hazards, Task, owning, ready, seeking, loading, set_thread, thread_step, retire_object, run,
  get_slot, protect, retire, store, start, Reach, begin, next,
}
use godby.HazardPointers.RetiredList.{Heap, RetiredList, empty, cleanup, eject_and_move}
use godby.HazardPointers.RetiredList.Cleanup.{Holds, Cleaned, cleanup-Cleaned}
use godby.HazardPointers.RetiredList.Moves.{eject_and_move_lem}
use godby.HazardPointers.Safety.{protected_alive}

-- The next accesses of one thread.
abbrev runs : List ℕ → Hazards → Hazards
runs [] s = s
runs (t ∷ l) s = runs l (thread_step 1 t (s.thread t) s)

runs-Reach : (l : List ℕ) (s : Hazards) → Reach true 1 s → Reach true 1 (runs l s)
runs-Reach [] s r = r
runs-Reach (t ∷ l) s r = runs-Reach l (thread_step 1 t (s.thread t) s) (next r (run t))

abbrev src : ℕ → Option ℕ
src i = if i == 0 then some 5 else none

-- Thread 0 protects the object 5, and thread 1 takes a slot of its own.
abbrev protected : Hazards
protected = runs (1 ∷ 1 ∷ 1 ∷ []) (
    set_thread 1 (seeking 0) (
      runs (0 ∷ 0 ∷ 0 ∷ []) (
        set_thread 0 (owning 0 (loading 0))
          (runs (0 ∷ 0 ∷ []) (set_thread 0 (seeking 0) (start 1 src))))))

protected-Reach : Reach true 1 protected
unfolding thread_step
protected-Reach = runs-Reach (1 ∷ 1 ∷ 1 ∷ []) _ (
    next
      (runs-Reach (0 ∷ 0 ∷ 0 ∷ []) _ (
        next (runs-Reach (0 ∷ 0 ∷ []) _ (next (begin src) (get_slot 0 refl))) (protect 0 0 0 refl)))
      (get_slot 1 refl))

-- The client's atomic is reset, and thread 1 retires what it pointed to and three objects more.
abbrev unlinked : Hazards
unlinked = record protected { src = λ i. if 0 == i then none else protected.src i }

abbrev retires : ℕ → Hazards → Hazards
retires p s = retire_object true 1 1 none p s

abbrev third : Hazards
third = runs (1 ∷ 1 ∷ []) (retires 7 (runs (1 ∷ 1 ∷ []) (retires 6 (retires 5 unlinked))))

abbrev last : Hazards
last = retires 8 third

no_src : (i p : ℕ) → opt_is (unlinked.src i) p ≡ false
unfolding thread_step
no_src i p = ground arith

third-Reach : Reach true 1 third
unfolding thread_step begin_work
third-Reach = runs-Reach (1 ∷ 1 ∷ []) _ (
    next
      (runs-Reach (1 ∷ 1 ∷ []) _ (
        next
          (next (next protected-Reach (store 0 none (λ p h. absurd (cc))))
            (retire 1 1 5 refl refl (λ i. no_src i 5)))
          (retire 1 1 6 refl refl (λ i. no_src i 6))))
      (retire 1 1 7 refl refl (λ i. no_src i 7)))

last-Reach : Reach true 1 last
unfolding thread_step begin_work
last-Reach = next third-Reach (retire 1 1 8 refl refl (λ i. no_src i 8))

last-destroyed : last.destroyed 6 ≡ true
unfolding thread_step begin_work
last-destroyed = refl

last-thread : last.thread 0 ≡ owning 0 (ready (some 5))
unfolding thread_step begin_work
last-thread = refl

protected_alive_example :
    ((t k p : ℕ) → last.thread t ≡ owning k (ready (some p)) → last.destroyed p ≡ false)
    × ((src p : ℕ) → opt_is (last.src src) p ≡ true → last.destroyed p ≡ false)
    × ((p : ℕ) → last.destroyed p ≡ true → last.retired p ≡ true)
    × ((t u k : ℕ) (task task' : Task)
        → last.thread t ≡ owning k task
        → last.thread u ≡ owning k task'
        → t ≡ u)
protected_alive_example = protected_alive last-Reach

held-alive : last.destroyed 5 ≡ false
held-alive = (protected_alive last-Reach).0 0 0 5 last-thread

-- The objects 1, 2 and 3, of which 2 is protected.
abbrev heap : Heap
heap = record {
  next = λ p. if p == 1 then some 2 else if p == 2 then some 3 else none;
  destroyed = [];
}

abbrev three : RetiredList
three = record { head = some 1; tail = some 3 }

abbrev second : ℕ → Bool
second p = p == 2

three-Holds : Holds heap three (1 ∷ 2 ∷ 3 ∷ [])
three-Holds = record {
  chain = (refl, (refl, (refl, refl)));
  ends = refl;
  unique = (refl, (refl, (refl, tt)));
}

cleanup-Cleaned_example :
    Cleaned (2 ∷ []) (1 ∷ 3 ∷ []) (1 ∷ 2 ∷ 3 ∷ []) heap (cleanup 4 second three heap)
cleanup-Cleaned_example =
    cleanup-Cleaned 4 second three (1 ∷ 2 ∷ 3 ∷ []) heap three-Holds (omega arith)

cleanup-three : (cleanup 4 second three heap).0 ≡ record { head = some 2; tail = some 2 }
unfolding cleanup
cleanup-three = refl

eject_and_move_lem_example :
    (let r = eject_and_move 2 three empty second heap in
      Holds r.2 r.0 (3 ∷ [])
      × Holds r.2 r.1 (2 ∷ [])
      × (r.2.destroyed ≡ 1 ∷ [])
      × ((q : ℕ) → mem q (1 ∷ 2 ∷ 3 ∷ []) ≡ false → r.2.next q ≡ heap.next q))
eject_and_move_lem_example =
    eject_and_move_lem 2 second three empty (1 ∷ 2 ∷ 3 ∷ []) [] heap three-Holds
      (record { chain = refl; ends = refl; unique = tt }) (λ q m. refl)
