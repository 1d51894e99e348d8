-- ===== src/StealingQueue/Tests.antt =====
-- Runs of the queue, and its theorems at concrete inputs.
use godby.Prelude.{ℕ, ◌-◌, ◌≡◌, refl, true, false, none, some, List, [], ◌∷◌, arith}
use godby.StealingQueue.{StealingQueue, create, empty, size, push, pop, steal}
use godby.StealingQueue.Slots.{word, slot_load, slot_store, resize, copy_slots, new_array}
use godby.StealingQueue.Refine.{IsValid}
use godby.StealingQueue.Create.{pop-create}
use godby.StealingQueue.Deque.{Call, put, take, rob, run, run_deque, run_refines}

-- Two slots with the items 8 and 9 at the indices 3 and 4.
abbrev pub two_items : StealingQueue ℕ
two_items = record {
  top = 3;
  bottom = 5;
  array = record { C = 2; M = 1; S = 9 ∷ 8 ∷ [] };
  garbage = [];
}

two_items-IsValid : IsValid 1 two_items
two_items-IsValid = record {
  array = record { capacity = refl; mask = refl; slots = refl };
  ordered = omega arith;
  small = omega arith;
  fits = omega arith;
  level = omega arith;
}

abbrev script : List (Call ℕ)
script = put 7 ∷ rob ∷ take ∷ take ∷ take ∷ put 6 ∷ []

run-script : run 0 two_items script ≡ none ∷ some 8 ∷ some 7 ∷ some 9 ∷ none ∷ none ∷ []
unfolding run push pop steal slot_load slot_store resize copy_slots new_array
run-script = refl

run_refines_example : run 0 two_items script ≡ run_deque 0 (8 ∷ 9 ∷ []) script
unfolding slot_load
run_refines_example = run_refines 0 script 1 two_items two_items-IsValid (omega arith) (omega arith)

abbrev new_queue : StealingQueue ℕ
new_queue = record {
  top = 0;
  bottom = 0;
  array = record { C = 2; M = 1; S = 0 ∷ 0 ∷ [] };
  garbage = [];
}

pop-create_example :
    (empty 0 new_queue ≡ true)
    × ((pop 0 new_queue).0 ≡ some 0)
    × (size 0 (pop 0 new_queue).1 ≡ word - 1)
    × (empty 0 (pop 0 new_queue).1 ≡ false)
unfolding create new_array
pop-create_example = pop-create 0 2 {q = new_queue} (omega arith) refl
