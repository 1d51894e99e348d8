-- ===== src/AtomicHashmap/Tests.antt =====
-- A map of two levels, and the theorems at concrete inputs.
use godby.Prelude.{
  ℕ, ◌+◌, ◌*◌, ◌/◌, ◌^◌, ◌<◌, ◌≡◌, refl, none, some, List, [], ◌∷◌, arith, length, ◌==◌, ==_iff,
}
use godby.AtomicHashmap.{
  Map, ok, enoent, gen_multi_level_size, create, get, set, occupy, occupy_from, lookup, lookup_from,
  delete, walk_key, walk, cleanup, begin,
}
use godby.AtomicHashmap.Keyed.{Key}
use godby.AtomicHashmap.Levels.{Valid, total, create-Good}
use godby.AtomicHashmap.Path.{nil, cons}
use godby.AtomicHashmap.Refine.{
  Call, get_of, set_to, delete_of, value, code, done, run, step, Explains, replies-Explains,
}
use godby.AtomicHashmap.Iterate.{iterate, occupied_from, iterate-begin}
use godby.AtomicHashmap.Referenced.{
  Thread, Object, Reach, clone, next as next_access, access, holds, deletes, sum, deleted_once,
  holding, without,
}

instance abbrev number_key : Key ℕ
number_key = record { beq = ◌==◌; beq_iff = ==_iff; hash = λ k. k }

-- Levels of 3 and 2 buckets; the keys 1, 4 and 7 meet in the first.
abbrev empty_map : Map ℕ ℕ
empty_map = record {
  capacity = 5;
  level_capacity = 3 ∷ 2 ∷ [];
  buckets = λ i. record { key = none; value = none };
}

empty_map-Valid : Valid empty_map
unfolding total
empty_map-Valid = record { fills = refl; sizes = cons (omega arith) (cons (omega arith) nil) }

abbrev script : List (Call ℕ ℕ)
script =
    set_to 1 10
    ∷ set_to 4 40
    ∷ set_to 7 70
    ∷ set_to 10 99
    ∷ get_of 7
    ∷ delete_of 1
    ∷ get_of 1
    ∷ get_of 7
    ∷ []

run-script :
    run script empty_map
    ≡ code ok
      ∷ code ok
      ∷ code ok
      ∷ code enoent
      ∷ value (some 70)
      ∷ done
      ∷ value none
      ∷ value (some 70)
      ∷ []
unfolding run step get set occupy occupy_from lookup lookup_from delete walk_key walk cleanup
run-script = refl

replies-Explains_example : Explains (λ k. get empty_map k) script (run script empty_map)
replies-Explains_example =
    replies-Explains script empty_map empty_map-Valid (get empty_map) (λ k. refl)

-- The two buckets of the key 10 hold other keys.
abbrev full_map : Map ℕ ℕ
full_map = record {
  capacity = 5;
  level_capacity = 3 ∷ 2 ∷ [];
  buckets = λ i. record { key = some i; value = some (i * 10) };
}

full_map-Valid : Valid full_map
unfolding total
full_map-Valid = record { fills = refl; sizes = cons (omega arith) (cons (omega arith) nil) }

iterate-begin_example :
    iterate full_map.buckets 5 (begin full_map) ≡ some (occupied_from full_map.buckets 5 0)
iterate-begin_example = iterate-begin full_map 5 (omega arith)

-- Levels of half as many buckets as keys are left, and one more.
abbrev half : ℕ → ℕ
half n = n / 2 + 1

abbrev rest_of : ℕ → ℕ → ℕ
rest_of n c = n / 2

abbrev created : Map ℕ ℕ
created = record {
  capacity = 3;
  level_capacity = 2 ∷ 1 ∷ [];
  buckets = λ i. record { key = none; value = none };
}

create-Good_example :
    (length created.level_capacity ≡ 2)
    × (total created.level_capacity < 2 ^ 64 → Valid created)
    × ((i : ℕ) → (created.buckets i).key ≡ none)
unfolding create gen_multi_level_size
create-Good_example = create-Good half (λ c. c / 4) rest_of (λ n. omega arith) 4 2 created refl

-- A thread acquires a reference while the first holds one, and both release.
abbrev released : Object
released = access 0 (holding) (
    access 1 (holding) (
      access 1 (Thread.loaded 1)
        (access 1 without (record { ref = 1; deletions = 0; threads = holding ∷ without ∷ [] }))))

released-Reach : Reach 1 released
unfolding access
released-Reach =
    next_access 0
      (next_access 1 (next_access 1 (next_access 1 clone (omega arith) refl) (omega arith) refl)
        (omega arith) tt)
      (omega arith) tt

deleted_once_example :
    (released.ref ≡ sum holds released.threads)
    × (0 < sum holds released.threads → released.deletions ≡ 0)
    × (sum holds released.threads ≡ 0 → released.deletions + sum deletes released.threads ≡ 1)
deleted_once_example = deleted_once (omega arith) released-Reach
