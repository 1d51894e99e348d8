-- ===== src/SharedStorage/Tests.antt =====
-- SharedStorage: the theorems at concrete calls of two threads.
use godby.Prelude.{
  ◌++◌, arith, ℕ, ◌+◌, ◌<◌, ◌≡◌, ◌≢◌, refl, true, false, some, none, List, [], ◌∷◌, if◌then◌else◌,
  ◌==◌, length,
}
use godby.SharedStorage.Text.{
  String, same, make_key, print_tags, pop_dot, drop, constexpr_get_type, constexpr_is_space, scan,
  mark,
}
use godby.SharedStorage.{
  Entry, Storage, start, returned, type_mismatch, put, count_local, fill_cache, create_shared,
  get_or_create_from, get_or_create, get_or_null, has, delete_entry, delete, deletable_entry,
  deletable,
}
use godby.SharedStorage.Threads.{Reach, begin, next, here, later, creates, makes_deletable}
use godby.SharedStorage.Keys.{split, undotted, all_undotted, split-make_key}
use godby.SharedStorage.Shared.{same_object}
use godby.SharedStorage.Deleting.{deleted}
use godby.SharedStorage.Stale.{stale}
use godby.SharedStorage.Scan.{text}
use godby.SharedStorage.TypeName.{constexpr_get_type_lem}
use godby.SharedStorage.Early.{deletable_early}

-- "int" and "char", the types 0 and 1, and the tags "a" and "b".
abbrev name : ℕ → String
name T = if T == 0 then 105 ∷ (110 ∷ (116 ∷ [])) else 99 ∷ (104 ∷ (97 ∷ (114 ∷ [])))

abbrev tags : List String
tags = (97 ∷ []) ∷ ((98 ∷ []) ∷ [])

both_undotted : all_undotted tags ≡ true
unfolding all_undotted undotted
both_undotted = refl

split-make_key_example : split (drop (2 + length (name 0)) (make_key (name 0) tags)) ≡ tags
split-make_key_example = split-make_key (name 0) (97 ∷ []) ((98 ∷ []) ∷ []) both_undotted

-- Thread 1 creates the value, and thread 2 creates one of the other type.
abbrev one : Storage
one = (get_or_create name 1 0 tags start).1

abbrev two : Storage
two = (get_or_create name 2 1 tags one).1

one_returned : (get_or_create name 1 0 tags start).0 ≡ returned 0
unfolding get_or_create get_or_create_from count_local create_shared
one_returned = refl

two_left : two.storage (make_key (name 0) tags) ≢ none
unfolding get_or_create get_or_create_from count_local create_shared fill_cache put same make_key
    print_tags pop_dot
two_left h = contrary h
  where
    contrary : {A : Type 0} {a : A} → some a ≡ none → ⊥
    contrary h = cc

same_object_example :
    ((get_or_create name 2 0 tags two).0 ≡ returned 0)
    × ((get_or_null name 2 0 tags two).0 ≡ returned (some 0))
    × (has name 2 0 tags two ≡ true)
    × ((key : String) (e : Entry)
        → two.storage key ≡ some e
        → e.value ≡ some 0
        → make_key (name 0) tags ≡ key)
same_object_example =
    same_object name 1 0 tags 0 begin one_returned (later here (creates 2 1 tags) two_left) 2

one_cached : one.cached 1 0 (make_key (name 0) tags) ≡ some 0
unfolding get_or_create get_or_create_from count_local create_shared fill_cache put same make_key
    print_tags pop_dot
one_cached = refl

one_uncached : one.cached 2 0 (make_key (name 0) tags) ≡ none
unfolding get_or_create get_or_create_from count_local create_shared fill_cache put same make_key
    print_tags pop_dot
one_uncached = refl

stale_example :
    ((delete name 0 tags (deletable name 0 tags one).1).0 ≡ returned true)
    × ((get_or_null name 1 0 tags (delete name 0 tags (deletable name 0 tags one).1).1).0
        ≡ returned (some 0))
    × ((get_or_null name 2 0 tags (delete name 0 tags (deletable name 0 tags one).1).1).0
        ≡ returned none)
stale_example = stale name 1 0 tags 0 (next begin (creates 1 0 tags)) one_cached 2 one_uncached

deletable_early_example :
    ((get_or_null name 1 0 tags (deletable name 0 tags start).1).0 ≡ type_mismatch)
    × ((delete name 0 tags (deletable name 0 tags start).1).0 ≡ type_mismatch)
    × (has name 1 0 tags (deletable name 0 tags start).1 ≡ false)
    × ((get_or_create name 1 0 tags (deletable name 0 tags start).1).0 ≡ returned 0)
    × ((get_or_create name 1 0 tags (deletable name 0 tags start).1).1.cached 1 0
          (make_key (name 0) tags)
        ≡ none)
deletable_early_example = deletable_early name 0 tags start refl 1 refl

-- The value is marked, created, and deleted.
abbrev marked : Storage
marked = (deletable name 0 tags start).1

abbrev created : Storage
created = (get_or_create name 1 0 tags marked).1

created_reached : Reach name created
created_reached = next (next begin (makes_deletable 0 tags (λ t T. refl))) (creates 1 0 tags)

created_deleted : (delete name 0 tags created).0 ≡ returned true
unfolding get_or_create get_or_create_from count_local create_shared fill_cache put same make_key
    print_tags pop_dot deletable deletable_entry delete delete_entry
created_deleted = refl

deleted_example :
    ((get_or_null name 2 0 tags (delete name 0 tags created).1).0 ≡ returned none)
    × (has name 2 0 tags (delete name 0 tags created).1 ≡ false)
    × ((delete name 0 tags (delete name 0 tags created).1).0 ≡ returned false)
    × ((get_or_create name 2 0 tags (delete name 0 tags created).1).0
        ≡ returned created.next_object)
    × ((key : String) (e : Entry) (p : ℕ)
        → created.storage key ≡ some e
        → e.value ≡ some p
        → p < created.next_object)
deleted_example = deleted name 0 tags created_reached created_deleted 2

-- The text "f [T = int; S = c]".
abbrev before : String
before = 102 ∷ (32 ∷ (91 ∷ (84 ∷ (32 ∷ []))))

abbrev after : String
after = 32 ∷ (83 ∷ (32 ∷ (61 ∷ (32 ∷ (99 ∷ [])))))

constexpr_get_type_lem_example :
    constexpr_get_type (text before (32 ∷ []) (name 0) [] after []) ≡ name 0
unfolding constexpr_is_space
constexpr_get_type_lem_example =
    constexpr_get_type_lem before (32 ∷ []) (name 0) [] after [] (omega arith) refl refl refl refl
      refl (omega arith) refl refl

-- For the array type "int[3]" in "f [T = int[3]; S = c]" the name is empty.
array_type :
    constexpr_get_type (text before (32 ∷ []) (name 0 ++ (91 ∷ (51 ∷ (93 ∷ [])))) [] after []) ≡ []
unfolding constexpr_get_type scan mark
array_type = refl
