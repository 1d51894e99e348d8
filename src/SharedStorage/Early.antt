-- ===== src/SharedStorage/Early.antt =====
-- `Deletable` before the value is created.
use godby.Prelude.{
  ℕ, ◌≡◌, ◌≢◌, refl, sym, ◌∙◌, ap, subst, true, false, none, some, inl, inr, Bool-cases, List, [],
  ◌∷◌, ◌++◌, length, arith,
}
use godby.SharedStorage.Text.{String, same, equal_of_same, make_key, pop_dot, print_tags, colon}
use godby.SharedStorage.{
  Entry, new_entry, Storage, returned, type_mismatch, count_local, entry_at, create_shared,
  find_shared, fill_cache, put_entry, get_or_create_from, get_or_create, get_or_null_from,
  get_or_null, has, is_some, is_of_type, delete, delete_entry, deletable, deletable_entry,
}
use godby.SharedStorage.Coherent.{put-same}

-- A key is longer than the name of its type.
pop_size :
    (name : String) (c d : ℕ) (s : String) → length name ≢ length (pop_dot (name ++ (c ∷ (d ∷ s))))
unfolding pop_dot
pop_size [] c d s h = omega (arith, h)
pop_size (x ∷ []) c d s h = pop_size [] c d s (omega (arith, h))
pop_size (x ∷ (y ∷ name)) c d s h = pop_size (y ∷ name) c d s (omega (arith, h))

key_differs : (name : String) (tags : List String) → same (make_key name tags) name ≡ false
unfolding make_key
key_differs name tags = elim (Bool-cases (same (make_key name tags) name)) [
  | inl e ↦
      absurd
        (pop_size name colon colon (print_tags tags) (ap length (sym (equal_of_same _ name e))))
  | inr e ↦ e
]

module _ (name : ℕ → String) (T : ℕ) (tags : List String) (s : Storage)
    (missing : s.storage (make_key (name T) tags) ≡ none) where
  abbrev key : String
  key = make_key (name T) tags

  abbrev early : Entry
  early = record new_entry { type_name = key; deletable = true }

  abbrev marked : Storage
  marked = put_entry key early s

  deletable_missing : (deletable name T tags s).1 ≡ marked
  unfolding deletable deletable_entry
  deletable_missing = subst (λ o. (deletable_entry name T key o s).1 ≡ marked) (sym missing) refl

  at_key : marked.storage key ≡ some early
  at_key = put-same s.storage key (some early)

  delete-marked : (delete name T tags marked).0 ≡ type_mismatch
  unfolding delete delete_entry
  delete-marked =
      subst (λ o. (delete_entry name T key o marked).0 ≡ type_mismatch) (sym at_key)
        (rw (key_differs (name T) tags) refl)

  module _ (u : ℕ) (miss : s.cached u T (make_key (name T) tags) ≡ none) where
    null_marked : (get_or_null name u T tags marked).0 ≡ type_mismatch
    unfolding get_or_null get_or_null_from count_local
    null_marked =
        subst (λ o. (get_or_null_from name T key o (count_local o marked)).0 ≡ type_mismatch)
          (sym miss)
          (subst (λ o. find_shared name T o ≡ type_mismatch) (sym at_key)
            (rw (key_differs (name T) tags) refl))

    has-marked : has name u T tags marked ≡ false
    unfolding has
    has-marked = rw (ap is_some miss) (ap (is_of_type (name T)) at_key ∙ key_differs (name T) tags)

    created_early :
        ((create_shared name u T key early none (count_local none marked)).0
          ≡ returned s.next_object)
        × ((create_shared name u T key early none (count_local none marked)).1.cached u T key
            ≡ none)
    unfolding create_shared fill_cache count_local
    created_early = (refl, miss)

    -- The value is created, and not cached.
    create_marked :
        ((get_or_create name u T tags marked).0 ≡ returned s.next_object)
        × ((get_or_create name u T tags marked).1.cached u T key ≡ none)
    unfolding get_or_create get_or_create_from count_local
    create_marked =
        subst
          (λ o.
            ((get_or_create_from name u T key o (count_local o marked)).0 ≡ returned s.next_object)
            × ((get_or_create_from name u T key o (count_local o marked)).1.cached u T key ≡ none))
          (sym miss)
          (subst
            (λ o.
              ((create_shared name u T key (entry_at o) (entry_at o).value
                  (count_local none marked)).0
                ≡ returned s.next_object)
              × ((create_shared name u T key (entry_at o) (entry_at o).value
                      (count_local none marked)).1.cached
                    u T key
                  ≡ none))
            (sym at_key) created_early)

-- Right after Deletable on a key without an entry, in a thread that has nothing cached for it: GetOrNull and
-- Delete throw a type mismatch, Has is false, and GetOrCreate creates the value and leaves the cache of
-- the thread without it.
pub deletable_early :
    (name : ℕ → String) (T : ℕ) (tags : List String) (s : Storage)
    → s.storage (make_key (name T) tags) ≡ none
    → (u : ℕ) → s.cached u T (make_key (name T) tags) ≡ none
    → ((get_or_null name u T tags (deletable name T tags s).1).0 ≡ type_mismatch)
      × ((delete name T tags (deletable name T tags s).1).0 ≡ type_mismatch)
      × (has name u T tags (deletable name T tags s).1 ≡ false)
      × ((get_or_create name u T tags (deletable name T tags s).1).0 ≡ returned s.next_object)
      × ((get_or_create name u T tags (deletable name T tags s).1).1.cached u T
            (make_key (name T) tags)
          ≡ none)
deletable_early name T tags s missing u miss =
    subst
      (λ r.
        ((get_or_null name u T tags r).0 ≡ type_mismatch)
        × ((delete name T tags r).0 ≡ type_mismatch)
        × (has name u T tags r ≡ false)
        × ((get_or_create name u T tags r).0 ≡ returned s.next_object)
        × ((get_or_create name u T tags r).1.cached u T (make_key (name T) tags) ≡ none))
      (sym (deletable_missing name T tags s missing))
      (
        null_marked name T tags s missing u miss,
        delete-marked name T tags s missing,
        has-marked name T tags s missing u miss,
        (create_marked name T tags s missing u miss).0,
        (create_marked name T tags s missing u miss).1,
      )
