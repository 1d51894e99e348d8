-- ===== src/SharedStorage/Stale.antt =====
-- What a thread has cached outlives the entry.
use godby.Prelude.{ℕ, ◌≡◌, refl, sym, ◌∙◌, ap, subst, true, none, some, List}
use godby.SharedStorage.Text.{String, same, same_self, make_key}
use godby.SharedStorage.{
  Entry, Storage, returned, count_local, find_shared, put, get_or_null_from, get_or_null, delete,
  delete_entry, deletable, deletable_entry, put_entry,
}
use godby.SharedStorage.Coherent.{put-same}
use godby.SharedStorage.Threads.{Reach, Reach-Valid}

module _ (name : ℕ → String) (T : ℕ) (tags : List String) (s : Storage) (e : Entry)
    (at : s.storage (make_key (name T) tags) ≡ some e) (type : e.type_name ≡ name T) where
  is_type : same e.type_name (name T) ≡ true
  is_type = ap (λ n. same n (name T)) type ∙ same_self (name T)

  abbrev loosened : Storage
  loosened = put_entry (make_key (name T) tags) (record e { deletable = true }) s

  abbrev erased : Storage
  erased = record loosened { storage = put loosened.storage (make_key (name T) tags) none }

  deletable_stored : (deletable name T tags s).1 ≡ loosened
  unfolding deletable deletable_entry
  deletable_stored =
      subst (λ o. (deletable_entry name T (make_key (name T) tags) o s).1 ≡ loosened) (sym at)
        (rw is_type refl)

  delete-loosened : delete name T tags loosened ≡ (returned true, erased)
  unfolding delete delete_entry
  delete-loosened =
      subst (λ o. delete_entry name T (make_key (name T) tags) o loosened ≡ (returned true, erased))
        (sym (put-same s.storage (make_key (name T) tags) (some (record e { deletable = true }))))
        (rw is_type refl)

  deletable_delete : delete name T tags (deletable name T tags s).1 ≡ (returned true, erased)
  deletable_delete = ap (delete name T tags) deletable_stored ∙ delete-loosened

  null_cached :
      (u p : ℕ)
      → s.cached u T (make_key (name T) tags) ≡ some p
      → (get_or_null name u T tags erased).0 ≡ returned (some p)
  unfolding get_or_null get_or_null_from
  null_cached u p hit =
      subst
        (λ o.
          (get_or_null_from name T (make_key (name T) tags) o (count_local o erased)).0
          ≡ returned (some p))
        (sym hit) refl

  null_erased :
      (u : ℕ)
      → s.cached u T (make_key (name T) tags) ≡ none
      → (get_or_null name u T tags erased).0 ≡ returned none
  unfolding get_or_null get_or_null_from count_local
  null_erased u miss =
      subst
        (λ o.
          (get_or_null_from name T (make_key (name T) tags) o (count_local o erased)).0
          ≡ returned none)
        (sym miss)
        (ap (find_shared name T) (put-same loosened.storage (make_key (name T) tags) none))

-- In a state that calls of all threads lead to, among which Deletable is called only for keys that no
-- thread has cached: where a thread has cached an object, Deletable and Delete erase the entry, yet GetOrNull
-- still returns the object in that thread, while it is null in a thread that has not cached it.
pub stale :
    (name : ℕ → String) {s : Storage} (t T : ℕ) (tags : List String) (p : ℕ)
    → Reach name s
    → s.cached t T (make_key (name T) tags) ≡ some p
    → (u : ℕ) → s.cached u T (make_key (name T) tags) ≡ none
    → ((delete name T tags (deletable name T tags s).1).0 ≡ returned true)
      × ((get_or_null name t T tags (delete name T tags (deletable name T tags s).1).1).0
          ≡ returned (some p))
      × ((get_or_null name u T tags (delete name T tags (deletable name T tags s).1).1).0
          ≡ returned none)
stale name {s} t T tags p reach hit u miss =
    let b = (Reach-Valid name reach).backed t T (make_key (name T) tags) p hit in
    let gone = deletable_delete name T tags s b.e b.at b.type in
    (
      ap (λ r. r.0) gone,
      ap (λ r. (get_or_null name t T tags r.1).0) gone
          ∙ null_cached name T tags s b.e b.at b.type t p hit,
      ap (λ r. (get_or_null name u T tags r.1).0) gone
          ∙ null_erased name T tags s b.e b.at b.type u miss,
    )
