-- ===== src/SharedStorage/Deleting.antt =====
-- What `Deletable` and `Delete` come to.
use godby.Prelude.{
  ℕ, ◌<◌, ◌≡◌, refl, sym, ◌∙◌, ap, subst, true, false, Option, none, some, inl, inr, Bool-cases,
  List,
}
use godby.SharedStorage.Text.{String, same, make_key}
use godby.SharedStorage.{
  Entry, Storage, returned, type_mismatch, non_deletable, count_local, entry_at, create_shared,
  find_shared, get_or_create_from, get_or_create, get_or_null_from, get_or_null, has, is_some,
  is_of_type, delete, delete_entry,
}
use godby.SharedStorage.Coherent.{put-same, Valid, Uncached}
use godby.SharedStorage.Moves.{Uncached-entry}
use godby.SharedStorage.Threads.{Reach, Reach-Valid}

module _ (name : ℕ → String) where
  -- A key that no thread has cached, without an entry.
  record Gone (s : Storage) (key : String) : Type 0 where
    pub uncached : Uncached s key
    pub missing : s.storage key ≡ none

  delete_entry-Gone :
      (T : ℕ) (key : String) (o : Option Entry) (s : Storage)
      → Valid name s
      → s.storage key ≡ o
      → (delete_entry name T key o s).0 ≡ returned true
      → Gone (delete_entry name T key o s).1 key
  unfolding delete_entry
  delete_entry-Gone T key none s v at r = absurd (contrary r)
    where
      contrary : returned false ≡ returned true → ⊥
      contrary h = cc
  delete_entry-Gone T key (some e) s v at r = elim (Bool-cases (same e.type_name (name T))) [
    | inl is ↦ elim (Bool-cases e.deletable) [
      | inl loose ↦
          rw (is, loose)
            (record {
              uncached = Uncached-entry s v key e at (λ p h. loose);
              missing = put-same s.storage key none;
            })
      | inr fixed ↦ absurd (kept (rw (is, fixed) at r))
    ]
    | inr other ↦ absurd (wrong (rw other at r))
  ]
    where
      kept : non_deletable ≡ returned true → ⊥
      kept h = cc

      wrong : type_mismatch ≡ returned true → ⊥
      wrong h = cc

  null-Gone :
      (u T : ℕ) (tags : List String) (s : Storage)
      → Gone s (make_key (name T) tags)
      → (get_or_null name u T tags s).0 ≡ returned none
  unfolding get_or_null get_or_null_from count_local
  null-Gone u T tags s g =
      subst
        (λ o.
          (get_or_null_from name T (make_key (name T) tags) o (count_local o s)).0 ≡ returned none)
        (sym (g.uncached u T)) (ap (find_shared name T) g.missing)

  create-Gone :
      (u T : ℕ) (tags : List String) (s : Storage)
      → Gone s (make_key (name T) tags)
      → (get_or_create name u T tags s).0 ≡ returned s.next_object
  unfolding get_or_create get_or_create_from count_local create_shared
  create-Gone u T tags s g =
      subst
        (λ o.
          (get_or_create_from name u T (make_key (name T) tags) o (count_local o s)).0
          ≡ returned s.next_object)
        (sym (g.uncached u T))
        (subst
          (λ o.
            (create_shared name u T (make_key (name T) tags) (entry_at o) (entry_at o).value
              (count_local none s)).0
            ≡ returned s.next_object)
          (sym g.missing) refl)

  has-Gone :
      (u T : ℕ) (tags : List String) (s : Storage)
      → Gone s (make_key (name T) tags)
      → has name u T tags s ≡ false
  unfolding has
  has-Gone u T tags s g = rw (ap is_some (g.uncached u T)) (ap (is_of_type (name T)) g.missing)

  delete_next :
      (T : ℕ) (key : String) (o : Option Entry) (s : Storage)
      → (delete_entry name T key o s).1.next_object ≡ s.next_object
  unfolding delete_entry
  delete_next T key none s = refl
  delete_next T key (some e) s = elim (Bool-cases (same e.type_name (name T))) [
    | inl is ↦ elim (Bool-cases e.deletable) [
      | inl loose ↦ rw (is, loose) refl
      | inr fixed ↦ rw (is, fixed) refl
    ]
    | inr other ↦ rw other refl
  ]

  delete-Gone :
      (T : ℕ) (tags : List String) (s : Storage)
      → Gone s (make_key (name T) tags)
      → (delete name T tags s).0 ≡ returned false
  unfolding delete delete_entry
  delete-Gone T tags s g =
      subst (λ o. (delete_entry name T (make_key (name T) tags) o s).0 ≡ returned false)
        (sym g.missing) refl

-- In a state that calls of all threads lead to, where Deletable is only called for what no thread has
-- cached: after a Delete that returned true, GetOrNull is null and Has is false in every thread, the next
-- Delete returns false, and GetOrCreate returns a new object that is newer than any that is stored.
pub deleted :
    (name : ℕ → String) {s : Storage} (T : ℕ) (tags : List String)
    → Reach name s
    → (delete name T tags s).0 ≡ returned true
    → (u : ℕ)
    → ((get_or_null name u T tags (delete name T tags s).1).0 ≡ returned none)
      × (has name u T tags (delete name T tags s).1 ≡ false)
      × ((delete name T tags (delete name T tags s).1).0 ≡ returned false)
      × ((get_or_create name u T tags (delete name T tags s).1).0 ≡ returned s.next_object)
      × ((key : String) (e : Entry) (p : ℕ)
          → s.storage key ≡ some e
          → e.value ≡ some p
          → p < s.next_object)
unfolding delete
deleted name {s} T tags reach r u = (
  null-Gone name u T tags _ g,
  has-Gone name u T tags _ g,
  delete-Gone name T tags _ g,
  create-Gone name u T tags _ g ∙ ap returned (delete_next name T _ _ s),
  v.older,
)
  where
    v : Valid name s
    v = Reach-Valid name reach

    g : Gone name (delete name T tags s).1 (make_key (name T) tags)
    g = delete_entry-Gone name T _ _ s v refl r
