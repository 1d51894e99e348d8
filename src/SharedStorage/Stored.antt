-- ===== src/SharedStorage/Stored.antt =====
-- A value that is stored stays stored until it is deleted.
use godby.Prelude.{
  ℕ, ◌≡◌, ◌≢◌, refl, sym, ◌∙◌, ap, subst, Option, none, some, inl, inr, ◌⊎◌, Bool-cases,
}
use godby.SharedStorage.Text.{String, same}
use godby.SharedStorage.{
  Entry, Storage, put, count_local, fill_cache, create_shared, get_or_create_from, get_or_create,
  get_or_null_from, get_or_null, delete, delete_entry, deletable, deletable_entry,
}
use godby.SharedStorage.Reload.{
  execute, reload, create_shared_reloadable, create_reloadable, get_or_create_reloadable_from,
  get_or_create_reloadable,
}
use godby.SharedStorage.Coherent.{put_cases}
use godby.SharedStorage.Moves.{of_some}
use godby.SharedStorage.Calls.{Found, found}
use godby.SharedStorage.Threads.{
  Step, Since, here, later, gets, creates, creates_reloadable, deletes, makes_deletable, fires,
}

-- The entry holds an object for a type.
pub record Stored (entry : Option Entry) (type_name : String) (p : ℕ) : Type 0 where
  pub e : Entry
  pub at : entry ≡ some e
  pub value : e.value ≡ some p
  pub type : e.type_name ≡ type_name

none-some : {A : Type 0} {a : A} → none ≡ some a → ⊥
none-some e = cc

module _ (k n : String) (p : ℕ) where
  -- One entry changes, and keeps this value if it is the one.
  put-Stored :
      (S : String → Option Entry) (key : String) (new : Entry)
      → Stored (S k) n p
      → (key ≡ k → (new.value ≡ some p) × (new.type_name ≡ n))
      → Stored (put S key (some new) k) n p
  put-Stored S key new h keeps = elim (put_cases S key (some new) k) [
    | inl (is, at) ↦
        let (value, type) = keeps is in record { e = new; at = at; value = value; type = type }
    | inr (_, at) ↦ record { e = h.e; at = at ∙ h.at; value = h.value; type = h.type }
  ]

  -- An entry without a value is not the one.
  null_other :
      (s : Storage) (key : String) (e : Entry)
      → Stored (s.storage k) n p
      → Found s key e
      → e.value ≡ none
      → key ≢ k
  null_other s key e h at null is = elim at [
    | inl at' ↦ absurd (none-some (sym null ∙ ap (λ x. x.value) (same_entry at') ∙ h.value))
    | inr (at', _) ↦ absurd (none-some (sym at' ∙ ap s.storage is ∙ h.at))
  ]
    where
      same_entry : s.storage key ≡ some e → e ≡ h.e
      same_entry at' = of_some (sym at' ∙ ap s.storage is ∙ h.at)

  pub fill-Stored :
      (t T : ℕ) (key : String) (e : Entry) (q : ℕ) (s : Storage)
      → Stored (s.storage k) n p
      → Stored ((fill_cache t T key e q s).storage k) n p
  unfolding fill_cache
  fill-Stored t T key e q s h = elim (Bool-cases e.deletable) [
    | inl loose ↦ rw loose h
    | inr fixed ↦ rw fixed h
  ]

  new_Stored :
      (s : Storage) (key : String) (e new : Entry)
      → Stored (s.storage k) n p
      → Found s key e
      → e.value ≡ none
      → Stored (put s.storage key (some new) k) n p
  new_Stored s key e new h at null =
      put-Stored s.storage key new h (λ is. absurd (null_other s key e h at null is))

  pub count-Stored :
      (o : Option ℕ) (s : Storage)
      → Stored (s.storage k) n p
      → Stored ((count_local o s).storage k) n p
  unfolding count_local
  count-Stored none s h = h
  count-Stored (some q) s h = h

  module _ (name : ℕ → String) where
    create-Stored :
        (t T : ℕ) (key : String) (e : Entry) (o : Option ℕ) (s : Storage)
        → Found s key e
        → e.value ≡ o
        → Stored (s.storage k) n p
        → Stored ((create_shared name t T key e o s).1.storage k) n p
    unfolding create_shared
    create-Stored t T key e none s at null h =
        fill-Stored t T key e s.next_object _ (new_Stored s key e _ h at null)
    create-Stored t T key e (some q) s at value h = elim (Bool-cases (same e.type_name (name T))) [
      | inl is ↦ rw is (fill-Stored t T key e q _ h)
      | inr other ↦ rw other h
    ]

    create_reloadable-Stored :
        (t U : ℕ) (key : String) (interval : ℕ) (e : Entry) (o : Option ℕ) (s : Storage)
        → Found s key e
        → e.value ≡ o
        → Stored (s.storage k) n p
        → Stored ((create_shared_reloadable name t U key interval e o s).1.storage k) n p
    unfolding create_shared_reloadable create_reloadable
    create_reloadable-Stored t U key interval e none s at null h =
        fill-Stored t U key e s.next_object _ (new_Stored s key e _ h at null)
    create_reloadable-Stored t U key interval e (some q) s at value h =
        elim (Bool-cases (same e.type_name (name U))) [
          | inl is ↦ rw is (fill-Stored t U key e q _ h)
          | inr other ↦ rw other h
        ]

    created-Stored :
        (t T : ℕ) (key : String) (o : Option ℕ) (s : Storage)
        → Stored (s.storage k) n p
        → Stored ((get_or_create_from name t T key o s).1.storage k) n p
    unfolding get_or_create_from
    created-Stored t T key (some q) s h = h
    created-Stored t T key none s h =
        create-Stored t T key _ _ s (found (s.storage key) s key refl) refl h

    created_reloadable-Stored :
        (t U : ℕ) (key : String) (interval : ℕ) (o : Option ℕ) (s : Storage)
        → Stored (s.storage k) n p
        → Stored ((get_or_create_reloadable_from name t U key interval o s).1.storage k) n p
    unfolding get_or_create_reloadable_from
    created_reloadable-Stored t U key interval (some q) s h = h
    created_reloadable-Stored t U key interval none s h =
        create_reloadable-Stored t U key interval _ _ _ (found (s.storage key) s key refl) refl h

    null-Stored :
        (T : ℕ) (key : String) (o : Option ℕ) (s : Storage)
        → Stored (s.storage k) n p
        → Stored ((get_or_null_from name T key o s).1.storage k) n p
    unfolding get_or_null_from
    null-Stored T key none s h = h
    null-Stored T key (some q) s h = h

    deletable-Stored :
        (T : ℕ) (key : String) (o : Option Entry) (s : Storage)
        → s.storage key ≡ o
        → Stored (s.storage k) n p
        → Stored ((deletable_entry name T key o s).1.storage k) n p
    unfolding deletable_entry
    deletable-Stored T key none s at h =
        put-Stored s.storage key _ h (λ is. absurd (none-some (sym at ∙ ap s.storage is ∙ h.at)))
    deletable-Stored T key (some e) s at h = elim (Bool-cases (same e.type_name (name T))) [
      | inl is ↦ rw is (put-Stored s.storage key _ h keeps)
      | inr other ↦ rw other h
    ]
      where
        keeps : key ≡ k → (e.value ≡ some p) × (e.type_name ≡ n)
        keeps is =
            let eq = of_some (sym at ∙ ap s.storage is ∙ h.at) in
            (ap (λ x. x.value) eq ∙ h.value, ap (λ x. x.type_name) eq ∙ h.type)

    delete_storage :
        (T : ℕ) (key : String) (e : Entry) (s : Storage)
        → ((delete_entry name T key (some e) s).1.storage ≡ put s.storage key none)
          ⊎ ((delete_entry name T key (some e) s).1.storage ≡ s.storage)
    unfolding delete_entry
    delete_storage T key e s = elim (Bool-cases (same e.type_name (name T))) [
      | inl is ↦ elim (Bool-cases e.deletable) [
        | inl loose ↦ inl (rw (is, loose) refl)
        | inr fixed ↦ inr (rw (is, fixed) refl)
      ]
      | inr other ↦ inr (rw other refl)
    ]

    delete-Stored :
        (T : ℕ) (key : String) (o : Option Entry) (s : Storage)
        → (delete_entry name T key o s).1.storage k ≢ none
        → Stored (s.storage k) n p
        → Stored ((delete_entry name T key o s).1.storage k) n p
    unfolding delete_entry
    delete-Stored T key none s left h = h
    delete-Stored T key (some e) s left h = elim (delete_storage T key e s) [
      | inr eq ↦ subst (λ S. Stored (S k) n p) (sym eq) h
      | inl eq ↦ subst (λ S. Stored (S k) n p) (sym eq) (erased (subst (λ S. S k ≢ none) eq left))
    ]
      where
        erased : put s.storage key none k ≢ none → Stored (put s.storage key none k) n p
        erased left' = elim (put_cases s.storage key none k) [
          | inl (_, at) ↦ absurd (left' at)
          | inr (_, at) ↦ subst (λ o. Stored o n p) (sym at) h
        ]

    pub Step-Stored :
        {s s' : Storage}
        → Step name s s'
        → s'.storage k ≢ none
        → Stored (s.storage k) n p
        → Stored (s'.storage k) n p
    unfolding get_or_null get_or_create get_or_create_reloadable delete deletable execute reload
    Step-Stored {s} (gets t T tags) left h = null-Stored T _ _ _ (count-Stored _ s h)
    Step-Stored {s} (creates t T tags) left h = created-Stored t T _ _ _ (count-Stored _ s h)
    Step-Stored {s} (creates_reloadable t U interval tags) left h =
        created_reloadable-Stored t U _ interval _ _ (count-Stored _ s h)
    Step-Stored {s} (deletes T tags) left h = delete-Stored T _ _ s left h
    Step-Stored {s} (makes_deletable T tags free) left h = deletable-Stored T _ _ s refl h
    Step-Stored {s} (fires q interval) left h = h

    pub Since-Stored :
        {s s' : Storage} → Since name k s s' → Stored (s.storage k) n p → Stored (s'.storage k) n p
    Since-Stored here h = h
    Since-Stored (later before step left) h = Step-Stored step left (Since-Stored before h)
