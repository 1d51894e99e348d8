-- ===== src/SharedStorage/Calls.antt =====
-- Each call keeps the caches true.
use godby.Prelude.{
  ℕ, ◌+◌, ◌≡◌, refl, sym, ◌∙◌, ap, true, false, Option, none, some, arith, inl, inr, ◌⊎◌,
  Bool-cases, List,
}
use godby.SharedStorage.Text.{String, same, equal_of_same, make_key}
use godby.SharedStorage.{
  Entry, new_entry, Storage, put_entry, count_local, entry_at, fill_cache, create_shared, created,
  get_or_create_from, get_or_create, get_or_null_from, get_or_null,
}
use godby.SharedStorage.Reload.{
  create_shared_reloadable, create_reloadable, reloadable_entry, get_or_create_reloadable_from,
  get_or_create_reloadable,
}
use godby.SharedStorage.Coherent.{put-same, Valid, Uncached, Holds}
use godby.SharedStorage.Moves.{
  of_some, put-Coherent, cache_set-Valid, Uncached-missing, Uncached-entry,
}

-- `e` is the entry that `M_storage[key]` gives.
abbrev pub Found : Storage → String → Entry → Type 0
Found s key e = (s.storage key ≡ some e) ⊎ ((s.storage key ≡ none) × (e ≡ new_entry))

pub found :
    (o : Option Entry) (s : Storage) (key : String) → s.storage key ≡ o → Found s key (entry_at o)
found none s key h = inr (h, refl)
found (some e) s key h = inl h

-- An entry with a value for the type, that was found, is one of the map.
pub found_stored :
    (s : Storage) (key : String) (e : Entry) (p : ℕ)
    → Found s key e
    → e.value ≡ some p
    → s.storage key ≡ some e
found_stored s key e p (inl at) value = at
found_stored s key e p (inr (_, new)) value =
    absurd (contrary (ap (λ x. x.value) (sym new) ∙ value))
  where
    contrary : none ≡ some p → ⊥
    contrary e = cc

module _ (name : ℕ → String) where
  pub count-Valid : (o : Option ℕ) (s : Storage) → Valid name s → Valid name (count_local o s)
  unfolding count_local
  count-Valid none s v = v
  count-Valid (some p) s v = v

  fill-Valid :
      (t T : ℕ) (key : String) (e : Entry) (p : ℕ) (s : Storage)
      → (e.deletable ≡ false → Holds (s.storage key) (name T) p)
      → Valid name s
      → Valid name (fill_cache t T key e p s)
  unfolding fill_cache
  fill-Valid t T key e p s h v = elim (Bool-cases e.deletable) [
    | inl loose ↦ rw loose v
    | inr fixed ↦ rw fixed (cache_set-Valid s t T key p (h fixed) v)
  ]

  Uncached-null :
      (s : Storage) (key : String) (e : Entry)
      → Valid name s
      → Found s key e
      → e.value ≡ none
      → Uncached s key
  Uncached-null s key e v (inl at) null = Uncached-entry s v key e at (λ p h. absurd (contrary p h))
    where
      contrary : (p : ℕ) → e.value ≡ some p → ⊥
      contrary p h = none-some (sym null ∙ h)
        where
          none-some : none ≡ some p → ⊥
          none-some e = cc
  Uncached-null s key e v (inr (at, _)) null = Uncached-missing s v key at

  -- An entry gets the next object.
  fresh-Valid :
      (s : Storage) (key : String) (e new : Entry)
      → Valid name s
      → Found s key e
      → e.value ≡ none
      → new.value ≡ some s.next_object
      → Valid name (put_entry key new (record s { next_object = s.next_object + 1 }))
  fresh-Valid s key e new v at null value =
      put-Coherent v key (Uncached-null s key e v at null) new (omega arith)
        (λ p h. omega (arith, of_some (sym h ∙ value)))
        (λ p h k e' at' h'. absurd (omega (arith, of_some (sym h ∙ value), v.older k e' p at' h')))

  found_Holds :
      (s : Storage) (T : ℕ) (key : String) (e : Entry) (p : ℕ)
      → Found s key e
      → e.value ≡ some p
      → same e.type_name (name T) ≡ true
      → e.deletable ≡ false
      → Holds (s.storage key) (name T) p
  found_Holds s T key e p at value is fixed = record {
    e = e;
    at = found_stored s key e p at value;
    value = value;
    type = equal_of_same e.type_name (name T) is;
    fixed = fixed;
  }

  create_shared-Valid :
      (t T : ℕ) (key : String) (e : Entry) (o : Option ℕ) (s : Storage)
      → Found s key e
      → e.value ≡ o
      → Valid name s
      → Valid name (create_shared name t T key e o s).1
  unfolding create_shared
  create_shared-Valid t T key e none s at value v =
      fill-Valid t T key e s.next_object _
        (λ fixed. record {
          e = created name T e s.next_object;
          at = put-same s.storage key _;
          value = refl;
          type = refl;
          fixed = fixed;
        })
        (fresh-Valid s key e (created name T e s.next_object) v at value refl)
  create_shared-Valid t T key e (some p) s at value v =
      elim (Bool-cases (same e.type_name (name T))) [
        | inl is ↦ rw is (fill-Valid t T key e p _ (found_Holds s T key e p at value is) v)
        | inr other ↦ rw other v
      ]

  create_shared_reloadable-Valid :
      (t U : ℕ) (key : String) (interval : ℕ) (e : Entry) (o : Option ℕ) (s : Storage)
      → Found s key e
      → e.value ≡ o
      → Valid name s
      → Valid name (create_shared_reloadable name t U key interval e o s).1
  unfolding create_shared_reloadable create_reloadable
  create_shared_reloadable-Valid t U key interval e none s at value v =
      fill-Valid t U key e s.next_object _
        (λ fixed. record {
          e = reloadable_entry name U e s.next_object;
          at = put-same s.storage key _;
          value = refl;
          type = refl;
          fixed = fixed;
        })
        (fresh-Valid s key e (reloadable_entry name U e s.next_object) v at value refl)
  create_shared_reloadable-Valid t U key interval e (some p) s at value v =
      elim (Bool-cases (same e.type_name (name U))) [
        | inl is ↦ rw is (fill-Valid t U key e p _ (found_Holds s U key e p at value is) v)
        | inr other ↦ rw other v
      ]

  get_or_create_from-Valid :
      (t T : ℕ) (key : String) (o : Option ℕ) (s : Storage)
      → Valid name s
      → Valid name (get_or_create_from name t T key o s).1
  unfolding get_or_create_from
  get_or_create_from-Valid t T key (some p) s v = v
  get_or_create_from-Valid t T key none s v =
      create_shared-Valid t T key (entry_at (s.storage key)) _ s (found (s.storage key) s key refl)
        refl v

  pub get_or_create-Valid :
      (t T : ℕ) (tags : List String) (s : Storage)
      → Valid name s
      → Valid name (get_or_create name t T tags s).1
  unfolding get_or_create
  get_or_create-Valid t T tags s v =
      get_or_create_from-Valid t T _ _ _ (count-Valid (s.cached t T (make_key (name T) tags)) s v)

  get_or_null_from-Valid :
      (T : ℕ) (key : String) (o : Option ℕ) (s : Storage)
      → Valid name s
      → Valid name (get_or_null_from name T key o s).1
  unfolding get_or_null_from
  get_or_null_from-Valid T key none s v = v
  get_or_null_from-Valid T key (some p) s v = v

  pub get_or_null-Valid :
      (t T : ℕ) (tags : List String) (s : Storage)
      → Valid name s
      → Valid name (get_or_null name t T tags s).1
  unfolding get_or_null
  get_or_null-Valid t T tags s v =
      get_or_null_from-Valid T _ _ _ (count-Valid (s.cached t T (make_key (name T) tags)) s v)

  get_or_create_reloadable_from-Valid :
      (t U : ℕ) (key : String) (interval : ℕ) (o : Option ℕ) (s : Storage)
      → Valid name s
      → Valid name (get_or_create_reloadable_from name t U key interval o s).1
  unfolding get_or_create_reloadable_from
  get_or_create_reloadable_from-Valid t U key interval (some p) s v = v
  get_or_create_reloadable_from-Valid t U key interval none s v =
      create_shared_reloadable-Valid t U key interval (entry_at (s.storage key)) _ _
        (found (s.storage key) s key refl) refl v

  pub get_or_create_reloadable-Valid :
      (t U interval : ℕ) (tags : List String) (s : Storage)
      → Valid name s
      → Valid name (get_or_create_reloadable name t U interval tags s).1
  unfolding get_or_create_reloadable
  get_or_create_reloadable-Valid t U interval tags s v =
      get_or_create_reloadable_from-Valid t U _ interval _ _
        (count-Valid (s.cached t U (make_key (name U) tags)) s v)
