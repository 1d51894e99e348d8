-- ===== src/SharedStorage/Removal.antt =====
-- `Delete` and `Deletable` keep the caches true.
use godby.Prelude.{ℕ, ◌≡◌, refl, Option, none, some, arith, inl, inr, Bool-cases, List}
use godby.SharedStorage.Text.{String, same, make_key}
use godby.SharedStorage.{Entry, Storage, delete, delete_entry, deletable, deletable_entry}
use godby.SharedStorage.Coherent.{Valid, Uncached}
use godby.SharedStorage.Moves.{erase-Coherent, put-Coherent, Uncached-entry}

module _ (name : ℕ → String) where
  delete_entry-Valid :
      (T : ℕ) (key : String) (o : Option Entry) (s : Storage)
      → s.storage key ≡ o
      → Valid name s
      → Valid name (delete_entry name T key o s).1
  unfolding delete_entry
  delete_entry-Valid T key none s at v = v
  delete_entry-Valid T key (some e) s at v = elim (Bool-cases (same e.type_name (name T))) [
    | inl is ↦ elim (Bool-cases e.deletable) [
      | inl loose ↦
          rw (is, loose) (erase-Coherent v key (Uncached-entry s v key e at (λ p h. loose)))
      | inr fixed ↦ rw (is, fixed) v
    ]
    | inr other ↦ rw other v
  ]

  pub delete-Valid :
      (T : ℕ) (tags : List String) (s : Storage)
      → Valid name s
      → Valid name (delete name T tags s).1
  unfolding delete
  delete-Valid T tags s v = delete_entry-Valid T _ _ s refl v

  deletable_entry-Valid :
      (T : ℕ) (key : String) (o : Option Entry) (s : Storage)
      → s.storage key ≡ o
      → Uncached s key
      → Valid name s
      → Valid name (deletable_entry name T key o s).1
  unfolding deletable_entry
  deletable_entry-Valid T key none s at free v =
      put-Coherent v key free _ (omega arith) (λ p h. absurd (contrary p h))
        (λ p h. absurd (contrary p h))
    where
      contrary : (p : ℕ) → none ≡ some p → ⊥
      contrary p h = cc
  deletable_entry-Valid T key (some e) s at free v = elim (Bool-cases (same e.type_name (name T))) [
    | inl is ↦ rw is (
        put-Coherent v key free _ (omega arith) (λ p h. v.older key e p at h)
          (λ p h k e' at' h'. v.apart key e k e' p at h at' h'))
    | inr other ↦ rw other v
  ]

  pub deletable-Valid :
      (T : ℕ) (tags : List String) (s : Storage)
      → Uncached s (make_key (name T) tags)
      → Valid name s
      → Valid name (deletable name T tags s).1
  unfolding deletable
  deletable-Valid T tags s free v = deletable_entry-Valid T _ _ s refl free v
