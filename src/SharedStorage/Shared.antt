-- ===== src/SharedStorage/Shared.antt =====
-- All threads have the same object for a type and tags, from its creation until it is deleted.
use godby.Prelude.{
  ℕ, ◌≡◌, refl, sym, ◌∙◌, ap, subst, true, Option, none, some, inl, inr, Bool-cases, List,
}
use godby.SharedStorage.Text.{String, same, same_self, equal_of_same, make_key}
use godby.SharedStorage.{
  Entry, Storage, returned, type_mismatch, count_local, entry_at, create_shared, find_shared,
  get_or_create_from, get_or_create, get_or_null_from, get_or_null, has, is_some, is_of_type,
}
use godby.SharedStorage.Coherent.{put-same, Valid}
use godby.SharedStorage.Moves.{of_some}
use godby.SharedStorage.Calls.{Found, found, found_stored, count-Valid}
use godby.SharedStorage.Threads.{Reach, Since, here, later, creates, Step-Valid, Reach-Valid}
use godby.SharedStorage.Stored.{Stored, fill-Stored, count-Stored, Since-Stored}

of_returned : {A : Type 0} {a b : A} → returned a ≡ returned b → a ≡ b
of_returned e = cc

module _ (name : ℕ → String) where
  created-Stored :
      (t T : ℕ) (key : String) (e : Entry) (o : Option ℕ) (s : Storage) (p : ℕ)
      → Found s key e
      → e.value ≡ o
      → (create_shared name t T key e o s).0 ≡ returned p
      → Stored ((create_shared name t T key e o s).1.storage key) (name T) p
  unfolding create_shared
  created-Stored t T key e none s p at null r =
      fill-Stored key (name T) p t T key e s.next_object _ (record {
        e = _;
        at = put-same s.storage key _;
        value = ap some (of_returned r);
        type = refl;
      })
  created-Stored t T key e (some q) s p at value r = elim (Bool-cases (same e.type_name (name T))) [
    | inl is ↦ rw is (
        fill-Stored key (name T) p t T key e q _ (record {
          e = e;
          at = found_stored s key e q at value;
          value = value ∙ ap some (of_returned (rw is at r));
          type = equal_of_same e.type_name (name T) is;
        }))
    | inr other ↦ absurd (contrary (rw other at r))
  ]
    where
      contrary : type_mismatch ≡ returned p → ⊥
      contrary h = cc

  from-Stored :
      (t T : ℕ) (key : String) (o : Option ℕ) (s : Storage) (p : ℕ)
      → Valid name s
      → s.cached t T key ≡ o
      → (get_or_create_from name t T key o s).0 ≡ returned p
      → Stored ((get_or_create_from name t T key o s).1.storage key) (name T) p
  unfolding get_or_create_from
  from-Stored t T key (some q) s p v hit r =
      let b = v.backed t T key q hit in
      record { e = b.e; at = b.at; value = b.value ∙ ap some (of_returned r); type = b.type }
  from-Stored t T key none s p v hit r =
      created-Stored t T key _ _ s p (found (s.storage key) s key refl) refl r

  -- Counting changes no cache.
  cached-count :
      (o : Option ℕ) (s : Storage) (t T : ℕ) (key : String)
      → (count_local o s).cached t T key ≡ s.cached t T key
  unfolding count_local
  cached-count none s t T key = refl
  cached-count (some p) s t T key = refl

  returned-Stored :
      (t T : ℕ) (tags : List String) (s : Storage) (p : ℕ)
      → Valid name s
      → (get_or_create name t T tags s).0 ≡ returned p
      → Stored ((get_or_create name t T tags s).1.storage (make_key (name T) tags)) (name T) p
  unfolding get_or_create
  returned-Stored t T tags s p v r =
      let key = make_key (name T) tags in
      from-Stored t T key (s.cached t T key) _ p (count-Valid name (s.cached t T key) s v)
        (cached-count (s.cached t T key) s t T key) r

  -- A cache has the value that is stored.
  cached_value :
      (u T : ℕ) (key : String) (s : Storage) (p q : ℕ)
      → Valid name s
      → Stored (s.storage key) (name T) p
      → s.cached u T key ≡ some q
      → q ≡ p
  cached_value u T key s p q v h hit =
      let b = v.backed u T key q hit in
      of_some (sym b.value ∙ ap (λ x. x.value) (of_some (sym b.at ∙ h.at)) ∙ h.value)

  create-of :
      (u T : ℕ) (key : String) (e : Entry) (s : Storage) (p : ℕ)
      → e.type_name ≡ name T
      → (create_shared name u T key e (some p) s).0 ≡ returned p
  unfolding create_shared
  create-of u T key e s p type = rw (ap (λ n. same n (name T)) type ∙ same_self (name T)) refl

  create_from-of :
      (u T : ℕ) (key : String) (o : Option ℕ) (s : Storage) (p : ℕ)
      → Valid name s
      → Stored (s.storage key) (name T) p
      → s.cached u T key ≡ o
      → (get_or_create_from name u T key o s).0 ≡ returned p
  unfolding get_or_create_from
  create_from-of u T key (some q) s p v h hit = ap returned (cached_value u T key s p q v h hit)
  create_from-of u T key none s p v h hit =
      subst (λ o. (create_shared name u T key (entry_at o) (entry_at o).value s).0 ≡ returned p)
        (sym h.at)
        (subst (λ o. (create_shared name u T key h.e o s).0 ≡ returned p) (sym h.value)
          (create-of u T key h.e s p h.type))

  null_from-of :
      (u T : ℕ) (key : String) (o : Option ℕ) (s : Storage) (p : ℕ)
      → Valid name s
      → Stored (s.storage key) (name T) p
      → s.cached u T key ≡ o
      → (get_or_null_from name T key o s).0 ≡ returned (some p)
  unfolding get_or_null_from
  null_from-of u T key (some q) s p v h hit =
      ap (λ i. returned (some i)) (cached_value u T key s p q v h hit)
  null_from-of u T key none s p v h hit =
      subst (λ o. find_shared name T o ≡ returned (some p)) (sym h.at)
        (rw (ap (λ n. same n (name T)) h.type ∙ same_self (name T)) (ap returned h.value))

  has-of :
      (u T : ℕ) (tags : List String) (s : Storage) (p : ℕ)
      → Stored (s.storage (make_key (name T) tags)) (name T) p
      → has name u T tags s ≡ true
  unfolding has
  has-of u T tags s p h = elim (Bool-cases (is_some (s.cached u T (make_key (name T) tags)))) [
    | inl hit ↦ rw hit refl
    | inr miss ↦ rw miss (
        subst (λ o. is_of_type (name T) o ≡ true) (sym h.at)
          (ap (λ n. same n (name T)) h.type ∙ same_self (name T)))
  ]

  Since-Valid : {key : String} {s s' : Storage} → Since name key s s' → Valid name s → Valid name s'
  Since-Valid here v = v
  Since-Valid (later before step left) v = Step-Valid name step (Since-Valid before v)

-- However the threads' calls follow one another, where Deletable is only called for what no thread has
-- cached: once GetOrCreate has returned an object, and until the entry is deleted, GetOrCreate and GetOrNull
-- return that object in every thread for the same type and tags, Has is true, and the object is
-- stored under no other key.
pub same_object :
    (name : ℕ → String) {s s' : Storage} (t T : ℕ) (tags : List String) (p : ℕ)
    → Reach name s
    → (get_or_create name t T tags s).0 ≡ returned p
    → Since name (make_key (name T) tags) (get_or_create name t T tags s).1 s'
    → (u : ℕ)
    → ((get_or_create name u T tags s').0 ≡ returned p)
      × ((get_or_null name u T tags s').0 ≡ returned (some p))
      × (has name u T tags s' ≡ true)
      × ((key : String) (e : Entry)
          → s'.storage key ≡ some e
          → e.value ≡ some p
          → make_key (name T) tags ≡ key)
unfolding get_or_create get_or_null
same_object name {s} {s'} t T tags p reach r since u = (
  create_from-of name u T key found _ p (count-Valid name found s' v)
      (count-Stored key (name T) p found s' h) (cached-count name found s' u T key),
  null_from-of name u T key found _ p (count-Valid name found s' v)
      (count-Stored key (name T) p found s' h) (cached-count name found s' u T key),
  has-of name u T tags s' p h,
  λ k e at value. v.apart key h.e k e p h.at h.value at value,
)
  where
    key : String
    key = make_key (name T) tags

    v : Valid name s'
    v = Since-Valid name since (Step-Valid name (creates t T tags) (Reach-Valid name reach))

    h : Stored (s'.storage key) (name T) p
    h =
        Since-Stored key (name T) p name since
          (returned-Stored name t T tags s p (Reach-Valid name reach) r)

    found : Option ℕ
    found = s'.cached u T key
