-- ===== src/AtomicHashmap/Walk.antt =====
-- The walks over all buckets: `Delete`, `Cleanup` and the iterator.
use godby.Prelude.{
  ℕ, zero, suc, ◌+◌, ◌≤◌, ◌<◌, ◌≡◌, ◌≢◌, refl, sym, ◌∙◌, ap, update-same, update_other, subst, Bool,
  true, false, Option, none, some, List, arith, ◌⊎◌, inl, inr, Bool-cases, if◌then◌else◌, update,
  ℕ_discrete,
}
use godby.AtomicHashmap.{
  Bucket, Map, is_occupied, is_occupied_by, cleanup, walk, walk_key, walk_all, delete, cleanup_all,
  value_at, get,
}
use godby.AtomicHashmap.Keyed.{Key, is_only}
use godby.AtomicHashmap.Path.{
  All, nil, cons, first_with, first_with_passes, first_with-none, first_with_cong,
}
use godby.AtomicHashmap.Levels.{Valid, total, path-All}
use godby.AtomicHashmap.Laws.{way, get-first_with}

module _ {K V : Type 0} (test : Bucket K V → Bool) (walker : Bucket K V → Bucket K V) where
  abbrev visit : (ℕ → Bucket K V) → ℕ → ℕ → Bucket K V
  visit buckets i = if test (buckets i) then update buckets i (walker (buckets i)) else buckets

  abbrev pub visited : Bucket K V → Bucket K V
  visited b = if test b then walker b else b

  visit_other : (buckets : ℕ → Bucket K V) (i j : ℕ) → j ≢ i → visit buckets i j ≡ buckets j
  visit_other buckets i j ne = elim (Bool-cases (test (buckets i))) [
    | inl yes_it ↦ rw yes_it (update_other buckets i (walker (buckets i)) j ne)
    | inr no_it ↦ rw no_it refl
  ]

  visit-same : (buckets : ℕ → Bucket K V) (i : ℕ) → visit buckets i i ≡ visited (buckets i)
  visit-same buckets i = elim (Bool-cases (test (buckets i))) [
    | inl yes_it ↦ rw yes_it (update-same buckets i (walker (buckets i)))
    | inr no_it ↦ rw no_it refl
  ]

  -- A walk leaves the buckets before it and after its end alone.
  walk_outside :
      (n i : ℕ) (buckets : ℕ → Bucket K V) (j : ℕ)
      → (j < i) ⊎ (i + n ≤ j)
      → walk test walker n i buckets j ≡ buckets j
  unfolding walk
  walk_outside zero i buckets j h = refl
  walk_outside (suc n) i buckets j h =
      walk_outside n (i + 1) (visit buckets i) j (omega arith)
      ∙ visit_other buckets i j (omega arith)

  -- Inside, it gives each bucket that passes the test to the walker, once.
  walk_inside :
      (n i : ℕ) (buckets : ℕ → Bucket K V) (j : ℕ)
      → i ≤ j
      → j < i + n
      → walk test walker n i buckets j ≡ visited (buckets j)
  unfolding walk
  walk_inside zero i buckets j low high = absurd (omega arith)
  walk_inside (suc n) i buckets j low high = elim (ℕ_discrete j i) [
    | yes same ↦
        walk_outside n (i + 1) (visit buckets i) j (omega (arith, same))
        ∙ (ap (visit buckets i) same
            ∙ (visit-same buckets i ∙ ap (λ x. visited (buckets x)) (sym same)))
    | no other ↦
        walk_inside n (i + 1) (visit buckets i) j (omega (arith, other)) (omega arith)
        ∙ ap visited (visit_other buckets i j other)
  ]

module _ {K V : Type 0} where
  emptied : (b : Bucket K V) → (visited is_occupied cleanup b).key ≡ none
  unfolding is_occupied cleanup
  emptied b = elim (Bool-cases (is_occupied b)) [
    | inl h ↦ rw h refl
    | inr h ↦ rw h (unoccupied b.key h)
  ]
    where
      unoccupied : (o : Option K) → (elim o [ none ↦ false | some k ↦ true ]) ≡ false → o ≡ none
      unoccupied none h = refl
      unoccupied (some k) h = absurd cc

  -- `Cleanup` of the map empties every bucket.
  cleanup_all_lem : (m : Map K V) (j : ℕ) → j < m.capacity → ((cleanup_all m).buckets j).key ≡ none
  unfolding cleanup_all walk_all
  cleanup_all_lem m j inside =
      ap (λ b. b.key)
        (walk_inside is_occupied cleanup m.capacity 0 m.buckets j (omega arith)
          (omega (arith, inside)))
      ∙ emptied (m.buckets j)

module _ {K V : Type 0} ⦃key : Key K⦄ (k : K) where
  abbrev of_key : Bucket K V → Bool
  of_key b = is_occupied_by b k

  gone : (b : Bucket K V) → is_occupied_by (visited of_key cleanup b) k ≡ false
  unfolding cleanup
  gone b = elim (Bool-cases (of_key b)) [ inl h ↦ rw h refl | inr h ↦ rw h h ]

  stays :
      (b : Bucket K V) (q : K)
      → q ≢ k
      → is_occupied_by (visited of_key cleanup b) q ≡ is_occupied_by b q
  unfolding cleanup
  stays b q ne = elim (Bool-cases (of_key b)) [
    | inl h ↦ rw h (sym (is_only b.key k q h ne))
    | inr h ↦ rw h refl
  ]

  stays_whole :
      (b : Bucket K V) (q : K) → q ≢ k → is_occupied_by b q ≡ true → visited of_key cleanup b ≡ b
  stays_whole b q ne e = elim (Bool-cases (of_key b)) [
    | inl h ↦ absurd (apart (sym (is_only b.key k q h ne) ∙ e))
    | inr h ↦ rw h refl
  ]
    where
      apart : false ≡ true → ⊥
      apart c = cc

  module _ (m : Map K V) where
    inside_delete :
        (j : ℕ) → j < m.capacity → (delete m k).buckets j ≡ visited of_key cleanup (m.buckets j)
    unfolding delete walk_key
    inside_delete j inside =
        walk_inside of_key cleanup m.capacity 0 m.buckets j (omega arith) (omega (arith, inside))

    delete_cases :
        (j : ℕ)
        → ((delete m k).buckets j ≡ m.buckets j)
          ⊎ ((delete m k).buckets j ≡ visited of_key cleanup (m.buckets j))
    unfolding delete walk_key
    delete_cases j = elim (inside_cases j m.capacity) [
      | inl inside ↦ inr (inside_delete j inside)
      | inr outside ↦ inl (walk_outside of_key cleanup m.capacity 0 m.buckets j (inr (omega arith)))
    ]
      where
        inside_cases : (j c : ℕ) → (j < c) ⊎ (c ≤ j)
        inside_cases j c = omega arith

    same_way : (q : K) → way (delete m k) q ≡ way m q
    unfolding delete walk_key
    same_way q = refl

    get-delete_own : Valid m → get (delete m k) k ≡ none
    get-delete_own v =
        get-first_with (delete m k) k
        ∙ ap (value_at (delete m k)) (
            first_with-none (λ i. is_occupied_by ((delete m k).buckets i) k)
              (subst (All (λ i. is_occupied_by ((delete m k).buckets i) k ≡ false))
                (sym (same_way k))
                (empty_way (
                  subst (λ n. All (λ i. i < n) (way m k)) whole
                    (path-All (key.hash k) 0 v.sizes)))))
      where
        whole : 0 + total m.level_capacity ≡ m.capacity
        whole = omega (arith, v.fills)

        empty_way :
            {xs : List ℕ}
            → All (λ i. i < m.capacity) xs
            → All (λ i. is_occupied_by ((delete m k).buckets i) k ≡ false) xs
        empty_way nil = nil
        empty_way (cons {x} h all) =
            cons (ap of_key (inside_delete x h) ∙ gone (m.buckets x)) (empty_way all)

    get-delete_other : (q : K) → q ≢ k → get (delete m k) q ≡ get m q
    get-delete_other q ne =
        get-first_with (delete m k) q
        ∙ (ap
              (λ w.
                value_at (delete m k)
                  (first_with (λ i. is_occupied_by ((delete m k).buckets i) q) w))
              (same_way q)
            ∙ (ap (value_at (delete m k)) (
                  first_with_cong (λ i. is_occupied_by ((delete m k).buckets i) q)
                    (λ i. is_occupied_by (m.buckets i) q) (way m q) same_test)
                ∙ (same_value (first_with (λ i. is_occupied_by (m.buckets i) q) (way m q)) refl
                    ∙ sym (get-first_with m q))))
      where
        same_test :
            (j : ℕ) → is_occupied_by ((delete m k).buckets j) q ≡ is_occupied_by (m.buckets j) q
        same_test j = elim (delete_cases j) [
          | inl e ↦ ap (λ b. is_occupied_by b q) e
          | inr e ↦ ap (λ b. is_occupied_by b q) e ∙ stays (m.buckets j) q ne
        ]

        same_value :
            (o : Option ℕ)
            → first_with (λ i. is_occupied_by (m.buckets i) q) (way m q) ≡ o
            → value_at (delete m k) o ≡ value_at m o
        same_value none e = refl
        same_value (some j) e = elim (delete_cases j) [
          | inl same ↦ ap (λ b. b.value) same
          | inr same ↦
              ap (λ b. b.value)
                (same
                  ∙ stays_whole (m.buckets j) q ne
                      (first_with_passes (λ i. is_occupied_by (m.buckets i) q) (way m q) j e))
        ]

    -- After `Delete`, on a map whose levels fill its array, `Get` finds nothing for the key, and for every
    -- other key what it found before.
    pub delete_lem :
        Valid m → (get (delete m k) k ≡ none) × ((q : K) → q ≢ k → get (delete m k) q ≡ get m q)
    delete_lem v = (get-delete_own v, get-delete_other)
