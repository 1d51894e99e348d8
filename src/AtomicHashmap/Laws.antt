-- ===== src/AtomicHashmap/Laws.antt =====
-- What `Get` gives after `Set`.
use godby.Prelude.{
  ℕ, ◌≡◌, ◌≢◌, refl, sym, ◌∙◌, ap, fun_ext, update-same, update_other, Bool, true, false, Option,
  none, some, List, arith, ◌⊎◌, inl, inr, Option-cases, update, ℕ_discrete,
}
use godby.AtomicHashmap.{
  Bucket, Map, ok, enoent, is_occupied_by, is_available, lookup, occupy_from, occupy_at, occupy,
  set_bucket, set_value, value_at, get, set,
}
use godby.AtomicHashmap.Keyed.{Key, key_is_self, key_is_other, free-other, free_of_is, taken_cases}
use godby.AtomicHashmap.Path.{
  All, nil, cons, first_with_passes, first_with, none-All, first_with_cong, first_with_stricter,
  path, lookup_from-first_with, occupy_from-first_with,
}

module _ {K V : Type 0} ⦃key : Key K⦄ where
  abbrev pub way : Map K V → K → List ℕ
  way m k = path (key.hash k) 0 m.level_capacity

  pub get-first_with :
      (m : Map K V) (k : K)
      → get m k ≡ value_at m (first_with (λ i. is_occupied_by (m.buckets i) k) (way m k))
  unfolding get lookup
  get-first_with m k =
      ap (value_at m) (lookup_from-first_with (key.hash k) k m.buckets 0 m.level_capacity)

  -- A map with one bucket set.
  abbrev pub with_entry : Map K V → ℕ → K → V → Map K V
  with_entry m i k v = set_bucket m i (record { key = some k; value = some v })

  set-with_entry :
      (m : Map K V) (k : K) (v : V) (i : ℕ)
      → occupy_from (key.hash k) k 0 m.level_capacity m.buckets ≡ some i
      → set m k v ≡ (ok, with_entry m i k v)
  unfolding set occupy
  set-with_entry m k v i h =
      ap (λ o. set_value m v (occupy_at m k o)) h
      ∙ ap (λ b. (ok, record m { buckets = b })) (fun_ext λ j. twice j)
    where
      twice :
          (j : ℕ)
          → update
              (update m.buckets i (record (m.buckets i) { key = some k }))
              i
              (record (update m.buckets i (record (m.buckets i) { key = some k }) i) {
                value = some v;
              })
              j
            ≡ update m.buckets i (record { key = some k; value = some v }) j
      twice j = ground arith

  set-full :
      (m : Map K V) (k : K) (v : V)
      → occupy_from (key.hash k) k 0 m.level_capacity m.buckets ≡ none
      → set m k v ≡ (enoent, m)
  unfolding set occupy
  set-full m k v h = ap (λ o. set_value m v (occupy_at m k o)) h

  module _ (m : Map K V) (k : K) (v : V) (i : ℕ)
      (h : first_with (λ j. is_available (m.buckets j) k) (way m k) ≡ some i) where
    free : is_available (m.buckets i) k ≡ true
    free = first_with_passes (λ j. is_available (m.buckets j) k) (way m k) i h

    entry : Bucket K V
    entry = record { key = some k; value = some v }

    at_entry : (with_entry m i k v).buckets i ≡ entry
    unfolding entry
    at_entry = update-same m.buckets i entry

    off_entry : (j : ℕ) → j ≢ i → (with_entry m i k v).buckets j ≡ m.buckets j
    unfolding entry
    off_entry = update_other m.buckets i entry

    get-with_entry : get (with_entry m i k v) k ≡ some v
    unfolding entry
    get-with_entry =
        get-first_with (with_entry m i k v) k
        ∙ (ap (value_at (with_entry m i k v)) (
              first_with_stricter (λ j. is_available (m.buckets j) k)
                (λ j. is_occupied_by ((with_entry m i k v).buckets j) k) (way m k) i h
                (ap (λ b. is_occupied_by b k) at_entry ∙ key_is_self k)
                (λ j ne e.
                  free_of_is (m.buckets j).key k
                    (sym (ap (λ b. is_occupied_by b k) (off_entry j ne)) ∙ e)))
            ∙ ap (λ b. b.value) at_entry)

    -- Another key is found where it was.
    same_test :
        (q : K)
        → q ≢ k
        → (j : ℕ)
        → is_occupied_by ((with_entry m i k v).buckets j) q ≡ is_occupied_by (m.buckets j) q
    unfolding entry
    same_test q ne j = elim (ℕ_discrete j i) [
      | yes same ↦
          ap (λ x. is_occupied_by ((with_entry m i k v).buckets x) q) same
          ∙ (ap (λ b. is_occupied_by b q) at_entry
              ∙ (key_is_other k q (λ e. ne (sym e))
                  ∙ (sym (free-other (m.buckets i).key k q ne free)
                      ∙ ap (λ x. is_occupied_by (m.buckets x) q) (sym same))))
      | no other ↦ ap (λ b. is_occupied_by b q) (off_entry j other)
    ]

    same_value :
        (q : K)
        → q ≢ k
        → (o : Option ℕ) → first_with (λ j. is_occupied_by (m.buckets j) q) (way m q) ≡ o
        → value_at (with_entry m i k v) o ≡ value_at m o
    same_value q ne none e = refl
    same_value q ne (some j) e = elim (ℕ_discrete j i) [
      | yes same ↦ absurd (
          apart (
            sym (free-other (m.buckets i).key k q ne free)
            ∙ (ap (λ x. is_occupied_by (m.buckets x) q) (sym same)
                ∙ first_with_passes (λ x. is_occupied_by (m.buckets x) q) (way m q) j e)))
      | no other ↦ ap (λ b. b.value) (off_entry j other)
    ]
      where
        apart : false ≡ true → ⊥
        apart c = cc

    get-with_entry_other : (q : K) → q ≢ k → get (with_entry m i k v) q ≡ get m q
    get-with_entry_other q ne =
        get-first_with (with_entry m i k v) q
        ∙ (ap (value_at (with_entry m i k v)) (
              first_with_cong (λ j. is_occupied_by ((with_entry m i k v).buckets j) q)
                (λ j. is_occupied_by (m.buckets j) q) (way m q) (same_test q ne))
            ∙ (same_value q ne _ refl ∙ sym (get-first_with m q)))

  -- `Set` either stores the value, which `Get` then gives for the key while it gives for every other key
  -- what it gave before, or it fails and changes nothing; it fails exactly when each bucket of the key
  -- holds another key.
  pub set_lem :
      (m : Map K V) (k : K) (v : V)
      → (((set m k v).0 ≡ ok)
          × (get (set m k v).1 k ≡ some v)
          × ((q : K) → q ≢ k → get (set m k v).1 q ≡ get m q))
        ⊎ ((set m k v ≡ (enoent, m))
            × All (λ i. (a : K) × ((m.buckets i).key ≡ some a) × (a ≢ k)) (way m k))
  set_lem m k v = elim (Option-cases (occupy_from (key.hash k) k 0 m.level_capacity m.buckets)) [
    | inl full ↦ inr (set_full full, others (way m k) (none-All test (way m k) (sym found ∙ full)))
    | inr (i, h) ↦
        let e = set-with_entry m k v i h in
        inl (
          ap (λ r. r.0) e,
          ap (λ r. get r.1 k) e ∙ get-with_entry m k v i (sym found ∙ h),
          λ q ne. ap (λ r. get r.1 q) e ∙ get-with_entry_other m k v i (sym found ∙ h) q ne,
        )
  ]
    where
      test : ℕ → Bool
      test j = is_available (m.buckets j) k

      found :
          occupy_from (key.hash k) k 0 m.level_capacity m.buckets
          ≡ first_with (λ j. is_available (m.buckets j) k) (way m k)
      found = occupy_from-first_with (key.hash k) k m.buckets 0 m.level_capacity

      set_full :
          occupy_from (key.hash k) k 0 m.level_capacity m.buckets ≡ none → set m k v ≡ (enoent, m)
      set_full full = set-full m k v full

      others :
          (xs : List ℕ)
          → All (λ x. is_available (m.buckets x) k ≡ false) xs
          → All (λ i. (a : K) × ((m.buckets i).key ≡ some a) × (a ≢ k)) xs
      others xs nil = nil
      others xs (cons p all) = cons (taken_cases (m.buckets _).key k p) (others _ all)
