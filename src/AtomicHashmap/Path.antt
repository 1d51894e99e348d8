-- ===== src/AtomicHashmap/Path.antt =====
-- The first element of a list that passes a test, which is what `Lookup` and `Occupy` look for.
use godby.Prelude.{
  ℕ, ◌+◌, ◌%◌, ◌≡◌, ◌≢◌, refl, sym, ◌∙◌, ap, ap₂, subst, ℕ_discrete, Bool, true, false, Option,
  none, some, List, [], ◌∷◌, ◌⊎◌, inl, inr, Bool-cases, if◌then◌else◌,
}
use godby.AtomicHashmap.{Bucket, lookup_from, occupy_from, is_occupied_by, is_available}
use godby.AtomicHashmap.Keyed.{Key}

unfoldable pub first_with : (ℕ → Bool) → List ℕ → Option ℕ
first_with t [] = none
first_with t (x ∷ xs) = if t x then some x else first_with t xs

pub data All (P : ℕ → Type 0) : List ℕ → Type 0 where
  nil : All P []
  cons : {x : ℕ} {xs : List ℕ} → P x → All P xs → All P (x ∷ xs)

module _ (t : ℕ → Bool) where
  some_inj : {a b : ℕ} → some a ≡ some b → a ≡ b
  some_inj e = cc

  -- What is found passes the test, and has what all elements have.
  pub first_with-found :
      {P : ℕ → Type 0} {xs : List ℕ} (j : ℕ)
      → All P xs
      → first_with t xs ≡ some j
      → (t j ≡ true) × P j
  unfolding first_with
  first_with-found j nil e = absurd cc
  first_with-found {P} j (cons {x} {xs} p all) e = elim (Bool-cases (t x)) [
    | inl yes_it ↦
        here yes_it (some_inj (sym (ap (λ b. if b then some x else first_with t xs) yes_it) ∙ e))
    | inr no_it ↦
        first_with-found j all (sym (ap (λ b. if b then some x else first_with t xs) no_it) ∙ e)
  ]
    where
      here : t x ≡ true → x ≡ j → (t j ≡ true) × P j
      here yes_it same = (sym (ap t same) ∙ yes_it, subst P same p)

  All-any : (xs : List ℕ) → All (λ x. Unit) xs
  All-any [] = nil
  All-any (x ∷ xs) = cons tt (All-any xs)

  pub first_with_passes : (xs : List ℕ) (j : ℕ) → first_with t xs ≡ some j → t j ≡ true
  first_with_passes xs j e = (first_with-found j (All-any xs) e).0

  pub first_with-none : {xs : List ℕ} → All (λ x. t x ≡ false) xs → first_with t xs ≡ none
  unfolding first_with
  first_with-none nil = refl
  first_with-none (cons p all) = rw p (first_with-none all)

  pub none-All : (xs : List ℕ) → first_with t xs ≡ none → All (λ x. t x ≡ false) xs
  unfolding first_with
  none-All [] e = nil
  none-All (x ∷ xs) e = elim (Bool-cases (t x)) [
    | inl yes_it ↦
        absurd (contrary (sym (ap (λ b. if b then some x else first_with t xs) yes_it) ∙ e))
    | inr no_it ↦
        cons no_it (none-All xs (sym (ap (λ b. if b then some x else first_with t xs) no_it) ∙ e))
  ]
    where
      contrary : {a : ℕ} → some a ≡ none → ⊥
      contrary e = cc

  module _ (u : ℕ → Bool) where
    pub first_with_cong : (xs : List ℕ) → ((j : ℕ) → t j ≡ u j) → first_with t xs ≡ first_with u xs
    unfolding first_with
    first_with_cong [] h = refl
    first_with_cong (x ∷ xs) h = ap₂ (λ b r. if b then some x else r) (h x) (first_with_cong xs h)

    -- The first element that passes one test is the first that passes a stricter one, which it passes.
    pub first_with_stricter :
        (xs : List ℕ) (i : ℕ)
        → first_with t xs ≡ some i
        → u i ≡ true
        → ((j : ℕ) → j ≢ i → u j ≡ true → t j ≡ true)
        → first_with u xs ≡ some i
    unfolding first_with
    first_with_stricter [] i e pass stricter = absurd cc
    first_with_stricter (x ∷ xs) i e pass stricter = elim (Bool-cases (t x)) [
      | inl yes_it ↦
          here (some_inj (sym (ap (λ b. if b then some x else first_with t xs) yes_it) ∙ e))
      | inr no_it ↦ later no_it (Bool-cases (u x)) (
          first_with_stricter xs i (sym (ap (λ b. if b then some x else first_with t xs) no_it) ∙ e)
            pass stricter)
    ]
      where
        here : x ≡ i → (if u x then some x else first_with u xs) ≡ some i
        here same =
            ap (λ b. if b then some x else first_with u xs) (ap u same ∙ pass) ∙ ap some same

        later :
            t x ≡ false
            → (u x ≡ true) ⊎ (u x ≡ false)
            → first_with u xs ≡ some i
            → (if u x then some x else first_with u xs) ≡ some i
        later no_it (inr n) rest = ap (λ b. if b then some x else first_with u xs) n ∙ rest
        later no_it (inl y) rest = elim (ℕ_discrete x i) [
          | yes same ↦ here same
          | no ne ↦ absurd (apart (stricter x ne y))
        ]
          where
            apart : t x ≡ true → ⊥
            apart e = cc

-- The buckets of a hash, one of each level, where the levels begin at `base`.
unfoldable pub path : ℕ → ℕ → List ℕ → List ℕ
path hash base [] = []
path hash base (c ∷ cs) = (base + hash % c) ∷ path hash (base + c) cs

module _ {K V : Type 0} ⦃key : Key K⦄ (hash : ℕ) (k : K) (buckets : ℕ → Bucket K V) where
  pub lookup_from-first_with :
      (base : ℕ) (levels : List ℕ)
      → lookup_from hash k base levels buckets
        ≡ first_with (λ i. is_occupied_by (buckets i) k) (path hash base levels)
  unfolding lookup_from first_with path
  lookup_from-first_with base [] = refl
  lookup_from-first_with base (c ∷ cs) =
      ap (λ r. if is_occupied_by (buckets (base + hash % c)) k then some (base + hash % c) else r)
        (lookup_from-first_with (base + c) cs)

  pub occupy_from-first_with :
      (base : ℕ) (levels : List ℕ)
      → occupy_from hash k base levels buckets
        ≡ first_with (λ i. is_available (buckets i) k) (path hash base levels)
  unfolding occupy_from first_with path
  occupy_from-first_with base [] = refl
  occupy_from-first_with base (c ∷ cs) =
      ap (λ r. if is_available (buckets (base + hash % c)) k then some (base + hash % c) else r)
        (occupy_from-first_with (base + c) cs)
