-- ===== src/AtomicHashmap/Keyed.antt =====
-- What AtomicHashmap.h takes of its template arguments, an equality of keys and `Hasher`, and the tests
-- on the key of a bucket.
use godby.Prelude.{
  ℕ, ◌≡◌, ◌≢◌, Bool, true, false, ◌↔◌, Option, none, some, inl, inr, sym, ◌∙◌, Bool-cases, refl,
}

pub record Key (K : Type 0) : Type 0 where
  pub beq : K → K → Bool
  pub beq_iff : (a b : K) → (beq a b ≡ true) ↔ (a ≡ b)
  pub hash : K → ℕ

abbrev pub equal : {K : Type 0} ⦃key : Key K⦄ → K → K → Bool
equal ⦃key⦄ = key.beq

module _ {K : Type 0} ⦃key : Key K⦄ where
  -- `accessor.has() && accessor.value() == rhs` and `!accessor.has() || accessor.value() == rhs`
  abbrev pub key_is : Option K → K → Bool
  key_is none k = false
  key_is (some a) k = equal a k

  abbrev pub free_for : Option K → K → Bool
  free_for none k = true
  free_for (some a) k = equal a k

  pub key_is_self : (k : K) → key_is (some k) k ≡ true
  key_is_self k = (key.beq_iff k k).1 refl

  pub key_is_other : (a k : K) → a ≢ k → key_is (some a) k ≡ false
  key_is_other a k ne = elim (Bool-cases (equal a k)) [
    | inl same ↦ absurd (ne ((key.beq_iff a k).0 same))
    | inr other ↦ other
  ]

  -- A bucket that is free for a key holds no other.
  pub free-other : (o : Option K) (k q : K) → q ≢ k → free_for o k ≡ true → key_is o q ≡ false
  free-other none k q ne h = refl
  free-other (some a) k q ne h = key_is_other a q (λ same. ne (sym same ∙ (key.beq_iff a k).0 h))

  pub free_of_is : (o : Option K) (k : K) → key_is o k ≡ true → free_for o k ≡ true
  free_of_is none k h = refl
  free_of_is (some a) k h = h

  -- A bucket that is not free for a key holds another.
  pub taken_cases : (o : Option K) (k : K) → free_for o k ≡ false → (a : K) × (o ≡ some a) × (a ≢ k)
  taken_cases none k h = absurd cc
  taken_cases (some a) k h = (a, refl, λ same. false_true ((key.beq_iff a k).1 same) h)
    where
      false_true : {b : Bool} → b ≡ true → b ≡ false → ⊥
      false_true p q = cc

  pub is_only : (o : Option K) (k q : K) → key_is o k ≡ true → q ≢ k → key_is o q ≡ false
  is_only o k q h ne = free-other o k q ne (free_of_is o k h)
