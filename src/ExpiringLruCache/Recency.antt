-- ===== src/ExpiringLruCache/Recency.antt =====
-- The list of nodes: removing one, and taking off the last.
use godby.Prelude.{
  ℕ, ◌+◌, ◌≡◌, refl, sym, ◌∙◌, ap, subst, Bool, true, false, ◌&&◌, not, ◌≢◌, and_both, none, some,
  List, [], ◌∷◌, arith, inl, inr, ◌==◌, ==_iff, Bool-cases, length,
}
use godby.Prelude.Chain.{mem, remove, Unique, mem-remove}
use godby.ExpiringLruCache.{back, pop_back}

pub length-remove : (n : ℕ) (l : List ℕ) → mem n l ≡ true → length (remove n l) + 1 ≡ length l
length-remove n [] h = absurd cc
length-remove n (a ∷ l) h = elim (Bool-cases (a == n)) [
  | inl e ↦ rw e (omega arith)
  | inr e ↦ rw e (omega (arith, length-remove n l (rw e at h)))
]

pub mem-back : (l : List ℕ) (n : ℕ) → back l ≡ some n → mem n l ≡ true
unfolding back
mem-back [] n h = absurd cc
mem-back (a ∷ []) n h = ground (arith, of_some h)
  where
    of_some : some a ≡ some n → a ≡ n
    of_some e = cc
mem-back (a ∷ (b ∷ l)) n h = ground (arith, mem-back (b ∷ l) n h)

-- The last node of a list without repetitions is removed.
pub pop_back-remove : (l : List ℕ) (n : ℕ) → Unique l → back l ≡ some n → pop_back l ≡ remove n l
unfolding back pop_back
pop_back-remove [] n u h = absurd cc
pop_back-remove (a ∷ []) n u h = rw ((==_iff a n).1 (of_some h)) refl
  where
    of_some : some a ≡ some n → a ≡ n
    of_some e = cc
pop_back-remove (a ∷ (b ∷ l)) n u h = rw differs (ap (λ r. a ∷ r) (pop_back-remove (b ∷ l) n u.1 h))
  where
    differs : (a == n) ≡ false
    differs = elim (Bool-cases (a == n)) [
      | inl e ↦ absurd (
          contrary (subst (λ x. mem x (b ∷ l) ≡ false) ((==_iff a n).0 e) u.0)
            (mem-back (b ∷ l) n h))
      | inr e ↦ e
    ]
      where
        contrary : mem n (b ∷ l) ≡ false → mem n (b ∷ l) ≡ true → ⊥
        contrary x y = cc

pub back-none : (l : List ℕ) → back l ≡ none → length l ≡ 0
unfolding back
back-none [] h = refl
back-none (a ∷ []) h = absurd cc
back-none (a ∷ (b ∷ l)) h = absurd (never (back-none (b ∷ l) h))
  where
    never : length (b ∷ l) ≡ 0 → ⊥
    never e = omega (arith, e)

-- A node that goes to the front was in the list.
pub mem-front :
    (n : ℕ) (l : List ℕ) → mem n l ≡ true → Unique l → (i : ℕ) → mem i (n ∷ remove n l) ≡ mem i l
mem-front n l h u i = elim (Bool-cases (n == i)) [
  | inl e ↦ rw e (sym (subst (λ x. mem x l ≡ true) ((==_iff n i).0 e) h))
  | inr e ↦ rw e (mem-remove i n l u ∙ apart (mem i l) e)
]
  where
    apart : (b : Bool) → (n == i) ≡ false → (b && not (i == n)) ≡ b
    apart true e = ground arith
    apart false e = refl

pub mem-remove_self : (n : ℕ) (l : List ℕ) → Unique l → mem n (remove n l) ≡ false
mem-remove_self n l u = mem-remove n n l u ∙ ground arith

-- What is left in the list is another node that was in it.
pub mem-removed :
    (i n : ℕ) (l : List ℕ) → Unique l → mem i (remove n l) ≡ true → (mem i l ≡ true) × (n ≢ i)
mem-removed i n l u h = elim (Bool-cases (n == i)) [
  | inl e ↦ absurd (
      contrary (subst (λ x. mem x (remove n l) ≡ false) ((==_iff n i).0 e) (mem-remove_self n l u))
        h)
  | inr e ↦
      ((and_both _ _ (sym (mem-remove i n l u) ∙ h)).0, λ same. differ e ((==_iff n i).1 same))
]
  where
    contrary : mem i (remove n l) ≡ false → mem i (remove n l) ≡ true → ⊥
    contrary x y = cc

    differ : (n == i) ≡ false → (n == i) ≡ true → ⊥
    differ x y = cc

pub mem-remove_other :
    (i n : ℕ) (l : List ℕ) → Unique l → mem i l ≡ true → n ≢ i → mem i (remove n l) ≡ true
mem-remove_other i n l u h ne = mem-remove i n l u ∙ rw h kept
  where
    kept : (true && not (i == n)) ≡ true
    kept = elim (Bool-cases (i == n)) [
      | inl e ↦ absurd (ne (sym ((==_iff i n).0 e)))
      | inr e ↦ rw e refl
    ]
