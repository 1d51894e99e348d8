-- ===== src/HazardPointers/Lists.antt =====
-- What becomes of a list of retired objects, when those that are protected are kept and the others destroyed.
use godby.Prelude.{
  ℕ, zero, suc, ◌≡◌, refl, subst, Bool, true, false, ◌||◌, inl, inr, ==_iff, Bool-cases, List, [],
  ◌∷◌, ◌++◌, arith, if◌then◌else◌, ◌==◌,
}
use godby.Prelude.Chain.{mem, Unique}

abbrev pub kept : (ℕ → Bool) → List ℕ → List ℕ
kept f [] = []
kept f (x ∷ l) = if f x then x ∷ kept f l else kept f l

abbrev pub dropped : (ℕ → Bool) → List ℕ → List ℕ
dropped f [] = []
dropped f (x ∷ l) = if f x then dropped f l else x ∷ dropped f l

abbrev pub take : List ℕ → ℕ → List ℕ
take l zero = []
take [] (suc n) = []
take (x ∷ l) (suc n) = x ∷ take l n

abbrev pub drop : List ℕ → ℕ → List ℕ
drop l zero = l
drop [] (suc n) = []
drop (x ∷ l) (suc n) = drop l n

-- The elements of a list, pushed one after the other.
abbrev pub push_all : List ℕ → List ℕ → List ℕ
push_all [] into = into
push_all (x ∷ l) into = push_all l (x ∷ into)

abbrev pub last_of : ℕ → List ℕ → ℕ
last_of x [] = x
last_of x (y ∷ l) = last_of y l

pub mem-kept : (f : ℕ → Bool) (q : ℕ) (l : List ℕ) → mem q l ≡ false → mem q (kept f l) ≡ false
mem-kept f q [] out = refl
mem-kept f q (x ∷ l) out = ground (arith, mem-kept f q l)

pub Unique-kept : (f : ℕ → Bool) (l : List ℕ) → Unique l → Unique (kept f l)
Unique-kept f [] u = tt
Unique-kept f (x ∷ l) u = ground (arith, Unique-kept f l, mem-kept f x l)

pub mem-append : (q : ℕ) (l m : List ℕ) → mem q (l ++ m) ≡ (mem q l || mem q m)
mem-append q [] m = refl
mem-append q (x ∷ l) m = ground (arith, mem-append q l m)

pub mem_of_kept : (f : ℕ → Bool) (q : ℕ) (l : List ℕ) → mem q (kept f l) ≡ true → mem q l ≡ true
mem_of_kept f q [] m = m
mem_of_kept f q (x ∷ l) m = ground (arith, mem_of_kept f q l)

-- What is dropped is in the list, and not protected.
pub mem_of_dropped :
    (f : ℕ → Bool) (q : ℕ) (l : List ℕ)
    → mem q (dropped f l) ≡ true
    → (mem q l ≡ true) × (f q ≡ false)
mem_of_dropped f q [] m = absurd (cc)
mem_of_dropped f q (x ∷ l) m = elim (Bool-cases (f x)) [
  | inl e ↦
      let (m', n) =
        mem_of_dropped f q l
          (subst (λ b. mem q (if b then dropped f l else x ∷ dropped f l) ≡ true) e m) in
      (ground arith, n)
  | inr e ↦
      found (subst (λ b. mem q (if b then dropped f l else x ∷ dropped f l) ≡ true) e m) e
        (mem_of_dropped f q l)
]
  where
    found :
        ((x == q) || mem q (dropped f l)) ≡ true
        → f x ≡ false
        → (mem q (dropped f l) ≡ true → (mem q l ≡ true) × (f q ≡ false))
        → (((x == q) || mem q l) ≡ true) × (f q ≡ false)
    found m e rec = elim (Bool-cases (x == q)) [
      | inl same ↦ (ground arith, subst (λ q. f q ≡ false) ((==_iff x q).0 same) e)
      | inr other ↦ let (m', n) = rec (ground arith) in (ground arith, n)
    ]

pub mem_of_take : (q n : ℕ) (l : List ℕ) → mem q (take l n) ≡ true → mem q l ≡ true
mem_of_take q zero l m = absurd (cc)
mem_of_take q (suc n) [] m = m
mem_of_take q (suc n) (x ∷ l) m = ground (arith, mem_of_take q n l)

pub mem_of_drop : (q n : ℕ) (l : List ℕ) → mem q (drop l n) ≡ true → mem q l ≡ true
mem_of_drop q zero l m = m
mem_of_drop q (suc n) [] m = m
mem_of_drop q (suc n) (x ∷ l) m = ground (arith, mem_of_drop q n l)

pub mem-push_all : (q : ℕ) (l m : List ℕ) → mem q (push_all l m) ≡ (mem q l || mem q m)
mem-push_all q [] m = refl
mem-push_all q (x ∷ l) m = ground (arith, mem-push_all q l (x ∷ m))
