-- ===== src/SharedStorage/Coherent.antt =====
-- What the threads have in their caches is what is stored.
use godby.Prelude.{
  ℕ, ◌<◌, ◌≡◌, ◌≢◌, refl, sym, ◌∙◌, ap, subst, true, false, Option, none, some, inl, inr, ◌⊎◌,
  Bool-cases, update, update_cases,
}
use godby.SharedStorage.Text.{String, same, same_self, equal_of_same}
use godby.SharedStorage.{Entry, Storage, put, cache_set}

pub put-same : {A : Type 0} (f : String → A) (key : String) (a : A) → put f key a key ≡ a
unfolding put
put-same f key a = rw (same_self key) refl

pub put_other :
    {A : Type 0} (f : String → A) (key : String) (a : A) (k : String)
    → key ≢ k
    → put f key a k ≡ f k
unfolding put
put_other f key a k ne = elim (Bool-cases (same key k)) [
  | inl e ↦ absurd (ne (equal_of_same key k e))
  | inr e ↦ rw e refl
]

pub put_cases :
    {A : Type 0} (f : String → A) (key : String) (a : A) (k : String)
    → ((key ≡ k) × (put f key a k ≡ a)) ⊎ ((key ≢ k) × (put f key a k ≡ f k))
put_cases f key a k = elim (Bool-cases (same key k)) [
  | inl e ↦
      let eq = equal_of_same key k e in
      inl (eq, ap (λ i. put f key a i) (sym eq) ∙ put-same f key a)
  | inr e ↦ inr (differ e, put_other f key a k (differ e))
]
  where
    differ : same key k ≡ false → key ≢ k
    differ e eq = false_true (sym (subst (λ i. same key i ≡ true) eq (same_self key)) ∙ e)
      where
        false_true : true ≡ false → ⊥
        false_true e = cc

-- Setting a cache at one place leaves all others.
pub cache_cases :
    (t T : ℕ) (key : String) (p : ℕ) (s : Storage) (u U : ℕ) (k : String) (q : ℕ)
    → (cache_set t T key p s).cached u U k ≡ some q
    → ((t ≡ u) × (T ≡ U) × (key ≡ k) × (p ≡ q)) ⊎ (s.cached u U k ≡ some q)
cache_cases t T key p s u U k q h = elim (update_cases s.cached t filled u) [
  | inr e ↦ inr (sym (ap (λ c. c U k) e) ∙ h)
  | inl (same_t, e) ↦ elim (update_cases (s.cached t) T (put (s.cached t T) key (some p)) U) [
    | inr e' ↦ inr (
        subst (λ v. s.cached v U k ≡ some q) same_t
          (sym (ap (λ c. c k) e') ∙ sym (ap (λ c. c U k) e) ∙ h))
    | inl (same_T, e') ↦ elim (put_cases (s.cached t T) key (some p) k) [
      | inl (same_k, e″) ↦ inl (
        same_t,
        same_T,
        same_k,
        of_some (sym e″ ∙ sym (ap (λ c. c k) e') ∙ sym (ap (λ c. c U k) e) ∙ h),
      )
      | inr (_, e″) ↦ inr (
          subst (λ v. s.cached v U k ≡ some q) same_t
            (subst (λ V. s.cached t V k ≡ some q) same_T
              (sym e″ ∙ sym (ap (λ c. c k) e') ∙ sym (ap (λ c. c U k) e) ∙ h)))
    ]
  ]
]
  where
    filled : ℕ → String → Option ℕ
    filled = update (s.cached t) T (put (s.cached t T) key (some p))

    of_some : {a b : ℕ} → some a ≡ some b → a ≡ b
    of_some e = cc

-- The entry of a key holds an object, for a type, and is not to be deleted.
pub record Holds (entry : Option Entry) (type_name : String) (p : ℕ) : Type 0 where
  pub e : Entry
  pub at : entry ≡ some e
  pub value : e.value ≡ some p
  pub type : e.type_name ≡ type_name
  pub fixed : e.deletable ≡ false

-- What every thread has cached is stored under that key, for that type, and not to be deleted; the objects
-- are all older than the next one, and no two keys have the same.
pub record Coherent (name : ℕ → String) (storage : String → Option Entry)
    (cached : ℕ → ℕ → String → Option ℕ) (n : ℕ) : Type 0 where
  pub backed :
      (t T : ℕ) (key : String) (p : ℕ) → cached t T key ≡ some p → Holds (storage key) (name T) p
  pub older : (key : String) (e : Entry) (p : ℕ) → storage key ≡ some e → e.value ≡ some p → p < n
  pub apart :
      (key : String) (e : Entry) (key' : String) (e' : Entry) (p : ℕ)
      → storage key ≡ some e
      → e.value ≡ some p
      → storage key' ≡ some e'
      → e'.value ≡ some p
      → key ≡ key'

abbrev pub Valid : (ℕ → String) → Storage → Type 0
Valid name s = Coherent name s.storage s.cached s.next_object

-- No thread has the key in its cache.
abbrev pub Uncached : Storage → String → Type 0
Uncached s key = (t T : ℕ) → s.cached t T key ≡ none
