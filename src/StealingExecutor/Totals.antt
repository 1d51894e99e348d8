-- ===== src/StealingExecutor/Totals.antt =====
-- Sums over the consumer threads and over lists of items.
use native.Mathlib.Nat.{le_refl}
use godby.Prelude.{
  ℕ, zero, suc, ◌+◌, ◌≤◌, ◌<◌, ◌≡◌, refl, sym, ◌∙◌, ap, subst, List, [], ◌∷◌, ◌++◌, arith, inl, inr,
  update, update-same, update_other, if◌then◌else◌, ◌⊎◌,
}
use godby.StealingExecutor.Consumer.{
  Item, Worker, testing, waking, stolen, deciding, consuming, cleaning, signalling, gone,
}

last : (t n : ℕ) → t < suc n → (t ≡ n) ⊎ (t < n)
last t n h = omega arith

module _ {ℓ} {A : Type ℓ} where
  abbrev pub total : (A → ℕ) → (ℕ → A) → ℕ → ℕ
  total f g zero = 0
  total f g (suc n) = f (g n) + total f g n

  total-beyond :
      (f : A → ℕ) (g : ℕ → A) (t n : ℕ) (a : A) → n ≤ t → total f (update g t a) n ≡ total f g n
  total-beyond f g t zero a h = refl
  total-beyond f g t (suc n) a h =
      omega (
        arith,
        ap f (update_other g t a n (λ e. omega arith)),
        total-beyond f g t n a (omega arith),
      )

  pub total-update :
      (f : A → ℕ) (g : ℕ → A) (t n : ℕ) (a : A)
      → t < n
      → total f (update g t a) n + f (g t) ≡ total f g n + f a
  total-update f g t zero a h = absurd (omega arith)
  total-update f g t (suc n) a h = elim (last t n h) [
    | inl e ↦ omega (
      arith,
      ap f (ap (update g t a) (sym e) ∙ update-same g t a),
      ap f (ap g e),
      total-beyond f g t n a (omega (arith, e)),
    )
    | inr low ↦ omega (
      arith,
      ap f (update_other g t a n (λ e. omega (arith, e, low))),
      total-update f g t n a low,
    )
  ]

  pub total-new :
      (f : A → ℕ) (g : ℕ → A) (n : ℕ) (a : A) → total f (update g n a) (n + 1) ≡ total f g n + f a
  total-new f g n a =
      subst (λ m. total f (update g n a) m ≡ total f g n + f a) {x = suc n} (omega arith)
        (omega (arith, ap f (update-same g n a), total-beyond f g n n a (le_refl n)))

  pub le_total : (f : A → ℕ) (g : ℕ → A) (t n : ℕ) → t < n → f (g t) ≤ total f g n
  le_total f g t zero h = absurd (omega arith)
  le_total f g t (suc n) h = elim (last t n h) [
    | inl e ↦ omega (arith, ap f (ap g e))
    | inr low ↦ omega (arith, le_total f g t n low)
  ]

  pub total-le : (f : A → ℕ) (g : ℕ → A) (n : ℕ) → ((a : A) → f a ≤ 1) → total f g n ≤ n
  total-le f g zero one = omega arith
  total-le f g (suc n) one = omega (arith, one (g n), total-le f g n one)

  -- Where all threads count one, another count that they then do not have is none.
  pub total_all :
      (f h : A → ℕ) (g : ℕ → A) (n : ℕ)
      → ((a : A) → f a + h a ≤ 1)
      → total f g n ≡ n
      → total h g n ≡ 0
  total_all f h g zero one all = refl
  total_all f h g (suc n) one all =
      omega (arith, one (g n), total-le f g n (λ a. omega (arith, one a)), total_all f h g n one)

  pub total_none :
      (f h : A → ℕ) (g : ℕ → A) (n : ℕ)
      → ((a : A) → f a ≡ 0 → h a ≡ 0)
      → total f g n ≡ 0
      → total h g n ≡ 0
  total_none f h g zero none all = refl
  total_none f h g (suc n) none all =
      omega (arith, none (g n) (omega arith), total_none f h g n none (omega arith))

module _ {A : Type 0} where
  abbrev pub sum : (Item A → ℕ) → List (Item A) → ℕ
  sum w [] = 0
  sum w (x ∷ l) = w x + sum w l

  pub sum-append : (w : Item A → ℕ) (l m : List (Item A)) → sum w (l ++ m) ≡ sum w l + sum w m
  sum-append w [] m = omega arith
  sum-append w (x ∷ l) m = omega (arith, sum-append w l m)

  pub sum_none :
      (v w : Item A → ℕ) (l : List (Item A))
      → ((x : Item A) → v x ≡ 0 → w x ≡ 0)
      → sum v l ≡ 0
      → sum w l ≡ 0
  sum_none v w [] none h = refl
  sum_none v w (x ∷ l) none h =
      omega (arith, none x (omega arith), sum_none v w l none (omega arith))

  -- One for an item that comes with a waiter.
  abbrev pub awaits : Item A → ℕ
  awaits x = if x.awaited then 1 else 0

  -- The weight of the item that a thread has taken and not yet consumed.
  abbrev pub carried : (Item A → ℕ) → Worker A → ℕ
  carried w (stolen x) = w x
  carried w (deciding nth x) = w x
  carried w (consuming nth x) = w x
  carried w (cleaning nth x) = w x
  carried w p = 0

  -- One for a thread that has yet to count its item as done.
  abbrev pub pending : Worker A → ℕ
  pending (stolen x) = awaits x
  pending (deciding nth x) = awaits x
  pending (consuming nth x) = awaits x
  pending (cleaning nth x) = awaits x
  pending (signalling nth checks) = 1
  pending p = 0

  abbrev pub holds : Worker A → ℕ
  holds = carried (λ x. 1)

  -- One for a thread that `M_waiting_size` counts.
  abbrev pub waits : Worker A → ℕ
  waits testing = 1
  waits waking = 1
  waits p = 0

  pub total-gone :
      (f : Worker A → ℕ) (g : ℕ → Worker A) (n : ℕ)
      → f gone ≡ 0
      → ((t : ℕ) → t < n → g t ≡ gone)
      → total f g n ≡ 0
  total-gone f g zero none all = refl
  total-gone f g (suc n) none all =
      omega (
        arith,
        ap f (all n (omega arith)),
        none,
        total-gone f g n none (λ t h. all t (omega arith)),
      )
