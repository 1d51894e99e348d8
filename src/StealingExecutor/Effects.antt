-- ===== src/StealingExecutor/Effects.antt =====
-- What a step of a consumer thread changes, and that the invariant outlives it.
use godby.Prelude.{
  ℕ, ◌<◌, ◌≡◌, refl, sym, ◌∙◌, ap, subst, Bool, true, false, arith, update, if◌then◌else◌,
}
use godby.StealingExecutor.Consumer.{Item, Worker, after_item}
use godby.StealingExecutor.Totals.{sum, awaits, carried, pending, waits}
use godby.StealingExecutor.State.{Executor, set_worker}
use godby.StealingExecutor.Valid.{Effect, Valid, moved-Valid}

module _ {A : Type 0} where
  -- Two places that count the same.
  abbrev pub Same : Worker A → Worker A → Type 0
  Same p p' =
      (waits p ≡ waits p')
      × ((w : Item A → ℕ) → carried w p ≡ carried w p')
      × (pending p ≡ pending p')

  pub Same-Effect :
      (p p' : Worker A) (s s' : Executor A)
      → s'.waiting_size ≡ s.waiting_size
      → s'.queue ≡ s.queue
      → s'.consumed ≡ s.consumed
      → s'.cleaned ≡ s.cleaned
      → s'.count ≡ s.count
      → Same p p'
      → Effect p p' s s'
  Same-Effect p p' s s' ew eq ec el en same = record {
    waiting = λ h h'. omega (arith, ew, same.0);
    kept = λ w. omega (arith, ap (sum w) eq, ap (sum w) ec, ap (sum w) el, same.1 w);
    awaited = λ h. omega (arith, ap (sum awaits) eq, en, same.2);
    queue = λ h. eq ∙ h;
    held = λ h. omega (arith, same.1 (λ x. 1));
    count = λ h. en ∙ h;
  }

  -- After an item the thread has yet to count it as done, if it comes with a waiter.
  pub after_item_lem :
      (nth : ℕ) (checks awaited : Bool)
      → (waits (after_item {A = A} nth checks awaited) ≡ 0)
        × ((w : Item A → ℕ) → carried w (after_item nth checks awaited) ≡ 0)
        × (pending (after_item {A = A} nth checks awaited) ≡ (if awaited then 1 else 0))
  after_item_lem nth checks true = (refl, λ w. refl, refl)
  after_item_lem nth true false = (refl, λ w. refl, refl)
  after_item_lem nth false false = (refl, λ w. refl, refl)

  module _ (t : ℕ) (s : Executor A) (low : t < s.threads) (v : Valid s) where
    pub goes :
        (p p' : Worker A) (s' : Executor A)
        → s.worker t ≡ p
        → s'.worker ≡ update s.worker t p'
        → s'.threads ≡ s.threads
        → s'.owner ≡ s.owner
        → s'.submitted ≡ s.submitted
        → s'.purged ≡ s.purged
        → Effect p p' s s'
        → Valid s'
    goes p p' s' e ew et eo es ep f =
        moved-Valid s s' t p' low ew et eo es ep (subst (λ p. Effect p p' s s') (sym e) f) v

    pub set_worker-Valid :
        (p p' : Worker A) → s.worker t ≡ p → Same p p' → Valid (set_worker t p' s)
    set_worker-Valid p p' e same =
        goes p p' (set_worker t p' s) e refl refl refl refl refl
          (Same-Effect p p' s (set_worker t p' s) refl refl refl refl refl same)

    pub branches-Valid :
        (b : Bool) (p x y : Worker A)
        → s.worker t ≡ p
        → Same p x
        → Same p y
        → Valid (set_worker t (if b then x else y) s)
    branches-Valid true p x y e h h' = set_worker-Valid p x e h
    branches-Valid false p x y e h h' = set_worker-Valid p y e h'
