-- ===== src/StealingQueue/Refine.antt =====
-- A valid queue is the list of its items, oldest first: the owner works at the end, thieves at the
-- front.
use godby.Prelude.{
  ℕ, zero, suc, ◌+◌, ◌-◌, ◌^◌, ◌≤◌, ◌<◌, ◌≡◌, ◌∙◌, ap, ap₂, true, false, Option, none, some, List,
  [], ◌∷◌, ◌++◌, arith, ◌⊎◌, if◌then◌else◌, inl, inr, Bool-cases, ltb, ltb→lt, ltb_false→le, sym,
}
use godby.StealingQueue.{StealingQueue, is_full, grow, push, pop, steal}
use godby.StealingQueue.Slots.{
  Array, IsArray, word, add_size, slot_load, slot_store, window, resize_lem, slot_store-IsArray,
  slot_load-slot_store_self, window-slot_store,
}
use native.Mathlib.Nat.{pow-suc, one-le-pow}

-- Indices that have not wrapped, and at most as many items as slots.
pub record IsValid {A : Type 0} (k : ℕ) (q : StealingQueue A) : Type 0 where
  pub array : IsArray k q.array
  pub ordered : q.top ≤ q.bottom
  pub small : q.bottom < word
  pub fits : q.bottom - q.top ≤ 2 ^ k
  pub level : 2 ^ k < word

module _ {A : Type 0} (d : A) where
  abbrev pub contents : StealingQueue A → List A
  contents q = window d q.array q.top (q.bottom - q.top)

  pub window-snoc :
      (a : Array A) (i n j : ℕ)
      → i + n ≡ j
      → window d a i (suc n) ≡ window d a i n ++ slot_load d a j ∷ []
  window-snoc a i zero j e = ap (λ m. slot_load d a m ∷ []) (omega arith)
  window-snoc a i (suc n) j e =
      ap (λ l. slot_load d a i ∷ l) (window-snoc a (i + 1) n j (omega arith))

  -- Storing just past the window extends it by the item.
  store_at_end :
      (k : ℕ) (a : Array A) (t b : ℕ) (x : A)
      → IsArray k a
      → t ≤ b
      → b < t + 2 ^ k
      → window d (slot_store d a b x) t (suc (b - t)) ≡ window d a t (b - t) ++ x ∷ []
  store_at_end k a t b x v le room =
      window-snoc (slot_store d a b x) t (b - t) b (omega arith)
      ∙ ap₂ (λ l y. l ++ y ∷ []) (window-slot_store d k a b x (b - t) t v (omega arith) room)
          (slot_load-slot_store_self d k a b x v)

  -- `push` once the array has room.
  stored : (q : StealingQueue A) (x : A) → StealingQueue A
  stored q x = record q { array = slot_store d q.array q.bottom x; bottom = add_size q.bottom 1 }

  stored_lem :
      (k : ℕ) (q : StealingQueue A) (x : A)
      → IsValid k q
      → q.bottom + 1 < word
      → q.bottom - q.top < 2 ^ k
      → IsValid k (stored q x) × (contents (stored q x) ≡ contents q ++ x ∷ [])
  unfolding stored
  stored_lem k q x v more room = (
    record {
      array = slot_store-IsArray d k q.array q.bottom x v.array;
      ordered = omega (arith, v.ordered);
      small = omega arith;
      fits = omega (arith, v.ordered);
      level = v.level;
    },
    ap (window d (slot_store d q.array q.bottom x) q.top) {y = suc (q.bottom - q.top)}
          (omega (arith, v.ordered))
        ∙ store_at_end k q.array q.top q.bottom x v.array v.ordered (omega (arith, v.ordered)),
  )

  is_full_lem :
      (k : ℕ) (q : StealingQueue A)
      → IsValid k q
      → is_full d q q.bottom q.top ≡ ltb (2 ^ k - 1) (q.bottom - q.top)
  unfolding is_full
  is_full_lem k q v =
      ap₂ ltb (omega (arith, v.level, v.array.capacity, one-le-pow k 2))
        (omega (arith, v.ordered, v.small))

  grow_lem :
      (k : ℕ) (q : StealingQueue A)
      → IsValid k q
      → 2 ^ suc k < word
      → IsValid (suc k) (grow d q q.bottom q.top)
        × (contents (grow d q q.bottom q.top) ≡ contents q)
  unfolding grow
  grow_lem k q v h =
      let (a, w) = resize_lem d k q.array q.bottom q.top v.array h v.ordered v.small v.fits in
      (
        record {
          array = a;
          ordered = v.ordered;
          small = v.small;
          fits = omega (arith, v.fits, pow-suc 2 k);
          level = h;
        },
        w,
      )

  push_cases :
      (q : StealingQueue A) (x : A)
      → ((is_full d q q.bottom q.top ≡ true) × (push d q x ≡ stored (grow d q q.bottom q.top) x))
        ⊎ ((is_full d q q.bottom q.top ≡ false) × (push d q x ≡ stored q x))
  unfolding push stored
  push_cases q x = elim (Bool-cases (is_full d q q.bottom q.top)) [
    | inl e ↦ inl (e, rw e)
    | inr e ↦ inr (e, rw e)
  ]

  -- Pushing onto a valid queue appends the item and keeps the queue valid, while the indices stay
  -- below 2 ^ 63. The array is doubled exactly when as many items as slots are in it.
  pub push_lem :
      (k : ℕ) (q : StealingQueue A) (x : A)
      → IsValid k q
      → q.bottom < 2 ^ 63 - 1
      → (n : ℕ) × IsValid n (push d q x)
        × (contents (push d q x) ≡ contents q ++ x ∷ [])
        × (n ≡ (if ltb (q.bottom - q.top) (2 ^ k) then k else suc k))
        × ((push d q x).bottom ≡ q.bottom + 1)
  unfolding grow stored
  push_lem k q x v more = elim (push_cases q x) [
    | inl (full, e) ↦
        let (g, same) = grow_lem k q v (fit full) in
        let (valid, c) =
          stored_lem (suc k) (grow d q q.bottom q.top) x g (omega arith) (roomy full) in
        rw e (
          suc k,
          valid,
          c ∙ ap (λ l. l ++ x ∷ []) same,
          ground (arith, at_bound full),
          stored_bottom (grow d q q.bottom q.top) more,
        )
    | inr (room, e) ↦
        let (valid, c) = stored_lem k q x v (omega arith) (under room) in
        rw e (k, valid, c, ground (arith, under room), stored_bottom q more)
  ]
    where
      stored_bottom :
          (p : StealingQueue A) → p.bottom < 2 ^ 63 - 1 → (stored p x).bottom ≡ p.bottom + 1
      stored_bottom p h = omega arith

      at_bound : is_full d q q.bottom q.top ≡ true → q.bottom - q.top ≡ 2 ^ k
      at_bound full = omega (
        arith,
        v.fits,
        one-le-pow k 2,
        ltb→lt (2 ^ k - 1) (q.bottom - q.top) (sym (is_full_lem k q v) ∙ full),
      )

      fit : is_full d q q.bottom q.top ≡ true → 2 ^ suc k < word
      fit full = omega (arith, at_bound full, pow-suc 2 k)

      roomy :
          is_full d q q.bottom q.top ≡ true
          → (grow d q q.bottom q.top).bottom - (grow d q q.bottom q.top).top < 2 ^ suc k
      roomy full = omega (arith, at_bound full, one-le-pow k 2, pow-suc 2 k)

      under : is_full d q q.bottom q.top ≡ false → q.bottom - q.top < 2 ^ k
      under room = omega (
        arith,
        one-le-pow k 2,
        ltb_false→le (2 ^ k - 1) (q.bottom - q.top) (sym (is_full_lem k q v) ∙ room),
      )

  abbrev pub to_list : Option A → List A
  to_list none = []
  to_list (some x) = x ∷ []

  module _ (q : StealingQueue A) (small : q.bottom < word) where
    pub pop-empty : q.top ≡ q.bottom → 0 < q.bottom → pop d q ≡ (none, q)
    unfolding pop
    pop-empty e pos = ground arith

    pub pop_one :
        q.bottom ≡ q.top + 1
        → pop d q ≡ (some (slot_load d q.array q.top), record q { top = q.bottom })
    unfolding pop
    pop_one e = ground arith

    pub pop_many :
        q.top + 1 < q.bottom
        → pop d q ≡ (some (slot_load d q.array (q.bottom - 1)), record q { bottom = q.bottom - 1 })
    unfolding pop
    pop_many lt = ground arith

    pub steal-empty : q.top ≡ q.bottom → steal d q ≡ (none, q)
    unfolding steal
    steal-empty e = ground arith

    pub steal-some :
        q.top < q.bottom
        → steal d q ≡ (some (slot_load d q.array q.top), record q { top = q.top + 1 })
    unfolding steal
    steal-some lt = ground arith
