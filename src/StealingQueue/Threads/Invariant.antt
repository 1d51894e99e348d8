-- ===== src/StealingQueue/Threads/Invariant.antt =====
-- What holds of the queue and of every thread's locals in each reachable state.
use godby.Prelude.{
  ℕ, suc, ◌+◌, ◌-◌, ◌^◌, ◌≤◌, ◌<◌, ◌≡◌, refl, sym, ◌∙◌, ap, some, List, [], ◌∷◌, arith, get_or,
  get_or_default, get_or_behind, dec_lt,
}
use godby.StealingQueue.{StealingQueue, grow}
use godby.StealingQueue.Slots.{
  Array, IsArray, word, slot_load, slot_store, window, slot_load-slot_store_ne, resize, resize_lem,
  slot_of_window,
}
use godby.Prelude.Mod.{mod-ne_of_lt}
use godby.StealingQueue.Threads.{
  Owner, pushing, placing, publishing, popping, restoring, Thief, got_top, got_bottom, reading,
  System, age, array_of_age,
}

module _ {A : Type 0} where
  abbrev pub sum_of : (A → ℕ) → List A → ℕ
  sum_of w [] = 0
  sum_of w (x ∷ l) = w x + sum_of w l

  -- The end of the items that have not been taken: `pop` lowers the bottom before it knows whether it
  -- gets the item.
  abbrev pub end_of : StealingQueue A → Owner A → ℕ
  end_of q (popping b) = b + 1
  end_of q (Owner.racing b x) = b + 1
  end_of q (restoring b r) = b + 1
  end_of q _ = q.bottom

  -- An item that the owner has taken and not yet returned.
  abbrev pub in_hand : (A → ℕ) → Owner A → ℕ
  in_hand w (restoring b (some x)) = w x
  in_hand w _ = 0

module _ {A : Type 0} (d : A) where
  abbrev pub OwnerAt : ℕ → StealingQueue A → Owner A → Type 0
  OwnerAt k q (pushing x t) = (t ≤ q.top) × (q.bottom - t ≤ 2 ^ k) × (q.bottom < 2 ^ 63 - 1)
  OwnerAt k q (placing x) = (q.bottom - q.top < 2 ^ k) × (q.bottom < 2 ^ 63 - 1)
  OwnerAt k q (publishing x) =
      (q.bottom - q.top < 2 ^ k) × (q.bottom < 2 ^ 63 - 1) × (slot_load d q.array q.bottom ≡ x)
  OwnerAt k q (popping b) = q.bottom ≡ b
  OwnerAt k q (Owner.racing b x) = (q.bottom ≡ b) × (slot_load d q.array b ≡ x) × (b ≤ q.top)
  OwnerAt k q (restoring b r) = (q.bottom ≡ b) × (q.top ≡ b + 1)
  OwnerAt k q Owner.idle = Unit

  -- What a thief has seen is still true as long as the top has not moved.
  abbrev pub ThiefAt : StealingQueue A → ℕ → Thief A → Type 0
  ThiefAt q e Thief.idle = Unit
  ThiefAt q e (got_top t) = t ≤ q.top
  ThiefAt q e (got_bottom t) = (t ≤ q.top) × (q.top ≡ t → t < e)
  ThiefAt q e (reading t g) =
      (t ≤ q.top)
      × (q.top ≡ t → t < e)
      × (g ≤ age q)
      × (q.top ≡ t → slot_load d (array_of_age q g) t ≡ slot_load d q.array t)
  ThiefAt q e (Thief.racing t x) =
      (t ≤ q.top) × (q.top ≡ t → t < e) × (q.top ≡ t → x ≡ slot_load d q.array t)

  pub record Inv (w : A → ℕ) (s : System A) : Type 0 where
    pub level : ℕ
    pub array : IsArray level s.queue.array
    pub room : 2 ^ level < word
    pub ordered : s.queue.top ≤ end_of s.queue s.owner
    pub fits : end_of s.queue s.owner - s.queue.top ≤ 2 ^ level
    pub small : end_of s.queue s.owner < 2 ^ 63
    pub at_owner : OwnerAt level s.queue s.owner
    pub at_thief : (i : ℕ) → ThiefAt s.queue (end_of s.queue s.owner) (s.thief i)
    pub kept :
        sum_of w s.pushed
        ≡ sum_of w s.returned
          + in_hand w s.owner
          + sum_of w (window d s.queue.array s.queue.top (end_of s.queue s.owner - s.queue.top))

  -- A change of the queue that keeps what any thief has seen.
  pub record Frame (q q' : StealingQueue A) (e e' : ℕ) : Type 0 where
    pub mono : q.top ≤ q'.top
    pub young : age q ≤ age q'
    pub still : (t : ℕ) → q.top ≡ t → q'.top ≡ t → t < e → t < e'
    pub slots :
        (t : ℕ) → q.top ≡ t → q'.top ≡ t → t < e → slot_load d q'.array t ≡ slot_load d q.array t
    pub arrays :
        (g t : ℕ)
        → q.top ≡ t
        → q'.top ≡ t
        → t < e
        → g ≤ age q
        → slot_load d (array_of_age q g) t ≡ slot_load d q.array t
        → slot_load d (array_of_age q' g) t ≡ slot_load d q'.array t

  unmoved :
      {q q' : StealingQueue A} {e e' t : ℕ} → Frame q q' e e' → t ≤ q.top → q'.top ≡ t → q.top ≡ t
  unmoved f h r = omega (arith, f.mono)

  pub Frame-ThiefAt :
      {q q' : StealingQueue A} {e e' : ℕ}
      → Frame q q' e e'
      → (p : Thief A) → ThiefAt q e p
      → ThiefAt q' e' p
  Frame-ThiefAt f Thief.idle h = tt
  Frame-ThiefAt f (got_top t) h = omega (arith, f.mono)
  Frame-ThiefAt f (got_bottom t) h =
      (omega (arith, f.mono), λ r. let top = unmoved f h.0 r in f.still t top r (h.1 top))
  Frame-ThiefAt f (reading t g) h = (
    omega (arith, f.mono),
    λ r. let top = unmoved f h.0 r in f.still t top r (h.1 top),
    omega (arith, f.young, h.2),
    λ r. let top = unmoved f h.0 r in f.arrays g t top r (h.1 top) h.2 (h.3 top),
  )
  Frame-ThiefAt f (Thief.racing t x) h = (
    omega (arith, f.mono),
    λ r. let top = unmoved f h.0 r in f.still t top r (h.1 top),
    λ r. let top = unmoved f h.0 r in h.2 top ∙ sym (f.slots t top r (h.1 top)),
  )

  -- A step that only moves the two indices.
  pub Frame-indices :
      (q : StealingQueue A) (t b e e' : ℕ)
      → q.top ≤ t
      → (t ≡ q.top → q.top < e → q.top < e')
      → Frame q (record q { top = t; bottom = b }) e e'
  Frame-indices q t b e e' le still = record {
    mono = le;
    young = omega arith;
    still = λ u p r h. omega (arith, still (r ∙ sym p) (omega arith));
    slots = λ u p r h. refl;
    arrays = λ g u p r h young same. same;
  }

  -- The owner stores an item just past the end.
  pub Frame-store :
      (k : ℕ) (q : StealingQueue A) (x : A)
      → IsArray k q.array
      → q.top ≤ q.bottom
      → q.bottom - q.top < 2 ^ k
      → Frame q (record q { array = slot_store d q.array q.bottom x }) q.bottom q.bottom
  Frame-store k q x v le room = record {
    mono = omega arith;
    young = omega arith;
    still = λ t p r h. h;
    slots = kept;
    arrays = λ g t p r h young same. by_age g t p h young same;
  }
    where
      kept :
          (t : ℕ)
          → q.top ≡ t
          → q.top ≡ t
          → t < q.bottom
          → slot_load d (slot_store d q.array q.bottom x) t ≡ slot_load d q.array t
      kept t p r h =
          slot_load-slot_store_ne d k q.array q.bottom t x v
            (mod-ne_of_lt t q.bottom (2 ^ k) h (omega arith))

      a' : Array A
      a' = slot_store d q.array q.bottom x

      by_age :
          (g t : ℕ)
          → q.top ≡ t
          → t < q.bottom
          → g ≤ age q
          → slot_load d (array_of_age q g) t ≡ slot_load d q.array t
          → slot_load d (array_of_age (record q { array = a' }) g) t ≡ slot_load d a' t
      by_age g t p h young same = elim (dec_lt g (age q)) [
        | yes lt ↦
            ap (λ a. slot_load d a t)
              (get_or_behind q.garbage a' q.array (age q - g) a' q.array (omega arith)
                (omega arith))
            ∙ same
            ∙ sym (kept t p p h)
        | no ge ↦ ap (λ n. slot_load d (get_or (a' ∷ q.garbage) n a') t) {y = 0} (omega arith)
      ]

  -- The owner replaces a full array.
  pub Frame-grow :
      (k : ℕ) (q : StealingQueue A) (t₀ : ℕ)
      → IsArray k q.array
      → t₀ ≤ q.top
      → q.top ≤ q.bottom
      → q.bottom < 2 ^ 63
      → q.bottom - t₀ ≤ 2 ^ k
      → 2 ^ suc k < word
      → Frame q (grow d q q.bottom t₀) q.bottom q.bottom
  unfolding grow
  Frame-grow k q t₀ v le ordered small fits room = record {
    mono = omega arith;
    young = omega arith;
    still = λ t p r h. h;
    slots = λ t p r h. kept t p h;
    arrays = λ g t p r h young same.
        ap (λ n. slot_load d (get_or (a' ∷ q.array ∷ q.garbage) n a') t) {y = suc (age q - g)}
          (omega arith)
        ∙ ap (λ a. slot_load d a t)
            (get_or_default (q.array ∷ q.garbage) (age q - g) a' q.array (omega arith))
        ∙ same
        ∙ sym (kept t p h);
  }
    where
      a' : Array A
      a' = resize d q.array q.bottom t₀

      kept : (t : ℕ) → q.top ≡ t → t < q.bottom → slot_load d a' t ≡ slot_load d q.array t
      kept t p h =
          slot_of_window d a' q.array (q.bottom - t₀) t₀ t
            (resize_lem d k q.array q.bottom t₀ v room (omega arith) (omega arith) fits).1
            (omega arith) (omega arith)
