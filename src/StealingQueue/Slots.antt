-- ===== src/StealingQueue/Slots.antt =====
-- `StealingQueue::Array`: a ring of `C` slots, `C` a power of two, indexed by `i & M`.
use godby.Prelude.{
  ℕ, zero, suc, ◌+◌, ◌-◌, ◌*◌, ◌%◌, ◌^◌, ◌≤◌, ◌<◌, bit_and, ◌≡◌, refl, ◌∙◌, ap, ap₂, ◌≢◌, List, [],
  ◌∷◌, arith, dec_lt, length, get_or, set, replicate, length-set, length-replicate, get_or-set_self,
  get_or-set_ne,
}
use godby.Prelude.Bits.{bit_and-mask}
use godby.Prelude.Mod.{mod-ne_of_lt}
use native.Mathlib.Nat.{mod-lt, one-le-pow, pow-suc}

abbrev pub word : ℕ
word = 2 ^ 64

abbrev pub add_size : ℕ → ℕ → ℕ
add_size a b = (a + b) % word

abbrev pub sub_size : ℕ → ℕ → ℕ
sub_size a b = (a + word - b) % word

pub record Array (A : Type 0) : Type 0 where
  pub C : ℕ
  pub M : ℕ
  pub S : List A

module _ {A : Type 0} (d : A) where
  -- `Array(c)`: the slots hold default values of the item type, `d`.
  unfoldable pub new_array : ℕ → Array A
  new_array c = record { C = c; M = sub_size c 1; S = replicate c d }

  -- `pop(i)`
  unfoldable pub slot_load : Array A → ℕ → A
  slot_load a i = get_or a.S (bit_and i a.M) d

  -- `push(i, o)`
  unfoldable pub slot_store : Array A → ℕ → A → Array A
  slot_store a i x = record a { S = set a.S (bit_and i a.M) x }

  -- The loop of `resize`, by the rounds left: `i != b` fails after `b - i` rounds, modulo 2 ^ 64.
  unfoldable pub copy_slots : Array A → ℕ → ℕ → Array A → Array A
  copy_slots old zero i a = a
  copy_slots old (suc n) i a = copy_slots old n (add_size i 1) (slot_store a i (slot_load old i))

  -- `resize(b, t)`
  unfoldable pub resize : Array A → ℕ → ℕ → Array A
  resize a b t = copy_slots a (sub_size b t) t (new_array ((2 * a.C) % word))

  -- The items at the `n` indices from `i` on.
  abbrev pub window : Array A → ℕ → ℕ → List A
  window a i zero = []
  window a i (suc n) = slot_load a i ∷ window a (i + 1) n

-- A ring of `2 ^ k` slots with its mask.
pub record IsArray {A : Type 0} (k : ℕ) (a : Array A) : Type 0 where
  pub capacity : a.C ≡ 2 ^ k
  pub mask : a.M ≡ 2 ^ k - 1
  pub slots : length a.S ≡ 2 ^ k

module _ {A : Type 0} (d : A) where
  pub length-window : (a : Array A) (i n : ℕ) → length (window d a i n) ≡ n
  length-window a i zero = refl
  length-window a i (suc n) = ap suc (length-window a (i + 1) n)

  pub new_array-IsArray : (k : ℕ) → 2 ^ k < word → IsArray k (new_array d (2 ^ k))
  unfolding new_array
  new_array-IsArray k h = record {
    capacity = refl;
    mask = omega (arith, one-le-pow k 2);
    slots = length-replicate (2 ^ k) d;
  }

  pub slot_store-IsArray :
      (k : ℕ) (a : Array A) (i : ℕ) (x : A) → IsArray k a → IsArray k (slot_store d a i x)
  unfolding slot_store
  slot_store-IsArray k a i x v = record {
    capacity = v.capacity;
    mask = v.mask;
    slots = length-set a.S (bit_and i a.M) x ∙ v.slots;
  }

  slot_index : (k : ℕ) (a : Array A) (i : ℕ) → IsArray k a → bit_and i a.M ≡ i % 2 ^ k
  slot_index k a i v = rw v.mask (bit_and-mask k i)

  pub slot_load-slot_store_self :
      (k : ℕ) (a : Array A) (i : ℕ) (x : A) → IsArray k a → slot_load d (slot_store d a i x) i ≡ x
  unfolding slot_load slot_store
  slot_load-slot_store_self k a i x v =
      get_or-set_self a.S (bit_and i a.M) x d
        (omega (arith, slot_index k a i v, v.slots, mod-lt i (one-le-pow k 2 (omega arith))))

  pub slot_load-slot_store_ne :
      (k : ℕ) (a : Array A) (i j : ℕ) (x : A)
      → IsArray k a
      → i % 2 ^ k ≢ j % 2 ^ k
      → slot_load d (slot_store d a i x) j ≡ slot_load d a j
  unfolding slot_load slot_store
  slot_load-slot_store_ne k a i j x v ne =
      get_or-set_ne a.S x d (λ e. ne (omega (arith, e, slot_index k a i v, slot_index k a j v)))

  -- A write outside a window leaves its items alone.
  pub window-slot_store :
      (k : ℕ) (a : Array A) (b : ℕ) (x : A) (n i : ℕ)
      → IsArray k a
      → i + n ≤ b
      → b < i + 2 ^ k
      → window d (slot_store d a b x) i n ≡ window d a i n
  window-slot_store k a b x zero i v le near = refl
  window-slot_store k a b x (suc n) i v le near =
      ap₂ ◌∷◌
        (slot_load-slot_store_ne k a b i x v (mod-ne_of_lt i b (2 ^ k) (omega arith) (omega arith)))
        (window-slot_store k a b x n (i + 1) v (omega arith) (omega arith))

  copy_slots-suc :
      (old a : Array A) (n i : ℕ)
      → i + 1 < word
      → copy_slots d old (suc n) i a
        ≡ copy_slots d old n (i + 1) (slot_store d a i (slot_load d old i))
  unfolding copy_slots
  copy_slots-suc old a n i h =
      ap (λ j. copy_slots d old n j (slot_store d a i (slot_load d old i))) (omega arith)

  -- The loop writes from `i` on, so what stands below is kept.
  pub slot_load-copy_slots :
      (k : ℕ) (old a : Array A) (n i j : ℕ)
      → IsArray k a
      → j < i
      → i + n ≤ j + 2 ^ k
      → i + n < word
      → slot_load d (copy_slots d old n i a) j ≡ slot_load d a j
  unfolding copy_slots
  slot_load-copy_slots k old a zero i j v lt near small = refl
  slot_load-copy_slots k old a (suc n) i j v lt near small =
      ap (λ b. slot_load d b j) (copy_slots-suc old a n i (omega arith))
      ∙ (slot_load-copy_slots k old (slot_store d a i (slot_load d old i)) n (i + 1) j
            (slot_store-IsArray k a i _ v) (omega arith) (omega arith) (omega arith)
          ∙ slot_load-slot_store_ne k a i j _ v (mod-ne_of_lt j i (2 ^ k) lt (omega arith)))

  pub copy_slots-IsArray :
      (k : ℕ) (old a : Array A) (n i : ℕ) → IsArray k a → IsArray k (copy_slots d old n i a)
  unfolding copy_slots
  copy_slots-IsArray k old a zero i v = v
  copy_slots-IsArray k old a (suc n) i v =
      copy_slots-IsArray k old (slot_store d a i (slot_load d old i)) n (add_size i 1)
        (slot_store-IsArray k a i _ v)

  pub window-copy_slots :
      (k : ℕ) (old a : Array A) (n i : ℕ)
      → IsArray k a
      → n ≤ 2 ^ k
      → i + n < word
      → window d (copy_slots d old n i a) i n ≡ window d old i n
  window-copy_slots k old a zero i v near small = refl
  window-copy_slots k old a (suc n) i v near small =
      ap (λ r. window d r i (suc n)) (copy_slots-suc old a n i (omega arith))
      ∙ (ap₂ ◌∷◌
          (slot_load-copy_slots k old stored n (i + 1) i (slot_store-IsArray k a i _ v)
              (omega arith) (omega arith) (omega arith)
            ∙ slot_load-slot_store_self k a i _ v)
          (window-copy_slots k old stored n (i + 1) (slot_store-IsArray k a i _ v) (omega arith)
            (omega arith)))
    where
      stored : Array A
      stored = slot_store d a i (slot_load d old i)

  -- `resize` doubles the ring and keeps the items of the window.
  pub resize_lem :
      (k : ℕ) (a : Array A) (b t : ℕ)
      → IsArray k a
      → 2 ^ suc k < word
      → t ≤ b
      → b < word
      → b - t ≤ 2 ^ k
      → IsArray (suc k) (resize d a b t)
        × (window d (resize d a b t) t (b - t) ≡ window d a t (b - t))
  unfolding resize
  resize_lem k a b t v small le lt fits =
      rw (rounds, doubled)
        (
          copy_slots-IsArray (suc k) a _ (b - t) t fresh,
          window-copy_slots (suc k) a _ (b - t) t fresh (omega (arith, pow-suc 2 k)) (omega arith),
        )
    where
      rounds : sub_size b t ≡ b - t
      rounds = omega arith

      doubled : (2 * a.C) % word ≡ 2 ^ suc k
      doubled = omega (arith, v.capacity, pow-suc 2 k)

      fresh : IsArray (suc k) (new_array d (2 ^ suc k))
      fresh = new_array-IsArray (suc k) small

  -- Windows of two arrays that agree have equal items at each index.
  pub slot_of_window :
      (a b : Array A) (n i j : ℕ)
      → window d a i n ≡ window d b i n
      → i ≤ j
      → j < i + n
      → slot_load d a j ≡ slot_load d b j
  slot_of_window a b zero i j e le lt = absurd (omega arith)
  slot_of_window a b (suc n) i j e le lt = elim (dec_lt i j) [
    | yes p ↦ slot_of_window a b n (i + 1) j (cc) (omega arith) (omega arith)
    | no p ↦ let here : i ≡ j = omega arith in rw (← here) (cc)
  ]

  pub window_of_slots :
      (a b : Array A) (n i : ℕ)
      → ((j : ℕ) → i ≤ j → j < i + n → slot_load d a j ≡ slot_load d b j)
      → window d a i n ≡ window d b i n
  window_of_slots a b zero i h = refl
  window_of_slots a b (suc n) i h =
      ap₂ ◌∷◌ (h i (omega arith) (omega arith))
        (window_of_slots a b n (i + 1) (λ j le lt. h j (omega arith) (omega arith)))
