-- ===== src/MemoryPool/Layout.antt =====
-- The slots of a block: where they are, and how they are linked.
use godby.Prelude.{
  dec_lt, ℕ, zero, suc, ◌+◌, ◌-◌, ◌*◌, ◌%◌, ◌^◌, ◌≤◌, ◌<◌, ◌≡◌, ◌≢◌, refl, ◌∙◌, ap, subst, some,
  List, [], ◌∷◌, arith, inl, inr, ltb, ltb→lt, ltb_false→le, Bool-cases, update, update-same,
  update_other,
}
use godby.MemoryPool.{Linked, link_slots, pad_pointer}
use native.Mathlib.Nat.{add-mod-mod, mul-mod_right}

-- The first `n` slots from `a` on.
unfoldable pub slots : ℕ → ℕ → ℕ → List ℕ
slots size a zero = []
slots size a (suc n) = a ∷ slots size (a + size) n

pub mul_mono : (i n size : ℕ) → i < n → i * size + size ≤ n * size
mul_mono i n size h = subst (λ m. i * size + size ≤ m * size) split (omega arith)
  where
    split : i + 1 + (n - (i + 1)) ≡ n
    split = omega arith

-- What the loop does in `n` turns: it stops where no further slot ends before the end of the block.
pub record Turns (size end : ℕ) (l r : Linked) : Type 0 where
  pub n : ℕ
  pub at : r.at ≡ l.at + n * size
  pub stops : end ≤ r.at + size
  pub inside : 0 < n → r.at < end
  pub links : (i : ℕ) → i < n → r.next (l.at + i * size) ≡ some (l.at + i * size + size)
  pub before : (q : ℕ) → q < l.at → r.next q ≡ l.next q
  pub counts : r.max_size ≡ (l.max_size + n) % 2 ^ 64

module _ (size : ℕ) (pos : 0 < size) where
  pub link_slots-Turns :
      (fuel end : ℕ) (l : Linked)
      → end ≤ l.at + fuel * size
      → l.max_size < 2 ^ 64
      → Turns size end l (link_slots size fuel end l)
  unfolding link_slots
  link_slots-Turns zero end l enough small = record {
    n = 0;
    at = omega arith;
    stops = omega arith;
    inside = λ h. absurd (omega arith);
    links = λ i h. absurd (omega arith);
    before = λ q h. refl;
    counts = omega arith;
  }
  link_slots-Turns (suc fuel) end l enough small = elim (Bool-cases (ltb (l.at + size) end)) [
    | inr stop ↦ rw stop (record {
      n = 0;
      at = omega arith;
      stops = ltb_false→le (l.at + size) end stop;
      inside = λ h. absurd (omega arith);
      links = λ i h. absurd (omega arith);
      before = λ q h. refl;
      counts = omega arith;
    })
    | inl go ↦ rw go (
        step (ltb→lt (l.at + size) end go)
          (link_slots-Turns fuel end further (omega (arith, enough)) (omega arith)))
  ]
    where
      further : Linked
      further = record {
        at = l.at + size;
        next = update l.next l.at (some (l.at + size));
        max_size = (l.max_size + 1) % 2 ^ 64;
      }

      step : l.at + size < end → {r : Linked} → Turns size end further r → Turns size end l r
      step go {r} t = record {
        n = suc t.n;
        at = omega (arith, t.at);
        stops = t.stops;
        inside = λ h. within;
        links = links;
        before = λ q h. t.before q (omega arith) ∙ update_other l.next l.at _ q (apart q h);
        counts = omega (arith, t.counts);
      }
        where
          apart : (q : ℕ) → q < l.at → q ≢ l.at
          apart q h e = omega (arith, e)

          within : r.at < end
          within = elim (dec_lt 0 t.n) [
            | yes p ↦ t.inside p
            | no p ↦ omega (arith, t.at, none_left p)
          ]
            where
              none_left : ¬ (0 < t.n) → t.n * size ≡ 0
              none_left p = ap (λ m. m * size) {x = t.n} {y = 0} (omega arith) ∙ omega arith

          links : (i : ℕ) → i < suc t.n → r.next (l.at + i * size) ≡ some (l.at + i * size + size)
          links zero h =
              subst (λ a. r.next a ≡ some (a + size)) {x = l.at} (omega arith)
                (t.before l.at (omega arith) ∙ update-same l.next l.at _)
          links (suc i) h =
              subst (λ a. r.next a ≡ some (a + size)) {x = l.at + size + i * size} (omega arith)
                (t.links i (omega arith))

-- An address is moved on to a multiple of the alignment, which divides 2 ^ 64.
pub pad_pointer_lem :
    (p align k : ℕ)
    → p < 2 ^ 64
    → 0 < align
    → align < 2 ^ 64
    → align * k ≡ 2 ^ 64
    → (p + pad_pointer p align) % align ≡ 0
unfolding pad_pointer
pad_pointer_lem p align k small pos le divides =
    add-mod-mod p ((align + 2 ^ 64 - p) % 2 ^ 64) align ∙ whole
  where
    whole : (p + (align + 2 ^ 64 - p) % 2 ^ 64) % align ≡ 0
    whole = elim (dec_lt p (align + 1)) [
      | yes low ↦ subst (λ m. m % align ≡ 0) {x = align * 1} (omega arith) (mul-mod_right align 1)
      | no high ↦
          subst (λ m. m % align ≡ 0) {x = align * (k + 1)} (omega (arith, divides))
            (mul-mod_right align (k + 1))
    ]
