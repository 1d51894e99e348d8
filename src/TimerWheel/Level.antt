-- ===== src/TimerWheel/Level.antt =====
-- The level that the loop of `schedule` in TimerWheel.h finds for a tick, and the distance there.
use godby.Prelude.{
  ℕ, zero, suc, ◌+◌, ◌*◌, ◌/◌, ◌%◌, ◌^◌, ◌≤◌, ◌<◌, ◌≡◌, refl, sym, ◌∙◌, ap, bit_and, Option, some,
  arith, inl, inr, leb, leb→le, leb_false→lt, Bool-cases,
}
use godby.Prelude.Bits.{bit_and-mask}
use godby.TimerWheel.{tick, add_tick, num_slots, slot_mask, level_num, start}
use godby.TimerWheel.Run.{find_level}
use native.Mathlib.Nat.{pow-suc, div-div-eq-div-mul}

-- A tick as level `l` counts: in units of 256 ^ l.
unfoldable pub unit : ℕ → ℕ → ℕ
unit t zero = t
unit t (suc l) = unit t l / 256

-- The counters of all levels tell one time.
abbrev pub Tells : (ℕ → ℕ) → ℕ → Type 0
Tells now t = (l : ℕ) → l < level_num → now l ≡ unit t l

-- The level `L` and the distance `d` that the loop finds for an event at the tick `at`.
pub record Found (t at : ℕ) (r : Option (ℕ × ℕ)) : Type 0 where
  pub level : ℕ
  pub distance : ℕ
  pub result : r ≡ some (level, distance)
  pub low : level < level_num
  pub some_way : 0 < distance
  pub near : distance < num_slots
  pub exact : unit at level ≡ unit t level + distance

next_unit : (t l : ℕ) → unit t (l + 1) ≡ unit t l / 256
unfolding unit
next_unit t l = ap (unit t) {y = suc l} (omega arith)

pub unit-zero : (t : ℕ) → unit t 0 ≡ t
unfolding unit
unit-zero t = refl

pub unit-suc : (t k : ℕ) → unit t (suc k) ≡ unit t k / 256
unfolding unit
unit-suc t k = refl

pub unit_le : (t l : ℕ) → unit t l ≤ t
unfolding unit
unit_le t zero = omega arith
unit_le t (suc l) = omega (arith, unit_le t l)

pow_byte : (n : ℕ) → 2 ^ (suc (suc (suc (suc (suc (suc (suc (suc n)))))))) ≡ 2 ^ n * 256
pow_byte n = omega (
  arith,
  pow-suc 2 n,
  pow-suc 2 (suc n),
  pow-suc 2 (suc (suc n)),
  pow-suc 2 (suc (suc (suc n))),
  pow-suc 2 (suc (suc (suc (suc n)))),
  pow-suc 2 (suc (suc (suc (suc (suc n))))),
  pow-suc 2 (suc (suc (suc (suc (suc (suc n)))))),
  pow-suc 2 (suc (suc (suc (suc (suc (suc (suc n))))))),
)

-- A new wheel tells its start time.
pub start-Tells : (t : ℕ) → Tells (start t).now t
unfolding start
start-Tells t l low = told l
  where
    told : (k : ℕ) → t / 2 ^ (8 * k) ≡ unit t k
    told zero = omega (arith, unit-zero t)
    told (suc k) =
        ap (λ p. t / p) (power k)
        ∙ (sym (div-div-eq-div-mul t (2 ^ (8 * k)) 256)
            ∙ (ap (λ q. q / 256) (told k) ∙ sym (unit-suc t k)))
      where
        power : (k : ℕ) → 2 ^ (8 * suc k) ≡ 2 ^ (8 * k) * 256
        power k =
            ap (λ e. 2 ^ e) {y = suc (suc (suc (suc (suc (suc (suc (suc (8 * k))))))))}
              (omega arith)
            ∙ pow_byte (8 * k)

module _ (now : ℕ → ℕ) (t at : ℕ) (tells : Tells now t) where
  pub find_level-Found :
      (n level delta : ℕ)
      → n + level ≡ 8
      → unit at level ≡ unit t level + delta
      → 0 < delta
      → unit at level < 256 ^ n
      → unit at level < tick
      → Found t at (find_level n now level delta)
  unfolding find_level
  find_level-Found zero level delta e split pos small fits = absurd (omega arith)
  find_level-Found (suc n) level delta e split pos small fits =
      elim (Bool-cases (leb num_slots delta)) [
        | inl far ↦ rw far (
            find_level-Found n (level + 1) _ (omega arith)
              (omega (arith, next_unit at level, next_unit t level, carried))
              (omega (arith, carried, leb→le num_slots delta far))
              (omega (arith, next_unit at level, pow-suc 256 n))
              (omega (arith, next_unit at level)))
        | inr close ↦ rw close (record {
          level = level;
          distance = delta;
          result = refl;
          low = omega arith;
          some_way = pos;
          near = leb_false→lt num_slots delta close;
          exact = split;
        })
      ]
    where
      carried : add_tick delta (bit_and (now level) slot_mask) ≡ delta + unit t level % 256
      carried = omega (arith, bit_and-mask 8 (now level), tells level (omega arith))
