-- ===== src/Prelude/Mod.antt =====
-- Remainders by a variable: what a ring of slots needs.
use Prim.Native.Nat.{ℕ, ◌+◌, ◌-◌, ◌%◌, ◌<◌}
use mathlib.Core.Path.{◌≡◌, ◌∙◌}
use mathlib.Core.Logic.{◌≢◌}
use native.Mathlib.Decide.{dec_lt}
use native.Mathlib.Nat.{mod-add-mod, mod-eq_of_lt, mod-eq-sub-mod, mod-lt}
use native.Mathlib.Omega.{arith}

-- Fewer than `c` steps round a ring do not come back to the start.
pub add-mod-ne : (i d c : ℕ) → 0 < d → d < c → (i + d) % c ≢ i % c
add-mod-ne i d c pos small e = elim (dec_lt (r + d) c) [
  | yes p ↦ absurd (omega (arith, back, mod-eq_of_lt p))
  | no p ↦ absurd (
      omega (
        arith,
        back,
        mod-lt i {m = c} (omega arith),
        mod-eq-sub-mod {n = r + d} {m = c} (omega arith),
        mod-eq_of_lt {n = r + d - c} {m = c} (omega (arith, mod-lt i {m = c} (omega arith))),
      ))
]
  where
    r : ℕ
    r = i % c

    back : (r + d) % c ≡ r
    back = mod-add-mod i c d ∙ e

-- Two places of a window of at most `c` steps share a slot only if they are one place.
pub mod-ne_of_lt : (i j c : ℕ) → i < j → j < i + c → j % c ≢ i % c
mod-ne_of_lt i j c lt near e = add-mod-ne i (j - i) c (omega arith) (omega arith) (rw shift e)
  where
    shift : i + (j - i) ≡ j
    shift = omega arith
