-- ===== src/Prelude/Lists.antt =====
-- Lists measured and indexed by native numbers, under the library's names.
use Prim.Native.Nat.{ℕ, zero, suc, ◌+◌, ◌≤◌, ◌<◌}
use mathlib.Core.Path.{◌≡◌, refl, ap}
use mathlib.Core.Logic.{◌≢◌}
use mathlib.Core.List.{List, [], ◌∷◌, ◌++◌}
use mathlib.Core.Option.{Option, none, some}
use native.Mathlib.Omega.{arith}

module _ {ℓ} {A : Type ℓ} where
  abbrev pub length : List A → ℕ
  length [] = 0
  length (x ∷ xs) = suc (length xs)

  abbrev pub get_elem? : List A → ℕ → Option A
  get_elem? [] i = none
  get_elem? (x ∷ xs) zero = some x
  get_elem? (x ∷ xs) (suc i) = get_elem? xs i

  abbrev pub get_or : List A → ℕ → A → A
  get_or [] i d = d
  get_or (x ∷ xs) zero d = x
  get_or (x ∷ xs) (suc i) d = get_or xs i d

  -- A write out of bounds changes nothing.
  abbrev pub set : List A → ℕ → A → List A
  set [] i v = []
  set (x ∷ xs) zero v = v ∷ xs
  set (x ∷ xs) (suc i) v = x ∷ set xs i v

  abbrev pub replicate : ℕ → A → List A
  replicate zero a = []
  replicate (suc n) a = a ∷ replicate n a

  pub length-append : (xs ys : List A) → length (xs ++ ys) ≡ length xs + length ys
  length-append [] ys = omega arith
  length-append (x ∷ xs) ys = omega (arith, length-append xs ys)

  pub length-replicate : (n : ℕ) (a : A) → length (replicate n a) ≡ n
  length-replicate zero a = refl
  length-replicate (suc n) a = ap suc (length-replicate n a)

  pub length-set : (xs : List A) (i : ℕ) (v : A) → length (set xs i v) ≡ length xs
  length-set [] i v = refl
  length-set (x ∷ xs) zero v = refl
  length-set (x ∷ xs) (suc i) v = ap suc (length-set xs i v)

  pub get_or-set_self :
      (xs : List A) (i : ℕ) (v d : A) → i < length xs → get_or (set xs i v) i d ≡ v
  get_or-set_self [] i v d h = absurd (omega arith)
  get_or-set_self (x ∷ xs) zero v d h = refl
  get_or-set_self (x ∷ xs) (suc i) v d h = get_or-set_self xs i v d (omega arith)

  pub get_or-set_ne :
      (xs : List A) {i j : ℕ} (v d : A) → i ≢ j → get_or (set xs i v) j d ≡ get_or xs j d
  get_or-set_ne [] v d h = refl
  get_or-set_ne (x ∷ xs) {i = zero} {j = zero} v d h = absurd (h refl)
  get_or-set_ne (x ∷ xs) {i = zero} {j = suc j} v d h = refl
  get_or-set_ne (x ∷ xs) {i = suc i} {j = zero} v d h = refl
  get_or-set_ne (x ∷ xs) {i = suc i} {j = suc j} v d h = get_or-set_ne xs v d (λ e. h (ap suc e))

  pub get_or-replicate : (n i : ℕ) (a : A) → get_or (replicate n a) i a ≡ a
  get_or-replicate zero i a = refl
  get_or-replicate (suc n) zero a = refl
  get_or-replicate (suc n) (suc i) a = get_or-replicate n i a

  pub get_or_default :
      (xs : List A) (i : ℕ) (d e : A) → i < length xs → get_or xs i d ≡ get_or xs i e
  get_or_default [] i d e h = absurd (omega arith)
  get_or_default (x ∷ xs) zero d e h = refl
  get_or_default (x ∷ xs) (suc i) d e h = get_or_default xs i d e (omega arith)

  -- Behind the head of a list, neither the head nor the default shows.
  pub get_or_behind :
      (xs : List A) (x y : A) (i : ℕ) (d e : A)
      → 0 < i
      → i ≤ length xs
      → get_or (x ∷ xs) i d ≡ get_or (y ∷ xs) i e
  get_or_behind xs x y zero d e pos h = absurd (omega arith)
  get_or_behind xs x y (suc i) d e pos h = get_or_default xs i d e (omega arith)
