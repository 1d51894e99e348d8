-- ===== src/Prelude/Chain.antt =====
-- Lists of distinct numbers by what stands at the front, behind and before each element: what the
-- pointers of a doubly linked list say.
use Prim.Native.Nat.{ℕ}
use mathlib.Core.Path.{◌≡◌, refl}
use mathlib.Core.Bool.{Bool, true, false, not, ◌&&◌, ◌||◌}
use mathlib.Core.List.{List, [], ◌∷◌}
use mathlib.Core.Option.{Option, none, some}
use mathlib.Core.Logic.{◌≢◌, ◌⊎◌}
use native.Mathlib.Omega.{arith}
use godby.Prelude.Tests.{◌==◌, if◌then◌else◌}

-- Whether an option holds the number `e`.
abbrev pub opt_is : Option ℕ → ℕ → Bool
opt_is none e = false
opt_is (some a) e = a == e

abbrev pub mem : ℕ → List ℕ → Bool
mem e [] = false
mem e (x ∷ l) = (x == e) || mem e l

abbrev pub remove : ℕ → List ℕ → List ℕ
remove e [] = []
remove e (x ∷ l) = if x == e then l else x ∷ remove e l

abbrev pub first : List ℕ → Option ℕ
first [] = none
first (x ∷ l) = some x

abbrev pub after : ℕ → List ℕ → Option ℕ
after e [] = none
after e (x ∷ l) = if x == e then first l else after e l

abbrev pub before_from : Option ℕ → ℕ → List ℕ → Option ℕ
before_from p e [] = none
before_from p e (x ∷ l) = if x == e then p else before_from (some x) e l

abbrev pub before : ℕ → List ℕ → Option ℕ
before = before_from none

abbrev pub Unique : List ℕ → Type 0
Unique [] = Unit
Unique (x ∷ l) = (mem x l ≡ false) × Unique l

pub mem-remove : (x e : ℕ) (l : List ℕ) → Unique l → mem x (remove e l) ≡ (mem x l && not (x == e))
mem-remove x e [] u = refl
mem-remove x e (a ∷ l) u = ground (arith, mem-remove x e l u.1)

pub Unique-remove : (e : ℕ) (l : List ℕ) → Unique l → Unique (remove e l)
Unique-remove e [] u = tt
Unique-remove e (a ∷ l) u = ground (arith, Unique-remove e l u.1, mem-remove a e l u.1)

pub first-remove :
    (e : ℕ) (l : List ℕ) → first (remove e l) ≡ (if opt_is (first l) e then after e l else first l)
first-remove e [] = refl
first-remove e (a ∷ l) = ground arith

-- What stands before an element is not an element that the list lacks.
pub before-mem :
    (p : Option ℕ) (e x : ℕ) (l : List ℕ)
    → mem x l ≡ false
    → opt_is p x ≡ false
    → opt_is (before_from p e l) x ≡ false
before-mem p e x [] m h = refl
before-mem p e x (a ∷ l) m h = ground (arith, before-mem (some a) e x l)

-- The head stands before an element only if that is the next one.
before-head :
    (a e : ℕ) (l : List ℕ)
    → mem a l ≡ false
    → mem e l ≡ true
    → opt_is (before_from (some a) e l) a ≡ opt_is (first l) e
before-head a e [] m h = cc
before-head a e (b ∷ l) m h = ground (arith, before-mem (some b) e a l)

pub after-remove :
    (p : Option ℕ) (x e : ℕ) (l : List ℕ)
    → Unique l
    → mem e l ≡ true
    → (x == e) ≡ false
    → opt_is p x ≡ false
    → after x (remove e l) ≡ (if opt_is (before_from p e l) x then after e l else after x l)
after-remove p x e [] u m ne h = cc
after-remove p x e (a ∷ l) u m ne h =
    ground (arith, after-remove (some a) x e l, first-remove e l, before-head a e l)

-- The element behind `e` gets what stood before `e`.
pub before-first :
    (p : Option ℕ) (x : ℕ) (l : List ℕ) → opt_is (first l) x ≡ true → before_from p x l ≡ p
before-first p x [] h = cc
before-first p x (a ∷ l) h = ground arith

pub before_default :
    (p q : Option ℕ) (x : ℕ) (l : List ℕ)
    → opt_is (first l) x ≡ false
    → before_from p x l ≡ before_from q x l
before_default p q x [] h = refl
before_default p q x (a ∷ l) h = ground arith

pub after-mem : (e x : ℕ) (l : List ℕ) → mem x l ≡ false → opt_is (after e l) x ≡ false
after-mem e x [] h = refl
after-mem e x (a ∷ []) h = ground arith
after-mem e x (a ∷ b ∷ l) h = ground (arith, after-mem e x (b ∷ l))

pub before-remove :
    (p : Option ℕ) (x e : ℕ) (l : List ℕ)
    → Unique l
    → mem e l ≡ true
    → (x == e) ≡ false
    → before_from p x (remove e l)
      ≡ (if opt_is (after e l) x then before_from p e l else before_from p x l)
before-remove p x e [] u m ne = cc
before-remove p x e (a ∷ l) u m ne = ground (
  arith,
  before-first p x l,
  before_default p (some a) x l,
  after-mem e x l,
  before-remove (some a) x e l,
)

before_some : (a e : ℕ) (l : List ℕ) → mem e l ≡ true → before_from (some a) e l ≢ none
before_some a e [] m = cc
before_some a e (b ∷ l) m = ground (arith, before_some b e l)

-- An element has nothing before it exactly when it is the first.
pub first-before :
    (e : ℕ) (l : List ℕ)
    → mem e l ≡ true
    → (before e l ≡ none) × (first l ≡ some e) ⊎ (before e l ≢ none) × (opt_is (first l) e ≡ false)
first-before e [] m = cc
first-before e (a ∷ l) m = ground (arith, before_some a e l)

pub first-mem : (e : ℕ) (l : List ℕ) → first l ≡ some e → mem e l ≡ true
first-mem e [] h = cc
first-mem e (a ∷ l) h = ground arith
