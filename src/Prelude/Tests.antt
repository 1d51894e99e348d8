-- ===== src/Prelude/Tests.antt =====
-- Boolean tests on the native numbers, and the conditional.
use Prim.Native.Nat.{ℕ, ◌≤◌, ◌<◌, compare, Ordering}
use mathlib.Core.Path.{◌≡◌, refl, sym}
use mathlib.Core.Logic.{◌↔◌, ◌≢◌, ◌⊎◌, inl, inr}
use mathlib.Core.Bool.{◌&&◌, Bool, true, false}
use mathlib.Core.Option.{Option, none, some}
use native.Mathlib.Omega.{arith}

abbrev pub ltb : ℕ → ℕ → Bool
ltb a b = elim (compare a b) [ Ordering.lt ↦ true | _ ↦ false ]

abbrev pub leb : ℕ → ℕ → Bool
leb a b = elim (compare a b) [ Ordering.gt ↦ false | _ ↦ true ]

infix 50 ◌==◌
abbrev pub ◌==◌ : ℕ → ℕ → Bool
a == b = elim (compare a b) [ Ordering.eq ↦ true | _ ↦ false ]

infix 1 if◌then◌else◌
abbrev pub if◌then◌else◌ {ℓ} : {A : Type ℓ} → Bool → A → A → A
if true then x else y = x
if false then x else y = y

pub ltb→lt : (a b : ℕ) → ltb a b ≡ true → a < b
ltb→lt a b h = ground arith

pub lt→ltb : (a b : ℕ) → a < b → ltb a b ≡ true
lt→ltb a b h = ground arith

pub leb→le : (a b : ℕ) → leb a b ≡ true → a ≤ b
leb→le a b h = ground arith

pub ==_iff : (a b : ℕ) → ((a == b) ≡ true) ↔ (a ≡ b)
==_iff a b = ground arith

pub and_both : (a b : Bool) → (a && b) ≡ true → (a ≡ true) × (b ≡ true)
and_both true b h = (refl, h)
and_both false b h = absurd (contrary h)
  where
    contrary : false ≡ true → ⊥
    contrary e = cc

pub Bool-cases : (b : Bool) → (b ≡ true) ⊎ (b ≡ false)
Bool-cases true = inl refl
Bool-cases false = inr refl

pub Option-cases {ℓ} : {A : Type ℓ} (o : Option A) → (o ≡ none) ⊎ ((a : A) × (o ≡ some a))
Option-cases none = inl refl
Option-cases (some a) = inr (a, refl)

-- A family with one entry replaced.
abbrev pub update {ℓ} : {A : Type ℓ} → (ℕ → A) → ℕ → A → ℕ → A
update f i a j = if i == j then a else f j

pub ltb_false→le : (a b : ℕ) → ltb a b ≡ false → b ≤ a
ltb_false→le a b h = ground arith

pub leb_false→lt : (a b : ℕ) → leb a b ≡ false → b < a
leb_false→lt a b h = ground arith

pub update-same {ℓ} : {A : Type ℓ} (f : ℕ → A) (i : ℕ) (a : A) → update f i a i ≡ a
update-same f i a = ground arith

pub update_cases {ℓ} :
    {A : Type ℓ} (f : ℕ → A) (i : ℕ) (a : A) (j : ℕ)
    → ((i ≡ j) × (update f i a j ≡ a)) ⊎ (update f i a j ≡ f j)
update_cases f i a j = elim (Bool-cases (i == j)) [
  | inl e ↦ inl ((==_iff i j).0 e, rw e refl)
  | inr e ↦ inr (rw e refl)
]

pub update_other {ℓ} :
    {A : Type ℓ} (f : ℕ → A) (i : ℕ) (a : A) (j : ℕ) → j ≢ i → update f i a j ≡ f j
update_other f i a j ne = ground (arith, λ (e : i ≡ j). ne (sym e))
