-- ===== src/TimerWheel/Okay.antt =====
-- A property of what a call returns, where it returns.
use godby.Prelude.{◌≡◌, refl, subst, Bool, true, false, Option, none, some, if◌then◌else◌}

-- What there is, if anything, is `P`.
pub record Okay {A : Type 0} (P : A → Type 0) (o : Option A) : Type 0 where
  pub at : (a : A) → o ≡ some a → P a

pub none-Okay : {A : Type 0} (P : A → Type 0) → Okay P none
none-Okay P = record { at = λ a (e : none ≡ some a). absurd cc }

pub some-Okay : {A : Type 0} (P : A → Type 0) (a : A) → P a → Okay P (some a)
some-Okay {A} P a h = record { at = λ b e. subst P (same b e) h }
  where
    same : (b : A) → some a ≡ some b → a ≡ b
    same b e = cc

pub elim-Okay :
    {A B : Type 0} (P : B → Type 0) (o : Option A) (x : Option B) (f : A → Option B)
    → (o ≡ none → Okay P x)
    → ((a : A) → o ≡ some a → Okay P (f a))
    → Okay P (elim o [ none ↦ x | some a ↦ f a ])
elim-Okay P none x f h h' = h refl
elim-Okay P (some a) x f h h' = h' a refl

-- A result that is used only where there is one.
pub bind-Okay :
    {A B : Type 0} (Q : A → Type 0) (P : B → Type 0) (o : Option A) (f : A → Option B)
    → Okay Q o
    → ((a : A) → Q a → Okay P (f a))
    → Okay P (elim o [ none ↦ none | some a ↦ f a ])
bind-Okay Q P none f h h' = none-Okay P
bind-Okay Q P (some a) f h h' = h' a (h.at a refl)

pub map-Okay :
    {A : Type 0} (P Q : A → Type 0) (o : Option A) → ((a : A) → P a → Q a) → Okay P o → Okay Q o
map-Okay P Q o f h = record { at = λ a e. f a (h.at a e) }

pub if-Okay :
    {B : Type 0} (P : B → Type 0) (b : Bool) (x y : Option B)
    → (b ≡ true → Okay P x)
    → (b ≡ false → Okay P y)
    → Okay P (if b then x else y)
if-Okay P true x y h h' = h refl
if-Okay P false x y h h' = h' refl
