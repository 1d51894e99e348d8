-- ===== src/AtomicQueue/Atomic.antt =====
-- An element of `AtomicQueue` and `AtomicQueueB` of AtomicQueue.h: an atomic value, where NIL says that there
-- is none. Any number of threads use it by `do_push_atomic` and `do_pop_atomic`, or two threads with SPSC.
use godby.Prelude.{ℕ, ◌≡◌, Bool, true, Option, none, some, List, [], ◌∷◌, update, if◌then◌else◌}

pub data Worker (A : Type 0) : Type 0 where
  idle : Worker A
  pushing : (x : A) → Worker A  -- in the loop of `do_push_atomic`
  seen_nil : (x : A) → Worker A  -- with SPSC, before `q_element.store(element)`
  popping : Worker A  -- in the loop of `do_pop_atomic`
  seen : (x : A) → Worker A  -- with SPSC, before `q_element.store(NIL)`

-- The element, the threads, and what has been stored and returned, the latest first.
pub record Element (A : Type 0) : Type 0 where
  pub value : Option A
  pub worker : ℕ → Worker A
  pub pushed : List A
  pub popped : List A

module _ {A : Type 0} where
  abbrev pub set_worker : Element A → ℕ → Worker A → Element A
  set_worker s t p = record s { worker = update s.worker t p }

  abbrev pub store : Element A → ℕ → A → Element A
  store s t x = record s { value = some x; worker = update s.worker t idle; pushed = x ∷ s.pushed }

  abbrev pub take : Element A → ℕ → A → Element A
  take s t x = record s { value = none; worker = update s.worker t idle; popped = x ∷ s.popped }

  -- A turn of the loop of `do_push_atomic`: a load with SPSC, and else a `compare_exchange_weak` from NIL.
  abbrev pub push_turn : Bool → ℕ → A → Option A → Element A → Element A
  push_turn spsc t x none s = if spsc then set_worker s t (seen_nil x) else store s t x
  push_turn spsc t x (some y) s = s

  -- A turn of the loop of `do_pop_atomic`: a load with SPSC, and else an `exchange` with NIL.
  abbrev pub pop_turn : Bool → ℕ → Option A → Element A → Element A
  pop_turn spsc t none s = s
  pop_turn spsc t (some y) s = if spsc then set_worker s t (seen y) else take s t y

  -- The next access of a thread; the loads of the waiting loops change nothing.
  unfoldable pub access : Bool → ℕ → Worker A → Element A → Element A
  access spsc t idle s = s
  access spsc t (pushing x) s = push_turn spsc t x s.value s
  access spsc t (seen_nil x) s = store s t x
  access spsc t popping s = pop_turn spsc t s.value s
  access spsc t (seen x) s = take s t x

  -- With SPSC, thread 0 is the one that pushes and thread 1 the one that pops.
  pub data Step (spsc : Bool) (s : Element A) : Element A → Type 0 where
    push :
        (t : ℕ) (x : A)
        → s.worker t ≡ idle
        → (spsc ≡ true → t ≡ 0)
        → Step spsc s (set_worker s t (pushing x))
    pop : (t : ℕ) → s.worker t ≡ idle → (spsc ≡ true → t ≡ 1) → Step spsc s (set_worker s t popping)
    run : (t : ℕ) → Step spsc s (access spsc t (s.worker t) s)
    spurious : Step spsc s s

  abbrev pub start : Element A
  start = record { value = none; worker = λ t. idle; pushed = []; popped = [] }

  pub data Reach (spsc : Bool) : Element A → Type 0 where
    begin : Reach spsc start
    next : {s s' : Element A} → Reach spsc s → Step spsc s s' → Reach spsc s'

  abbrev pub held : Option A → List A
  held none = []
  held (some x) = x ∷ []
