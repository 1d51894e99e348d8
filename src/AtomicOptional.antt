-- ===== src/AtomicOptional.antt =====
-- godby/include/godby/AtomicOptional.h: an optional value in two atomics, which any number of threads load and
-- store, one access at a time. The value is of an arithmetic type, for which godby::Atomic is a std::atomic: for
-- other types a load and a store are several accesses, and are not modelled.
pub mod Loads
mod Tests
use godby.Prelude.{
  ℕ, ◌≡◌, Bool, true, false, Option, none, some, List, [], ◌∷◌, update, if◌then◌else◌,
}

-- The values of an arithmetic type, by their bits.
abbrev pub Arithmetic : Type 0
Arithmetic = ℕ

pub data Thread : Type 0 where
  idle : Thread
  checking : Thread  -- in `load`, before `M_has.load()`
  reading : Thread  -- before `M_value.load()`
  loaded : (result : Option Arithmetic) → Thread  -- `load` has returned
  storing : (val : Arithmetic) → Thread  -- in `store`, before `M_value.store(val)`
  marking : Thread  -- before `M_has.store(true)`
  emptying : Thread  -- in `store(std::nullopt)`, before `M_value.store(T{})`
  clearing : Thread  -- before `M_has.store(false)`

-- `M_value` and `M_has`, the threads, what has been stored, the latest first, where `store(std::nullopt)`
-- stores `T{}`, and whether the optional has been emptied or was created empty.
pub record AtomicOptional : Type 0 where
  pub value : Arithmetic
  pub has : Bool
  pub thread : ℕ → Thread
  pub stored : List Arithmetic
  pub emptied : Bool

-- Without a value `M_value` is what the default constructor leaves.
abbrev pub create : Arithmetic → AtomicOptional
create value = record {
  value = value;
  has = false;
  thread = λ t. idle;
  stored = [];
  emptied = true;
}

abbrev pub create_with : Arithmetic → AtomicOptional
create_with val = record {
  value = val;
  has = true;
  thread = λ t. idle;
  stored = val ∷ [];
  emptied = false;
}

abbrev pub set_thread : AtomicOptional → ℕ → Thread → AtomicOptional
set_thread s t p = record s { thread = update s.thread t p }

abbrev pub call_store : AtomicOptional → ℕ → Arithmetic → AtomicOptional
call_store s t val = record s { thread = update s.thread t (storing val); stored = val ∷ s.stored }

abbrev pub call_store_nullopt : Arithmetic → AtomicOptional → ℕ → AtomicOptional
call_store_nullopt default s t = record s {
  thread = update s.thread t emptying;
  stored = default ∷ s.stored;
  emptied = true;
}

-- The next access of a thread, where `default` is `T{}`.
unfoldable pub access : Arithmetic → ℕ → Thread → AtomicOptional → AtomicOptional
access default t idle s = s
access default t checking s = set_thread s t (if s.has then reading else loaded none)
access default t reading s = set_thread s t (loaded (some s.value))
access default t (loaded result) s = set_thread s t idle
access default t (storing val) s = record s { value = val; thread = update s.thread t marking }
access default t marking s = record s { has = true; thread = update s.thread t idle }
access default t emptying s = record s { value = default; thread = update s.thread t clearing }
access default t clearing s = record s { has = false; thread = update s.thread t idle }

pub data Step (default : Arithmetic) (s : AtomicOptional) : AtomicOptional → Type 0 where
  load : (t : ℕ) → s.thread t ≡ idle → Step default s (set_thread s t checking)
  store : (t : ℕ) (val : Arithmetic) → s.thread t ≡ idle → Step default s (call_store s t val)
  store_nullopt : (t : ℕ) → s.thread t ≡ idle → Step default s (call_store_nullopt default s t)
  run : (t : ℕ) → Step default s (access default t (s.thread t) s)

pub data Reach (default : Arithmetic) : AtomicOptional → Type 0 where
  empty : (value : Arithmetic) → Reach default (create value)
  full : (val : Arithmetic) → Reach default (create_with val)
  next : {s s' : AtomicOptional} → Reach default s → Step default s s' → Reach default s'
